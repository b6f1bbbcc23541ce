-- ===== src/Server/Listen/Counts.antt =====
-- Each counter is the number of the open connections of its worker.
use lundicpp.Base.{
  ℕ, zero, suc, ◌<◌, ◌≡◌, ◌≢◌, refl, sym, ap, ◌∙◌, List, [], ◌∷◌, true, false, none, some, ◌==◌,
  if◌then◌else◌, get_elem?, replicate, arith, inl, inr, Bool-cases,
}
use lundicpp.Server.Workers.{IsFirstLeast, least_loaded-IsFirstLeast}
use lundicpp.Server.Listen.{
  Listening, choose, store_count, fetch_add, fetch_sub, start_listening, Event, accepted, signalled,
  failed, ended, without_one, on_accepted, on_ended, happens,
}

-- The connections of a worker.
abbrev pub occurrences : ℕ → List ℕ → ℕ
occurrences i [] = 0
occurrences i (j ∷ connections) =
    let others = occurrences i connections in if j == i then suc others else others

pub store_count_here :
    (i v c : ℕ) (counts : List ℕ)
    → get_elem? counts i ≡ some c
    → get_elem? (store_count i v counts) i ≡ some v
store_count_here i v c [] e = absurd (cc)
store_count_here zero v c (x ∷ counts) e = refl
store_count_here (suc i) v c (x ∷ counts) e = store_count_here i v c counts e

store_count_away :
    (i j v : ℕ) (counts : List ℕ)
    → j ≢ i
    → get_elem? (store_count i v counts) j ≡ get_elem? counts j
store_count_away i j v [] h = refl
store_count_away zero zero v (x ∷ counts) h = absurd (h refl)
store_count_away zero (suc j) v (x ∷ counts) h = refl
store_count_away (suc i) zero v (x ∷ counts) h = refl
store_count_away (suc i) (suc j) v (x ∷ counts) h =
    store_count_away i j v counts (λ e. h (ap suc e))

still_there :
    (i j v c : ℕ) (counts : List ℕ)
    → get_elem? counts i ≡ some c
    → (d : ℕ) × (get_elem? counts j ≡ some d)
    → (d : ℕ) × (get_elem? (store_count i v counts) j ≡ some d)
still_there i j v c counts there (d, e) = elim (Bool-cases (j == i)) [
  | inl hit ↦
      let at : j ≡ i = ground (arith, hit) in
      (v, ap (get_elem? (store_count i v counts)) at ∙ store_count_here i v c counts there)
  | inr miss ↦ (d, store_count_away i j v counts (λ at. ground (arith, at, miss)) ∙ e)
]

-- The chosen worker exists.
pub choose-IsFirstLeast :
    (i c : ℕ) (counts : List ℕ)
    → get_elem? counts i ≡ some c
    → (v : ℕ) × IsFirstLeast counts (choose counts) v
unfolding choose
choose-IsFirstLeast i c [] e = absurd (cc)
choose-IsFirstLeast i c (first ∷ counts) e = least_loaded-IsFirstLeast first counts

without_here :
    (i : ℕ) (connections : List ℕ)
    → 0 < occurrences i connections
    → occurrences i connections ≡ suc (occurrences i (without_one i connections))
without_here i [] h = absurd (omega arith)
without_here i (k ∷ connections) h = elim (Bool-cases (k == i)) [
  | inl e ↦ rw e refl
  | inr e ↦ ground (arith, e, h, without_here i connections)
]

without_away :
    (i j : ℕ) (connections : List ℕ)
    → j ≢ i
    → occurrences j (without_one i connections) ≡ occurrences j connections
without_away i j [] h = refl
without_away i j (k ∷ connections) h = elim (Bool-cases (k == i)) [
  | inl e ↦ ground (arith, e, h)
  | inr e ↦ ground (arith, e, h, without_away i j connections)
]

-- Each counter is the number of the open connections of its worker, a connection is of a worker
-- that exists, and so is the one that was chosen.
pub record IsExact (s : Listening) : Type 0 where
  pub exact : (i c : ℕ) → get_elem? s.conn_counts i ≡ some c → c ≡ occurrences i s.open_connections
  pub counted :
      (i : ℕ)
      → 0 < occurrences i s.open_connections
      → (c : ℕ) × (get_elem? s.conn_counts i ≡ some c)
  pub chosen : (c : ℕ) × (get_elem? s.conn_counts s.best ≡ some c)

-- A connection comes only to an open acceptor, and what ends was open.
pub data CanHappen (s : Listening) : Event → Type 0 where
  can_accept : s.accepting ≡ true → CanHappen s accepted
  can_end : {i : ℕ} → 0 < occurrences i s.open_connections → CanHappen s (ended i)
  can_signal : s.shutting_down ≡ false → CanHappen s signalled
  can_fail : s.accepting ≡ true → CanHappen s failed

accepted-IsExact :
    (s : Listening) → IsExact s → (t : Listening) × (happens accepted s ≡ some t) × IsExact t
unfolding happens fetch_add on_accepted
accepted-IsExact s h =
    let (c, there) = h.chosen in
    let counts = store_count s.best (suc c) s.conn_counts in
    let here : get_elem? counts s.best ≡ some (suc c) =
      store_count_here s.best (suc c) c s.conn_counts there in
    let t : Listening = record s {
      conn_counts = counts;
      best = choose counts;
      open_connections = s.best ∷ s.open_connections;
    } in
    (
      t,
      ap
          (λ o.
            on_accepted s
              (elim o [ none ↦ none | some c ↦ some (store_count s.best (suc c) s.conn_counts) ]))
          there,
      record {
        exact = λ i d e. elim (Bool-cases (s.best == i)) [
          | inl hit ↦
              let at : s.best ≡ i = ground (arith, hit) in
              let old = h.exact i c (ap (get_elem? s.conn_counts) (sym at) ∙ there) in
              let new : some (suc c) ≡ some d = sym here ∙ (ap (get_elem? counts) at ∙ e) in
              rw hit (ground (arith, old, new))
          | inr miss ↦
              let off : i ≢ s.best = λ at. ground (arith, at, miss) in
              rw miss (h.exact i d (sym (store_count_away s.best i (suc c) s.conn_counts off) ∙ e))
        ];
        counted = λ i some_open. elim (Bool-cases (s.best == i)) [
          | inl hit ↦
              let at : s.best ≡ i = ground (arith, hit) in
              (suc c, ap (get_elem? counts) (sym at) ∙ here)
          | inr miss ↦
              let off : i ≢ s.best = λ at. ground (arith, at, miss) in
              let (d, e) = h.counted i (ground (arith, miss, some_open)) in
              (d, store_count_away s.best i (suc c) s.conn_counts off ∙ e)
        ];
        chosen =
            let (v, least) = choose-IsFirstLeast s.best (suc c) counts here in (v, least.there);
      },
    )

ended-IsExact :
    (i : ℕ) (s : Listening)
    → 0 < occurrences i s.open_connections
    → IsExact s
    → (t : Listening) × (happens (ended i) s ≡ some t) × IsExact t
unfolding happens fetch_sub on_ended
ended-IsExact i s some_open h =
    let (c, there) = h.counted i some_open in
    let old = h.exact i c there in
    let less = without_here i s.open_connections some_open in go c there (old ∙ less)
  where
    go :
        (c : ℕ)
        → get_elem? s.conn_counts i ≡ some c
        → c ≡ suc (occurrences i (without_one i s.open_connections))
        → (t : Listening) × (on_ended i s (elim (get_elem? s.conn_counts i) [
          | none ↦ none
          | some c ↦ elim c [ zero ↦ none | suc c ↦ some (store_count i c s.conn_counts) ]
        ])
            ≡ some t)
          × IsExact t
    go zero there e = absurd (omega (arith, e))
    go (suc c) there e =
        let counts = store_count i c s.conn_counts in
        let here : get_elem? counts i ≡ some c = store_count_here i c (suc c) s.conn_counts there in
        (
          record s { conn_counts = counts; open_connections = without_one i s.open_connections },
          ap
              (λ o. on_ended i s (elim o [
                | none ↦ none
                | some c ↦ elim c [ zero ↦ none | suc c ↦ some (store_count i c s.conn_counts) ]
              ]))
              there,
          record {
            exact = λ j d e'. elim (Bool-cases (j == i)) [
              | inl hit ↦
                  let at : j ≡ i = ground (arith, hit) in
                  let new : some c ≡ some d = sym here ∙ (ap (get_elem? counts) (sym at) ∙ e') in
                  let same = ap (λ k. occurrences k (without_one i s.open_connections)) at in
                  ground (arith, new, same, e)
              | inr miss ↦
                  let off : j ≢ i = λ at. ground (arith, at, miss) in
                  h.exact j d (sym (store_count_away i j c s.conn_counts off) ∙ e')
                  ∙ sym (without_away i j s.open_connections off)
            ];
            counted = λ j some_left. elim (Bool-cases (j == i)) [
              | inl hit ↦
                  still_there i j c (suc c) s.conn_counts there
                    (suc c, ap (get_elem? s.conn_counts) (ground (arith, hit)) ∙ there)
              | inr miss ↦
                  let off : j ≢ i = λ at. ground (arith, at, miss) in
                  still_there i j c (suc c) s.conn_counts there
                    (h.counted j (rw (without_away i j s.open_connections off) at some_left))
            ];
            chosen = still_there i s.best c (suc c) s.conn_counts there h.chosen;
          },
        )

-- Whatever happens, and in whatever order connections come and end, a signal comes and the acceptor fails,
-- no index is outside the vectors and no count falls below 0: each counter is the number of the
-- open connections of its worker.
pub happens-IsExact :
    (event : Event) (s : Listening)
    → IsExact s
    → CanHappen s event
    → (t : Listening) × (happens event s ≡ some t) × IsExact t
unfolding happens
happens-IsExact accepted s h (can_accept open_acceptor) = accepted-IsExact s h
happens-IsExact (ended i) s h (can_end some_open) = ended-IsExact i s some_open h
happens-IsExact signalled s h (can_signal first) =
    (_, refl, record { exact = h.exact; counted = h.counted; chosen = h.chosen })
happens-IsExact failed s h (can_fail open_acceptor) =
    (_, refl, record { exact = h.exact; counted = h.counted; chosen = h.chosen })

pub start_listening-IsExact : (workers : ℕ) → 0 < workers → IsExact (start_listening workers)
unfolding start_listening
start_listening-IsExact zero h = absurd (omega arith)
start_listening-IsExact (suc n) h = record {
  exact = λ i c e. zeros (suc n) i c e;
  counted = λ i lt. absurd (omega arith);
  chosen = let (v, least) = choose-IsFirstLeast 0 0 (replicate (suc n) 0) refl in (v, least.there);
}
  where
    zeros : (n i c : ℕ) → get_elem? (replicate n 0) i ≡ some c → c ≡ 0
    zeros zero i c e = absurd (cc)
    zeros (suc n) zero c e = cc
    zeros (suc n) (suc i) c e = zeros n i c e
