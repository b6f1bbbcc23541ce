-- ===== src/Server/Listen/Balance.antt =====
-- Runs of the accept loop: the order of what happens, and how evenly connections are shared out.
use lundicpp.Base.{
  ℕ, zero, suc, ◌≤◌, ◌<◌, ◌≡◌, refl, sym, ap, ◌∙◌, List, [], ◌∷◌, false, Option, none, some,
  get_elem?, replicate, arith,
}
use mathlib.Core.Path.{subst}
use lundicpp.Base.Find.{All}
use lundicpp.Server.Workers.{IsFirstLeast}
use lundicpp.Server.Listen.{
  Listening, choose, store_count, fetch_add, start_listening, Event, accepted, signalled, failed,
  ended, on_accepted, on_ended, happens,
}
use lundicpp.Server.Listen.Counts.{
  IsExact, CanHappen, can_accept, store_count_here, happens-IsExact, start_listening-IsExact,
  choose-IsFirstLeast,
}

-- What happens one after the other.
pub data Steps : Listening → List Event → Listening → Type 0 where
  at_end : {s : Listening} → Steps s [] s
  then_goes :
      {s s' t : Listening} {event : Event} {events : List Event}
      → CanHappen s event
      → happens event s ≡ some s'
      → Steps s' events t
      → Steps s (event ∷ events) t

-- No connection is accepted.
abbrev pub NoAccept : List Event → Type 0
NoAccept [] = Unit
NoAccept (accepted ∷ events) = ⊥
NoAccept (signalled ∷ events) = NoAccept events
NoAccept (failed ∷ events) = NoAccept events
NoAccept (ended i ∷ events) = NoAccept events

-- None is accepted behind a signal or a failure.
abbrev pub IsOrdered : List Event → Type 0
IsOrdered [] = Unit
IsOrdered (accepted ∷ events) = IsOrdered events
IsOrdered (signalled ∷ events) = NoAccept events × IsOrdered events
IsOrdered (failed ∷ events) = NoAccept events × IsOrdered events
IsOrdered (ended i ∷ events) = IsOrdered events

Steps-IsExact : (s t : Listening) (events : List Event) → Steps s events t → IsExact s → IsExact t
Steps-IsExact s t [] at_end h = h
Steps-IsExact s t (event ∷ events) (then_goes {s' = s'} can e later) h =
    let (s1, e1, h1) = happens-IsExact event s h can in
    let same : s1 ≡ s' = cc in Steps-IsExact s' t events later (subst IsExact same h1)

just : (t s' : Listening) → some t ≡ some s' → t.accepting ≡ s'.accepting
just t s' e = let same : t ≡ s' = cc in ap (λ (x : Listening). x.accepting) same

on_ended-accepting :
    (i : ℕ) (s s' : Listening) (o : Option (List ℕ))
    → on_ended i s o ≡ some s'
    → s.accepting ≡ s'.accepting
unfolding on_ended
on_ended-accepting i s s' none e = absurd (cc)
on_ended-accepting i s s' (some counts) e = just _ s' e

Steps-NoAccept :
    (s t : Listening) (events : List Event)
    → s.accepting ≡ false
    → Steps s events t
    → NoAccept events
unfolding happens
Steps-NoAccept s t [] off at_end = tt
Steps-NoAccept s t (accepted ∷ events) off (then_goes (can_accept on) e later) = cc
Steps-NoAccept s t (signalled ∷ events) off (then_goes {s' = s'} can e later) =
    Steps-NoAccept s' t events (sym (just _ s' e)) later
Steps-NoAccept s t (failed ∷ events) off (then_goes {s' = s'} can e later) =
    Steps-NoAccept s' t events (sym (just _ s' e)) later
Steps-NoAccept s t (ended i ∷ events) off (then_goes {s' = s'} can e later) =
    Steps-NoAccept s' t events (sym (on_ended-accepting i s s' _ e) ∙ off) later

Steps-IsOrdered : (s t : Listening) (events : List Event) → Steps s events t → IsOrdered events
unfolding happens
Steps-IsOrdered s t [] at_end = tt
Steps-IsOrdered s t (accepted ∷ events) (then_goes {s' = s'} can e later) =
    Steps-IsOrdered s' t events later
Steps-IsOrdered s t (signalled ∷ events) (then_goes {s' = s'} can e later) =
    (Steps-NoAccept s' t events (sym (just _ s' e)) later, Steps-IsOrdered s' t events later)
Steps-IsOrdered s t (failed ∷ events) (then_goes {s' = s'} can e later) =
    (Steps-NoAccept s' t events (sym (just _ s' e)) later, Steps-IsOrdered s' t events later)
Steps-IsOrdered s t (ended i ∷ events) (then_goes {s' = s'} can e later) =
    Steps-IsOrdered s' t events later

-- However many workers there are, and in whatever order connections come and end, a signal comes and the
-- acceptor fails: each counter is the number of the open connections of its worker, and no
-- connection is accepted behind a signal or a failure of the acceptor.
pub start_listening-Steps :
    (workers : ℕ) (events : List Event) (t : Listening)
    → 0 < workers
    → Steps (start_listening workers) events t
    → IsExact t × IsOrdered events
start_listening-Steps workers events t h steps = (
  Steps-IsExact (start_listening workers) t events steps (start_listening-IsExact workers h),
  Steps-IsOrdered (start_listening workers) t events steps,
)

-- All counts are `m` or one more, and the chosen worker has the least.
abbrev IsEven : Listening → Type 0
IsEven s =
    (m : ℕ) × All (λ c. (m ≤ c) × (c ≤ suc m)) s.conn_counts
    × ((v : ℕ) × IsFirstLeast s.conn_counts s.best v)

All-store_count :
    (P : ℕ → Type 0) (i v : ℕ) (counts : List ℕ)
    → All P counts
    → P v
    → All P (store_count i v counts)
All-store_count P i v [] h p = tt
All-store_count P zero v (c ∷ counts) (q, h) p = (p, h)
All-store_count P (suc i) v (c ∷ counts) (q, h) p = (q, All-store_count P i v counts h p)

All-get_elem? :
    (P : ℕ → Type 0) (i v : ℕ) (counts : List ℕ) → All P counts → get_elem? counts i ≡ some v → P v
All-get_elem? P i v [] h e = absurd (cc)
All-get_elem? P zero v (c ∷ counts) (q, h) e = let same : c ≡ v = cc in subst P same q
All-get_elem? P (suc i) v (c ∷ counts) (q, h) e = All-get_elem? P i v counts h e

All-both :
    (P Q R : ℕ → Type 0) (counts : List ℕ)
    → ((c : ℕ) → P c → Q c → R c)
    → All P counts
    → All Q counts
    → All R counts
All-both P Q R [] f p q = tt
All-both P Q R (c ∷ counts) f (p, ps) (q, qs) = (f c p q, All-both P Q R counts f ps qs)

accepted-IsEven : (s s' : Listening) → IsEven s → happens accepted s ≡ some s' → IsEven s'
unfolding happens fetch_add on_accepted
accepted-IsEven s s' (m, near, (v, least)) e =
    let low : m ≤ v =
      (All-get_elem? (λ c. (m ≤ c) × (c ≤ suc m)) s.best v s.conn_counts near least.there).0 in
    let counts = store_count s.best (suc v) s.conn_counts in
    let close : All (λ c. (v ≤ c) × (c ≤ suc v)) s.conn_counts =
      All-both (λ c. (m ≤ c) × (c ≤ suc m)) (λ c. v ≤ c) (λ c. (v ≤ c) × (c ≤ suc v)) s.conn_counts
        (λ c p q. (q, omega (arith, p.1, low))) near least.least in
    let t : Listening = record s {
      conn_counts = counts;
      best = choose counts;
      open_connections = s.best ∷ s.open_connections;
    } in
    let goes_to : happens accepted s ≡ some t =
      ap
        (λ o.
          on_accepted s
            (elim o [ none ↦ none | some c ↦ some (store_count s.best (suc c) s.conn_counts) ]))
        least.there in
    let same : t ≡ s' = cc in
    subst IsEven same (
      v,
      All-store_count (λ c. (v ≤ c) × (c ≤ suc v)) s.best (suc v) s.conn_counts close
          (omega arith, omega arith),
      choose-IsFirstLeast s.best (suc v) counts
          (store_count_here s.best (suc v) v s.conn_counts least.there),
    )

Steps-IsEven : (s t : Listening) (k : ℕ) → Steps s (replicate k accepted) t → IsEven s → IsEven t
Steps-IsEven s t zero at_end h = h
Steps-IsEven s t (suc k) (then_goes {s' = s'} can e later) h =
    Steps-IsEven s' t k later (accepted-IsEven s s' h e)

start_listening-IsEven : (workers : ℕ) → 0 < workers → IsEven (start_listening workers)
unfolding start_listening
start_listening-IsEven zero h = absurd (omega arith)
start_listening-IsEven (suc n) h =
    (0, zeros (suc n), choose-IsFirstLeast 0 0 (replicate (suc n) 0) refl)
  where
    zeros : (n : ℕ) → All (λ c. (0 ≤ c) × (c ≤ 1)) (replicate n 0)
    zeros zero = tt
    zeros (suc n) = ((omega arith, omega arith), zeros n)

-- As long as connections come and none ends, no worker has two more of them than another.
pub start_listening-even :
    (workers k : ℕ) (t : Listening)
    → 0 < workers
    → Steps (start_listening workers) (replicate k accepted) t
    → (m : ℕ) × All (λ c. (m ≤ c) × (c ≤ suc m)) t.conn_counts
start_listening-even workers k t h steps =
    let (m, near, _) =
      Steps-IsEven (start_listening workers) t k steps (start_listening-IsEven workers h) in
    (m, near)
