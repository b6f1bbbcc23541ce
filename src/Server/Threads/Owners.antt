-- ===== src/Server/Threads/Owners.antt =====
-- What holds of the threads and contexts of `listen` at every moment.
use lundicpp.Base.{
  ℕ, ◌<◌, ◌≡◌, ◌≢◌, refl, sym, ap, ◌∙◌, ◌⊎◌, inl, inr, List, [], ◌∷◌, ◌++◌, Bool, true, false, none,
  some, arith, length, get_elem?, set, length-append, length-set, get_elem?-set_self,
  get_elem?-set_ne, get_elem?-snoc_cases, get_elem?-lt,
}
use native.Mathlib.Decide.{ℕ_discrete}
use lundicpp.Server.Threads.{
  ThreadState, running, finished, JoiningThread, Context, at_work, at_rest, Phase, starting,
  serving, leaving, terminated, ListenCall, start_call, emplace, on_signal, unwind, IsRun,
  may_run_return,
}
use lundicpp.Server.Threads.Changes.{
  IsJoined, vacant, ended, has_ended, Change, emplacing, serving_now, signalling, logging,
  unwinding, leaving_now, joining, ending, run_returning, terminating,
}

-- A handle of the pool stands for the thread.
abbrev pub Owns : ℕ → List JoiningThread → Type 0
Owns i [] = ⊥
Owns i (handle ∷ pool) = (handle ≡ some i) ⊎ Owns i pool

Owns-snoc :
    (i : ℕ) (handle : JoiningThread) (pool : List JoiningThread)
    → Owns i pool
    → Owns i (pool ++ handle ∷ [])
Owns-snoc i handle [] h = elim h [ ]
Owns-snoc i handle (x ∷ pool) (inl e) = inl e
Owns-snoc i handle (x ∷ pool) (inr h) = inr (Owns-snoc i handle pool h)

Owns-last : (i : ℕ) (pool : List JoiningThread) → Owns i (pool ++ some i ∷ [])
Owns-last i [] = inl refl
Owns-last i (x ∷ pool) = inr (Owns-last i pool)

Owns-snoc_cases :
    (i : ℕ) (handle : JoiningThread) (pool : List JoiningThread)
    → Owns i (pool ++ handle ∷ [])
    → Owns i pool ⊎ (handle ≡ some i)
Owns-snoc_cases i handle [] (inl e) = inr e
Owns-snoc_cases i handle [] (inr h) = elim h [ ]
Owns-snoc_cases i handle (x ∷ pool) (inl e) = inl (inl e)
Owns-snoc_cases i handle (x ∷ pool) (inr h) = elim (Owns-snoc_cases i handle pool h) [
  | inl old ↦ inl (inr old)
  | inr e ↦ inr e
]

-- Every thread that runs has a handle in the pool, and every handle a thread; the pool is empty at
-- the end.
pub record IsOwned (s : ListenCall) : Type 0 where
  pub owned : (i : ℕ) → get_elem? s.threads i ≡ some running → Owns i s.pool
  pub inside : (i : ℕ) → Owns i s.pool → i < length s.threads
  pub made : s.phase ≡ starting → length s.threads ≡ length s.pool
  pub emptied : has_ended s.phase ≡ true → s.pool ≡ []

-- The phase changes to one that is neither the first nor an end.
moved-IsOwned :
    (s t : ListenCall)
    → t.threads ≡ s.threads
    → t.pool ≡ s.pool
    → t.phase ≢ starting
    → has_ended t.phase ≡ false
    → IsOwned s
    → IsOwned t
moved-IsOwned s t same_threads same_pool later going h = record {
  owned = λ i e. rw same_pool (h.owned i (sym (ap (λ x. get_elem? x i) same_threads) ∙ e));
  inside = λ i o. rw same_threads (h.inside i (rw same_pool at o));
  made = λ e. absurd (later e);
  emptied = λ e. absurd (cc);
}

not_yet : (p : Phase) → p ≡ starting → ¬ (has_ended p ≡ true)
not_yet p e h = let no : true ≡ false = sym h ∙ ap has_ended e in cc

emplace-IsOwned : (s : ListenCall) → IsOwned s → s.phase ≡ starting → IsOwned (emplace s)
unfolding emplace lundicpp.Server.Threads.start_thread
emplace-IsOwned s h p = record {
  owned = λ i e. elim (get_elem?-snoc_cases s.threads running i e) [
    | inl old ↦ Owns-snoc i _ s.pool (h.owned i old)
    | inr (at, _) ↦ rw at (Owns-last (length s.threads) s.pool)
  ];
  inside = λ i o. elim (Owns-snoc_cases i (some (length s.threads)) s.pool o) [
    | inl old ↦ omega (arith, h.inside i old, length-append s.threads (running ∷ []))
    | inr e ↦
        let same : length s.threads ≡ i = cc in
        omega (arith, same, length-append s.threads (running ∷ []))
  ];
  made = λ e. omega (
    arith,
    h.made p,
    length-append s.threads (running ∷ []),
    length-append s.pool (some (length s.threads) ∷ []),
  );
  emptied = λ e. absurd (not_yet s.phase p e);
}

-- A thread that has finished needs no handle.
returned-IsOwned :
    (s : ListenCall) (i : ℕ)
    → get_elem? s.threads i ≡ some running
    → IsOwned s
    → IsOwned (record s { threads = set s.threads i finished })
returned-IsOwned s i runs h = record {
  owned = λ j e. elim (ℕ_discrete i j) [
    | yes at ↦
        let here = get_elem?-set_self s.threads i finished (get_elem?-lt s.threads i runs) in
        let no : some finished ≡ some running =
          sym here ∙ (ap (get_elem? (set s.threads i finished)) at ∙ e) in
        absurd (cc)
    | no off ↦ h.owned j (sym (get_elem?-set_ne s.threads finished off) ∙ e)
  ];
  inside = λ j o. omega (arith, h.inside j o, length-set s.threads i finished);
  made = λ e. length-set s.threads i finished ∙ h.made e;
  emptied = h.emptied;
}

pub joined_not_running :
    (threads : List ThreadState) (handle : JoiningThread) (i : ℕ)
    → IsJoined threads handle
    → handle ≡ some i
    → get_elem? threads i ≢ some running
joined_not_running threads none i vacant e runs = absurd (cc)
joined_not_running threads (some j) i (ended state) e runs =
    let same : j ≡ i = cc in
    let no : some finished ≡ some running = sym state ∙ (ap (get_elem? threads) same ∙ runs) in
    absurd (cc)

joined-IsOwned :
    (s : ListenCall) (handle : JoiningThread) (pool : List JoiningThread)
    → s.phase ≡ leaving
    → s.pool ≡ handle ∷ pool
    → IsJoined s.threads handle
    → IsOwned s
    → IsOwned (record s { pool = pool })
joined-IsOwned s handle pool p at j h = record {
  owned = λ i runs. elim (rw at at (h.owned i runs)) [
    | inl e ↦ absurd (joined_not_running s.threads handle i j e runs)
    | inr o ↦ o
  ];
  inside = λ i o. h.inside i (rw at (inr o));
  made = λ e. absurd (cc);
  emptied = λ e. let no : false ≡ true = sym (ap has_ended p) ∙ e in absurd (cc);
}

module _ (may_return : ℕ → Context → Bool) where
  pub Change-IsOwned : (s t : ListenCall) → Change may_return s t → IsOwned s → IsOwned t
  unfolding on_signal
  Change-IsOwned s t (emplacing p lt) h = emplace-IsOwned s h p
  Change-IsOwned s t (serving_now p le) h = moved-IsOwned s t refl refl (λ e. cc) refl h
  Change-IsOwned s t (signalling p o) h = record {
    owned = h.owned;
    inside = h.inside;
    made = h.made;
    emptied = h.emptied;
  }
  Change-IsOwned s t (logging cerr) h = record {
    owned = h.owned;
    inside = h.inside;
    made = h.made;
    emptied = h.emptied;
  }
  Change-IsOwned s t (unwinding e cerr p) h = moved-IsOwned s t refl refl (λ e. cc) refl h
  Change-IsOwned s t (leaving_now pending p may) h = moved-IsOwned s t refl refl (λ e. cc) refl h
  Change-IsOwned s t (joining {handle = handle} {pool = pool} p at j) h =
      joined-IsOwned s handle pool p at j h
  Change-IsOwned s t (ending p at end) h = record {
    owned = h.owned;
    inside = h.inside;
    made = λ e. absurd (not_yet _ e end);
    emptied = λ e. at;
  }
  Change-IsOwned s t (run_returning pending i p may runs) h = returned-IsOwned s i runs h
  Change-IsOwned s t (terminating p) h = moved-IsOwned s t refl refl (λ e. cc) refl h

pub start_call-IsOwned : (workers : ℕ) → IsOwned (start_call workers)
unfolding start_call
start_call-IsOwned workers = record {
  owned = λ i e. absurd (cc);
  inside = λ i o. elim o [ ];
  made = λ e. refl;
  emptied = λ e. refl;
}
