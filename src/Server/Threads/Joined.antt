-- ===== src/Server/Threads/Joined.antt =====
-- Nothing that `listen` started is still there when it has ended.
use lundicpp.Base.{
  ℕ, suc, ◌≡◌, ◌≢◌, refl, ap, List, [], ◌∷◌, Bool, true, Option, none, some, length, get_elem?,
  replicate,
}
use lundicpp.Server.Threads.{
  ThreadState, running, finished, Context, ListenCall, start_call, Move, step, run,
}
use lundicpp.Server.Threads.Changes.{has_ended, step-Change}
use lundicpp.Server.Threads.Owners.{IsOwned, Change-IsOwned, start_call-IsOwned}

module _ (may_return : ℕ → Context → Bool) where
  -- A first step and the others.
  pub run_cases :
      (m : Move) (ms : List Move) (s t : ListenCall)
      → run may_return (m ∷ ms) s ≡ some t
      → (u : ListenCall) × (step may_return m s ≡ some u) × (run may_return ms u ≡ some t)
  unfolding run
  run_cases m ms s t = go (step may_return m s) refl
    where
      go :
          (o : Option ListenCall)
          → step may_return m s ≡ o
          → elim o [ none ↦ none | some u ↦ run may_return ms u ] ≡ some t
          → (u : ListenCall) × (step may_return m s ≡ some u) × (run may_return ms u ≡ some t)
      go none e h = absurd (cc)
      go (some u) e h = (u, e, h)

  pub run-IsOwned :
      (moves : List Move) (s t : ListenCall)
      → run may_return moves s ≡ some t
      → IsOwned s
      → IsOwned t
  unfolding run
  run-IsOwned [] s t e h = let same : s ≡ t = cc in rw (← same) h
  run-IsOwned (m ∷ moves) s t e h =
      let (u, first, later) = run_cases m moves s t e in
      run-IsOwned moves u t later
        (Change-IsOwned may_return s u (step-Change may_return m s u first) h)

  all_finished :
      (threads : List ThreadState)
      → ((i : ℕ) → get_elem? threads i ≢ some running)
      → threads ≡ replicate (length threads) finished
  all_finished [] h = refl
  all_finished (running ∷ threads) h = absurd (h 0 refl)
  all_finished (finished ∷ threads) h = ap (◌∷◌ finished) (all_finished threads (λ i. h (suc i)))

  -- When a call of `listen` has ended, by returning or by an exception, every thread that it started has
  -- finished, whatever happened before and whatever lets `run` return.
  pub run-joined :
      (workers : ℕ) (moves : List Move) (s : ListenCall)
      → run may_return moves (start_call workers) ≡ some s
      → has_ended s.phase ≡ true
      → s.threads ≡ replicate (length s.threads) finished
  run-joined workers moves s e end =
      let h = run-IsOwned moves (start_call workers) s e (start_call-IsOwned workers) in
      all_finished s.threads (λ i runs. elim (rw (h.emptied end) at (h.owned i runs)) [ ])
