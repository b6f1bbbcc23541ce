-- ===== src/Server/Threads/Shutdown.antt =====
-- A call of `listen` that a signal has stopped can always come to its end.
use lundicpp.Base.{
  ℕ, zero, suc, ◌≤◌, ◌≡◌, ◌≢◌, ◌⊎◌, refl, sym, ap, ◌∙◌, inl, inr, List, [], ◌∷◌, Bool, true, false,
  Option, none, some, arith, length, Bool-cases,
}
use lundicpp.Server.Threads.{
  Context, at_work, at_rest, terminated, ListenCall, start_call, Move, IsRun, run,
}
use lundicpp.Server.Threads.Changes.{has_ended, step-Change}
use lundicpp.Server.Threads.Owners.{IsOwned, Change-IsOwned, start_call-IsOwned}
use lundicpp.Server.Threads.Contexts.{IsSteady, Change-IsSteady, start_call-IsSteady}
use lundicpp.Server.Threads.Joined.{run_cases, run-IsOwned}
use lundicpp.Server.Threads.Progress.{IsClosing, Progress, closing-Progress, remaining}

module _ (may_return : ℕ → Context → Bool) (law : IsRun may_return) where
  pub run-IsSteady :
      (moves : List Move) (s t : ListenCall)
      → run may_return moves s ≡ some t
      → IsOwned s
      → IsSteady s
      → IsSteady t
  unfolding run
  run-IsSteady [] s t e o h = let same : s ≡ t = cc in rw (← same) h
  run-IsSteady (m ∷ moves) s t e o h =
      let (u, first, later) = run_cases may_return m moves s t e in
      let change = step-Change may_return m s u first in
      run-IsSteady moves u t later (Change-IsOwned may_return s u change o)
        (Change-IsSteady may_return law s u change o h)

  -- What is to be reached from a state, in no more steps than are left.
  pub record Ends (s : ListenCall) : Type 0 where
    pub moves : List Move
    pub end : ListenCall
    pub made : run may_return moves s ≡ some end
    pub ended : has_ended end.phase ≡ true
    pub few : length moves ≤ remaining s

  then_Ends : (s : ListenCall) (n : Progress may_return law s) → Ends n.next → Ends s
  unfolding run
  then_Ends s n r = record {
    moves = n.move ∷ r.moves;
    end = r.end;
    made =
        ap (λ (o : Option ListenCall). elim o [ none ↦ none | some u ↦ run may_return r.moves u ])
          n.made
        ∙ r.made;
    ended = r.ended;
    few = omega (arith, n.fewer, r.few);
  }

  next-IsClosing :
      (s : ListenCall) → IsClosing s → (n : Progress may_return law s) → IsClosing n.next
  next-IsClosing s h n =
      let change = step-Change may_return n.move s n.next n.made in
      record {
        owned = Change-IsOwned may_return s n.next change h.owned;
        steady = Change-IsSteady may_return law s n.next change h.owned h.steady;
        rest = n.rest;
        alive = n.alive;
      }

  over-Ends : (s : ListenCall) → has_ended s.phase ≡ true → Ends s
  unfolding run
  over-Ends s over = record { moves = []; end = s; made = refl; ended = over; few = omega arith }

  closing-Ends : (fuel : ℕ) (s : ListenCall) → remaining s ≤ fuel → IsClosing s → Ends s
  closing-Ends zero s le h = elim (Bool-cases (has_ended s.phase)) [
    | inl over ↦ over-Ends s over
    | inr going ↦ absurd (omega (arith, (closing-Progress may_return law s h going).fewer))
  ]
  closing-Ends (suc fuel) s le h = elim (Bool-cases (has_ended s.phase)) [
    | inl over ↦ over-Ends s over
    | inr going ↦
        let n = closing-Progress may_return law s h going in
        then_Ends s n (closing-Ends fuel n.next (omega (arith, n.fewer)) (next-IsClosing s h n))
  ]

  at_rest_when :
      (ctx : Context) → (ctx ≡ at_work) ⊎ (ctx ≡ at_rest) → ctx.stopped ≡ true → ctx ≡ at_rest
  at_rest_when ctx (inl work) e =
      let no : false ≡ true = sym (ap (λ (c : Context). c.stopped) work) ∙ e in absurd (cc)
  at_rest_when ctx (inr rest) e = rest

  -- Where the program was not ended by an exception in a worker, a call of `listen` that a signal has
  -- stopped can come to its end from wherever it has got to, in no more steps than there are phases,
  -- handles in the pool and threads that run, if asio lets a stopped context return.
  pub run-Ends :
      (workers : ℕ) (moves : List Move) (s : ListenCall)
      → run may_return moves (start_call workers) ≡ some s
      → s.main_ctx.stopped ≡ true
      → s.phase ≢ terminated
      → Ends s
  run-Ends workers moves s e stopped alive =
      let owned = start_call-IsOwned workers in
      let steady =
        run-IsSteady moves (start_call workers) s e owned (start_call-IsSteady workers) in
      closing-Ends (remaining s) s (omega arith) (record {
        owned = run-IsOwned may_return moves (start_call workers) s e owned;
        steady = steady;
        rest = at_rest_when s.main_ctx steady.known stopped;
        alive = alive;
      })
