-- ===== src/Server/Threads/Progress.antt =====
-- The step of a stopped `listen` that comes next, in each phase.
use mathlib.Core.Bool.{Bool-discrete}
use lundicpp.Base.{
  ℕ, zero, suc, ◌+◌, ◌<◌, ◌≡◌, ◌≢◌, refl, sym, ap, ◌∙◌, inl, List, [], ◌∷◌, Bool, true, false,
  Option, none, some, arith, length, get_elem?, set, get_elem?-within, get_elem?-lt, only_if-holds,
}
use lundicpp.Server.Threads.{
  ThreadState, running, finished, JoiningThread, join, Context, at_work, at_rest, Exception,
  std_exception, other_exception, Phase, starting, serving, leaving, done, escaped, terminated,
  Phase-discrete, is_over, ListenCall, start_call, main_returned, joined, left, run_returned, Move,
  on_serve, on_leave, on_worker, destroy_first, finish, leave, on_run_returned, IsRun,
  may_run_return, step, run,
}
use lundicpp.Server.Threads.Changes.{has_ended}
use lundicpp.Server.Threads.Owners.{IsOwned}
use lundicpp.Server.Threads.Contexts.{IsSteady, returns, rest_not_work}

-- The steps that are left: the end of the main context, a thread to return and a handle to destroy each,
-- and the end.
abbrev pub phase_steps : Phase → ℕ
phase_steps serving = 2
phase_steps leaving = 1
phase_steps _ = 0

abbrev pub count_running : List ThreadState → ℕ
count_running [] = 0
count_running (running ∷ threads) = suc (count_running threads)
count_running (finished ∷ threads) = count_running threads

abbrev pub remaining : ListenCall → ℕ
remaining s = phase_steps s.phase + length s.pool + count_running s.threads

count_running-set :
    (threads : List ThreadState) (i : ℕ)
    → get_elem? threads i ≡ some running
    → suc (count_running (set threads i finished)) ≡ count_running threads
count_running-set [] i e = absurd (cc)
count_running-set (running ∷ threads) zero e = refl
count_running-set (finished ∷ threads) zero e = absurd (cc)
count_running-set (running ∷ threads) (suc i) e = ap suc (count_running-set threads i e)
count_running-set (finished ∷ threads) (suc i) e = count_running-set threads i e

-- Stopped, and not ended by `std::terminate`.
pub record IsClosing (s : ListenCall) : Type 0 where
  pub owned : IsOwned s
  pub steady : IsSteady s
  pub rest : s.main_ctx ≡ at_rest
  pub alive : s.phase ≢ terminated

module _ (may_return : ℕ → Context → Bool) (law : IsRun may_return) where
  -- A step that leaves less to do.
  pub record Progress (s : ListenCall) : Type 0 where
    pub move : Move
    pub next : ListenCall
    pub made : step may_return move s ≡ some next
    pub fewer : remaining next < remaining s
    pub rest : next.main_ctx ≡ at_rest
    pub alive : next.phase ≢ terminated

  serving-Progress : (s : ListenCall) → IsClosing s → s.phase ≡ serving → Progress s
  unfolding step lundicpp.Server.Threads.serve_step
  serving-Progress s h p = record {
    move = on_serve (main_returned 0);
    next = record s { phase = leaving };
    made =
        only_if-holds (Phase-discrete s.phase serving) _ p
        ∙ only_if-holds (Bool-discrete (may_return 0 s.main_ctx) true) _
            (ap (may_return 0) h.rest ∙ law.stopped_returns 0);
    fewer = omega (arith, ap phase_steps p);
    rest = h.rest;
    alive = λ e. cc;
  }

  finished_phase : (e : Option Exception) (s : ListenCall) → has_ended (finish e s).phase ≡ true
  unfolding finish
  finished_phase none s = refl
  finished_phase (some (std_exception what)) s = refl
  finished_phase (some other_exception) s = refl

  ended_steps : (p : Phase) → has_ended p ≡ true → (phase_steps p ≡ 0) × (p ≢ terminated)
  ended_steps done e = (refl, λ x. cc)
  ended_steps escaped e = (refl, λ x. cc)
  ended_steps starting e = absurd (cc)
  ended_steps serving e = absurd (cc)
  ended_steps leaving e = absurd (cc)
  ended_steps terminated e = absurd (cc)

  finish_rest :
      (e : Option Exception) (s : ListenCall)
      → ((finish e s).main_ctx ≡ s.main_ctx)
        × ((finish e s).pool ≡ s.pool)
        × ((finish e s).threads ≡ s.threads)
  unfolding finish
  finish_rest none s = (refl, refl, refl)
  finish_rest (some (std_exception what)) s = (refl, refl, refl)
  finish_rest (some other_exception) s = (refl, refl, refl)

  left-Progress : (s : ListenCall) → IsClosing s → s.phase ≡ leaving → s.pool ≡ [] → Progress s
  unfolding step lundicpp.Server.Threads.leave_step leave
  left-Progress s h p at =
      let t = finish s.exception s in
      let (steps, alive) = ended_steps t.phase (finished_phase s.exception s) in
      let (same_main, same_pool, same_threads) = finish_rest s.exception s in
      record {
        move = on_leave left;
        next = t;
        made = only_if-holds (Phase-discrete s.phase leaving) _ p ∙ ap (λ pool. leave pool s) at;
        fewer =
            omega
              (arith, steps, ap phase_steps p, ap length same_pool, ap count_running same_threads);
        rest = same_main ∙ h.rest;
        alive = alive;
      }

  joined-Progress :
      (s : ListenCall) (handle : JoiningThread) (pool : List JoiningThread)
      → IsClosing s
      → s.phase ≡ leaving
      → s.pool ≡ handle ∷ pool
      → destroy_first (handle ∷ pool) s ≡ some (record s { pool = pool })
      → Progress s
  unfolding step lundicpp.Server.Threads.leave_step
  joined-Progress s handle pool h p at gone = record {
    move = on_leave joined;
    next = record s { pool = pool };
    made =
        only_if-holds (Phase-discrete s.phase leaving) _ p
        ∙ (ap (λ pool. destroy_first pool s) at ∙ gone);
    fewer = omega (arith, ap length at);
    rest = h.rest;
    alive = h.alive;
  }

  -- A thread that still runs returns from its context, which is at rest.
  returned-Progress :
      (s : ListenCall) (i : ℕ)
      → IsClosing s
      → s.phase ≡ leaving
      → get_elem? s.threads i ≡ some running
      → Progress s
  unfolding step lundicpp.Server.Threads.worker_step on_run_returned
  returned-Progress s i h p runs =
      let (ctx, at) =
        get_elem?-within s.contexts i
          (omega (arith, h.steady.enough, get_elem?-lt s.threads i runs)) in
      let may =
        returns may_return law 0 (get_elem? s.contexts i) ctx at
          (h.steady.alike i ctx at ∙ h.rest) in
      record {
        move = on_worker i (run_returned 0);
        next = record s { threads = set s.threads i finished };
        made =
            only_if-holds (Bool-discrete (is_over s.phase) false) _ (ap is_over p)
            ∙ (only_if-holds
                  (Bool-discrete (may_run_return may_return 0 (get_elem? s.contexts i)) true) _ may
                ∙ ap (λ o. on_run_returned i o s) runs);
        fewer = omega (arith, count_running-set s.threads i runs);
        rest = h.rest;
        alive = h.alive;
      }

  leaving-Progress :
      (s : ListenCall) (pool : List JoiningThread)
      → IsClosing s
      → s.phase ≡ leaving
      → s.pool ≡ pool
      → Progress s
  unfolding destroy_first lundicpp.Server.Threads.destroy_thread
  leaving-Progress s [] h p at = left-Progress s h p at
  leaving-Progress s (none ∷ pool) h p at = joined-Progress s none pool h p at refl
  leaving-Progress s (some i ∷ pool) h p at =
      let (state, there) = get_elem?-within s.threads i (h.owned.inside i (rw at (inl refl))) in
      thread state there
    where
      thread : (state : ThreadState) → get_elem? s.threads i ≡ some state → Progress s
      thread running there = returned-Progress s i h p there
      thread finished there = joined-Progress s (some i) pool h p at (
          ap
            (λ (o : Option ThreadState). elim (join o) [
              | none ↦ none
              | some _ ↦ some (record s { pool = pool })
            ])
            there)

  phase-Progress :
      (s : ListenCall) (phase : Phase)
      → IsClosing s
      → s.phase ≡ phase
      → has_ended phase ≡ false
      → Progress s
  phase-Progress s starting h p e = absurd (rest_not_work (sym h.rest ∙ h.steady.fresh p))
  phase-Progress s serving h p e = serving-Progress s h p
  phase-Progress s leaving h p e = leaving-Progress s s.pool h p refl
  phase-Progress s done h p e = absurd (cc)
  phase-Progress s escaped h p e = absurd (cc)
  phase-Progress s terminated h p e = absurd (h.alive p)

  -- A stopped `listen` that has not ended can go on towards its end.
  pub closing-Progress : (s : ListenCall) → IsClosing s → has_ended s.phase ≡ false → Progress s
  closing-Progress s h e = phase-Progress s s.phase h refl e
