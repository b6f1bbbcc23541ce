-- ===== src/Server/Threads/Blocked.antt =====
-- An exception that leaves `listen` while threads run: their contexts are not stopped, and the pool waits
-- for them.
use native.Mathlib.Decide.{ℕ_discrete}
use lundicpp.Base.{
  ℕ, ◌<◌, ◌≡◌, refl, sym, ap, ◌∙◌, ◌⊎◌, inl, inr, List, [], ◌∷◌, Bool, true, false, some, length,
  get_elem?, get_elem?-within, get_elem?-set_ne,
}
use lundicpp.Server.Threads.{
  running, finished, Context, at_work, at_rest, Phase, starting, serving, leaving, terminated,
  ListenCall, start_call, on_signal, IsRun, run, Move,
}
use lundicpp.Server.Threads.Changes.{
  has_ended, Change, emplacing, serving_now, signalling, logging, unwinding, leaving_now, joining,
  ending, run_returning, terminating, step-Change,
}
use lundicpp.Server.Threads.Owners.{Owns, joined_not_running, start_call-IsOwned}
use lundicpp.Server.Threads.Contexts.{stays, start_call-IsSteady}
use lundicpp.Server.Threads.Joined.{run_cases, run-IsOwned}
use lundicpp.Server.Threads.Shutdown.{run-IsSteady}

-- Thread `i` runs a context that is at work, and the pool holds it.
record IsBlocked (i : ℕ) (s : ListenCall) : Type 0 where
  runs : get_elem? s.threads i ≡ some running
  held : Owns i s.pool
  work : (ctx : Context) → get_elem? s.contexts i ≡ some ctx → ctx ≡ at_work
  where_now : (s.phase ≡ leaving) ⊎ (s.phase ≡ terminated)

blocked_phase :
    (p q : Phase) → (p ≡ leaving) ⊎ (p ≡ terminated) → p ≡ q → (q ≡ leaving) ⊎ (q ≡ terminated)
blocked_phase p q (inl e) same = inl (sym same ∙ e)
blocked_phase p q (inr e) same = inr (sym same ∙ e)

not_before : (p : Phase) → (p ≡ leaving) ⊎ (p ≡ terminated) → ¬ ((p ≡ starting) ⊎ (p ≡ serving))
not_before p (inl e) (inl b) = cc
not_before p (inl e) (inr b) = cc
not_before p (inr e) (inl b) = cc
not_before p (inr e) (inr b) = cc

blocked_not_over : (p : Phase) → (p ≡ leaving) ⊎ (p ≡ terminated) → has_ended p ≡ false
blocked_not_over p (inl e) = ap has_ended e
blocked_not_over p (inr e) = ap has_ended e

module _ (may_return : ℕ → Context → Bool) (law : IsRun may_return) (i : ℕ) where
  Change-IsBlocked : (s t : ListenCall) → Change may_return s t → IsBlocked i s → IsBlocked i t
  unfolding on_signal
  Change-IsBlocked s t (emplacing p lt) h = absurd (not_before s.phase h.where_now (inl p))
  Change-IsBlocked s t (serving_now p le) h = absurd (not_before s.phase h.where_now (inl p))
  Change-IsBlocked s t (signalling p not_yet) h = absurd (not_before s.phase h.where_now (inr p))
  Change-IsBlocked s t (logging cerr) h = record {
    runs = h.runs;
    held = h.held;
    work = h.work;
    where_now = h.where_now;
  }
  Change-IsBlocked s t (unwinding e cerr p) h = absurd (not_before s.phase h.where_now p)
  Change-IsBlocked s t (leaving_now pending p may) h =
      absurd (not_before s.phase h.where_now (inr p))
  Change-IsBlocked s t (joining {handle = handle} {pool = pool} p at j) h = record {
    runs = h.runs;
    held = elim (rw at at h.held) [
      | inl e ↦ absurd (joined_not_running s.threads handle i j e h.runs)
      | inr later ↦ later
    ];
    work = h.work;
    where_now = h.where_now;
  }
  Change-IsBlocked s t (ending p at end) h = absurd (elim (rw at at h.held) [ ])
  Change-IsBlocked s t (run_returning pending j p may runs) h = record {
    runs = elim (ℕ_discrete j i) [
      | yes same ↦
          absurd (stays may_return law pending (get_elem? s.contexts i) h.work (rw same at may))
      | no off ↦ get_elem?-set_ne s.threads finished off ∙ h.runs
    ];
    held = h.held;
    work = h.work;
    where_now = h.where_now;
  }
  Change-IsBlocked s t (terminating p) h = record {
    runs = h.runs;
    held = h.held;
    work = h.work;
    where_now = inr refl;
  }

  run-IsBlocked :
      (moves : List Move) (s t : ListenCall)
      → run may_return moves s ≡ some t
      → IsBlocked i s
      → IsBlocked i t
  unfolding run
  run-IsBlocked [] s t e h = let same : s ≡ t = cc in rw (← same) h
  run-IsBlocked (m ∷ moves) s t e h =
      let (u, first, later) = run_cases may_return m moves s t e in
      run-IsBlocked moves u t later (Change-IsBlocked s u (step-Change may_return m s u first) h)

at_work_when :
    (ctx : Context) → (ctx ≡ at_work) ⊎ (ctx ≡ at_rest) → ctx.stopped ≡ false → ctx ≡ at_work
at_work_when ctx (inl work) e = work
at_work_when ctx (inr rest) e =
    let no : true ≡ false = sym (ap (λ (c : Context). c.stopped) rest) ∙ e in absurd (cc)

-- Where `listen` destroys its pool before a signal came, after an exception, and has started a thread, it
-- never ends: whatever happens from there, the destructor waits for a thread that cannot return.
pub run-blocked :
    (may_return : ℕ → Context → Bool) (workers : ℕ) (moves later : List Move) (s t : ListenCall)
    → IsRun may_return
    → run may_return moves (start_call workers) ≡ some s
    → s.phase ≡ leaving
    → s.main_ctx.stopped ≡ false
    → 0 < length s.threads
    → run may_return later s ≡ some t
    → has_ended t.phase ≡ false
run-blocked may_return workers moves later s t law e p open_still some_thread e' =
    let o = start_call-IsOwned workers in
    let owned = run-IsOwned may_return moves (start_call workers) s e o in
    let steady =
      run-IsSteady may_return law moves (start_call workers) s e o (start_call-IsSteady workers) in
    let work = at_work_when s.main_ctx steady.known open_still in
    let (state, there) = get_elem?-within s.threads 0 some_thread in
    let runs : get_elem? s.threads 0 ≡ some running =
      there ∙ ap some (steady.busy work 0 state there) in
    let h = run-IsBlocked may_return law 0 later s t e' (record {
      runs = runs;
      held = owned.owned 0 runs;
      work = λ ctx at. steady.alike 0 ctx at ∙ work;
      where_now = inl p;
    }) in
    blocked_not_over t.phase h.where_now
