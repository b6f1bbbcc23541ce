-- ===== src/Server/Threads/Changes.antt =====
-- Each step of `listen` as one of the changes that it can make, with what it needs.
use mathlib.Core.Bool.{Bool-discrete}
use mathlib.Core.Path.{subst}
use native.Mathlib.Decide.{dec_lt, dec_le}
use lundicpp.Base.{
  ℕ, ◌≤◌, ◌<◌, ◌≡◌, refl, ◌⊎◌, inl, inr, Bytes, List, [], ◌∷◌, Bool, true, false, Option, none,
  some, length, get_elem?, set, only_if-some,
}
use lundicpp.Server.Threads.{
  ThreadState, running, finished, JoiningThread, join, destroy_thread, Context, StartMove,
  ServeMove, WorkerMove, Exception, std_exception, other_exception, Phase, starting, serving,
  leaving, done, escaped, terminated, Phase-discrete, is_over, ListenCall, on_completion, unwind,
  emplaced, served, interrupted, main_completed, main_returned, joined, left, completed,
  run_returned, Move, on_start, on_serve, on_leave, start_threw, serve_threw, on_worker, emplace,
  start_step, on_signal, after_main, destroy_first, finish, leave, leave_step, on_run_returned,
  after_worker, serve_step, may_run_return, worker_step, step,
}

-- A handle that its destructor lets go of.
pub data IsJoined (threads : List ThreadState) : JoiningThread → Type 0 where
  vacant : IsJoined threads none
  ended : {i : ℕ} → get_elem? threads i ≡ some finished → IsJoined threads (some i)

-- The call has come to its end, by returning or by an exception.
abbrev pub has_ended : Phase → Bool
has_ended done = true
has_ended escaped = true
has_ended _ = false

module _ (may_return : ℕ → Context → Bool) where
  pub data Change (s : ListenCall) : ListenCall → Type 0 where
    emplacing : s.phase ≡ starting → length s.pool < length s.contexts → Change s (emplace s)
    serving_now :
        s.phase ≡ starting
        → length s.contexts ≤ length s.pool
        → Change s (record s { phase = serving })
    signalling : s.phase ≡ serving → s.main_ctx.stopped ≡ false → Change s (on_signal s)
    logging : (cerr : List Bytes) → Change s (record s { cerr = cerr })
    unwinding :
        (e : Exception) (cerr : List Bytes)
        → (s.phase ≡ starting) ⊎ (s.phase ≡ serving)
        → Change s (unwind e (record s { cerr = cerr }))
    leaving_now :
        (pending : ℕ)
        → s.phase ≡ serving
        → may_return pending s.main_ctx ≡ true
        → Change s (record s { phase = leaving })
    joining :
        {handle : JoiningThread} {pool : List JoiningThread}
        → s.phase ≡ leaving
        → s.pool ≡ handle ∷ pool
        → IsJoined s.threads handle
        → Change s (record s { pool = pool })
    ending :
        {phase : Phase} {cerr : List Bytes}
        → s.phase ≡ leaving
        → s.pool ≡ []
        → has_ended phase ≡ true
        → Change s (record s { phase = phase; cerr = cerr })
    run_returning :
        (pending i : ℕ)
        → is_over s.phase ≡ false
        → may_run_return may_return pending (get_elem? s.contexts i) ≡ true
        → get_elem? s.threads i ≡ some running
        → Change s (record s { threads = set s.threads i finished })
    terminating :
        {cerr : List Bytes}
        → is_over s.phase ≡ false
        → Change s (record s { cerr = cerr; phase = terminated })

  change_to : {s t t' : ListenCall} → Change s t → some t ≡ some t' → Change s t'
  change_to {s = s} {t = t} {t' = t'} c e = let same : t ≡ t' = cc in subst (Change s) same c

  start-Change :
      (m : StartMove) (s t : ListenCall) → s.phase ≡ starting → start_step m s ≡ some t → Change s t
  unfolding start_step
  start-Change emplaced s t p e =
      let (lt, e') = only_if-some (dec_lt (length s.pool) (length s.contexts)) _ e in
      change_to (emplacing p lt) e'
  start-Change served s t p e =
      let (le, e') = only_if-some (dec_le (length s.contexts) (length s.pool)) _ e in
      change_to (serving_now p le) e'

  serve-Change :
      (m : ServeMove) (s t : ListenCall)
      → s.phase ≡ serving
      → serve_step may_return m s ≡ some t
      → Change s t
  unfolding serve_step after_main on_completion
  serve-Change interrupted s t p e =
      let (not_yet, e') = only_if-some (Bool-discrete s.main_ctx.stopped false) _ e in
      change_to (signalling p not_yet) e'
  serve-Change (main_completed none) s t p e = change_to (logging s.cerr) e
  serve-Change (main_completed (some (std_exception what))) s t p e = change_to (logging _) e
  serve-Change (main_completed (some other_exception)) s t p e =
      change_to (unwinding other_exception s.cerr (inr p)) e
  serve-Change (main_returned pending) s t p e =
      let (may, e') = only_if-some (Bool-discrete (may_return pending s.main_ctx) true) _ e in
      change_to (leaving_now pending p may) e'

  join-Change :
      (s t : ListenCall) (i : ℕ) (pool : List JoiningThread) (o : Option ThreadState)
      → s.phase ≡ leaving
      → s.pool ≡ some i ∷ pool
      → get_elem? s.threads i ≡ o
      → elim (join o) [ none ↦ none | some _ ↦ some (record s { pool = pool }) ] ≡ some t
      → Change s t
  join-Change s t i pool none p at state e = absurd (cc)
  join-Change s t i pool (some running) p at state e = absurd (cc)
  join-Change s t i pool (some finished) p at state e = change_to (joining p at (ended state)) e

  destroy-Change :
      (s t : ListenCall) (pool : List JoiningThread)
      → s.phase ≡ leaving
      → s.pool ≡ pool
      → destroy_first pool s ≡ some t
      → Change s t
  unfolding destroy_first destroy_thread
  destroy-Change s t [] p at e = absurd (cc)
  destroy-Change s t (none ∷ pool) p at e = change_to (joining p at vacant) e
  destroy-Change s t (some i ∷ pool) p at e =
      join-Change s t i pool (get_elem? s.threads i) p at refl e

  finish-Change :
      (s t : ListenCall) (e : Option Exception)
      → s.phase ≡ leaving
      → s.pool ≡ []
      → some (finish e s) ≡ some t
      → Change s t
  unfolding finish
  finish-Change s t none p at e = change_to (ending p at refl) e
  finish-Change s t (some (std_exception what)) p at e = change_to (ending p at refl) e
  finish-Change s t (some other_exception) p at e = change_to (ending p at refl) e

  left-Change :
      (s t : ListenCall) (pool : List JoiningThread)
      → s.phase ≡ leaving
      → s.pool ≡ pool
      → leave pool s ≡ some t
      → Change s t
  unfolding leave
  left-Change s t [] p at e = finish-Change s t s.exception p at e
  left-Change s t (_ ∷ _) p at e = absurd (cc)

  completed-Change :
      (thrown : List Bytes × Option Exception) (o : Option ThreadState) (s t : ListenCall)
      → is_over s.phase ≡ false
      → after_worker thrown o s ≡ some t
      → Change s t
  unfolding after_worker
  completed-Change (cerr, none) (some running) s t p h = change_to (logging cerr) h
  completed-Change (cerr, some e) (some running) s t p h = change_to (terminating p) h
  completed-Change (cerr, none) (some finished) s t p h = absurd (cc)
  completed-Change (cerr, some e) (some finished) s t p h = absurd (cc)
  completed-Change (cerr, none) none s t p h = absurd (cc)
  completed-Change (cerr, some e) none s t p h = absurd (cc)

  returned-Change :
      (i pending : ℕ) (o : Option ThreadState) (s t : ListenCall)
      → is_over s.phase ≡ false
      → may_run_return may_return pending (get_elem? s.contexts i) ≡ true
      → get_elem? s.threads i ≡ o
      → on_run_returned i o s ≡ some t
      → Change s t
  unfolding on_run_returned
  returned-Change i pending none s t p may at h = absurd (cc)
  returned-Change i pending (some finished) s t p may at h = absurd (cc)
  returned-Change i pending (some running) s t p may at h =
      change_to (run_returning pending i p may at) h

  worker-Change :
      (i : ℕ) (m : WorkerMove) (s t : ListenCall)
      → is_over s.phase ≡ false
      → worker_step may_return i m s ≡ some t
      → Change s t
  unfolding worker_step
  worker-Change i (completed e) s t p h =
      completed-Change (on_completion e s.cerr) (get_elem? s.threads i) s t p h
  worker-Change i (run_returned pending) s t p h =
      let (may, h') =
        only_if-some
          (Bool-discrete (may_run_return may_return pending (get_elem? s.contexts i)) true) _ h in
      returned-Change i pending (get_elem? s.threads i) s t p may refl h'

  -- Whatever step is made, it is one of the changes.
  pub step-Change : (m : Move) (s t : ListenCall) → step may_return m s ≡ some t → Change s t
  unfolding step leave_step
  step-Change (on_start m) s t h =
      let (p, h') = only_if-some (Phase-discrete s.phase starting) _ h in start-Change m s t p h'
  step-Change (on_serve m) s t h =
      let (p, h') = only_if-some (Phase-discrete s.phase serving) _ h in serve-Change m s t p h'
  step-Change (on_leave joined) s t h =
      let (p, h') = only_if-some (Phase-discrete s.phase leaving) _ h in
      destroy-Change s t s.pool p refl h'
  step-Change (on_leave left) s t h =
      let (p, h') = only_if-some (Phase-discrete s.phase leaving) _ h in
      left-Change s t s.pool p refl h'
  step-Change (start_threw e) s t h =
      let (p, h') = only_if-some (Phase-discrete s.phase starting) _ h in
      change_to (unwinding e s.cerr (inl p)) h'
  step-Change (serve_threw e) s t h =
      let (p, h') = only_if-some (Phase-discrete s.phase serving) _ h in
      change_to (unwinding e s.cerr (inr p)) h'
  step-Change (on_worker i m) s t h =
      let (p, h') = only_if-some (Bool-discrete (is_over s.phase) false) _ h in
      worker-Change i m s t p h'
