-- ===== src/Server/Threads.antt =====
-- core.hpp: `detail::joining_thread`; server.hpp: what `listen` does with its contexts and threads, from
-- the first thread to its return, and the handler of `spawn_safe`.
pub mod Changes
pub mod Owners
pub mod Contexts
pub mod Joined
pub mod Progress
pub mod Shutdown
pub mod Blocked
mod Examples
use mathlib.Core.Bool.{Bool-discrete}
use native.Mathlib.Decide.{dec_lt, dec_le}
use lundicpp.Base.{
  ℕ, ◌≡◌, Bytes, List, [], ◌∷◌, ◌++◌, map, Bool, true, false, ◌||◌, Option, none, some, codes,
  length, get_elem?, set, replicate, only_if,
}

-- A thread of the machine: its function runs, or has returned.
pub data ThreadState : Type 0 where
  running finished : ThreadState

-- `thread_`, the only member: the number of the thread that it stands for, or none where it is not
-- joinable.
abbrev pub JoiningThread : Type 0
JoiningThread = Option ℕ

-- The constructor: one more thread, which the object stands for.
unfoldable pub start_thread : List ThreadState → List ThreadState × JoiningThread
start_thread threads = (threads ++ running ∷ [], some (length threads))

-- The move constructor: the new object, and what is left of the other.
unfoldable pub move_thread : JoiningThread → JoiningThread × JoiningThread
move_thread other = (other, none)

-- The move assignment, which is that of `std::thread`: it ends the program (`none`) where the target is
-- joinable.
unfoldable pub assign_thread :
    JoiningThread → JoiningThread → Option (JoiningThread × JoiningThread)
assign_thread none other = some (other, none)
assign_thread (some i) other = none

-- `join()`: it waits (`none`) while the thread runs, and leaves the object not joinable.
abbrev pub join : Option ThreadState → Option JoiningThread
join (some finished) = some none
join (some running) = none
join none = none

-- The destructor: it waits (`none`), or leaves an object that `~thread()` can take.
unfoldable pub destroy_thread : List ThreadState → JoiningThread → Option JoiningThread
destroy_thread threads none = some none
destroy_thread threads (some i) = join (get_elem? threads i)

-- What a context knows: whether it was stopped, and whether a work guard or a pending wait stands for work
-- that is still to come.
pub record Context : Type 0 where
  pub stopped : Bool
  pub guarded : Bool

abbrev pub at_work : Context
at_work = record { stopped = false; guarded = true }

abbrev pub at_rest : Context
at_rest = record { stopped = true; guarded = false }

-- An exception: under `std::exception` with its `what()`, or not.
pub data Exception : Type 0 where
  std_exception : Bytes → Exception
  other_exception : Exception

-- `starting` while the threads are made, `serving` in `main_ctx.run()`, `leaving` while the pool is
-- destroyed; then `listen` is done, an exception escapes from it, or the program was ended.
pub data Phase : Type 0 where
  starting serving leaving done escaped terminated : Phase

unfoldable pub Phase-discrete : Discrete Phase
Phase-discrete = hlevel

abbrev pub is_over : Phase → Bool
is_over done = true
is_over escaped = true
is_over terminated = true
is_over _ = false

-- The locals of `listen`, where thread `i` runs the context `i`; the exception that unwinds it; and the
-- lines of `std::cerr`.
pub record ListenCall : Type 0 where
  pub contexts : List Context
  pub main_ctx : Context
  pub threads : List ThreadState
  pub pool : List JoiningThread
  pub phase : Phase
  pub exception : Option Exception
  pub cerr : List Bytes

-- Before the first thread, where `opts.threads` is the number of workers by now. The set of signals waits.
unfoldable pub start_call : ℕ → ListenCall
start_call workers = record {
  contexts = replicate workers at_work;
  main_ctx = at_work;
  threads = [];
  pool = [];
  phase = starting;
  exception = none;
  cerr = [];
}

-- The handler that `spawn_safe` gives to `co_spawn`: the lines, and what it throws on.
unfoldable pub on_completion : Option Exception → List Bytes → List Bytes × Option Exception
on_completion none cerr = (cerr, none)
on_completion (some (std_exception what)) cerr =
    (cerr ++ (codes "[lundi] uncaught async exception: " ++ what) ∷ [], none)
on_completion (some other_exception) cerr = (cerr, some other_exception)

-- An exception leaves the `try` block, so that the pool is destroyed first.
abbrev pub unwind : Exception → ListenCall → ListenCall
unwind e s = record s { phase = leaving; exception = some e }

-- What comes next in each phase. `threw`: a thread cannot be made, or a handler of the main context throws.
-- `main_completed`: a coroutine of the main context ends. `main_returned` has the number of operations
-- that the context still waits for.
pub data StartMove : Type 0 where
  emplaced served : StartMove

pub data ServeMove : Type 0 where
  interrupted : ServeMove
  main_completed : Option Exception → ServeMove
  main_returned : ℕ → ServeMove

pub data LeaveMove : Type 0 where
  joined left : LeaveMove

pub data WorkerMove : Type 0 where
  completed : Option Exception → WorkerMove
  run_returned : ℕ → WorkerMove

pub data Move : Type 0 where
  on_start : StartMove → Move
  on_serve : ServeMove → Move
  on_leave : LeaveMove → Move
  start_threw serve_threw : Exception → Move
  on_worker : ℕ → WorkerMove → Move

-- `pool.emplace_back`.
unfoldable pub emplace : ListenCall → ListenCall
unfolding start_thread
emplace s =
    let (threads, handle) = start_thread s.threads in
    record s { threads = threads; pool = s.pool ++ handle ∷ [] }

-- The loop over the workers, and its end.
unfoldable pub start_step : StartMove → ListenCall → Option ListenCall
unfolding emplace
start_step emplaced s = only_if (dec_lt (length s.pool) (length s.contexts)) (some (emplace s))
start_step served s =
    only_if (dec_le (length s.contexts) (length s.pool)) (some (record s { phase = serving }))

-- The handler of the signals: `guards.clear()` and the `stop()` of every context. What it does to the
-- acceptor and to the flag is in Server/Listen.
unfoldable pub on_signal : ListenCall → ListenCall
on_signal s = record s { contexts = map (λ _. at_rest) s.contexts; main_ctx = at_rest }

-- A coroutine of the main context ends; what its handler throws comes out of `main_ctx.run()`.
unfoldable pub after_main : List Bytes × Option Exception → ListenCall → ListenCall
after_main (cerr, none) s = record s { cerr = cerr }
after_main (cerr, some e) s = unwind e (record s { cerr = cerr })

-- The pool is destroyed, one thread after the other.
unfoldable pub destroy_first : List JoiningThread → ListenCall → Option ListenCall
unfolding destroy_thread
destroy_first [] s = none
destroy_first (handle ∷ pool) s = elim (destroy_thread s.threads handle) [
  | none ↦ none
  | some _ ↦ some (record s { pool = pool })
]

-- Behind the pool, with the `catch` of `listen`.
unfoldable pub finish : Option Exception → ListenCall → ListenCall
finish none s = record s { phase = done }
finish (some (std_exception what)) s = record s {
  phase = done;
  cerr = s.cerr ++ (codes "[lundi] fatal: " ++ what) ∷ [];
}
finish (some other_exception) s = record s { phase = escaped }

unfoldable pub leave : List JoiningThread → ListenCall → Option ListenCall
unfolding finish
leave [] s = some (finish s.exception s)
leave (_ ∷ _) s = none

unfoldable pub leave_step : LeaveMove → ListenCall → Option ListenCall
unfolding destroy_first leave
leave_step joined s = destroy_first s.pool s
leave_step left s = leave s.pool s

-- The function of a thread returns with `ctx.run()`.
unfoldable pub on_run_returned : ℕ → Option ThreadState → ListenCall → Option ListenCall
on_run_returned i (some running) s = some (record s { threads = set s.threads i finished })
on_run_returned i (some finished) s = none
on_run_returned i none s = none

-- A coroutine of a worker ends; an exception that leaves the function of a thread ends the program.
unfoldable pub after_worker :
    List Bytes × Option Exception → Option ThreadState → ListenCall → Option ListenCall
after_worker (cerr, none) (some running) s = some (record s { cerr = cerr })
after_worker (cerr, some e) (some running) s = some (record s { cerr = cerr; phase = terminated })
after_worker thrown (some finished) s = none
after_worker thrown none s = none

-- What asio says of `run()`: it may return where the context was stopped, with whatever it still waits
-- for, and does not return while a guard says that there is work to come.
pub record IsRun (may_return : ℕ → Context → Bool) : Type 0 where
  pub stopped_returns : (pending : ℕ) → may_return pending at_rest ≡ true
  pub guarded_stays : (pending : ℕ) → may_return pending at_work ≡ false

module _ (may_return : ℕ → Context → Bool) where
  unfoldable pub serve_step : ServeMove → ListenCall → Option ListenCall
  unfolding on_signal after_main on_completion
  serve_step interrupted s = only_if (Bool-discrete s.main_ctx.stopped false) (some (on_signal s))
  serve_step (main_completed e) s = some (after_main (on_completion e s.cerr) s)
  serve_step (main_returned pending) s =
      only_if (Bool-discrete (may_return pending s.main_ctx) true)
        (some (record s { phase = leaving }))

  abbrev pub may_run_return : ℕ → Option Context → Bool
  may_run_return pending none = false
  may_run_return pending (some ctx) = may_return pending ctx

  unfoldable pub worker_step : ℕ → WorkerMove → ListenCall → Option ListenCall
  unfolding on_run_returned after_worker on_completion
  worker_step i (completed e) s = after_worker (on_completion e s.cerr) (get_elem? s.threads i) s
  worker_step i (run_returned pending) s =
      only_if (Bool-discrete (may_run_return pending (get_elem? s.contexts i)) true)
        (on_run_returned i (get_elem? s.threads i) s)

  unfoldable pub step : Move → ListenCall → Option ListenCall
  unfolding start_step serve_step leave_step worker_step
  step (on_start m) s = only_if (Phase-discrete s.phase starting) (start_step m s)
  step (on_serve m) s = only_if (Phase-discrete s.phase serving) (serve_step m s)
  step (on_leave m) s = only_if (Phase-discrete s.phase leaving) (leave_step m s)
  step (start_threw e) s = only_if (Phase-discrete s.phase starting) (some (unwind e s))
  step (serve_threw e) s = only_if (Phase-discrete s.phase serving) (some (unwind e s))
  step (on_worker i m) s = only_if (Bool-discrete (is_over s.phase) false) (worker_step i m s)

  unfoldable pub run : List Move → ListenCall → Option ListenCall
  unfolding step
  run [] s = some s
  run (m ∷ ms) s = elim (step m s) [ none ↦ none | some t ↦ run ms t ]
