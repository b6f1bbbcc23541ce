-- ===== src/Server/Threads/Examples.antt =====
-- Two workers, from the first thread to the end, and a machine that makes only one thread.
use native.Mathlib.Decide.{dec_lt, dec_le}
use lundicpp.Base.{
  ℕ, ◌≡◌, refl, ◌==◌, List, [], ◌∷◌, Bool, ◌&&◌, ◌||◌, false, not, none, some, arith, codes,
}
use lundicpp.Server.Threads.{
  finished, Context, std_exception, other_exception, Phase-discrete, ListenCall, start_call,
  on_completion, emplaced, served, interrupted, main_returned, main_completed, joined, left,
  completed, run_returned, Move, on_start, on_serve, on_leave, start_threw, on_worker,
  assign_thread, move_thread, IsRun, run,
}
use lundicpp.Server.Threads.Changes.{has_ended}
use lundicpp.Server.Threads.Joined.{run-joined}
use lundicpp.Server.Threads.Shutdown.{Ends, run-Ends}
use lundicpp.Server.Threads.Blocked.{run-blocked}

-- A context that returns where it was stopped, or has nothing to wait for.
abbrev may_return : ℕ → Context → Bool
may_return pending ctx = ctx.stopped || (not ctx.guarded && (pending == 0))

may_return-IsRun : IsRun may_return
may_return-IsRun = record { stopped_returns = λ pending. refl; guarded_stays = λ pending. refl }

abbrev until_signal : List Move
until_signal =
    on_start emplaced
    ∷ (on_start emplaced
        ∷ (on_start served
            ∷ (on_worker 1 (completed (some (std_exception (codes "x"))))
                ∷ (on_serve interrupted ∷ []))))

abbrev to_the_end : List Move
to_the_end =
    on_start emplaced
    ∷ (on_start emplaced
        ∷ (on_start served
            ∷ (on_serve (main_completed none)
                ∷ (on_serve interrupted
                    ∷ (on_serve (main_returned 2)
                        ∷ (on_worker 0 (run_returned 3)
                            ∷ (on_leave joined
                                ∷ (on_worker 1 (run_returned 0)
                                    ∷ (on_leave joined ∷ (on_leave left ∷ []))))))))))

stopped_call : (s : ListenCall) × (run may_return until_signal (start_call 2) ≡ some s)
unfolding run start_call on_completion Phase-discrete dec_lt dec_le
stopped_call = (_, refl)

ended_call : (s : ListenCall) × (run may_return to_the_end (start_call 2) ≡ some s)
unfolding run start_call on_completion Phase-discrete dec_lt dec_le
ended_call = (_, refl)

run-joined_example : ended_call.0.threads ≡ finished ∷ (finished ∷ [])
unfolding run start_call on_completion Phase-discrete dec_lt dec_le ended_call
run-joined_example = run-joined may_return 2 to_the_end ended_call.0 ended_call.1 refl

run-Ends_example : Ends may_return may_return-IsRun stopped_call.0
unfolding run start_call on_completion Phase-discrete dec_lt dec_le stopped_call
run-Ends_example =
    run-Ends may_return may_return-IsRun 2 until_signal stopped_call.0 stopped_call.1 refl (λ e. cc)

-- The second thread cannot be made.
one_thread :
    (s : ListenCall) × (run may_return
        (on_start emplaced ∷ (start_threw (std_exception (codes "no thread")) ∷ []))
        (start_call 2)
      ≡ some s)
unfolding run start_call Phase-discrete dec_lt
one_thread = (_, refl)

run-blocked_example : has_ended one_thread.0.phase ≡ false
unfolding run start_call Phase-discrete dec_lt one_thread
run-blocked_example =
    run-blocked may_return 2
      (on_start emplaced ∷ (start_threw (std_exception (codes "no thread")) ∷ [])) [] one_thread.0
      one_thread.0 may_return-IsRun one_thread.1 refl refl (omega arith) refl

-- The destructor waits for the thread.
still_waits :
    run may_return
      (on_start emplaced
        ∷ (start_threw (std_exception (codes "no thread")) ∷ (on_leave joined ∷ [])))
      (start_call 2)
    ≡ none
unfolding run start_call Phase-discrete dec_lt
still_waits = refl

-- An exception outside `std::exception` goes on, and is not logged.
rethrown : on_completion (some other_exception) [] ≡ ([], some other_exception)
unfolding on_completion
rethrown = refl

-- A target that stands for a thread ends the program.
joinable_target : assign_thread (some 0) (some 1) ≡ none
unfolding assign_thread
joinable_target = refl

vacant_target : assign_thread (move_thread (some 0)).1 (some 1) ≡ some (some 1, none)
unfolding assign_thread move_thread
vacant_target = refl
