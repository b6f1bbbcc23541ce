-- ===== src/Server/Survival.antt =====
-- server.hpp: what the end of `handle_connection` means for the thread of its worker, through the handler
-- that `spawn_safe` gives to `co_spawn`.
mod Examples
use lundicpp.Base.{
  ℕ, ◌≡◌, refl, sym, ap, ◌∙◌, Bytes, List, Bool, true, false, Option, none, some, get_elem?,
  if◌then◌else◌, ◌&&◌, bytes_eq, codes, only_if-holds,
}
use mathlib.Core.Bool.{Bool-discrete}
use mathlib.Core.Path.{subst}
use lundicpp.Request.{Request}
use lundicpp.Response.{Response}
use lundicpp.Middleware.{Outcome, returned, thrown, thrown_other, Next}
use lundicpp.WebSocket.Handshake.{is_ws_upgrade, ws_handshake_response}
use lundicpp.Sse.{sse_initial_headers}
use lundicpp.Chunked.{chunked_initial_headers}
use lundicpp.Server.Laws.{IsCaught}
use lundicpp.Server.Threads.{
  running, Context, Exception, other_exception, is_over, ListenCall, on_completion, completed,
  on_worker, after_worker, step,
}
use lundicpp.Server.Connection.{
  ServerOptions, StreamRoutes, Surroundings, Ending, closed, abandoned, faulted, upgraded, events,
  streaming, Connection, has_path, find_stream, take_over, handle_connection,
}
use lundicpp.Server.Connection.Spec.{
  SendsWhole, Handled, Run, quiet, over, refusal, unsent, failed, escaped, last, more,
}
use lundicpp.Server.Connection.Runs.{handle_connection-Run}

-- What the coroutine gives to the handler: the exception that leaves it, if any. The handlers of streams
-- are called inside `catch ( ... )`. Nothing is said of a run with a fault.
unfoldable pub completion : Ending → Option (Option Exception)
completion closed = some none
completion abandoned = some (some other_exception)
completion faulted = none
completion (upgraded req) = some none
completion (events req) = some none
completion (streaming req) = some none

-- The ends without an exception.
abbrev IsQuiet : Ending → Type 0
IsQuiet ending = completion ending ≡ some none

abbrev IsQuietly : Option (Ending × Bytes) → Type 0
IsQuietly none = Unit
IsQuietly (some (ending, text)) = IsQuiet ending

-- Whatever stream takes the connection over.
take_over-IsQuietly :
    (routes : StreamRoutes) (date : Bytes) (req : Request) → IsQuietly (take_over routes date req)
unfolding take_over completion
take_over-IsQuietly routes date req =
    go (is_ws_upgrade req && has_path req.path routes.ws_routes)
      (bytes_eq req.method (codes "GET") && has_path req.path routes.sse_routes)
      (find_stream req.path routes.stream_routes)
  where
    go :
        (is_ws is_sse : Bool) (o : Option Bytes)
        → IsQuietly (
            if is_ws
            then some (upgraded req, ws_handshake_response req)
            else if is_sse
            then some (events req, sse_initial_headers date)
            else elim o [
              | none ↦ none
              | some content_type ↦ some (streaming req, chunked_initial_headers date content_type)
            ])
    go true is_sse o = refl
    go false true o = refl
    go false false none = tt
    go false false (some content_type) = refl

over-IsQuiet :
    (routes : StreamRoutes) (date : Bytes) (req : Request) (ending : Ending) (text : Bytes)
    → take_over routes date req ≡ some (ending, text)
    → IsQuiet ending
over-IsQuiet routes date req ending text e = subst IsQuietly e (take_over-IsQuietly routes date req)

module _ {ℓ} {W : Type ℓ} (opts : ServerOptions) (routes : StreamRoutes) (around : Surroundings)
    (handler : Next W) where
  -- Where a handler ends with no exception but those under `std::exception`, so does the coroutine.
  Run-IsQuiet :
      {n : ℕ} {w : W} {writes : ℕ} {s : Bytes} {sent : List Bytes} {ending : Ending}
      → ((req : Request) (w : W) → IsCaught (handler req w).0)
      → Run opts around routes handler n w writes s sent ending
      → IsQuiet ending
  unfolding completion
  Run-IsQuiet tame (quiet silent) = refl
  Run-IsQuiet tame (over h rest text ending head taken) = over-IsQuiet routes _ _ ending text taken
  Run-IsQuiet tame (refusal h rest err head refused) = refl
  Run-IsQuiet tame (unsent h rest head) = refl
  Run-IsQuiet tame (failed handled) = refl
  Run-IsQuiet {w = w} tame (escaped {req = req} handled) = absurd (
      subst (λ (o : Outcome Response × Request × W). IsCaught o.0) handled.result
        (tame handled.seen w))
  Run-IsQuiet tame (last handled stays) = refl
  Run-IsQuiet tame (more handled stays run) = Run-IsQuiet tame run

  -- A connection does no harm to its worker: where every handler ends with a response that can be written
  -- or an exception under `std::exception`, the coroutine ends, whatever the peer sends and in
  -- whatever pieces, and the step of its thread leaves everything else as it is, with nothing logged.
  pub handle_connection-spares :
      (may_return : ℕ → Context → Bool) (w : W) (incoming : List Bytes) (writes i : ℕ)
      (s : ListenCall)
      → ((req : Request) (w : W) → SendsWhole (handler req w))
      → ((req : Request) (w : W) → IsCaught (handler req w).0)
      → is_over s.phase ≡ false
      → get_elem? s.threads i ≡ some running
      → (ending : Ending) × (c : Connection W) × (e : Option Exception) × (handle_connection opts
            routes around handler w incoming writes
          ≡ some (ending, c))
        × (completion ending ≡ some e)
        × (step may_return (on_worker i (completed e)) s ≡ some s)
  unfolding step lundicpp.Server.Threads.worker_step after_worker on_completion
  handle_connection-spares may_return w incoming writes i s sends tame going runs =
      let (ending, c, result, run) =
        handle_connection-Run opts routes around handler w incoming writes sends in
      (
        ending,
        c,
        none,
        result,
        Run-IsQuiet tame run,
        only_if-holds (Bool-discrete (is_over s.phase) false) _ going
            ∙ ap (λ o. after_worker (s.cerr, none) o s) runs,
      )
