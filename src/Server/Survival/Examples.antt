-- ===== src/Server/Survival/Examples.antt =====
-- Connections on the threads of two workers.
use native.Mathlib.Decide.{dec_lt, dec_le}
use lundicpp.Base.{
  ℕ, suc, ◌≡◌, ◌==◌, refl, arith, Bytes, List, [], ◌∷◌, Bool, ◌&&◌, ◌||◌, false, not, Option, none,
  some, codes, bytes_eq,
}
use lundicpp.Base.Int.{pos}
use lundicpp.Request.{Request}
use lundicpp.Response.{Response, text_response}
use lundicpp.Middleware.{returned, thrown_other, Next}
use lundicpp.Server.Threads.{
  Context, Exception, other_exception, terminated, Phase-discrete, ListenCall, start_call, emplaced,
  served, on_start, on_worker, completed, Move, step, run,
}
use lundicpp.Server.Connection.{
  ServerOptions, StreamRoutes, Surroundings, Ending, abandoned, Connection, sse, handle_connection,
}
use lundicpp.Server.Connection.Spec.{SendsWhole}
use lundicpp.Server.Survival.{completion, handle_connection-spares}

abbrev opts : ServerOptions
opts = record { max_body_size = 100; max_header_size = 64; max_keepalive_requests = pos 2 }

abbrev routes : StreamRoutes
routes = sse (codes "/events") (record { ws_routes = []; sse_routes = []; stream_routes = [] })

abbrev around : Surroundings
around = record {
  headers_late = false;
  body_late = λ n. false;
  stopping = λ n. false;
  date = λ n. codes "now";
  stale = λ n view. [];
}

abbrev ok : Response
ok = text_response (codes "ok") (pos 200)

abbrev handler : Next ℕ
handler req w = (returned ok, req, suc w)

handler_whole : (req : Request) (w : ℕ) → SendsWhole (handler req w)
unfolding text_response
handler_whole req w = (refl, omega arith, omega arith)

abbrev chunks : List Bytes
chunks = codes "GET /a HT" ∷ (codes "TP/1.1\r\n\r\nGET /events HTTP/1.1\r\n\r\n" ∷ [])

abbrev may_return : ℕ → Context → Bool
may_return pending ctx = ctx.stopped || (not ctx.guarded && (pending == 0))

abbrev moves : List Move
moves = on_start emplaced ∷ (on_start emplaced ∷ (on_start served ∷ []))

serving_call : (s : ListenCall) × (run may_return moves (start_call 2) ≡ some s)
unfolding run start_call Phase-discrete dec_lt dec_le
serving_call = (_, refl)

handle_connection-spares_example :
    (ending : Ending) × (c : Connection ℕ) × (e : Option Exception) × (handle_connection opts routes
        around handler 7 chunks 5
      ≡ some (ending, c))
    × (completion ending ≡ some e)
    × (step may_return (on_worker 1 (completed e)) serving_call.0 ≡ some serving_call.0)
unfolding serving_call run start_call Phase-discrete dec_lt dec_le
handle_connection-spares_example =
    handle_connection-spares opts routes around handler may_return 7 chunks 5 1 serving_call.0
      handler_whole (λ req w. tt) refl refl

-- A handler that throws what is no `std::exception` ends the program.
abbrev rough : Next ℕ
rough req w = (thrown_other, req, w)

rough_ending : Option (Ending × Connection ℕ) → Option Ending
rough_ending none = none
rough_ending (some (ending, c)) = some ending

rough_abandons :
    rough_ending
      (handle_connection opts routes around rough 7 (codes "GET /a HTTP/1.1\r\n\r\n" ∷ []) 5)
    ≡ some abandoned
unfolding rough_ending handle_connection bytes_eq sse
rough_abandons = refl

abandoned_terminates :
    run may_return
      (on_start emplaced
        ∷ (on_start emplaced
            ∷ (on_start served ∷ (on_worker 1 (completed (some other_exception)) ∷ []))))
      (start_call 2)
    ≡ some (record serving_call.0 { phase = terminated })
unfolding run start_call Phase-discrete dec_lt dec_le serving_call
abandoned_terminates = refl
