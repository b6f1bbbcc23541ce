-- ===== src/Server/Connection/Examples.antt =====
-- Two pipelined requests in chunks that cut them anywhere.
use lundicpp.Base.{ℕ, suc, ◌≡◌, ◌≤◌, refl, Bytes, List, [], ◌∷◌, false, some, length, codes, arith}
use lundicpp.Base.Int.{pos}
use lundicpp.Request.{Request}
use lundicpp.Response.{Response, text_response}
use lundicpp.Middleware.{returned, Next}
use lundicpp.Server.Delivery.{concat}
use lundicpp.Server.Connection.{
  ServerOptions, StreamRoutes, Surroundings, Ending, Connection, ws, sse, stream, handle_connection,
}
use lundicpp.Server.Connection.Spec.{Run, SendsWhole}
use lundicpp.Server.Connection.Runs.{handle_connection-Run}
use lundicpp.Server.Connection.Limits.{handle_connection-bounded}

abbrev opts : ServerOptions
opts = record { max_body_size = 100; max_header_size = 64; max_keepalive_requests = pos 2 }

abbrev routes : StreamRoutes
routes = ws (codes "/chat") (
    sse (codes "/events") (
      stream (codes "/download") (codes "text/plain")
        (record { ws_routes = []; sse_routes = []; stream_routes = [] })))

abbrev around : Surroundings
around = record {
  headers_late = false;
  body_late = λ n. false;
  stopping = λ n. false;
  date = λ n. codes "now";
  stale = λ n view. [];
}

-- A handler that counts its requests.
abbrev ok : Response
ok = text_response (codes "ok") (pos 200)

abbrev handler : Next ℕ
handler req w = (returned ok, req, suc w)

handler_whole : (req : Request) (w : ℕ) → SendsWhole (handler req w)
unfolding text_response
handler_whole req w = (refl, omega arith, omega arith)

abbrev chunks : List Bytes
chunks =
    codes "GET /a HT" ∷ codes "TP/1.1\r\n\r\nGET /b HTTP/1.1\r\nHo" ∷ codes "st: h\r\n\r\nmore" ∷ []

handle_connection-Run_example :
    (e : Ending) × (c : Connection ℕ) × (handle_connection opts routes around handler 7 chunks 5
      ≡ some (e, c))
    × Run opts around routes handler 0 7 5 (concat chunks) c.sent e
handle_connection-Run_example =
    handle_connection-Run opts routes around handler 7 chunks 5 handler_whole

handle_connection-bounded_example :
    (e : Ending) × (c : Connection ℕ) × (handle_connection opts routes around handler 7 chunks 5
      ≡ some (e, c))
    × (length c.sent ≤ 2)
handle_connection-bounded_example =
    handle_connection-bounded opts routes around handler 1 7 chunks 5 handler_whole refl
