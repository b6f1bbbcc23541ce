-- ===== src/Server/Connection/SessionExamples.antt =====
-- A session of two requests on a route with a parameter, in chunks that cut them anywhere.
use lundicpp.Base.{
  ℕ, suc, zero, ◌≡◌, refl, Bytes, List, [], ◌∷◌, ◌++◌, false, none, some, length, codes, arith,
  bytes_eq, map,
}
use lundicpp.Base.Int.{pos, from_chars_int}
use lundicpp.Request.{Request}
use lundicpp.Request.Parse.{bare, with_query}
use lundicpp.Response.{Response, text_response}
use lundicpp.Router.{RouteEntry, match_route, parse_pattern, int_value}
use lundicpp.Router.Match.{same, number, next, done}
use lundicpp.Router.Resolve.{hit, pass}
use lundicpp.Middleware.{returned, Next}
use lundicpp.Server.{StaticFiles, internal_error}
use lundicpp.Server.Routes.{app_handler, get, post, group_register}
use lundicpp.Server.Connection.{
  ServerOptions, StreamRoutes, Surroundings, closed, Connection, take_over, stays_open,
  handle_connection,
}
use lundicpp.Server.Connection.Pipelines.{wires}
use lundicpp.Server.Connection.Spec.{IsSendable}
use lundicpp.Server.Connection.Sessions.{
  Written, IsWritten, Exchange, Session, closes, keeps, handle_connection-Session,
}

abbrev opts : ServerOptions
opts = record { max_body_size = 100; max_header_size = 80; max_keepalive_requests = pos 0 }

abbrev routes : StreamRoutes
routes = record { ws_routes = []; sse_routes = []; stream_routes = [] }

abbrev around : Surroundings
around = record {
  headers_late = false;
  body_late = λ n. false;
  stopping = λ n. false;
  date = λ n. codes "now";
  stale = λ n view. [];
}

abbrev no_files : StaticFiles
no_files = record { has_mounts = false; try_serve = λ path req. returned none }

abbrev ok : Response
ok = text_response (codes "ok") (pos 200)

-- It counts its requests.
abbrev user : Next ℕ
user req w = (returned ok, req, suc w)

abbrev table : List (RouteEntry (Next ℕ))
table =
    group_register (codes "api/") post (codes "/<int:id>") user
      (group_register (codes "api/") get (codes "/<int:id>") user [])

abbrev first : Written
first = record {
  method = codes "GET";
  target = with_query (codes "/api/7") (codes "x=1");
  version = codes "HTTP/1.1";
  lines = record { name = codes "Host"; blanks = 32 ∷ []; value = codes "h" } ∷ [];
}

abbrev second : Written
second = record {
  method = codes "POST";
  target = bare (codes "/api/8");
  version = codes "HTTP/1.1";
  lines = record { name = codes "Connection"; blanks = 32 ∷ []; value = codes "close" } ∷ [];
}

first-IsWritten : IsWritten opts first
first-IsWritten = record {
  has_method = omega arith;
  method_inline = ground arith;
  version_inline = ground arith;
  target_inline = ground arith;
  are_lines = ground arith;
  short = omega arith;
}

second-IsWritten : IsWritten opts second
second-IsWritten = record {
  has_method = omega arith;
  method_inline = ground arith;
  version_inline = ground arith;
  target_inline = ground arith;
  are_lines = ground arith;
  short = omega arith;
}

first-Exchange : Exchange opts routes around user table no_files 0 4 first ok 5
unfolding take_over stays_open bytes_eq group_register match_route parse_pattern internal_error
    from_chars_int lundicpp.Base.Decimal.from_chars lundicpp.Url.url_decode
first-Exchange = record {
  written = first-IsWritten;
  handler = user;
  params = record { name = codes "id"; value = int_value (pos 7) } ∷ [];
  selects = hit refl (next (same refl) (next (number refl) done)) refl;
  req' = _;
  result = refl;
  no_stream = refl;
  no_length = refl;
}

second-Exchange : Exchange opts routes around user table no_files 1 5 second ok 6
unfolding take_over stays_open bytes_eq group_register match_route parse_pattern internal_error
    from_chars_int lundicpp.Base.Decimal.from_chars lundicpp.Url.url_decode
second-Exchange = record {
  written = second-IsWritten;
  handler = user;
  params = record { name = codes "id"; value = int_value (pos 8) } ∷ [];
  selects =
      pass (λ same_method. absurd (cc))
        (hit refl (next (same refl) (next (number refl) done)) refl);
  req' = _;
  result = refl;
  no_stream = refl;
  no_length = refl;
}

both : Session opts routes around user table no_files 0 4 (first ∷ second ∷ []) (ok ∷ ok ∷ [])
unfolding stays_open bytes_eq
both = keeps first-Exchange refl (closes second-Exchange refl)

user_polite : (req : Request) (w : ℕ) → IsSendable ok
unfolding text_response
user_polite req w = (refl, omega arith, omega arith)

handle_connection-Session_example :
    (c : Connection ℕ) × (handle_connection opts routes around
        (app_handler user [] table no_files)
        4
        (codes "GET /api/7?x=1 HT"
          ∷ codes "TP/1.1\r\nHost: h\r\n\r\nPOST /api"
          ∷ codes "/8 HTTP/1.1\r\nConnection: close\r\n\r\nmore"
          ∷ [])
        2
      ≡ some (closed, c))
    × (c.sent ≡ wires opts routes around (app_handler user [] table no_files) 0 (ok ∷ ok ∷ []))
unfolding group_register
handle_connection-Session_example =
    handle_connection-Session opts routes around user table no_files 4 (first ∷ second ∷ [])
      (ok ∷ ok ∷ []) (codes "more")
      (codes "GET /api/7?x=1 HT"
        ∷ codes "TP/1.1\r\nHost: h\r\n\r\nPOST /api"
        ∷ codes "/8 HTTP/1.1\r\nConnection: close\r\n\r\nmore"
        ∷ [])
      2 (user_polite, (user_polite, tt)) (λ r. tt) refl both (omega arith) refl
