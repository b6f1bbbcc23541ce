-- ===== src/Server/Connection/Setup.antt =====
-- server.hpp: what `handle_connection` is given and keeps, the streams that take a connection over, and the
-- part that reads a body.
use lundicpp.Base.{
  ℕ, zero, suc, ◌-◌, ◌^◌, Bytes, List, [], ◌∷◌, ◌++◌, Bool, true, false, ◌&&◌, ◌||◌, not, Option,
  none, some, ltb, leb, if◌then◌else◌, length, take, drop, map, bytes_eq, codes,
}
use lundicpp.Base.Int.{ℤ, pos, negsuc}
use lundicpp.Base.Decimal.{parsed, invalid_argument, result_out_of_range, from_chars}
use lundicpp.Engine.Buffer.{Buffer, ensure_write, receive, write_capacity}
use lundicpp.Request.{Request}
use lundicpp.Request.Lookup.{find_header_ci, header_equals}
use lundicpp.Response.{Response, text_response}
use lundicpp.WebSocket.Handshake.{is_ws_upgrade, ws_handshake_response}
use lundicpp.Sse.{sse_initial_headers}
use lundicpp.Chunked.{chunked_initial_headers}
use lundicpp.Server.{group_prefix}

-- The options that the loop reads.
pub record ServerOptions : Type 0 where
  pub max_body_size : ℕ
  pub max_header_size : ℕ
  pub max_keepalive_requests : ℤ

-- The paths of `ws_routes_`, `sse_routes_` and `stream_routes_`, the last with their content types.
pub record StreamRoutes : Type 0 where
  pub ws_routes : List Bytes
  pub sse_routes : List Bytes
  pub stream_routes : List (Bytes × Bytes)

-- `ws`, `sse` and `stream`; a new entry hides an older one of the same path.
unfoldable pub ws : Bytes → StreamRoutes → StreamRoutes
ws path routes = record routes { ws_routes = path ∷ routes.ws_routes }

unfoldable pub sse : Bytes → StreamRoutes → StreamRoutes
sse path routes = record routes { sse_routes = path ∷ routes.sse_routes }

unfoldable pub stream : Bytes → Bytes → StreamRoutes → StreamRoutes
stream path content_type routes = record routes {
  stream_routes = (path, content_type) ∷ routes.stream_routes;
}

-- The same in a group made with `prefix`.
unfoldable pub group_ws : Bytes → Bytes → StreamRoutes → StreamRoutes
unfolding ws group_prefix
group_ws prefix path routes = ws (group_prefix prefix ++ path) routes

unfoldable pub group_sse : Bytes → Bytes → StreamRoutes → StreamRoutes
unfolding sse group_prefix
group_sse prefix path routes = sse (group_prefix prefix ++ path) routes

unfoldable pub group_stream : Bytes → Bytes → Bytes → StreamRoutes → StreamRoutes
unfolding stream group_prefix
group_stream prefix path content_type routes =
    stream (group_prefix prefix ++ path) content_type routes

-- What the clock and the other threads do: whether the timer of the first headers goes off before
-- they are read, and for the request of each number whether that of its body does, whether
-- the server is stopping, and what the date cache shows. `stale` is what a view shows that was made of
-- these bytes, once the string or the vector that held them is gone.
pub record Surroundings : Type 0 where
  pub headers_late : Bool
  pub body_late : ℕ → Bool
  pub stopping : ℕ → Bool
  pub date : ℕ → Bytes
  pub stale : ℕ → Bytes → Bytes

-- How the coroutine ends: the loop is left and the socket shut down, an exception that is no
-- `std::exception` leaves it, or the handler of a stream takes the connection over. A fault is a write
-- outside a buffer.
pub data Ending : Type 0 where
  closed abandoned faulted : Ending
  upgraded events streaming : Request → Ending

-- The locals of the coroutine with the two directions of the socket: what its reads will deliver, what
-- was written, and how many more writes end without an exception. `W` is all that handlers share.
pub record Connection {ℓ} (W : Type ℓ) : Type ℓ where
  pub buffer : Buffer
  pub out_buf : Buffer
  pub incoming : List Bytes
  pub sent : List Bytes
  pub writes : ℕ
  pub request_count : ℕ
  pub world : W

-- One round of the loop: the next one, with `keep_alive`, or the end.
pub data Round {ℓ} (W : Type ℓ) : Type ℓ where
  next : Bool → Connection W → Round W
  stop : Ending → Connection W → Round W

-- `asio::async_read` of `n` bytes from a socket that delivers these chunks.
abbrev pub take_exactly : ℕ → List Bytes → Option (Bytes × List Bytes)
take_exactly zero incoming = some ([], incoming)
take_exactly (suc n) [] = none
take_exactly (suc n) (chunk ∷ incoming) =
    let rest = take_exactly (suc n - length chunk) incoming in
    if ltb (suc n) (length chunk)
    then some (take (suc n) chunk, drop (suc n) chunk ∷ incoming)
    else elim rest [ none ↦ none | some (t, left) ↦ some (chunk ++ t, left) ]

-- `find( path ) != end()`.
unfoldable pub has_path : Bytes → List Bytes → Bool
has_path path [] = false
has_path path (p ∷ paths) = bytes_eq p path || has_path path paths

unfoldable pub find_stream : Bytes → List (Bytes × Bytes) → Option Bytes
find_stream path [] = none
find_stream path ((p, content_type) ∷ routes) =
    if bytes_eq p path then some content_type else find_stream path routes

-- The stream that takes the connection over, with what is written before its handler is called.
unfoldable pub take_over : StreamRoutes → Bytes → Request → Option (Ending × Bytes)
unfolding has_path find_stream is_ws_upgrade ws_handshake_response sse_initial_headers
    chunked_initial_headers
take_over routes date req =
    if is_ws_upgrade req && has_path req.path routes.ws_routes
    then some (upgraded req, ws_handshake_response req)
    else if bytes_eq req.method (codes "GET") && has_path req.path routes.sse_routes
    then some (events req, sse_initial_headers date)
    else elim (find_stream req.path routes.stream_routes) [
      | none ↦ none
      | some content_type ↦ some (streaming req, chunked_initial_headers date content_type)
    ]

-- `opts.max_keepalive_requests > 0 && request_count >= opts.max_keepalive_requests`.
unfoldable pub hit_limit : ℤ → ℕ → Bool
hit_limit (pos zero) request_count = false
hit_limit (pos (suc n)) request_count = leb (suc n) request_count
hit_limit (negsuc n) request_count = false

-- `keep_alive` behind the three tests.
unfoldable pub stays_open : ServerOptions → Surroundings → ℕ → Request → Bool
unfolding hit_limit header_equals
stays_open opts around count req = not (
    header_equals (codes "connection") (codes "close") req.headers
    || (hit_limit opts.max_keepalive_requests count || around.stopping count))

-- The part that reads the body: refused with a response, or read, with `content_length`, the request
-- that its views show by then, the buffer and the rest of the socket.
pub data BodyRead : Type 0 where
  refused : Response → BodyRead
  read_whole : ℕ → Request → Buffer → List Bytes → BodyRead

abbrev pub too_large : Response
too_large = text_response (codes "Payload Too Large") (pos 413)

abbrev pub timed_out : Response
timed_out = text_response (codes "Request Timeout") (pos 408)

-- The members of a request that are views of the read buffer, where its vector was reallocated.
unfoldable pub stale_views : (Bytes → Bytes) → Request → Request
stale_views stale req = record req {
  method = stale req.method;
  raw_path = stale req.raw_path;
  headers = map (λ h. record { name = stale h.name; value = stale h.value }) req.headers;
}

-- `req.body`, a view of the temporary string that holds the next `content_length` bytes.
unfoldable pub with_stale_body : (Bytes → Bytes) → ℕ → ℕ → Buffer → Request → Request
with_stale_body stale header_end content_length buffer req = record req {
  body = stale (take content_length (drop header_end buffer.bytes));
}

-- The bytes that are missing; the read fails or the timer goes off, and then `||` ends with the timer.
-- Where `ensure_write` has to resize the vector, the views of the headers are stale.
unfoldable pub read_rest :
    (Bytes → Bytes) → Bool → ℕ → ℕ → ℕ → Request → Buffer → List Bytes → BodyRead
unfolding ensure_write receive stale_views with_stale_body
read_rest stale late header_end content_length zero req buffer incoming =
    read_whole content_length (with_stale_body stale header_end content_length buffer req) buffer
      incoming
read_rest stale true header_end content_length (suc missing) req buffer incoming = refused timed_out
read_rest stale false header_end content_length (suc missing) req buffer incoming =
    let kept = if ltb (write_capacity buffer) (suc missing) then stale_views stale req else req in
    elim (take_exactly (suc missing) incoming) [
      | none ↦ refused timed_out
      | some (t, left) ↦
          let b = receive t (ensure_write (suc missing) buffer) in
          read_whole content_length (with_stale_body stale header_end content_length b kept) b left
    ]

unfoldable pub read_body :
    ServerOptions → (Bytes → Bytes) → Bool → ℕ → Request → Buffer → List Bytes → BodyRead
unfolding find_header_ci from_chars read_rest
read_body opts stale late header_end req buffer incoming =
    elim (find_header_ci (codes "content-length") req.headers) [
      | none ↦ read_whole 0 req buffer incoming
      | some cl_val ↦ elim (from_chars (2 ^ 64 - 1) cl_val) [
        | invalid_argument ↦ refused too_large
        | result_out_of_range ↦ refused too_large
        | parsed content_length rest ↦
            if ltb opts.max_body_size content_length
            then refused too_large
            else read_rest stale late header_end content_length
                (content_length - (buffer.size - header_end)) req buffer incoming
      ]
    ]
