-- ===== src/Server/Connection.antt =====
-- server.hpp: `handle_connection`, its loop over the requests of one connection.
mod Setup
pub mod Streams
pub mod Spec
pub mod Bodies
pub mod Answers
pub mod Rounds
pub mod Runs
pub mod Limits
pub mod Heads
pub mod Requests
pub mod Pipelines
pub mod Ends
pub mod Sendable
pub mod Sessions
mod SessionExamples
mod Examples
use lundicpp.Base.{
  ℕ, zero, suc, ◌+◌, ◌-◌, ◌^◌, Bytes, List, [], ◌∷◌, ◌++◌, Bool, true, false, ◌&&◌, ◌||◌, not,
  Option, none, some, map, ltb, leb, ◌==◌, if◌then◌else◌, length, take, drop, bytes_eq, is_empty,
  codes,
}
use lundicpp.Base.Int.{ℤ, pos, negsuc}
use lundicpp.Base.Decimal.{FromChars, parsed, invalid_argument, result_out_of_range, from_chars}
use lundicpp.Engine.Buffer.{Buffer, empty_buffer, contents, clear, consume, ensure_write, receive}
use lundicpp.Request.{Request, parse_headers}
use lundicpp.Request.Lookup.{find_header_ci, header_equals}
use lundicpp.Response.{Response, text_response, set_header, serialize, serialize_into}
use lundicpp.Middleware.{Outcome, returned, thrown, thrown_other, Next}
use lundicpp.Server.Read.{ReadResult, read_headers, read_headers_with_timeout}
use lundicpp.Server.Delivery.{concat}
use lundicpp.WebSocket.Handshake.{is_ws_upgrade, ws_handshake_response}
use lundicpp.Sse.{sse_initial_headers}
use lundicpp.Chunked.{chunked_initial_headers}
unfoldable pub use Setup.*

-- `buffer.clear()` or `buffer.consume( consumed )`.
unfoldable pub drop_consumed : ℕ → Buffer → Buffer
unfolding clear consume
drop_consumed consumed buffer =
    if leb buffer.size consumed then clear buffer else consume consumed buffer

module _ {ℓ} {W : Type ℓ} where
  -- `asio::async_write`, and the end of the connection where it throws.
  unfoldable pub write_then : Bytes → Connection W → (Connection W → Round W) → Round W
  write_then text c k = elim c.writes [
    | zero ↦ stop closed c
    | suc left ↦ k (record c { sent = c.sent ++ text ∷ []; writes = left })
  ]

  -- `asio::async_write` of what `serialize` returns, and the end.
  unfoldable pub send_error : Option Bytes → Connection W → Round W
  unfolding write_then
  send_error none c = stop faulted c
  send_error (some text) c = write_then text c (stop closed)

  -- `response::text( … )` with a header that closes, and the end.
  unfoldable pub refuse : Response → Bytes → Connection W → Round W
  unfolding serialize set_header send_error
  refuse err date c =
      send_error (serialize (set_header (codes "Connection") (codes "close") err) date) c

  -- The write of what `serialize_into` left in `out_buf`, and the bytes of the request are dropped.
  unfoldable pub send_response : Bool → ℕ → Option Buffer → Connection W → Round W
  unfolding write_then drop_consumed
  send_response keep_alive consumed none c = stop faulted c
  send_response keep_alive consumed (some out_buf) c =
      write_then (contents out_buf) (record c { out_buf = out_buf })
        (λ c'. next keep_alive (record c' { buffer = drop_consumed consumed c'.buffer }))

  -- Behind the handler.
  unfoldable pub respond : Bool → Bytes → ℕ → Response → Connection W → Round W
  unfolding serialize_into set_header clear send_response
  respond keep_alive date consumed res c =
      send_response keep_alive consumed
        (serialize_into
          (if keep_alive then res else set_header (codes "Connection") (codes "close") res) date
          (clear c.out_buf))
        c

  -- What the handler ended with.
  unfoldable pub handled :
      Bool → Bytes → ℕ → Outcome Response × Request × W → Connection W → Round W
  unfolding respond
  handled keep_alive date consumed (returned res, req, w) c =
      respond keep_alive date consumed res (record c { world = w })
  handled keep_alive date consumed (thrown what, req, w) c = stop closed (record c { world = w })
  handled keep_alive date consumed (thrown_other, req, w) c =
      stop abandoned (record c { world = w })

  module _ (opts : ServerOptions) (routes : StreamRoutes) (around : Surroundings)
      (handler : Next W) where
    -- A request with what became of its body. The handler gets it as its views show it by then; the three
    -- tests of whether the connection stays open came before the body.
    unfoldable pub with_body : ℕ → Request → BodyRead → Connection W → Round W
    unfolding refuse handled stays_open
    with_body header_end req (refused err) c = refuse err (around.date c.request_count) c
    with_body header_end req (read_whole content_length seen buffer incoming) c =
        handled (stays_open opts around c.request_count req) (around.date c.request_count)
          (header_end + content_length) (handler seen c.world)
          (record c { buffer = buffer; incoming = incoming })

    -- A request without a stream of its own.
    unfoldable pub normal_http : ℕ → Request → Connection W → Round W
    unfolding with_body read_body
    normal_http header_end req c =
        with_body header_end req
          (read_body opts (around.stale c.request_count) (around.body_late c.request_count)
            header_end req c.buffer c.incoming)
          c

    -- A request with the stream that takes it over, if there is one.
    unfoldable pub with_stream : ℕ → Request → Option (Ending × Bytes) → Connection W → Round W
    unfolding write_then normal_http
    with_stream header_end req (some (ending, text)) c = write_then text c (stop ending)
    with_stream header_end req none c = normal_http header_end req c

    -- Behind the headers, which are the first `header_end` bytes.
    unfoldable pub on_headers : ℕ → Connection W → Round W
    unfolding parse_headers take_over with_stream
    on_headers header_end c =
        let req = parse_headers (take header_end c.buffer.bytes) in
        let count = suc c.request_count in
        if is_empty req.method
        then stop closed c
        else with_stream header_end req (take_over routes (around.date count) req)
            (record c { request_count = count })

    -- What reading the headers gives: an exception and the end 0 close the connection.
    unfoldable pub on_read : ReadResult → Connection W → Round W
    unfolding on_headers
    on_read none c = stop closed c
    on_read (some (zero, b, incoming)) c = stop closed c
    on_read (some (suc n, b, incoming)) c =
        on_headers (suc n) (record c { buffer = b; incoming = incoming })

    -- Only the headers of the first request have a timer.
    unfoldable pub one_round : Connection W → Round W
    unfolding read_headers read_headers_with_timeout on_read
    one_round c =
        on_read
          (if c.request_count == 0
            then read_headers_with_timeout around.headers_late opts.max_header_size c.incoming
                c.buffer
            else read_headers opts.max_header_size c.incoming c.buffer)
          c

    -- `while( keep_alive )`; without fuel the result is `none`.
    unfoldable pub loop : ℕ → Connection W → Option (Ending × Connection W)
    unfolding one_round
    loop zero c = none
    loop (suc fuel) c = elim (one_round c) [
      | stop ending c' ↦ some (ending, c')
      | next true c' ↦ loop fuel c'
      | next false c' ↦ some (closed, c')
    ]

  -- The locals at the start.
  abbrev pub new_connection : W → List Bytes → ℕ → Connection W
  new_connection w incoming writes = record {
    buffer = empty_buffer 8192;
    out_buf = empty_buffer 4096;
    incoming = incoming;
    sent = [];
    writes = writes;
    request_count = 0;
    world = w;
  }

  -- The whole coroutine. Each round but the last takes a byte at least off what is to come, so that
  -- its length and one more is fuel enough.
  unfoldable pub handle_connection :
      ServerOptions
      → StreamRoutes
      → Surroundings
      → Next W
      → W
      → List Bytes
      → ℕ
      → Option (Ending × Connection W)
  unfolding loop
  handle_connection opts routes around handler w incoming writes =
      loop opts routes around handler (suc (length (concat incoming)))
        (new_connection w incoming writes)
