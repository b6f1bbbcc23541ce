-- ===== src/Sse.antt =====
-- sse.hpp: the class `sse_stream` on a stream socket and `sse_initial_headers`.
pub mod Events
mod Examples
use lundicpp.Base.{ℕ, Bytes, [], ◌∷◌, ◌++◌, is_empty, if◌then◌else◌, codes, take}
use lundicpp.Engine.Buffer.{empty_buffer, append, contents}
use lundicpp.Response.{raw}
use lundicpp.Socket.{Io, async_write}

-- `frame += "event: "` and so on, where the value is not empty.
unfoldable pub optional_line : Bytes → Bytes → Bytes
optional_line field value = if is_empty value then [] else field ++ (value ++ codes "\n")

-- `send`, of data alone, with the name of the event, and with its id too.
unfoldable pub send : Bytes → Io (Unit {0})
unfolding async_write
send data_text = async_write (codes "data: " ++ (data_text ++ codes "\n\n"))

unfoldable pub send_event : Bytes → Bytes → Io (Unit {0})
unfolding async_write optional_line
send_event data_text event =
    async_write
      (optional_line (codes "event: ") event ++ (codes "data: " ++ (data_text ++ codes "\n\n")))

unfoldable pub send_event_id : Bytes → Bytes → Bytes → Io (Unit {0})
unfolding async_write optional_line
send_event_id data_text event id = async_write (
    optional_line (codes "id: ") id
    ++ (optional_line (codes "event: ") event ++ (codes "data: " ++ (data_text ++ codes "\n\n"))))

-- 14 bytes of the literal, the last of which is the zero at its end.
unfoldable pub heartbeat : Io (Unit {0})
unfolding async_write
heartbeat = async_write (raw (codes ": heartbeat\n\n") 14)

-- `date` is what the date cache shows.
unfoldable pub sse_initial_headers : Bytes → Bytes
unfolding append empty_buffer
sse_initial_headers date = contents (
    append (raw (codes "\r\n") 2) (
      append (codes "Access-Control-Allow-Origin: *\r\n") (
        append (codes "Connection: keep-alive\r\n") (
          append (codes "Cache-Control: no-cache\r\n") (
            append (codes "Content-Type: text/event-stream\r\n") (
              append (raw (codes "\r\n") 2) (
                append date (
                  append (codes "Server: Lundi\r\nDate: ")
                    (append (codes "HTTP/1.1 200 OK\r\n") (empty_buffer 256))))))))))
