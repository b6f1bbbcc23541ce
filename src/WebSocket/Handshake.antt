-- ===== src/WebSocket/Handshake.antt =====
-- ws.hpp: `ws_accept_key`, `is_ws_upgrade` and `ws_handshake_response`.
use lundicpp.Base.{Bytes, Bool, ◌&&◌, not, codes, is_empty, take}
use lundicpp.Engine.Buffer.{empty_buffer, append, contents}
use lundicpp.Request.{Request}
use lundicpp.Request.Lookup.{header, header_equals}
use lundicpp.Response.{raw}
use lundicpp.WebSocket.Sha1.{new_sha1, update, finalize}
use lundicpp.WebSocket.Base64.{base64_encode}

abbrev pub magic : Bytes
magic = codes "258EAFA5-E914-47DA-95CA-5AB964C0FA65"

unfoldable pub ws_accept_key : Bytes → Bytes
unfolding update finalize base64_encode
ws_accept_key client_key =
    base64_encode (finalize (update (take 36 magic) (update client_key new_sha1)))

unfoldable pub is_ws_upgrade : Request → Bool
unfolding header_equals header
is_ws_upgrade req =
    header_equals (codes "upgrade") (codes "websocket") req.headers
    && not (is_empty (header (codes "sec-websocket-key") req.headers))

unfoldable pub ws_handshake_response : Request → Bytes
unfolding append empty_buffer header ws_accept_key
ws_handshake_response req =
    let accept = ws_accept_key (header (codes "sec-websocket-key") req.headers) in
    contents (
      append (raw (codes "\r\n\r\n") 4) (
        append accept (
          append (raw (codes "Sec-WebSocket-Accept: ") 22) (
            append (raw (codes "Connection: Upgrade\r\n") 21) (
              append (raw (codes "Upgrade: websocket\r\n") 20) (
                append (raw (codes "HTTP/1.1 101 Switching Protocols\r\n") 34)
                  (empty_buffer 256)))))))
