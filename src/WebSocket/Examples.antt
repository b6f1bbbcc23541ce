-- ===== src/WebSocket/Examples.antt =====
-- Digests of known texts, a handshake, and a stream of frames.
use lundicpp.Base.{suc, ◌+◌, ◌≡◌, refl, List, [], ◌∷◌, ◌++◌, Option, none, some, true, codes, arith}
use lundicpp.Socket.{Socket}
use lundicpp.Request.{Request, new_request}
use lundicpp.WebSocket.Sha1.{new_sha1, update, finalize}
use lundicpp.WebSocket.Base64.{base64_encode}
use lundicpp.WebSocket.Handshake.{ws_accept_key}
use lundicpp.WebSocket.Frame.{WsMessage, read_fuel, read}
use lundicpp.WebSocket.Wire.{MaskKey, Frame, frame_text, socket}
use lundicpp.WebSocket.Messages.{
  Control, ping_frame, pong_frame, controls_text, server_frame, message, read-Verdict,
}
use lundicpp.WebSocket.Termination.{read-more}

abc_digest :
    base64_encode (finalize (update (codes "abc") new_sha1)) ≡ codes "qZk+NkcGgWq6PiVxeFDCbJzQ2J0="
unfolding base64_encode finalize
abc_digest = refl

-- The client key of the example in RFC 6455, section 1.3, which has another key in its answer.
accept_key : ws_accept_key (codes "dGhlIHNhbXBsZSBub25jZQ==") ≡ codes "vTq0wc03KbKQkeDiHIoEWZ8DhJs="
unfolding ws_accept_key
accept_key = refl

-- A masked ping and a masked text frame, with one byte of the next frame behind them.
abbrev client_key : MaskKey
client_key = record { k0 = 55; k1 = 250; k2 = 33; k3 = 61 }

abbrev hello : Frame
hello = record { fin = true; opcode = 1; key = some client_key; payload = codes "Hello" }

abbrev controls : List Control
controls = ping_frame true (some client_key) (codes "hi") ∷ pong_frame true none [] ∷ []

read-Verdict_example :
    read 100 (socket (controls_text controls (frame_text hello ++ 129 ∷ [])) [] 2) ≡ (
      some (some (record { opcode = 1; text = codes "Hello" })),
      socket (129 ∷ []) (frame_text (server_frame 10 (codes "hi")) ∷ []) 1,
    )
read-Verdict_example =
    read-Verdict 100 controls hello {m = some (record { opcode = 1; text = codes "Hello" })}
      {sent = []} (129 ∷ []) [] 1 (ground arith, (ground arith, tt)) (ground arith)
      (message refl (omega arith) (omega arith) (omega arith) (omega arith))

abbrev stream : Socket
stream = socket (0x89 ∷ 0x80 ∷ 1 ∷ 2 ∷ 3 ∷ 4 ∷ 0x82 ∷ 1 ∷ 7 ∷ []) [] 2

read-more_example :
    (read_fuel (suc 9 + 5) 100 stream ≡ read 100 stream)
    × ((m : Option WsMessage) × ((read 100 stream).0 ≡ some m))
read-more_example = read-more 5 100 stream

abbrev upgrade : Request
upgrade = record new_request {
  headers =
      record { name = codes "Sec-WebSocket-Key"; value = codes "dGhlIHNhbXBsZSBub25jZQ==" } ∷ [];
}
