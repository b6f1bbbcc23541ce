-- ===== src/WebSocket/Frame.antt =====
-- ws.hpp, class `websocket`: `write_frame`, the calls that send, and `read`.
use Prim.Native.Nat.{bit_and, bit_or, bit_xor}
use lundicpp.Base.{
  ℕ, zero, suc, ◌+◌, ◌*◌, ◌/◌, ◌%◌, ◌^◌, Bytes, [], ◌∷◌, ◌++◌, Bool, not, ◌||◌, Option, none, some,
  ltb, leb, ◌==◌, if◌then◌else◌, length, get_or,
}
use lundicpp.Socket.{Io, ◌>>=◌, ◌>>◌, pure, async_read, async_write, or_else}

-- `ws_opcode` has the numbers below 16 for its values, with names for these.
abbrev pub WsOpcode : Type 0
WsOpcode = ℕ

abbrev pub op_continuation : WsOpcode
op_continuation = 0

abbrev pub op_text : WsOpcode
op_text = 1

abbrev pub op_binary : WsOpcode
op_binary = 2

abbrev pub op_close : WsOpcode
op_close = 8

abbrev pub op_ping : WsOpcode
op_ping = 9

abbrev pub op_pong : WsOpcode
op_pong = 10

pub record WsMessage : Type 0 where
  pub opcode : WsOpcode
  pub text : Bytes

-- `( n >> ( i * 8 ) ) & 0xFF`, from the byte `count - 1` down to byte 0.
unfoldable pub high_bytes : ℕ → ℕ → Bytes
high_bytes zero n = []
high_bytes (suc i) n = (n / 2 ^ (8 * i)) % 256 ∷ high_bytes i n

-- The second byte of a frame and the length behind it.
unfoldable pub frame_length : ℕ → Bytes
unfolding high_bytes
frame_length n =
    if ltb n 126
    then n ∷ []
    else if leb n 0xFFFF
    then 126 ∷ (n / 2 ^ 8) % 256 ∷ n % 256 ∷ []
    else 127 ∷ high_bytes 8 n

unfoldable pub write_frame : WsOpcode → Bytes → Io (Unit {0})
unfolding frame_length async_write
write_frame op payload = async_write (bit_or 0x80 op ∷ (frame_length (length payload) ++ payload))

-- `send`, `send_binary`, `ping` and `close`.
unfoldable pub send : Bytes → Io (Unit {0})
unfolding write_frame
send text = write_frame op_text text

unfoldable pub send_binary : Bytes → Io (Unit {0})
unfolding write_frame
send_binary text = write_frame op_binary text

unfoldable pub ping : Io (Unit {0})
unfolding write_frame
ping = write_frame op_ping []

unfoldable pub close : ℕ → Io (Unit {0})
unfolding write_frame
close code = write_frame op_close ((code / 2 ^ 8) % 256 ∷ code % 256 ∷ [])

-- `payload_len = ( payload_len << 8 ) | ext[ i ]` over the bytes of `ext`.
unfoldable pub big_endian : Bytes → ℕ → ℕ
big_endian [] len = len
big_endian (b ∷ ext) len = big_endian ext ((len * 2 ^ 8) % 2 ^ 64 + b)

-- The length of the payload, from the seven bits of the second byte.
unfoldable pub payload_length : ℕ → Io ℕ
unfolding async_read big_endian
payload_length len =
    if len == 126
    then (do ext ← async_read 2; pure (get_or ext 0 0 * 2 ^ 8 + get_or ext 1 0))
    else if len == 127
    then (do ext ← async_read 8; pure (big_endian ext 0))
    else pure len

-- `payload[ i ] ^ mask_key[ i & 3 ]`, from byte `i` on; `& 3` is the remainder by 4.
unfoldable pub unmask : ℕ → Bytes → Bytes → Bytes
unmask i mask_key [] = []
unmask i mask_key (c ∷ payload) =
    bit_xor c (get_or mask_key (i % 4) 0) ∷ unmask (suc i) mask_key payload

-- What follows a whole frame; `again` is the call of `read` itself.
unfoldable pub handle_frame :
    WsOpcode → Bool → Bytes → Io (Option WsMessage) → Io (Option WsMessage)
unfolding write_frame close
handle_frame op fin payload again =
    if op == op_ping
    then write_frame op_pong payload >> again
    else if op == op_close
    then write_frame op_close [] >> pure none
    else if op == op_pong
    then again
    else if (op == op_continuation) || not fin
    then close 1003 >> pure none
    else pure (some (record { opcode = op; text = payload }))

-- The part of `read` behind the length.
unfoldable pub read_payload :
    WsOpcode → Bool → Bool → ℕ → Io (Option WsMessage) → Io (Option WsMessage)
unfolding async_read unmask handle_frame
read_payload op fin masked len again = do
  mask_key ← if masked then async_read 4 else pure (0 ∷ 0 ∷ 0 ∷ 0 ∷ [])
  payload ← if ltb 0 len then async_read len else pure []
  handle_frame op fin (if masked then unmask 0 mask_key payload else payload) again

-- The body of the `try` block.
unfoldable pub read_frame : ℕ → Io (Option WsMessage) → Io (Option WsMessage)
unfolding async_read payload_length close read_payload
read_frame max_message_size again = do
  header ← async_read 2
  len ← payload_length (bit_and (get_or header 1 0) 0x7F)
  (if ltb max_message_size len
      then close 1009 >> pure none
      else read_payload (bit_and (get_or header 0 0) 0x0F)
          (not (bit_and (get_or header 0 0) 0x80 == 0))
          (not (bit_and (get_or header 1 0) 0x80 == 0)) len again)

-- `read`, on fuel for its calls of itself, each behind two bytes at least; without fuel it throws,
-- which it never does otherwise.
unfoldable pub read_fuel : ℕ → ℕ → Io (Option WsMessage)
unfolding read_frame
read_fuel zero max_message_size s = (none, s)
read_fuel (suc fuel) max_message_size s =
    or_else none (read_frame max_message_size (read_fuel fuel max_message_size)) s

unfoldable pub read : ℕ → Io (Option WsMessage)
unfolding read_fuel
read max_message_size s = read_fuel (suc (length s.input)) max_message_size s
