-- ===== src/WebSocket/Messages.antt =====
-- `read` over a whole stream of frames: what it returns and what it sends on the way.
use native.Mathlib.Nat.{zero-add}
use lundicpp.Base.{
  ℕ, zero, suc, ◌+◌, ◌≤◌, ◌<◌, ◌≡◌, ◌≢◌, ◌⊎◌, refl, ap, ◌∙◌, Bytes, List, [], ◌∷◌, ◌++◌, Bool, true,
  false, not, ◌||◌, Option, none, some, ◌==◌, length, arith, append_assoc, append-nil,
  length-append,
}
use lundicpp.Base.Bits.{bit_or-0x80}
use lundicpp.Base.Find.{All}
use lundicpp.Socket.{Socket, Io, async_write, pure, >>=-some}
use lundicpp.WebSocket.Frame.{
  WsMessage, high_bytes, frame_length, write_frame, close, handle_frame, read_frame, read_fuel,
  read, op_pong, op_close,
}
use lundicpp.WebSocket.Wire.{
  MaskKey, Frame, frame_text, short_length, long_length, socket, IsFrame, read_frame-text,
}

-- A frame of the server: whole and without a mask.
abbrev pub server_frame : ℕ → Bytes → Frame
server_frame op s = record { fin = true; opcode = op; key = none; payload = s }

frame_length-text : (n : ℕ) → frame_length n ≡ short_length n ∷ long_length n
unfolding frame_length high_bytes
frame_length-text n = ground arith

write_frame-text :
    (op : ℕ) (s input : Bytes) (out : List Bytes) (w : ℕ)
    → op < 128
    → write_frame op s (socket input out (suc w))
      ≡ (some tt, socket input (out ++ frame_text (server_frame op s) ∷ []) w)
unfolding write_frame async_write
write_frame-text op s input out w h =
    rw (bit_or-0x80 op h, frame_length-text (length s), zero-add (short_length (length s))) refl

-- A ping and a pong, which `read` passes over.
pub data Control : Type 0 where
  ping_frame pong_frame : Bool → Option MaskKey → Bytes → Control

abbrev pub control_frame : Control → Frame
control_frame (ping_frame fin key s) = record { fin = fin; opcode = 9; key = key; payload = s }
control_frame (pong_frame fin key s) = record { fin = fin; opcode = 10; key = key; payload = s }

-- A ping is answered with its own payload.
abbrev pub replies : List Control → List Bytes → List Bytes
replies [] after = after
replies (ping_frame fin key s ∷ cs) after = frame_text (server_frame 10 s) ∷ replies cs after
replies (pong_frame fin key s ∷ cs) after = replies cs after

-- What becomes of a frame that is neither, and what is sent for it.
pub data Verdict : Frame → Option WsMessage → List Bytes → Type 0 where
  message :
      {f : Frame}
      → f.fin ≡ true
      → f.opcode ≢ 0
      → f.opcode ≢ 8
      → f.opcode ≢ 9
      → f.opcode ≢ 10
      → Verdict f (some (record { opcode = f.opcode; text = f.payload })) []
  closed : {f : Frame} → f.opcode ≡ 8 → Verdict f none (frame_text (server_frame 8 []) ∷ [])
  fragment :
      {f : Frame}
      → ((f.opcode ≡ 0) ⊎ (f.fin ≡ false))
      → f.opcode ≢ 8
      → f.opcode ≢ 9
      → f.opcode ≢ 10
      → Verdict f none (frame_text (server_frame 8 (3 ∷ 235 ∷ [])) ∷ [])

-- The bytes of some control frames in front of a text.
abbrev pub controls_text : List Control → Bytes → Bytes
controls_text [] after = after
controls_text (c ∷ cs) after = frame_text (control_frame c) ++ controls_text cs after

abbrev pub Fits : ℕ → Frame → Type 0
Fits max_size f = IsFrame f × (length f.payload ≤ max_size)

handle-Verdict :
    {f : Frame} {m : Option WsMessage} {sent : List Bytes} (again : Io (Option WsMessage))
    (input : Bytes) (out : List Bytes) (left : ℕ)
    → Verdict f m sent
    → handle_frame f.opcode f.fin f.payload again (socket input out (length sent + left))
      ≡ (some m, socket input (out ++ sent) left)
unfolding handle_frame
handle-Verdict {f} again input out left (message fin o0 o8 o9 o10) =
    let e0 : (f.opcode == 0) ≡ false = ground arith in
    let e8 : (f.opcode == 8) ≡ false = ground arith in
    let e9 : (f.opcode == 9) ≡ false = ground arith in
    let e10 : (f.opcode == 10) ≡ false = ground arith in
    simp (e0, e8, e9, e10, fin, zero-add, append-nil) refl
handle-Verdict {f} again input out left (closed o) =
    let e8 : (f.opcode == 8) ≡ true = ground arith in
    let e9 : (f.opcode == 9) ≡ false = ground arith in
    let one : 1 + left ≡ suc left = omega arith in
    rw (e9, e8, one)
      (>>=-some (write_frame op_close []) (λ _. pure none) (socket input out (suc left))
        (write_frame-text 8 [] input out left (omega arith)))
handle-Verdict {f} again input out left (fragment part o8 o9 o10) =
    let e8 : (f.opcode == 8) ≡ false = ground arith in
    let e9 : (f.opcode == 9) ≡ false = ground arith in
    let e10 : (f.opcode == 10) ≡ false = ground arith in
    let broken : ((f.opcode == 0) || not f.fin) ≡ true = ground arith in
    let one : 1 + left ≡ suc left = omega arith in
    rw (e9, e8, e10, broken, one)
      (>>=-some (close 1003) (λ _. pure none) (socket input out (suc left))
        (unfold close in write_frame-text 8 (3 ∷ 235 ∷ []) input out left (omega arith)))

handle-ping :
    (fin : Bool) (s input : Bytes) (out : List Bytes) (w : ℕ) (again : Io (Option WsMessage))
    → handle_frame 9 fin s again (socket input out (suc w))
      ≡ again (socket input (out ++ frame_text (server_frame 10 s) ∷ []) w)
unfolding handle_frame
handle-ping fin s input out w again =
    >>=-some (write_frame op_pong s) (λ _. again) (socket input out (suc w))
      (write_frame-text 10 s input out w (omega arith))

handle-pong :
    (fin : Bool) (s : Bytes) (k : Socket) (again : Io (Option WsMessage))
    → handle_frame 10 fin s again k ≡ again k
unfolding handle_frame
handle-pong fin s k again = refl

again_lem :
    (fuel max_size : ℕ) (s : Socket) {s' : Socket} {m : Option WsMessage}
    → read_frame max_size (read_fuel fuel max_size) s ≡ (some m, s')
    → read_fuel (suc fuel) max_size s ≡ (some m, s')
unfolding read_fuel
again_lem fuel max_size s e =
    ap
      (λ (r : Option (Option WsMessage) × Socket).
        elim r.0 as (λ _. Option (Option WsMessage) × Socket) [
          | none ↦ (some none, r.1)
          | some b ↦ (some b, r.1)
        ])
      e

read_fuel-controls :
    (fuel max_size : ℕ) (cs : List Control) (f : Frame) {m : Option WsMessage} {sent : List Bytes}
    (rest : Bytes) (out : List Bytes) (left : ℕ)
    → length cs < fuel
    → All (λ c. Fits max_size (control_frame c)) cs
    → Fits max_size f
    → Verdict f m sent
    → read_fuel fuel max_size
        (socket (controls_text cs (frame_text f ++ rest)) out (length (replies cs sent) + left))
      ≡ (some m, socket rest (out ++ replies cs sent) left)
read_fuel-controls zero max_size cs f rest out left enough hs h v = absurd (omega arith)
read_fuel-controls (suc fuel) max_size [] f rest out left enough hs (h, fits) v =
    again_lem fuel max_size _ (
      read_frame-text f max_size (read_fuel fuel max_size) rest out _ h fits
      ∙ handle-Verdict (read_fuel fuel max_size) rest out left v)
read_fuel-controls (suc fuel) max_size (ping_frame fin key s ∷ cs) f {sent = sent} rest out left
      enough ((c, small), hs) h v =
    let after = controls_text cs (frame_text f ++ rest) in
    let pong = frame_text (server_frame 10 s) in
    let count : suc (length (replies cs sent)) + left ≡ suc (length (replies cs sent) + left) =
      omega arith in
    again_lem fuel max_size _ (
      read_frame-text (control_frame (ping_frame fin key s)) max_size (read_fuel fuel max_size)
        after out _ c small
      ∙ rw (count, handle-ping)
          (read_fuel-controls fuel max_size cs f rest (out ++ pong ∷ []) left (omega arith) hs h v
            ∙ rw (append_assoc out (pong ∷ []) (replies cs sent)) refl))
read_fuel-controls (suc fuel) max_size (pong_frame fin key s ∷ cs) f rest out left enough
      ((c, small), hs) h v =
    again_lem fuel max_size _ (
      read_frame-text (control_frame (pong_frame fin key s)) max_size (read_fuel fuel max_size) _
        out _ c small
      ∙ (handle-pong fin s _ (read_fuel fuel max_size)
          ∙ read_fuel-controls fuel max_size cs f rest out left (omega arith) hs h v))

length-controls_text : (cs : List Control) (s : Bytes) → length cs ≤ length (controls_text cs s)
length-controls_text [] s = omega arith
length-controls_text (c ∷ cs) s = omega (
  arith,
  length-controls_text cs s,
  length-append (frame_text (control_frame c)) (controls_text cs s),
)

-- Behind any number of pings and pongs, masked or not, `read` answers each ping with a pong of the same
-- payload, in order, and ends at the first other frame: a whole data frame is returned with its mask
-- undone and nothing is sent for it, a close frame is answered by a close frame, and a fragment by a
-- close frame with code 1003. What follows stays in the stream. Each payload is at most the greatest
-- message size, and the peer takes the replies.
pub read-Verdict :
    (max_size : ℕ) (cs : List Control) (f : Frame) {m : Option WsMessage} {sent : List Bytes}
    (rest : Bytes) (out : List Bytes) (left : ℕ)
    → All (λ c. Fits max_size (control_frame c)) cs
    → Fits max_size f
    → Verdict f m sent
    → read max_size
        (socket (controls_text cs (frame_text f ++ rest)) out (length (replies cs sent) + left))
      ≡ (some m, socket rest (out ++ replies cs sent) left)
unfolding read
read-Verdict max_size cs f rest out left hs h v =
    read_fuel-controls (suc (length (controls_text cs (frame_text f ++ rest)))) max_size cs f rest
      out left (omega (arith, length-controls_text cs (frame_text f ++ rest))) hs h v
