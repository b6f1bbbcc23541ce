-- ===== src/WebSocket/Wire.antt =====
-- Frames as RFC 6455 lays them out, and that `read` takes one apart.
use Prim.Native.Nat.{bit_and, bit_xor}
use lundicpp.Base.{
  ℕ, zero, suc, ◌+◌, ◌*◌, ◌/◌, ◌%◌, ◌^◌, ◌≤◌, ◌<◌, ◌≡◌, refl, ap, ◌∙◌, Bytes, List, [], ◌∷◌, ◌++◌,
  Bool, true, false, not, Option, none, some, ltb, ◌==◌, if◌then◌else◌, length, get_or, arith,
  append_assoc, Bool-cases, inl, inr,
}
use lundicpp.Base.Bits.{bit_and-0x7f, bit_and-0x80, bit_and-0x0f, bit_xor-twice}
use lundicpp.Base.Find.{All}
use lundicpp.Socket.{
  Socket, Io, async_read, pure, ◌>>=◌, ◌>>◌, then_read, async_read-append, >>=-some,
}
use lundicpp.WebSocket.Frame.{
  WsMessage, high_bytes, big_endian, payload_length, unmask, handle_frame, read_payload, read_frame,
  close,
}

-- The four bytes of a client's mask.
pub record MaskKey : Type 0 where
  pub k0 : ℕ
  pub k1 : ℕ
  pub k2 : ℕ
  pub k3 : ℕ

abbrev pub IsByte : ℕ → Type 0
IsByte b = b < 256

abbrev pub IsMaskKey : MaskKey → Type 0
IsMaskKey k = IsByte k.k0 × IsByte k.k1 × IsByte k.k2 × IsByte k.k3

abbrev pub key_text : MaskKey → Bytes
key_text k = k.k0 ∷ k.k1 ∷ k.k2 ∷ k.k3 ∷ []

-- The bytes of the key in turn.
abbrev pub mask : ℕ → ℕ → ℕ → ℕ → Bytes → Bytes
mask a b c d [] = []
mask a b c d (x ∷ s) = bit_xor x a ∷ mask b c d a s

length-mask : (a b c d : ℕ) (s : Bytes) → length (mask a b c d s) ≡ length s
length-mask a b c d [] = refl
length-mask a b c d (x ∷ s) = ap suc (length-mask b c d a s)

module _ (key : Bytes) where
  unmask-mask :
      (i a b c d : ℕ) (s : Bytes)
      → get_or key (i % 4) 0 ≡ a
      → get_or key ((i + 1) % 4) 0 ≡ b
      → get_or key ((i + 2) % 4) 0 ≡ c
      → get_or key ((i + 3) % 4) 0 ≡ d
      → IsByte a × IsByte b × IsByte c × IsByte d
      → All IsByte s
      → unmask i key (mask a b c d s) ≡ s
  unfolding unmask
  unmask-mask i a b c d [] ea eb ec ed bytes h = refl
  unmask-mask i a b c d (x ∷ s) ea eb ec ed (ha, hb, hc, hd) (hx, hs) =
      let e1 : suc i % 4 ≡ (i + 1) % 4 = omega arith in
      let e2 : (suc i + 1) % 4 ≡ (i + 2) % 4 = omega arith in
      let e3 : (suc i + 2) % 4 ≡ (i + 3) % 4 = omega arith in
      let e4 : (suc i + 3) % 4 ≡ i % 4 = omega arith in
      let rest =
        unmask-mask (suc i) b c d a s (rw e1 eb) (rw e2 ec) (rw e3 ed) (rw e4 ea) (hb, hc, hd, ha)
          hs in
      rw (ea, bit_xor-twice x a hx ha, rest) refl

-- The bytes of a length that stands in 8 bytes.
big_endian-high_bytes : (n : ℕ) → n < 2 ^ 64 → big_endian (high_bytes 8 n) 0 ≡ n
unfolding big_endian high_bytes
big_endian-high_bytes n h = omega arith

-- A frame, masked or not, the last of its message or not.
pub record Frame : Type 0 where
  pub fin : Bool
  pub opcode : ℕ
  pub key : Option MaskKey
  pub payload : Bytes

abbrev pub fin_bit : Bool → ℕ
fin_bit false = 0
fin_bit true = 128

abbrev pub mask_bit : Option MaskKey → ℕ
mask_bit none = 0
mask_bit (some k) = 128

-- The seven bits of a length, and the bytes that follow them.
abbrev pub short_length : ℕ → ℕ
short_length n = if ltb n 126 then n else (if ltb n 65536 then 126 else 127)

abbrev pub long_length : ℕ → Bytes
long_length n =
    if ltb n 126 then [] else (if ltb n 65536 then n / 256 ∷ n % 256 ∷ [] else high_bytes 8 n)

abbrev pub payload_text : Option MaskKey → Bytes → Bytes
payload_text none s = s
payload_text (some k) s = key_text k ++ mask k.k0 k.k1 k.k2 k.k3 s

abbrev pub frame_text : Frame → Bytes
frame_text f =
    (fin_bit f.fin + f.opcode)
    ∷ (mask_bit f.key + short_length (length f.payload))
    ∷ (long_length (length f.payload) ++ payload_text f.key f.payload)

abbrev pub socket : Bytes → List Bytes → ℕ → Socket
socket input output writes = record { input = input; output = output; writes = writes }

abbrev pub has_key : Option MaskKey → Bool
has_key none = false
has_key (some k) = true

abbrev pub IsKey : Option MaskKey → Type 0
IsKey none = Unit
IsKey (some k) = IsMaskKey k

module _ (rest : Bytes) (out : List Bytes) (w : ℕ) where
  payload_length-text :
      (n : ℕ)
      → n < 2 ^ 64
      → payload_length (short_length n) (socket (long_length n ++ rest) out w)
        ≡ (some n, socket rest out w)
  unfolding payload_length
  payload_length-text n h = elim (Bool-cases (ltb n 126)) [
    | inl small ↦
        let not_126 : (n == 126) ≡ false = ground arith in
        let not_127 : (n == 127) ≡ false = ground arith in
        rw (small, not_126, not_127, payload_length) refl
    | inr big ↦ elim (Bool-cases (ltb n 65536)) [
      | inl middle ↦
          let joined : n / 256 * 2 ^ 8 + n % 256 ≡ n = omega arith in
          rw (big, middle)
            (then_read 2 (n / 256 ∷ n % 256 ∷ []) rest out w
                (λ ext. pure (get_or ext 0 0 * 2 ^ 8 + get_or ext 1 0)) refl
              ∙ ap (λ (m : ℕ). (some m, socket rest out w)) joined)
      | inr large ↦
          rw (big, large)
            (then_read 8 (high_bytes 8 n) rest out w (λ ext. pure (big_endian ext 0))
                (unfold high_bytes in refl)
              ∙ ap (λ (m : ℕ). (some m, socket rest out w)) (big_endian-high_bytes n h))
    ]
  ]

  payload_read :
      (n : ℕ) (s : Bytes)
      → length s ≡ n
      → (if ltb 0 n then async_read n else pure []) (socket (s ++ rest) out w)
        ≡ (some s, socket rest out w)
  payload_read zero [] h = refl
  payload_read zero (c ∷ s) h = absurd (omega arith)
  payload_read (suc n) s h =
      let some_bytes : ltb 0 (suc n) ≡ true = ground arith in
      rw some_bytes (async_read-append (suc n) s rest out w h)

  -- The frame's mask and payload, with everything behind them.
  read_payload-text :
      (op : ℕ) (fin : Bool) (key : Option MaskKey) (s : Bytes) (again : Io (Option WsMessage))
      → IsKey key
      → All IsByte s
      → read_payload op fin
          (has_key key)
          (length s)
          again
          (socket (payload_text key s ++ rest) out w)
        ≡ handle_frame op fin s again (socket rest out w)
  unfolding read_payload
  read_payload-text op fin none s again hk hs =
      >>=-some (if ltb 0 (length s) then async_read (length s) else pure [])
        (λ payload. handle_frame op fin payload again) _ (payload_read (length s) s refl)
  read_payload-text op fin (some k) s again hk hs =
      let masked = mask k.k0 k.k1 k.k2 k.k3 s in
      let n = length s in
      then_read 4 (key_text k) (masked ++ rest) out w
        (λ key. (if ltb 0 n then async_read n else pure []) >>= λ payload.
          handle_frame op fin (unmask 0 key payload) again)
        refl
      ∙ (>>=-some (if ltb 0 n then async_read n else pure [])
            (λ payload. handle_frame op fin (unmask 0 (key_text k) payload) again) _
            (payload_read n masked (length-mask k.k0 k.k1 k.k2 k.k3 s))
          ∙ ap (λ (p : Bytes). handle_frame op fin p again (socket rest out w))
              (unmask-mask (key_text k) 0 k.k0 k.k1 k.k2 k.k3 s refl refl refl refl hk hs))

-- The two bytes at the start of a frame.
first_byte :
    (fin : Bool) (op : ℕ)
    → op < 16
    → (bit_and (fin_bit fin + op) 0x0F ≡ op) × (not (bit_and (fin_bit fin + op) 0x80 == 0) ≡ fin)
first_byte true op h = (
  bit_and-0x0f (128 + op) (omega arith) ∙ omega arith,
  rw (bit_and-0x80 (128 + op) (omega arith)) (ground arith),
)
first_byte false op h = (
  bit_and-0x0f (0 + op) (omega arith) ∙ omega arith,
  rw (bit_and-0x80 (0 + op) (omega arith)) (ground arith),
)

second_byte :
    (key : Option MaskKey) (m : ℕ)
    → m < 128
    → (bit_and (mask_bit key + m) 0x7F ≡ m)
      × (not (bit_and (mask_bit key + m) 0x80 == 0) ≡ has_key key)
second_byte none m h = (
  bit_and-0x7f (0 + m) (omega arith) ∙ omega arith,
  rw (bit_and-0x80 (0 + m) (omega arith)) (ground arith),
)
second_byte (some k) m h = (
  bit_and-0x7f (128 + m) (omega arith) ∙ omega arith,
  rw (bit_and-0x80 (128 + m) (omega arith)) (ground arith),
)

short_length-lt : (n : ℕ) → short_length n < 128
short_length-lt n = ground arith

abbrev pub IsFrame : Frame → Type 0
IsFrame f = (f.opcode < 16) × IsKey f.key × All IsByte f.payload × (length f.payload < 2 ^ 64)

-- A frame that stands first is taken off the stream, with its mask undone.
pub read_frame-text :
    (f : Frame) (max_size : ℕ) (again : Io (Option WsMessage)) (rest : Bytes) (out : List Bytes)
    (w : ℕ)
    → IsFrame f
    → length f.payload ≤ max_size
    → read_frame max_size again (socket (frame_text f ++ rest) out w)
      ≡ handle_frame f.opcode f.fin f.payload again (socket rest out w)
unfolding read_frame
read_frame-text f max_size again rest out w (op, key, bytes, len) fits =
    let n = length f.payload in
    let b0 = fin_bit f.fin + f.opcode in
    let b1 = mask_bit f.key + short_length n in
    let (e0, e1) = first_byte f.fin f.opcode op in
    let (e2, e3) = second_byte f.key (short_length n) (short_length-lt n) in
    let small : ltb max_size n ≡ false = ground arith in
    let body : Bytes → ℕ → Io (Option WsMessage) = λ header len.
      if ltb max_size len
      then close 1009 >> pure none
      else read_payload (bit_and (get_or header 0 0) 0x0F)
          (not (bit_and (get_or header 0 0) 0x80 == 0))
          (not (bit_and (get_or header 1 0) 0x80 == 0)) len again in
    let tail = long_length n ++ payload_text f.key f.payload in
    let header = b0 ∷ b1 ∷ [] in
    let measured : payload_length (bit_and b1 0x7F) (socket (tail ++ rest) out w)
        ≡ (some n, socket (payload_text f.key f.payload ++ rest) out w) =
      rw (e2, append_assoc (long_length n) (payload_text f.key f.payload) rest)
        (payload_length-text (payload_text f.key f.payload ++ rest) out w n len) in
    then_read 2 header (tail ++ rest) out w
      (λ header. payload_length (bit_and (get_or header 1 0) 0x7F) >>= body header) refl
    ∙ (>>=-some (payload_length (bit_and b1 0x7F)) (body header) (socket (tail ++ rest) out w)
          measured
        ∙ rw (small, e0, e1, e3)
            (read_payload-text rest out w f.opcode f.fin f.key f.payload again key bytes))
