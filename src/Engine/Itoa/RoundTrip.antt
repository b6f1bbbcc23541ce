-- ===== src/Engine/Itoa/RoundTrip.antt =====
-- What `format` writes: the decimal digits, inside the buffer, for every 64-bit value.
use mathlib.Core.Logic.{dif_pos, dif_neg}
use mathlib.Core.WellFounded.{Acc}
use native.Mathlib.Decide.{dec_lt}
use native.Mathlib.Nat.{pow-suc}
use native.Mathlib.Bridge.{le_prop}
use lundicpp.Base.{
  ℕ, zero, suc, ◌+◌, ◌-◌, ◌/◌, ◌%◌, ◌^◌, ◌≤◌, ◌<◌, ◌≡◌, refl, ap, ◌∙◌, List, [], ◌∷◌, ◌++◌, Bytes,
  some, arith, length, set, take, drop, length-set, length-drop, length-append, ◌==◌, if◌then◌else◌,
}
use lundicpp.Base.Order.{lt_wf}
use lundicpp.Base.Find.{take-length_append, drop_all}
use lundicpp.Base.Decimal.{tenth_lt, digits, digits_of_pos, digits-zero, digits-append, decimal}
use lundicpp.Engine.Itoa.{FastItoa, Cursor, put, write_digits, format, read_at, buf_size, ◌>>=◌}

drop-set_self {ℓ} :
    {A : Type ℓ} (i : ℕ) (xs : List A) (v : A)
    → i < length xs
    → drop i (set xs i v) ≡ v ∷ drop (suc i) xs
drop-set_self i [] v h = elim h [ ]
drop-set_self zero (x ∷ xs) v h = refl
drop-set_self (suc i) (x ∷ xs) v h = drop-set_self i xs v (omega arith)

-- The text from the cursor on.
abbrev text_from : Cursor → Bytes
text_from (buf, p) = drop p buf

-- The cursor has room for `k` bytes below it and does not stand behind the buffer.
abbrev HasRoom : ℕ → Cursor → Type 0
HasRoom k (buf, p) = (k ≤ p) × (p ≤ length buf)

put_lem :
    (c k : ℕ) (at : Cursor)
    → HasRoom (suc k) at
    → (at' : Cursor) × (put c at ≡ some at')
      × (text_from at' ≡ c ∷ text_from at)
      × HasRoom k at'
      × (length at'.0 ≡ length at.0)
unfolding put
put_lem c k (buf, zero) h = absurd (omega arith)
put_lem c k (buf, suc p) h = (
  (set buf p c, p),
  ground arith,
  drop-set_self p buf c (omega arith),
  (omega arith, omega (arith, length-set buf p c)),
  length-set buf p c,
)

write_digits_lem :
    (k val : ℕ) (w : Acc ◌<◌ val) (at : Cursor)
    → val < 10 ^ k
    → HasRoom k at
    → (at' : Cursor) × (write_digits val w at ≡ some at')
      × (text_from at' ≡ digits val (text_from at))
      × HasRoom 0 at'
      × (length at'.0 ≡ length at.0)
unfolding write_digits
write_digits_lem zero val (Acc.intro _ smaller) at h room = elim (dec_lt 0 val) [
  | yes p ↦ absurd (omega arith)
  | no p ↦ (at, rw (dif_neg _ p), rw (digits-zero val (text_from at) p), omega arith, refl)
]
write_digits_lem (suc k) val (Acc.intro _ smaller) at h room = elim (dec_lt 0 val) [
  | yes p ↦
      let (at1, put_eq, put_text, put_room, put_size) = put_lem (b'0' + val % 10) k at room in
      let (at2, loop_eq, loop_text, loop_room, loop_size) =
        write_digits_lem k (val / 10) (smaller (val / 10) (tenth_lt p)) at1
          (omega (arith, pow-suc 10 k)) put_room in
      (
        at2,
        rw (dif_pos _ le_prop p, put_eq) loop_eq,
        rw (digits_of_pos val (text_from at) p, ← put_text) loop_text,
        loop_room,
        loop_size ∙ put_size,
      )
  | no p ↦ (at, rw (dif_neg _ p), rw (digits-zero val (text_from at) p), omega arith, refl)
]

-- The buffer with its terminator at the end.
abbrev started : FastItoa → Cursor
started self = (set self.buf (buf_size - 1) 0, buf_size - 1)

started_text : (self : FastItoa) → length self.buf ≡ buf_size → text_from (started self) ≡ 0 ∷ []
started_text self h =
    rw (drop-set_self 20 self.buf 0 (omega arith), drop_all 21 self.buf (omega arith))

read_text :
    (at : Cursor) (t : Bytes)
    → text_from at ≡ t ++ 0 ∷ []
    → HasRoom 0 at
    → length at.0 ≡ buf_size
    → take ((buf_size - 1) - at.1) (drop at.1 at.0) ≡ t
read_text at t e room size =
    let count : (buf_size - 1) - at.1 ≡ length t =
      omega (arith, ap length e, length-drop at.1 at.0, length-append t (0 ∷ [])) in
    rw (count, e) (take-length_append t (0 ∷ []))

-- The state and the pointer behind a call.
pub record IsFormatted (val : ℕ) (r : FastItoa × ℕ) : Type 0 where
  pub text : read_at r.0 r.1 ≡ decimal val
  pub size : length r.0.buf ≡ buf_size
  pub within : r.0.len ≤ 20

-- Both branches of the test for 0, at the cursor that they leave.
written :
    (val : ℕ) (self : FastItoa)
    → length self.buf ≡ buf_size
    → val < 2 ^ 64
    → (at : Cursor) × ((if val == 0
          then put b'0' (started self)
          else write_digits val (lt_wf.apply val) (started self))
        ≡ some at)
      × (text_from at ≡ decimal val ++ 0 ∷ [])
      × HasRoom 0 at
      × (length at.0 ≡ buf_size)
unfolding decimal
written zero self size h =
    let (at, e, t, room, l) =
      put_lem b'0' 0 (started self) (omega (arith, length-set self.buf 20 0)) in
    (
      at,
      e,
      t ∙ ap (λ r. b'0' ∷ r) (started_text self size),
      room,
      omega (arith, length-set self.buf 20 0),
    )
written (suc n) self size h =
    let (at, e, t, room, l) =
      write_digits_lem 20 (suc n) (lt_wf.apply (suc n)) (started self) (omega arith)
        (omega (arith, length-set self.buf 20 0)) in
    (
      at,
      ground (arith, e),
      ground (arith, t, started_text self size, digits-append (suc n) (0 ∷ [])),
      room,
      omega (arith, length-set self.buf 20 0),
    )

-- For every 64-bit value the call writes inside the buffer, and the `len_` bytes from the returned
-- pointer on are the decimal digits of the value.
pub format-IsFormatted :
    (val : ℕ) (self : FastItoa)
    → length self.buf ≡ buf_size
    → val < 2 ^ 64
    → (r : FastItoa × ℕ) × (format val self ≡ some r) × IsFormatted val r
unfolding format
format-IsFormatted val self size h =
    let (at, e, t, room, l) = written val self size h in
    (
      (record { buf = at.0; len = (buf_size - 1) - at.1 }, at.1),
      rw (e, ◌>>=◌),
      record { text = read_text at (decimal val) t room l; size = l; within = omega arith },
    )
