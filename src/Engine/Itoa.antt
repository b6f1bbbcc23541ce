-- ===== src/Engine/Itoa.antt =====
-- engine/fast_itoa.hpp: the 21-byte buffer `buf_` that `format` fills from its end, and `len_`.
pub mod RoundTrip
mod Examples
use mathlib.Core.Logic.{dite}
use mathlib.Core.WellFounded.{Acc}
use native.Mathlib.Decide.{dec_lt}
use lundicpp.Base.{
  ℕ, ◌+◌, ◌-◌, ◌/◌, ◌%◌, ◌<◌, Bytes, Option, none, some, ◌==◌, if◌then◌else◌, set, take, drop,
  replicate,
}
use lundicpp.Base.Order.{lt_wf}
use lundicpp.Base.Decimal.{tenth_lt}

pub record FastItoa : Type 0 where
  pub buf : Bytes
  pub len : ℕ

abbrev pub buf_size : ℕ
buf_size = 21

-- The array has no stated contents before the first call; zero bytes stand for them.
abbrev pub fresh : FastItoa
fresh = record { buf = replicate buf_size 0; len = 0 }

infixl 5 ◌>>=◌
abbrev pub ◌>>=◌ {ℓ κ} : {A : Type ℓ} {B : Type κ} → Option A → (A → Option B) → Option B
none >>= f = none
some a >>= f = f a

-- The buffer and the pointer `p` into it, as an offset.
abbrev pub Cursor : Type 0
Cursor = Bytes × ℕ

-- `*--p = c`. A write below the buffer's start is a fault, `none`.
unfoldable pub put : ℕ → Cursor → Option Cursor
put c (buf, p) = if p == 0 then none else some (set buf (p - 1) c, p - 1)

-- `while( val > 0 )`.
unfoldable pub write_digits : (val : ℕ) → Acc ◌<◌ val → Cursor → Option Cursor
write_digits val (Acc.intro _ smaller) at =
    dite (dec_lt 0 val)
      (λ h. put (b'0' + val % 10) at >>= write_digits (val / 10) (smaller (val / 10) (tenth_lt h)))
      (λ _. some at)

-- The object behind the call, and the pointer that the call returns.
unfoldable pub format : ℕ → FastItoa → Option (FastItoa × ℕ)
unfolding put write_digits lt_wf dec_lt
format val self =
    let start : Cursor = (set self.buf (buf_size - 1) 0, buf_size - 1) in
    (if val == 0 then put b'0' start else write_digits val (lt_wf.apply val) start) >>= λ (buf, p).
    some (record { buf = buf; len = (buf_size - 1) - p }, p)

-- The `len_` bytes from the pointer on, as the callers of `format` and `length` read them.
abbrev pub read_at : FastItoa → ℕ → Bytes
read_at self p = take self.len (drop p self.buf)
