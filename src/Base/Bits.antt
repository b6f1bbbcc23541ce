-- ===== src/Base/Bits.antt =====
-- `&`, `|` and `^` on bytes as arithmetic: each law is a table that is checked by evaluation.
use Prim.Native.Nat.{ℕ, zero, suc, ◌+◌, ◌*◌, ◌/◌, ◌%◌, ◌<◌, bit_and, bit_or, bit_xor}
use mathlib.Core.Path.{◌≡◌, refl}
use mathlib.Core.Bool.{Bool, true, ◌&&◌}
use native.Mathlib.Omega.{arith}
use lundicpp.Base.Tests.{◌==◌, ==_iff}

-- The test holds of every number below the first.
unfoldable pub every : ℕ → (ℕ → Bool) → Bool
every zero test = true
every (suc n) test = test n && every n test

pub every-true : (n : ℕ) (test : ℕ → Bool) (x : ℕ) → every n test ≡ true → x < n → test x ≡ true
unfolding every
every-true zero test x h lt = absurd (omega arith)
every-true (suc n) test x h lt = ground (arith, every-true n test x)

pub same_table :
    (n : ℕ) (f g : ℕ → ℕ) → every n (λ x. f x == g x) ≡ true → (x : ℕ) → x < n → f x ≡ g x
same_table n f g h x lt = (==_iff (f x) (g x)).0 (every-true n (λ x. f x == g x) x h lt)

pub bit_and-0x7f : (b : ℕ) → b < 256 → bit_and b 0x7f ≡ b % 128
unfolding every
bit_and-0x7f = same_table 256 _ _ refl

pub bit_and-0x80 : (b : ℕ) → b < 256 → bit_and b 0x80 ≡ b / 128 * 128
unfolding every
bit_and-0x80 = same_table 256 _ _ refl

pub bit_and-0x0f : (b : ℕ) → b < 256 → bit_and b 0x0f ≡ b % 16
unfolding every
bit_and-0x0f = same_table 256 _ _ refl

pub bit_or-0x80 : (b : ℕ) → b < 128 → bit_or 0x80 b ≡ 128 + b
unfolding every
bit_or-0x80 = same_table 128 _ _ refl

xor_table : every 256 (λ x. every 256 (λ k. bit_xor (bit_xor x k) k == x)) ≡ true
unfolding every
xor_table = refl

pub bit_xor-twice : (x k : ℕ) → x < 256 → k < 256 → bit_xor (bit_xor x k) k ≡ x
bit_xor-twice x k hx hk =
    let row = every-true 256 (λ x. every 256 (λ k. bit_xor (bit_xor x k) k == x)) x xor_table hx in
    (==_iff (bit_xor (bit_xor x k) k) x).0
      (every-true 256 (λ k. bit_xor (bit_xor x k) k == x) k row hk)
