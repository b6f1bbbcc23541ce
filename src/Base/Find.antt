-- ===== src/Base/Find.antt =====
-- The laws of the searches in Base/Text: where a byte is found, and what stands around it.
use Prim.Native.Nat.{ℕ, zero, suc, ◌-◌, ◌≤◌, ◌<◌}
use native.Mathlib.Nat.{sub-zero, zero-sub, suc-sub-suc}
use mathlib.Core.Path.{◌≡◌, refl, ap, sym}
use mathlib.Core.Logic.{◌≢◌}
use mathlib.Core.Option.{none, some}
use mathlib.Core.List.{List, [], ◌∷◌, ◌++◌}
use native.Mathlib.Omega.{arith}
use lundicpp.Base.Lists.{length, take, drop}
use lundicpp.Base.Text.{Bytes, find_char}

module _ {ℓ κ} {A : Type ℓ} (P : A → Type κ) where
  abbrev pub All : List A → Type κ
  All [] = Unit
  All (x ∷ xs) = P x × All xs

  pub All-append : (xs ys : List A) → All xs → All ys → All (xs ++ ys)
  All-append [] ys _ hy = hy
  All-append (x ∷ xs) ys (px, hx) hy = (px, All-append xs ys hx hy)

-- The byte `c` does not occur.
abbrev pub Lacks : ℕ → Bytes → Type 0
Lacks c = All (λ b. b ≢ c)

pub find_char-none : (c : ℕ) (s : Bytes) → Lacks c s → find_char c s ≡ none
unfolding find_char
find_char-none c [] h = refl
find_char-none c (x ∷ xs) (p, h) = ground (arith, find_char-none c xs h)

pub find_char-Lacks : (c : ℕ) (s : Bytes) → find_char c s ≡ none → Lacks c s
unfolding find_char
find_char-Lacks c [] h = tt
find_char-Lacks c (x ∷ xs) h = ground (arith, find_char-Lacks c xs)

pub find_char-append :
    (c : ℕ) (p r : Bytes) → Lacks c p → find_char c (p ++ c ∷ r) ≡ some (length p)
unfolding find_char
find_char-append c [] r h = ground arith
find_char-append c (x ∷ p) r (q, h) = ground (arith, find_char-append c p r h)

pub find_char-lt : (c : ℕ) (s : Bytes) (i : ℕ) → find_char c s ≡ some i → i < length s
unfolding find_char
find_char-lt c [] i h = cc
find_char-lt c (x ∷ xs) i h =
    elim (find_char c xs) as (λ o. find_char c xs ≡ o → i < suc (length xs)) [
      | none ↦ λ e. ground (arith, e)
      | some j ↦ λ e. ground (arith, e, find_char-lt c xs j e)
    ]
      refl

module _ {ℓ} {A : Type ℓ} where
  pub drop_all : (n : ℕ) (xs : List A) → length xs ≤ n → drop n xs ≡ []
  drop_all zero [] h = refl
  drop_all zero (x ∷ xs) h = absurd (omega arith)
  drop_all (suc n) [] h = refl
  drop_all (suc n) (x ∷ xs) h = drop_all n xs (omega arith)

  pub take_all : (n : ℕ) (xs : List A) → length xs ≤ n → take n xs ≡ xs
  take_all zero [] h = refl
  take_all zero (x ∷ xs) h = absurd (omega arith)
  take_all (suc n) [] h = refl
  take_all (suc n) (x ∷ xs) h = ap (λ t. x ∷ t) (take_all n xs (omega arith))

  pub take_prefix : (n : ℕ) (xs ys : List A) → n ≤ length xs → take n (xs ++ ys) ≡ take n xs
  take_prefix zero xs ys h = refl
  take_prefix (suc n) [] ys h = absurd (omega arith)
  take_prefix (suc n) (x ∷ xs) ys h = ap (λ t. x ∷ t) (take_prefix n xs ys (omega arith))

  pub drop-take : (n k : ℕ) (xs : List A) → drop n (take k xs) ≡ take (k - n) (drop n xs)
  drop-take zero k xs = rw sub-zero
  drop-take (suc n) zero xs = rw zero-sub
  drop-take (suc n) (suc k) [] = sym (take_all (suc k - suc n) [] (omega arith))
  drop-take (suc n) (suc k) (x ∷ xs) = rw (suc-sub-suc k n) (drop-take n k xs)

  pub take-length_append : (p r : List A) → take (length p) (p ++ r) ≡ p
  take-length_append [] r = refl
  take-length_append (x ∷ p) r = ap (λ t. x ∷ t) (take-length_append p r)

  pub drop-length_append : (p r : List A) → drop (length p) (p ++ r) ≡ r
  drop-length_append [] r = refl
  drop-length_append (x ∷ p) r = drop-length_append p r

  pub drop-length_append_suc :
      (p : List A) (c : A) (r : List A) → drop (suc (length p)) (p ++ c ∷ r) ≡ r
  drop-length_append_suc [] c r = refl
  drop-length_append_suc (x ∷ p) c r = drop-length_append_suc p c r
