-- ===== src/Base/Text.antt =====
-- Bytes, and the members of std::string and std::string_view that the program calls. A view and a
-- string are the list of their bytes; `npos` is `none`.
use Prim.Native.Char.{code}
use Prim.Native.String.{String}
use Prim.Native.Nat.{ℕ, suc, ◌+◌}
use mathlib.Core.Path.{◌≡◌, refl}
use mathlib.Core.Logic.{◌↔◌}
use mathlib.Core.Bool.{Bool, true, false, ◌&&◌}
use mathlib.Core.Option
use mathlib.Core.Option.{Option, none, some}
use mathlib.Core.List.{List, [], ◌∷◌}
use native.Mathlib.Omega.{arith}
use lundicpp.Base.Lists.{take, drop}
use lundicpp.Base.Tests.{◌==◌, if◌then◌else◌}

abbrev pub Bytes : Type 0
Bytes = List ℕ

-- The code points of a literal, which are its bytes where the text is ASCII.
abbrev pub codes : String → Bytes
codes String.[] = []
codes (String.◌∷◌ c s) = code c ∷ codes s

-- `a == b` on strings.
unfoldable pub bytes_eq : Bytes → Bytes → Bool
bytes_eq [] [] = true
bytes_eq [] (y ∷ ys) = false
bytes_eq (x ∷ xs) [] = false
bytes_eq (x ∷ xs) (y ∷ ys) = x == y && bytes_eq xs ys

pub bytes_eq_refl : (xs : Bytes) → bytes_eq xs xs ≡ true
unfolding bytes_eq
bytes_eq_refl [] = refl
bytes_eq_refl (x ∷ xs) = ground (arith, bytes_eq_refl xs)

pub bytes_eq-true : (xs ys : Bytes) → bytes_eq xs ys ≡ true → xs ≡ ys
unfolding bytes_eq
bytes_eq-true [] [] h = refl
bytes_eq-true [] (y ∷ ys) h = cc
bytes_eq-true (x ∷ xs) [] h = cc
bytes_eq-true (x ∷ xs) (y ∷ ys) h = ground (arith, bytes_eq-true xs ys)

pub bytes_eq_iff : (xs ys : Bytes) → (bytes_eq xs ys ≡ true) ↔ (xs ≡ ys)
bytes_eq_iff xs ys = (bytes_eq-true xs ys, λ e. rw e (bytes_eq_refl ys))

-- `s.empty()`.
abbrev pub is_empty : Bytes → Bool
is_empty [] = true
is_empty (x ∷ xs) = false

-- `s.find( c )`: the first position of a byte.
unfoldable pub find_char : ℕ → Bytes → Option ℕ
find_char c [] = none
find_char c (x ∷ xs) = if x == c then some 0 else Option.map suc (find_char c xs)

-- `s.substr( pos, n )` for a `pos` that is no greater than the size.
abbrev pub substr : Bytes → ℕ → ℕ → Bytes
substr s pos n = take n (drop pos s)

-- `s.substr( 0, end )`, where `npos` takes the whole.
abbrev pub prefix_to : Option ℕ → Bytes → Bytes
prefix_to none s = s
prefix_to (some n) s = take n s

-- Whether `s` starts with `p`.
unfoldable pub starts_with : Bytes → Bytes → Bool
starts_with [] s = true
starts_with (x ∷ p) [] = false
starts_with (x ∷ p) (y ∷ s) = x == y && starts_with p s

-- `s.find( p )`: the first position at which `p` starts.
unfoldable pub find_str : Bytes → Bytes → Option ℕ
unfolding starts_with
find_str p [] = if starts_with p [] then some 0 else none
find_str p (y ∷ s) = if starts_with p (y ∷ s) then some 0 else Option.map suc (find_str p s)

-- `s.find( p, pos )` for a `pos` that is no greater than the size.
abbrev pub find_from : Bytes → Bytes → ℕ → Option ℕ
find_from p s pos = Option.map (λ n. pos + n) (find_str p (drop pos s))

abbrev pub find_char_from : ℕ → Bytes → ℕ → Option ℕ
find_char_from c s pos = Option.map (λ n. pos + n) (find_char c (drop pos s))
