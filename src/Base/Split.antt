-- ===== src/Base/Split.antt =====
-- A text cut at every occurrence of a byte, and the step by which the program's loops take the
-- pieces: `find`, then the part before the byte, then the text behind it.
use native.Mathlib.Numerals.{add-one}
use Prim.Native.Nat.{ℕ, zero, suc, ◌+◌, ◌≤◌, ◌<◌}
use mathlib.Core.Path.{◌≡◌, refl, ap, sym, ◌∙◌}
use mathlib.Core.Logic.{◌≢◌, inl, inr}
use mathlib.Core.Option.{none, some}
use mathlib.Core.List.{List, [], ◌∷◌, ◌++◌}
use native.Mathlib.Omega.{arith}
use lundicpp.Base.Lists.{length, take, drop, length-drop}
use lundicpp.Base.Tests.{◌==◌, if◌then◌else◌, Bool-cases, Option-cases}
use mathlib.Core.Bool.{Bool, not, ◌||◌}
use lundicpp.Base.Text.{Bytes, find_char, prefix_to, is_empty}
use lundicpp.Base.Find.{All, Lacks, find_char-lt}

abbrev push_head : ℕ → List Bytes → List Bytes
push_head x [] = (x ∷ []) ∷ []
push_head x (p ∷ ps) = (x ∷ p) ∷ ps

-- The pieces of `s` between the bytes `c`: one more than there are such bytes.
unfoldable pub split : ℕ → Bytes → List Bytes
split c [] = [] ∷ []
split c (x ∷ xs) = let rest = split c xs in if x == c then [] ∷ rest else push_head x rest

pub split-Lacks : (c : ℕ) (s : Bytes) → find_char c s ≡ none → split c s ≡ s ∷ []
unfolding split find_char
split-Lacks c [] h = refl
split-Lacks c (x ∷ xs) h = ground (arith, split-Lacks c xs)

find_char-cons :
    (c x : ℕ) (xs : Bytes) (i : ℕ)
    → find_char c (x ∷ xs) ≡ some (suc i)
    → (x ≢ c) × (find_char c xs ≡ some i)
unfolding find_char
find_char-cons c x xs i h = ground arith

find_char-zero : (c x : ℕ) (xs : Bytes) → find_char c (x ∷ xs) ≡ some 0 → x ≡ c
unfolding find_char
find_char-zero c x xs h = ground arith

split-cons :
    (c x : ℕ) (xs q : Bytes) (qs : List Bytes)
    → x ≢ c
    → split c xs ≡ q ∷ qs
    → split c (x ∷ xs) ≡ (x ∷ q) ∷ qs
unfolding split
split-cons c x xs q qs other e = ground arith

split_at :
    (c : ℕ) (s : Bytes) (p : ℕ)
    → find_char c s ≡ some p
    → split c s ≡ take p s ∷ split c (drop (suc p) s)
split_at c [] p h = unfold find_char in cc
split_at c (x ∷ xs) zero h = let e = find_char-zero c x xs h in unfold split in ground arith
split_at c (x ∷ xs) (suc p) h =
    let (other, later) = find_char-cons c x xs p h in
    split-cons c x xs (take p xs) (split c (drop (suc p) xs)) other (split_at c xs p later)

-- One round of a loop over the pieces.
pub split-step :
    (c : ℕ) (s : Bytes) (p : ℕ)
    → find_char c s ≡ some p
    → split c s ≡ take p s ∷ split c (drop (p + 1) s)
split-step c s p h = rw add-one (split_at c s p h)

-- A piece that lacks the byte, and what follows the byte.
pub split-append : (c : ℕ) (p r : Bytes) → Lacks c p → split c (p ++ c ∷ r) ≡ p ∷ split c r
unfolding split
split-append c [] r h = ground arith
split-append c (x ∷ p) r (q, h) = ground (arith, split-append c p r h)

pub split-only : (c : ℕ) (p : Bytes) → Lacks c p → split c p ≡ p ∷ []
unfolding split
split-only c [] h = refl
split-only c (x ∷ p) (q, h) = ground (arith, split-only c p h)

-- There is at least one piece.
split-cases : (c : ℕ) (s : Bytes) → (p : Bytes) × (ps : List Bytes) × (split c s ≡ p ∷ ps)
unfolding split
split-cases c [] = ([], [], refl)
split-cases c (x ∷ xs) = elim (Bool-cases (x == c)) [
  | inl e ↦ ([], split c xs, rw e)
  | inr e ↦ let (p, ps, h) = split-cases c xs in (x ∷ p, ps, rw (e, h))
]

-- The pieces of two texts with the byte between them.
pub split-append_all : (c : ℕ) (s r : Bytes) → split c (s ++ c ∷ r) ≡ split c s ++ split c r
unfolding split
split-append_all c [] r = ground arith
split-append_all c (x ∷ s) r =
    let (p, ps, h) = split-cases c s in ground (arith, split-append_all c s r, h)

-- The text behind the byte is shorter.
pub drop-lt : (n p : ℕ) (s : Bytes) → p < length s → length s ≤ suc n → length (drop (p + 1) s) ≤ n
drop-lt n p s h k = omega (arith, length-drop (p + 1) s)

-- The pieces joined again by the byte.
unfoldable pub join : ℕ → List Bytes → Bytes
join c [] = []
join c (p ∷ []) = p
join c (p ∷ q ∷ ps) = p ++ c ∷ join c (q ∷ ps)

pub split-join :
    (c : ℕ) (p : Bytes) (ps : List Bytes)
    → Lacks c p
    → All (Lacks c) ps
    → split c (join c (p ∷ ps)) ≡ p ∷ ps
unfolding join
split-join c p [] h hs = split-only c p h
split-join c p (q ∷ ps) h (k, ks) =
    split-append c p (join c (q ∷ ps)) h ∙ ap (λ t. p ∷ t) (split-join c q ps k ks)

-- `while( !sv.empty() && more )` over the pieces of a view: `find( c )`, the body on the part before
-- it, `break` at `npos`, and the view behind it. Each further round has a shorter view, so the
-- length of the view is fuel enough (`pieces_loop-fold`).
module _ {S : Type 0} (c : ℕ) (more : S → Bool) (body : Bytes → S → S) where
  unfoldable pub pieces_loop : ℕ → Bytes → S → S
  pieces_loop zero sv s = s
  pieces_loop (suc fuel) sv s =
      let at = find_char c sv in
      let s' = body (prefix_to at sv) s in
      if is_empty sv || not (more s)
      then s
      else elim at [ none ↦ s' | some p ↦ pieces_loop fuel (drop (p + 1) sv) s' ]

  -- The same over a list of pieces.
  abbrev pub fold_pieces : List Bytes → S → S
  fold_pieces [] s = s
  fold_pieces (p ∷ ps) s = if more s then fold_pieces ps (body p s) else s

  last_round :
      (fuel x : ℕ) (xs : Bytes) (s : S)
      → find_char c (x ∷ xs) ≡ none
      → pieces_loop (suc fuel) (x ∷ xs) s ≡ (if more s then body (x ∷ xs) s else s)
  unfolding pieces_loop
  last_round fuel x xs s e = ground arith

  further_round :
      (fuel x p : ℕ) (xs : Bytes) (s : S)
      → find_char c (x ∷ xs) ≡ some p
      → pieces_loop (suc fuel) (x ∷ xs) s ≡ (
          if more s then pieces_loop fuel (drop (p + 1) (x ∷ xs)) (body (take p (x ∷ xs)) s) else s)
  unfolding pieces_loop
  further_round fuel x p xs s e = ground arith

  module _ (skip : (s : S) → body [] s ≡ s) where
    fold_empty : (s : S) → fold_pieces ([] ∷ []) s ≡ s
    fold_empty s = elim (Bool-cases (more s)) [ inl e ↦ rw e (skip s) | inr e ↦ rw e ]

    -- With enough fuel the loop is the fold over the pieces, if an empty piece changes nothing.
    pub pieces_loop-fold :
        (fuel : ℕ) (sv : Bytes) (s : S)
        → length sv ≤ fuel
        → pieces_loop fuel sv s ≡ fold_pieces (split c sv) s
    pieces_loop-fold zero [] s h = unfold pieces_loop split in sym (fold_empty s)
    pieces_loop-fold zero (x ∷ xs) s h = absurd (omega arith)
    pieces_loop-fold (suc fuel) [] s h = unfold pieces_loop split in sym (fold_empty s)
    pieces_loop-fold (suc fuel) (x ∷ xs) s h = elim (Option-cases (find_char c (x ∷ xs))) [
      | inl last ↦ rw (last_round fuel x xs s last, split-Lacks c (x ∷ xs) last)
      | inr (p, found) ↦ rw (
        further_round fuel x p xs s found,
        split-step c (x ∷ xs) p found,
        pieces_loop-fold fuel (drop (p + 1) (x ∷ xs)) (body (take p (x ∷ xs)) s)
            (drop-lt fuel p (x ∷ xs) (find_char-lt c (x ∷ xs) p found) h),
      )
    ]
