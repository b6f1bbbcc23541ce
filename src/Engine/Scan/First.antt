-- ===== src/Engine/Scan/First.antt =====
-- Both forms of the scan return the end of the first terminator.
use lundicpp.Base.{
  ℕ, zero, suc, ◌+◌, ◌-◌, ◌≤◌, ◌<◌, ◌≡◌, refl, sym, ◌∙◌, ◌⊎◌, inl, inr, Bytes, [], ◌∷◌, true, false,
  Option, none, some, arith, length, get_or, Bool-cases, ltb, if◌then◌else◌,
}
use lundicpp.Engine.Scan.{
  is_end_at, scan_scalar, movemask, check_mask, scan_blocks, find_header_end,
  find_header_end_scalar,
}

-- No terminator starts at `i`, …, `j - 1`.
abbrev pub NoneIn : Bytes → ℕ → ℕ → Type 0
NoneIn bytes i j = (q : ℕ) → i ≤ q → q < j → is_end_at bytes q ≡ false

-- `r` is one past the first terminator from `i` on, or 0 if there is none.
abbrev pub IsFirstEnd : Bytes → ℕ → ℕ → Type 0
IsFirstEnd bytes i r =
    ((r ≡ 0) × NoneIn bytes i (length bytes))
    ⊎ ((p : ℕ) × (r ≡ p + 4) × (i ≤ p) × (is_end_at bytes p ≡ true) × NoneIn bytes i p)

get_or_beyond : (xs : Bytes) (i : ℕ) → length xs ≤ i → get_or xs i 0 ≡ 0
get_or_beyond [] i h = refl
get_or_beyond (x ∷ xs) zero h = absurd (omega arith)
get_or_beyond (x ∷ xs) (suc i) h = get_or_beyond xs i (omega arith)

-- A terminator lies within the data.
pub is_end_at-lt : (bytes : Bytes) (i : ℕ) → is_end_at bytes i ≡ true → i + 3 < length bytes
unfolding is_end_at
is_end_at-lt bytes i h = elim (Bool-cases (ltb (i + 3) (length bytes))) [
  | inl lt ↦ ground arith
  | inr ge ↦ absurd (ground (arith, get_or_beyond bytes (i + 3)))
]

NoneIn-near_end : (bytes : Bytes) (i : ℕ) → length bytes ≤ i + 3 → NoneIn bytes i (length bytes)
NoneIn-near_end bytes i h q iq qj = elim (Bool-cases (is_end_at bytes q)) [
  | inl hit ↦ absurd (omega (arith, is_end_at-lt bytes q hit))
  | inr miss ↦ miss
]

NoneIn-step :
    (bytes : Bytes) (i j : ℕ)
    → is_end_at bytes i ≡ false
    → NoneIn bytes (i + 1) j
    → NoneIn bytes i j
NoneIn-step bytes i j miss rest q iq qj = elim (Bool-cases (ltb i q)) [
  | inl lt ↦ rest q (ground arith) qj
  | inr ge ↦ let same : q ≡ i = ground arith in rw same miss
]

NoneIn-join : (bytes : Bytes) (i k j : ℕ) → NoneIn bytes i k → NoneIn bytes k j → NoneIn bytes i j
NoneIn-join bytes i k j low high q iq qj = elim (Bool-cases (ltb q k)) [
  | inl lt ↦ low q iq (ground arith)
  | inr ge ↦ high q (ground arith) qj
]

-- A scan that starts later finds the same, where no terminator starts before.
pub IsFirstEnd-from :
    (bytes : Bytes) (i k r : ℕ)
    → i ≤ k
    → NoneIn bytes i k
    → IsFirstEnd bytes k r
    → IsFirstEnd bytes i r
IsFirstEnd-from bytes i k r ik low (inl (e, none_in)) =
    inl (e, NoneIn-join bytes i k (length bytes) low none_in)
IsFirstEnd-from bytes i k r ik low (inr (p, e, kp, hit, none_in)) =
    inr (p, e, omega arith, hit, NoneIn-join bytes i k p low none_in)

scan_scalar-IsFirstEnd :
    (rounds : ℕ) (bytes : Bytes) (i : ℕ)
    → length bytes ≤ rounds + (i + 3)
    → IsFirstEnd bytes i (scan_scalar rounds bytes i)
unfolding scan_scalar
scan_scalar-IsFirstEnd zero bytes i h = inl (refl, NoneIn-near_end bytes i (omega arith))
scan_scalar-IsFirstEnd (suc rounds) bytes i h = elim (Bool-cases (is_end_at bytes i)) [
  | inl hit ↦ rw hit (inr (i, refl, omega arith, hit, λ q iq qi. absurd (omega arith)))
  | inr miss ↦ rw miss (
      IsFirstEnd-from bytes i (i + 1) (scan_scalar rounds bytes (i + 1)) (omega arith)
        (NoneIn-step bytes i (i + 1) miss (λ q iq qi. absurd (omega arith)))
        (scan_scalar-IsFirstEnd rounds bytes (i + 1) (omega arith)))
]

-- One byte of a block: the mask holds its bit if it is CR, and then the test decides.
check_mask_step :
    (n : ℕ) (bytes : Bytes) (i bit : ℕ)
    → i + bit + 3 < length bytes
    → check_mask (movemask (suc n) bytes i bit) bytes i ≡ (
        if is_end_at bytes (i + bit)
        then some (i + bit + 4)
        else check_mask (movemask n bytes i (bit + 1)) bytes i)
unfolding movemask check_mask is_end_at
check_mask_step n bytes i bit h = ground arith

-- What a block's test returns: the first terminator that starts in the block.
IsBlockEnd : Bytes → ℕ → ℕ → Option ℕ → Type 0
IsBlockEnd bytes i j none = NoneIn bytes i j
IsBlockEnd bytes i j (some r) =
    (p : ℕ) × (r ≡ p + 4) × (i ≤ p) × (is_end_at bytes p ≡ true) × NoneIn bytes i p

IsBlockEnd-step :
    (bytes : Bytes) (i j : ℕ) (o : Option ℕ)
    → is_end_at bytes i ≡ false
    → IsBlockEnd bytes (i + 1) j o
    → IsBlockEnd bytes i j o
unfolding IsBlockEnd
IsBlockEnd-step bytes i j none miss b = NoneIn-step bytes i j miss b
IsBlockEnd-step bytes i j (some r) miss (p, e, ip, hit, none_in) =
    (p, e, omega arith, hit, NoneIn-step bytes i p miss none_in)

check_mask-IsBlockEnd :
    (n : ℕ) (bytes : Bytes) (i bit at : ℕ)
    → at ≡ i + bit
    → i + bit + n + 3 ≤ length bytes
    → IsBlockEnd bytes at (at + n) (check_mask (movemask n bytes i bit) bytes i)
check_mask-IsBlockEnd zero bytes i bit at e h =
    unfold movemask check_mask IsBlockEnd in λ q iq qj. absurd (omega arith)
check_mask-IsBlockEnd (suc n) bytes i bit at e h =
    rw (check_mask_step n bytes i bit (omega arith), ← e)
      (elim (Bool-cases (is_end_at bytes at)) [
        | inl hit ↦
            rw hit
              (unfold IsBlockEnd in (at, refl, omega arith, hit, λ q iq qi. absurd (omega arith)))
        | inr miss ↦
            let last : at + suc n ≡ (at + 1) + n = omega arith in
            rw (miss, last)
              (IsBlockEnd-step bytes at ((at + 1) + n) _ miss
                (check_mask-IsBlockEnd n bytes i (bit + 1) (at + 1) (omega arith) (omega arith)))
      ])

-- A block's result joined with that of the scan behind the block.
block_join :
    (bytes : Bytes) (i : ℕ) (o : Option ℕ) (rest : ℕ)
    → IsBlockEnd bytes i (i + 16) o
    → IsFirstEnd bytes (i + 16) rest
    → IsFirstEnd bytes i (elim o [ some r ↦ r | none ↦ rest ])
unfolding IsBlockEnd
block_join bytes i none rest b f = IsFirstEnd-from bytes i (i + 16) rest (omega arith) b f
block_join bytes i (some r) rest b f = inr b

scan_blocks-IsFirstEnd :
    (fuel : ℕ) (bytes : Bytes) (i : ℕ) → IsFirstEnd bytes i (scan_blocks fuel bytes i)
unfolding scan_blocks
scan_blocks-IsFirstEnd zero bytes i =
    scan_scalar-IsFirstEnd (length bytes - (i + 3)) bytes i (omega arith)
scan_blocks-IsFirstEnd (suc fuel) bytes i = elim (Bool-cases (ltb (i + 19) (length bytes))) [
  | inl block ↦ rw block (
      block_join bytes i (check_mask (movemask 16 bytes i 0) bytes i)
        (scan_blocks fuel bytes (i + 16))
        (check_mask-IsBlockEnd 16 bytes i 0 i (omega arith) (ground arith))
        (scan_blocks-IsFirstEnd fuel bytes (i + 16)))
  | inr tail ↦ rw tail (scan_scalar-IsFirstEnd (length bytes - (i + 3)) bytes i (omega arith))
]

-- Nothing that ends within the bytes already scanned.
abbrev pub IsScanned : Bytes → ℕ → Type 0
IsScanned bytes scan_start = (q : ℕ) → q + 4 ≤ scan_start → is_end_at bytes q ≡ false

start_lem :
    (bytes : Bytes) (scan_start r : ℕ)
    → IsScanned bytes scan_start
    → IsFirstEnd bytes (if ltb 3 scan_start then scan_start - 3 else 0) r
    → IsFirstEnd bytes 0 r
start_lem bytes scan_start r old f = elim (Bool-cases (ltb 3 scan_start)) [
  | inl far ↦
      IsFirstEnd-from bytes 0 (scan_start - 3) r (omega arith) (λ q zq qi. old q (ground arith))
        (rw far at f)
  | inr near ↦ rw near at f
]

-- Where no terminator ends within the first `scan_start` bytes, the scan returns the position past
-- the first terminator of the whole data, or 0 if there is none; a terminator across the boundary
-- between old and new data counts.
pub find_header_end-IsFirstEnd :
    (bytes : Bytes) (scan_start : ℕ)
    → IsScanned bytes scan_start
    → IsFirstEnd bytes 0 (find_header_end bytes scan_start)
unfolding find_header_end
find_header_end-IsFirstEnd bytes scan_start old = elim (Bool-cases (ltb (length bytes) 4)) [
  | inl short ↦ rw short (inl (refl, NoneIn-near_end bytes 0 (ground arith)))
  | inr long ↦
      rw long (start_lem bytes scan_start _ old (scan_blocks-IsFirstEnd (length bytes) bytes _))
]

pub find_header_end_scalar-IsFirstEnd :
    (bytes : Bytes) (scan_start : ℕ)
    → IsScanned bytes scan_start
    → IsFirstEnd bytes 0 (find_header_end_scalar bytes scan_start)
unfolding find_header_end_scalar
find_header_end_scalar-IsFirstEnd bytes scan_start old = elim (Bool-cases (ltb (length bytes) 4)) [
  | inl short ↦ rw short (inl (refl, NoneIn-near_end bytes 0 (ground arith)))
  | inr long ↦
      rw long (start_lem bytes scan_start _ old (scan_scalar-IsFirstEnd _ bytes _ (omega arith)))
]

first_unique :
    (bytes : Bytes) (i p q : ℕ) → i ≤ p → is_end_at bytes p ≡ true → NoneIn bytes i q → q ≤ p
first_unique bytes i p q ip hit none_in = elim (Bool-cases (ltb p q)) [
  | inl lt ↦ absurd (ground (arith, hit, none_in p))
  | inr ge ↦ ground arith
]

IsFirstEnd-unique :
    (bytes : Bytes) (i r r' : ℕ) → IsFirstEnd bytes i r → IsFirstEnd bytes i r' → r ≡ r'
IsFirstEnd-unique bytes i r r' (inl (e, n)) (inl (e', n')) = e ∙ sym e'
IsFirstEnd-unique bytes i r r' (inl (e, n)) (inr (p, e', ip, hit, n')) =
    absurd (omega (arith, first_unique bytes i p (length bytes) ip hit n, is_end_at-lt bytes p hit))
IsFirstEnd-unique bytes i r r' (inr (p, e, ip, hit, n)) (inl (e', n')) =
    absurd
      (omega (arith, first_unique bytes i p (length bytes) ip hit n', is_end_at-lt bytes p hit))
IsFirstEnd-unique bytes i r r' (inr (p, e, ip, hit, n)) (inr (q, e', iq, hit', n')) =
    omega (arith, first_unique bytes i p q ip hit n', first_unique bytes i q p iq hit' n)

-- The scan by blocks and the scalar scan return the same for all data and every starting point.
pub find_header_end-scalar :
    (bytes : Bytes) (scan_start : ℕ)
    → find_header_end bytes scan_start ≡ find_header_end_scalar bytes scan_start
unfolding find_header_end find_header_end_scalar
find_header_end-scalar bytes scan_start = elim (Bool-cases (ltb (length bytes) 4)) [
  | inl short ↦ rw short
  | inr long ↦ rw long (
      IsFirstEnd-unique bytes _ _ _ (scan_blocks-IsFirstEnd (length bytes) bytes _)
        (scan_scalar-IsFirstEnd _ bytes _ (omega arith)))
]
