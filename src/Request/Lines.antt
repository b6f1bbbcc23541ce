-- ===== src/Request/Lines.antt =====
-- The header lines that `parse_headers` reads, and what it keeps of them.
use native.Mathlib.Numerals.{add-one}
use lundicpp.Base.{
  ℕ, zero, suc, ◌+◌, ◌≤◌, ◌<◌, ◌≡◌, ◌⊎◌, refl, sym, ◌∙◌, Bytes, List, [], ◌∷◌, ◌++◌, true, false,
  none, some, map, arith, ltb, if◌then◌else◌, length, take, drop, find_str, append_assoc,
  append-nil, length-append, starts_with,
}
use lundicpp.Base.Find.{
  All, Lacks, All-append, find_char-append, take-length_append, drop-length_append_suc,
}
use lundicpp.Request.{
  HeaderEntry, find_not_blank, header_value, add_header, headers_loop, max_headers,
}

abbrev pub crlf : Bytes
crlf = 13 ∷ 10 ∷ []

-- The first line break of a text whose first line holds no `\r`.
pub find_str-crlf :
    (line rest : Bytes)
    → Lacks 13 line
    → find_str crlf (line ++ (crlf ++ rest)) ≡ some (length line)
unfolding find_str starts_with
find_str-crlf [] rest h = refl
find_str-crlf (c ∷ line) rest (p, h) = ground (arith, find_str-crlf line rest h)

-- A header as a client writes it: blanks behind the colon.
pub record Line : Type 0 where
  pub name : Bytes
  pub blanks : Bytes
  pub value : Bytes

abbrev pub IsBlank : ℕ → Type 0
IsBlank c = (c ≡ 32) ⊎ (c ≡ 9)

abbrev pub StartsBlank : Bytes → Type 0
StartsBlank [] = ⊥
StartsBlank (c ∷ s) = IsBlank c

abbrev pub IsLine : Line → Type 0
IsLine l =
    Lacks b':' l.name
    × Lacks 13 l.name
    × All IsBlank l.blanks
    × Lacks 13 l.value
    × ¬ (StartsBlank l.value)

abbrev pub line_text : Line → Bytes
line_text l = l.name ++ b':' ∷ (l.blanks ++ l.value)

abbrev pub entry : Line → HeaderEntry
entry l = record { name = l.name; value = l.value }

header_value-blank : (c : ℕ) (s : Bytes) → IsBlank c → header_value (c ∷ s) ≡ header_value s
unfolding header_value find_not_blank
header_value-blank c s b =
    elim (find_not_blank s) as (λ o. find_not_blank s ≡ o → header_value (c ∷ s) ≡ header_value s) [
      | none ↦ λ e. ground (arith, e)
      | some n ↦ λ e. ground (arith, e)
    ]
      refl

header_value-blanks :
    (blanks value : Bytes)
    → All IsBlank blanks
    → ¬ (StartsBlank value)
    → header_value (blanks ++ value) ≡ value
header_value-blanks [] [] h n = unfold header_value find_not_blank in refl
header_value-blanks [] (c ∷ s) h n = unfold header_value find_not_blank in ground arith
header_value-blanks (c ∷ s) value (p, h) n =
    header_value-blank c (s ++ value) p ∙ header_value-blanks s value h n

-- The guard of the table.
abbrev pub store : List HeaderEntry → HeaderEntry → List HeaderEntry
store hs e = if ltb (length hs) max_headers then hs ++ e ∷ [] else hs

add_header-line :
    (l : Line) (hs : List HeaderEntry) → IsLine l → add_header (line_text l) hs ≡ store hs (entry l)
unfolding add_header
add_header-line l hs (colon, _, blank, _, start) =
    let found = find_char-append b':' l.name (l.blanks ++ l.value) colon in
    rw (found, add_header, add-one, drop-length_append_suc, take-length_append, header_value-blanks)
      refl

pub line-Lacks : (l : Line) → IsLine l → Lacks 13 (line_text l)
line-Lacks l (_, name, blank, value, _) =
    All-append _ l.name _ name
      (omega arith, All-append _ l.blanks l.value (blanks l.blanks blank) value)
  where
    blanks : (s : Bytes) → All IsBlank s → Lacks 13 s
    blanks [] h = tt
    blanks (c ∷ s) (p, h) = (ground arith, blanks s h)

drop_two : (p rest : Bytes) → drop (suc (suc (length p))) (p ++ (crlf ++ rest)) ≡ rest
drop_two [] rest = refl
drop_two (c ∷ p) rest = drop_two p rest

pub drop-crlf : (p rest : Bytes) → drop (length p + 2) (p ++ (crlf ++ rest)) ≡ rest
drop-crlf p rest =
    let two : length p + 2 ≡ suc (suc (length p)) = omega arith in rw two (drop_two p rest)

-- A round of the loop reads one line that is not empty.
loop-step :
    (fuel c : ℕ) (line rest : Bytes) (hs : List HeaderEntry)
    → Lacks 13 (c ∷ line)
    → headers_loop (suc fuel) ((c ∷ line) ++ (crlf ++ rest)) hs
      ≡ headers_loop fuel rest (add_header (c ∷ line) hs)
unfolding headers_loop
loop-step fuel c line rest hs h =
    rw
      (
        find_str-crlf (c ∷ line) rest h,
        headers_loop,
        take-length_append line (crlf ++ rest),
        drop-crlf (c ∷ line) rest,
      )
      refl

-- The lines, a blank line, and whatever follows it.
abbrev pub lines_text : List Line → Bytes → Bytes
lines_text [] rest = crlf ++ rest
lines_text (l ∷ ls) rest = line_text l ++ (crlf ++ lines_text ls rest)

abbrev pub store_all : List HeaderEntry → List Line → List HeaderEntry
store_all hs [] = hs
store_all hs (l ∷ ls) = store_all (store hs (entry l)) ls

line_step :
    (fuel : ℕ) (l : Line) (rest : Bytes) (hs : List HeaderEntry)
    → IsLine l
    → headers_loop (suc fuel) (line_text l ++ (crlf ++ rest)) hs
      ≡ headers_loop fuel rest (store hs (entry l))
line_step fuel l rest hs h =
    rw (← add_header-line l hs h) (go (line_text l) (line-Lacks l h) (at_least l.name))
  where
    at_least : (p : Bytes) → 1 ≤ length (p ++ b':' ∷ (l.blanks ++ l.value))
    at_least [] = omega arith
    at_least (c ∷ p) = omega arith

    go :
        (line : Bytes)
        → Lacks 13 line
        → 1 ≤ length line
        → headers_loop (suc fuel) (line ++ (crlf ++ rest)) hs
          ≡ headers_loop fuel rest (add_header line hs)
    go [] lacks long = absurd (omega arith)
    go (c ∷ line) lacks long = loop-step fuel c line rest hs lacks

pub headers_loop-lines :
    (fuel : ℕ) (ls : List Line) (rest : Bytes) (hs : List HeaderEntry)
    → length ls < fuel
    → All IsLine ls
    → headers_loop fuel (lines_text ls rest) hs ≡ store_all hs ls
headers_loop-lines zero ls rest hs fits h = absurd (omega arith)
headers_loop-lines (suc fuel) [] rest hs fits h = unfold headers_loop find_str starts_with in refl
headers_loop-lines (suc fuel) (l ∷ ls) rest hs fits (p, h) =
    line_step fuel l (lines_text ls rest) hs p
    ∙ headers_loop-lines fuel ls rest (store hs (entry l)) (omega arith) h

pub store_all-take :
    (hs : List HeaderEntry) (ls : List Line) (room : ℕ)
    → length hs + room ≡ max_headers
    → store_all hs ls ≡ hs ++ take room (map entry ls)
store_all-take hs [] zero h = sym (append-nil hs)
store_all-take hs [] (suc room) h = sym (append-nil hs)
store_all-take hs (l ∷ ls) zero h =
    let full : ltb (length hs) max_headers ≡ false = ground arith in
    rw full (store_all-take hs ls zero h)
store_all-take hs (l ∷ ls) (suc room) h =
    let fits : ltb (length hs) max_headers ≡ true = ground arith in
    rw
      (
        fits,
        store_all-take (hs ++ entry l ∷ []) ls room
            (omega (arith, length-append hs (entry l ∷ []))),
      )
      (append_assoc hs (entry l ∷ []) (take room (map entry ls)))

pub lines_long : (ls : List Line) (rest : Bytes) → length ls < length (lines_text ls rest)
lines_long [] rest = omega arith
lines_long (l ∷ ls) rest =
    omega (arith, lines_long ls rest, length-append (line_text l) (crlf ++ lines_text ls rest))
