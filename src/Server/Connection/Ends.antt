-- ===== src/Server/Connection/Ends.antt =====
-- The text of a request that is written out has its first terminator at its end.
use lundicpp.Base.{
  ℕ, zero, suc, ◌+◌, ◌<◌, ◌≡◌, ◌≢◌, refl, Bytes, List, [], ◌∷◌, ◌++◌, true, false, length, arith,
  inr,
}
use lundicpp.Base.Find.{All, Lacks}
use lundicpp.Engine.Scan.{is_end_at}
use lundicpp.Engine.Scan.First.{IsFirstEnd, NoneIn}
use lundicpp.Request.Lines.{crlf, Line, IsLine, line_text, line-Lacks, lines_text}

-- The last four bytes are a terminator, and no other starts before them.
abbrev EndsFirst : Bytes → Type 0
EndsFirst s = (p : ℕ) × (length s ≡ p + 4) × (is_end_at s p ≡ true) × NoneIn s 0 p

shift : (c : ℕ) (s : Bytes) (q : ℕ) → is_end_at (c ∷ s) (suc q) ≡ is_end_at s q
unfolding is_end_at
shift c s q =
    let one : suc q + 1 ≡ suc (q + 1) = omega arith in
    let two : suc q + 2 ≡ suc (q + 2) = omega arith in
    let three : suc q + 3 ≡ suc (q + 3) = omega arith in rw (one, two, three) refl

cons : (c : ℕ) (s : Bytes) → is_end_at (c ∷ s) 0 ≡ false → EndsFirst s → EndsFirst (c ∷ s)
cons c s miss (p, size, hit, none_in) = (suc p, omega (arith, size), hit', none_in')
  where
    hit' : is_end_at (c ∷ s) (suc p) ≡ true
    hit' = rw (shift c s p) hit

    none_in' : NoneIn (c ∷ s) 0 (suc p)
    none_in' zero le lt = miss
    none_in' (suc q) le lt = rw (shift c s q) (none_in q (omega arith) (omega arith))

no_start : (c : ℕ) (s : Bytes) → c ≢ 13 → is_end_at (c ∷ s) 0 ≡ false
unfolding is_end_at
no_start c s h = ground arith

line-EndsFirst : (line s : Bytes) → Lacks 13 line → EndsFirst s → EndsFirst (line ++ s)
line-EndsFirst [] s lacks h = h
line-EndsFirst (c ∷ line) s (p, lacks) h =
    cons c (line ++ s) (no_start c (line ++ s) p) (line-EndsFirst line s lacks h)

-- A line break before a line is no terminator.
break-EndsFirst :
    (line s : Bytes)
    → Lacks 13 line
    → 0 < length line
    → EndsFirst (line ++ s)
    → EndsFirst (crlf ++ (line ++ s))
unfolding is_end_at
break-EndsFirst [] s lacks some h = absurd (omega arith)
break-EndsFirst (c ∷ line) s (p, lacks) some h =
    cons 13 (10 ∷ (c ∷ (line ++ s))) (ground arith) (cons 10 (c ∷ (line ++ s)) (ground arith) h)

name_behind : (name s : Bytes) → 0 < length (name ++ b':' ∷ s)
name_behind [] s = omega arith
name_behind (c ∷ name) s = omega arith

lines-EndsFirst : (ls : List Line) → All IsLine ls → EndsFirst (crlf ++ lines_text ls [])
unfolding is_end_at
lines-EndsFirst [] h = (0, refl, refl, λ q le lt. absurd (omega arith))
lines-EndsFirst (l ∷ ls) (p, h) =
    break-EndsFirst (line_text l) _ (line-Lacks l p) (name_behind l.name _)
      (line-EndsFirst (line_text l) _ (line-Lacks l p) (lines-EndsFirst ls h))

-- Behind a first line without a line break, the headers end at the blank line.
pub text-IsFirstEnd :
    (line : Bytes) (ls : List Line)
    → Lacks 13 line
    → All IsLine ls
    → (let s = line ++ (crlf ++ lines_text ls []) in IsFirstEnd s 0 (length s) × (0 < length s))
text-IsFirstEnd line ls lacks h =
    let (p, size, hit, none_in) = line-EndsFirst line _ lacks (lines-EndsFirst ls h) in
    (inr (p, size, omega arith, hit, none_in), omega (arith, size))
