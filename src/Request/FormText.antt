-- ===== src/Request/FormText.antt =====
-- A form that is written out in parts is taken apart again.
use lundicpp.Base.{
  ℕ, zero, suc, ◌+◌, ◌<◌, ◌≡◌, refl, ap, ◌∙◌, Bytes, List, [], ◌∷◌, ◌++◌, true, false, none, some,
  ltb, ◌==◌, codes, length, take, drop, get_or, arith, length-append, starts_with, find_str,
}
use lundicpp.Base.Find.{All, take-length_append, drop-length_append}
use lundicpp.Request.Multipart.{
  FormData, new_form, add_part, part_body, skip_crlf, behind_headers, behind_line, behind_delim,
  parts_loop, parse_multipart,
}

-- A part: the lines of its headers without the last line end, and its content.
pub record Part : Type 0 where
  pub lines : Bytes
  pub content : Bytes

abbrev pub crlf : Bytes
crlf = codes "\r\n"

-- The parts behind the first delimiter.
abbrev pub parts_text : Bytes → List Part → Bytes
parts_text delim [] = codes "--"
parts_text delim (p ∷ ps) =
    crlf
    ++ (p.lines ++ (codes "\r\n\r\n" ++ (p.content ++ (crlf ++ (delim ++ parts_text delim ps)))))

-- What a part needs to be told from what is around it: no blank line in its headers, and no delimiter
-- before the one that follows its content.
abbrev pub IsSeparate : Bytes → Part → Type 0
IsSeparate delim p =
    ((rest : Bytes)
      → find_str (codes "\r\n\r\n") (p.lines ++ (codes "\r\n\r\n" ++ rest)) ≡ some (length p.lines))
    × ((rest : Bytes)
        → find_str delim (p.content ++ (crlf ++ (delim ++ rest))) ≡ some (length p.content + 2))

-- What each part adds, in order.
abbrev pub add_parts : List Part → FormData → FormData
add_parts [] form = form
add_parts (p ∷ ps) form = add_parts ps (add_part p.lines p.content form)

pub drop_past : (k : ℕ) (s t : Bytes) → drop (length s + k) (s ++ t) ≡ drop k t
drop_past k [] t = let same : 0 + k ≡ k = omega arith in rw same refl
drop_past k (c ∷ s) t =
    let same : suc (length s) + k ≡ suc (length s + k) = omega arith in rw same (drop_past k s t)

get_or_past : (k : ℕ) (s t : Bytes) → get_or (s ++ t) (length s + k) 0 ≡ get_or t k 0
get_or_past k [] t = let same : 0 + k ≡ k = omega arith in rw same refl
get_or_past k (c ∷ s) t =
    let same : suc (length s) + k ≡ suc (length s + k) = omega arith in rw same (get_or_past k s t)

part_body-crlf : (s t : Bytes) → part_body (s ++ (crlf ++ t)) (length s + 2) ≡ s
unfolding part_body
part_body-crlf s t =
    let text = s ++ (crlf ++ t) in
    let count : length s + 2 ≡ suc (suc (length s)) = omega arith in
    let here : length s ≡ length s + 0 = omega arith in
    let first : get_or text (length s) 0 ≡ 13 =
      ap (λ k. get_or text k 0) here ∙ get_or_past 0 s (crlf ++ t) in
    let second : get_or text (length s + 1) 0 ≡ 10 = get_or_past 1 s (crlf ++ t) in
    rw (count, first, second) (take-length_append s (crlf ++ t))

module _ (again : Bytes → FormData → FormData) (delim : Bytes) (p : Part) (form : FormData) where
  behind_headers-text :
      (rest : Bytes)
      → find_str delim (p.content ++ (crlf ++ (delim ++ rest))) ≡ some (length p.content + 2)
      → behind_headers again delim p.lines (p.content ++ (crlf ++ (delim ++ rest))) form
        ≡ again (delim ++ rest) (add_part p.lines p.content form)
  unfolding behind_headers
  behind_headers-text rest found =
      let text = p.content ++ (crlf ++ (delim ++ rest)) in
      let next = length p.content + 2 in
      ap
        (λ o. elim o as (λ _. FormData) [
          | none ↦ form
          | some next ↦ again (drop next text) (add_part p.lines (part_body text next) form)
        ])
        found
      ∙ (ap (λ b. again (drop next text) (add_part p.lines b form))
            (part_body-crlf p.content (delim ++ rest))
          ∙ ap (λ t. again t (add_part p.lines p.content form))
              (drop_past 2 p.content (crlf ++ (delim ++ rest))))

  behind_line-text :
      (text : Bytes)
      → find_str (codes "\r\n\r\n") (p.lines ++ (codes "\r\n\r\n" ++ text)) ≡ some (length p.lines)
      → behind_line again delim (p.lines ++ (codes "\r\n\r\n" ++ text)) form
        ≡ behind_headers again delim p.lines text form
  unfolding behind_line
  behind_line-text text found =
      let part = p.lines ++ (codes "\r\n\r\n" ++ text) in
      let end = length p.lines in
      ap
        (λ o. elim o as (λ _. FormData) [
          | none ↦ form
          | some n ↦ behind_headers again delim (take n part) (drop (n + 4) part) form
        ])
        found
      ∙ (ap (λ h. behind_headers again delim h (drop (end + 4) part) form)
            (take-length_append p.lines (codes "\r\n\r\n" ++ text))
          ∙ ap (λ t. behind_headers again delim p.lines t form)
              (drop_past 4 p.lines (codes "\r\n\r\n" ++ text)))

  behind_delim-crlf :
      (rest : Bytes)
      → behind_delim again delim (crlf ++ rest) form ≡ behind_line again delim rest form
  unfolding behind_delim skip_crlf
  behind_delim-crlf rest =
      let long : ltb (length (crlf ++ rest)) 2 ≡ false = ground arith in rw long refl

parts_loop-text :
    (ps : List Part) (fuel : ℕ) (delim : Bytes) (form : FormData)
    → length ps < fuel
    → All (IsSeparate delim) ps
    → parts_loop fuel delim (delim ++ parts_text delim ps) form ≡ add_parts ps form
unfolding parts_loop behind_delim
parts_loop-text ps zero delim form h hs = absurd (omega arith)
parts_loop-text [] (suc fuel) delim form h hs = rw (drop-length_append delim (codes "--")) refl
parts_loop-text (p ∷ ps) (suc fuel) delim form h ((headers, contents), hs) =
    let again = parts_loop fuel delim in
    let after = parts_text delim ps in
    let text = p.content ++ (crlf ++ (delim ++ after)) in
    ap (λ b. behind_delim again delim b form) (drop-length_append delim (parts_text delim (p ∷ ps)))
    ∙ (behind_delim-crlf again delim p form (p.lines ++ (codes "\r\n\r\n" ++ text))
        ∙ (behind_line-text again delim p form text (headers text)
            ∙ (behind_headers-text again delim p form after (contents after)
                ∙ parts_loop-text ps fuel delim (add_part p.lines p.content form) (omega arith)
                    hs)))

starts_with-append : (s t : Bytes) → starts_with s (s ++ t) ≡ true
unfolding starts_with
starts_with-append [] t = refl
starts_with-append (c ∷ s) t =
    let same : (c == c) ≡ true = ground arith in rw same (starts_with-append s t)

find_str-front : (c : ℕ) (s t : Bytes) → find_str (c ∷ s) ((c ∷ s) ++ t) ≡ some 0
unfolding find_str
find_str-front c s t = rw (starts_with-append (c ∷ s) t) refl

length-parts_text : (delim : Bytes) (ps : List Part) → length ps < length (parts_text delim ps)
length-parts_text delim [] = omega arith
length-parts_text delim (p ∷ ps) =
    let after = delim ++ parts_text delim ps in
    let content = p.content ++ (crlf ++ after) in
    omega (
      arith,
      length-parts_text delim ps,
      length-append delim (parts_text delim ps),
      length-append p.content (crlf ++ after),
      length-append p.lines (codes "\r\n\r\n" ++ content),
    )

-- The parts of a form one after the other.
pub parse_multipart-add_parts :
    (boundary : Bytes) (ps : List Part)
    → All (IsSeparate (codes "--" ++ boundary)) ps
    → parse_multipart ((codes "--" ++ boundary) ++ parts_text (codes "--" ++ boundary) ps) boundary
      ≡ add_parts ps new_form
unfolding parse_multipart
parse_multipart-add_parts boundary ps hs =
    let delim = codes "--" ++ boundary in
    let text = parts_text delim ps in
    let body = delim ++ text in
    ap
      (λ o. elim o as (λ _. FormData) [
        | none ↦ new_form
        | some pos ↦ parts_loop (length body) delim (drop pos body) new_form
      ])
      (find_str-front b'-' (b'-' ∷ boundary) text)
    ∙ parts_loop-text ps (length body) delim new_form
        (omega (arith, length-append delim text, length-parts_text delim ps)) hs
