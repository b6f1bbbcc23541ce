-- ===== src/Url/Decode.antt =====
-- Decoding against an encoder: a text is spelled by literal bytes, `+` and escapes.
use lundicpp.Base.{
  ℕ, ◌+◌, ◌-◌, ◌*◌, ◌/◌, ◌%◌, ◌≤◌, ◌<◌, ◌≡◌, ◌≢◌, refl, ap, ◌∙◌, Bytes, List, [], ◌∷◌, ◌++◌, Bool,
  true, false, none, some, map, arith, ltb, if◌then◌else◌, length,
}
use lundicpp.Base.Find.{All, Lacks}
use lundicpp.Url.{hex_val, hex_pair, plain, url_decode}

-- The hexadecimal digit of a number below 16, in upper or in lower case.
abbrev pub hex_digit : Bool → ℕ → ℕ
hex_digit upper n = if ltb n 10 then b'0' + n else (if upper then b'A' else b'a') + n - 10

-- How a byte may be written: as it is, a blank as `+`, or any byte as an escape.
pub data Token : Type 0 where
  literal : ℕ → Token
  blank : Token
  escape : Bool → ℕ → Token

abbrev pub spell : Token → Bytes
spell (literal c) = c ∷ []
spell blank = b'+' ∷ []
spell (escape upper b) = b'%' ∷ hex_digit upper (b / 16) ∷ hex_digit upper (b % 16) ∷ []

abbrev pub meaning : Token → ℕ
meaning (literal c) = c
meaning blank = 32
meaning (escape upper b) = b

abbrev pub IsToken : Token → Type 0
IsToken (literal c) = (c ≢ b'%') × (c ≢ b'+')
IsToken blank = Unit
IsToken (escape upper b) = b < 256

abbrev pub spell_all : List Token → Bytes
spell_all [] = []
spell_all (t ∷ ts) = spell t ++ spell_all ts

hex_val-digit : (upper : Bool) (n : ℕ) → n < 16 → hex_val (hex_digit upper n) ≡ some n
unfolding hex_val
hex_val-digit true n h = ground arith
hex_val-digit false n h = ground arith

hex_pair_lem :
    (h l hi lo : ℕ)
    → hex_val h ≡ some hi
    → hex_val l ≡ some lo
    → hex_pair h l ≡ some ((hi * 16 + lo) % 256)
unfolding hex_pair
hex_pair_lem h l hi lo p q = cc

hex_pair-digits :
    (upper : Bool) (b : ℕ)
    → b < 256
    → hex_pair (hex_digit upper (b / 16)) (hex_digit upper (b % 16)) ≡ some b
hex_pair-digits upper b h =
    hex_pair_lem _ _ (b / 16) (b % 16) (hex_val-digit upper (b / 16) (omega arith))
      (hex_val-digit upper (b % 16) (omega arith))
    ∙ ap some (omega arith)

pub url_decode-plain :
    (c : ℕ) (rest : Bytes) → c ≢ b'%' → url_decode (c ∷ rest) ≡ plain c ∷ url_decode rest
unfolding url_decode
url_decode-plain c [] h = refl
url_decode-plain c (x ∷ []) h = refl
url_decode-plain c (x ∷ y ∷ rest) h = ground arith

url_decode-escape :
    (h l b : ℕ) (rest : Bytes)
    → hex_pair h l ≡ some b
    → url_decode (b'%' ∷ h ∷ l ∷ rest) ≡ b ∷ url_decode rest
unfolding url_decode
url_decode-escape h l b rest e = rw e

-- A `%` that two hexadecimal digits do not follow stands for itself.
pub url_decode-malformed :
    (h l : ℕ) (rest : Bytes)
    → hex_pair h l ≡ none
    → url_decode (b'%' ∷ h ∷ l ∷ rest) ≡ b'%' ∷ url_decode (h ∷ l ∷ rest)
unfolding url_decode
url_decode-malformed h l rest e = rw e

decode_token :
    (t : Token) (rest : Bytes)
    → IsToken t
    → url_decode (spell t ++ rest) ≡ meaning t ∷ url_decode rest
decode_token (literal c) rest (p, q) = url_decode-plain c rest p ∙ ground arith
decode_token blank rest h = url_decode-plain b'+' rest (omega arith)
decode_token (escape upper b) rest h =
    url_decode-escape (hex_digit upper (b / 16)) (hex_digit upper (b % 16)) b rest
      (hex_pair-digits upper b h)

-- However a text is spelled, byte by byte as itself (but for `%` and `+`), a blank as `+` or any byte
-- as an escape in upper or lower case, decoding returns the text.
pub url_decode-spell :
    (ts : List Token) → All IsToken ts → url_decode (spell_all ts) ≡ map meaning ts
url_decode-spell [] h = unfold url_decode in refl
url_decode-spell (t ∷ ts) (p, h) =
    decode_token t (spell_all ts) p ∙ ap (λ r. meaning t ∷ r) (url_decode-spell ts h)

-- A text with neither `%` nor `+` is returned as it is.
pub url_decode-same : (s : Bytes) → Lacks b'%' s → Lacks b'+' s → url_decode s ≡ s
url_decode-same [] p q = unfold url_decode in refl
url_decode-same (c ∷ s) (p, ps) (q, qs) =
    rw (url_decode-plain c s p, url_decode-same s ps qs) (ground arith)

-- Decoding never makes a text longer.
pub length-url_decode : (s : Bytes) → length (url_decode s) ≤ length s
unfolding url_decode
length-url_decode [] = omega arith
length-url_decode (c ∷ []) = omega arith
length-url_decode (c ∷ h ∷ []) = omega arith
length-url_decode (c ∷ h ∷ l ∷ rest) =
    ground (arith, length-url_decode rest, length-url_decode (h ∷ l ∷ rest))
