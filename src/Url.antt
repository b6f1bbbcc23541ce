-- ===== src/Url.antt =====
-- core.hpp, "URL decoding": `hex_val`, `url_decode`, `to_lower` and `parse_query_string`.
pub mod Decode
pub mod Query
mod Examples
use lundicpp.Base.{
  ℕ, zero, suc, ◌+◌, ◌-◌, ◌*◌, ◌%◌, Bytes, List, [], ◌∷◌, ◌++◌, Bool, ◌&&◌, Option, none, some, map,
  leb, ◌==◌, if◌then◌else◌, length, take, drop, find_char, is_empty, true,
}
use lundicpp.Base.Split.{pieces_loop}

-- `hex_val`; `none` is -1. A byte above 127, negative as a `char`, is in no range either way.
unfoldable pub hex_val : ℕ → Option ℕ
hex_val c =
    if leb b'0' c && leb c b'9'
    then some (c - b'0')
    else if leb b'A' c && leb c b'F'
    then some (c - b'A' + 10)
    else if leb b'a' c && leb c b'f'
    then some (c - b'a' + 10)
    else none

-- The byte of two hexadecimal digits, `hi * 16 + lo` as a `char`; `none` if one of them is none.
unfoldable pub hex_pair : ℕ → ℕ → Option ℕ
unfolding hex_val
hex_pair h l = elim (hex_val h) [
  | none ↦ none
  | some hi ↦ elim (hex_val l) [ none ↦ none | some lo ↦ some ((hi * 16 + lo) % 256) ]
]

-- What a byte stands for that begins no escape.
abbrev pub plain : ℕ → ℕ
plain c = if c == b'+' then 32 else c

-- The loop of `url_decode`, over the bytes that are left; `i + 2 < sv.size()` says that two follow.
unfoldable pub url_decode : Bytes → Bytes
unfolding hex_pair
url_decode (c ∷ h ∷ l ∷ rest) =
    let next = plain c ∷ url_decode (h ∷ l ∷ rest) in
    let skipped = url_decode rest in
    if c == b'%' then (elim (hex_pair h l) [ none ↦ next | some b ↦ b ∷ skipped ]) else next
url_decode (c ∷ rest) = plain c ∷ url_decode rest
url_decode [] = []

-- `tolower` in the C locale.
unfoldable pub lower : ℕ → ℕ
lower c = if leb b'A' c && leb c b'Z' then c + 32 else c

unfoldable pub to_lower : Bytes → Bytes
unfolding lower
to_lower s = map lower s

pub record QueryEntry : Type 0 where
  pub name : Bytes
  pub value : Bytes

-- The entry of a piece that is not empty.
unfoldable pub query_entry : Bytes → QueryEntry
query_entry pair = elim (find_char b'=' pair) [
  | some eq ↦ record { name = url_decode (take eq pair); value = url_decode (drop (eq + 1) pair) }
  | none ↦ record { name = url_decode pair; value = [] }
]

-- `params.push_back`, for a piece that is not empty.
unfoldable pub add_pair : Bytes → List QueryEntry → List QueryEntry
add_pair pair params = if is_empty pair then params else params ++ query_entry pair ∷ []

-- `while( !qs.empty() )`, with no other test.
unfoldable pub parse_query_string : Bytes → List QueryEntry
unfolding pieces_loop add_pair query_entry url_decode find_char
parse_query_string qs = pieces_loop b'&' (λ _. true) add_pair (length qs) qs []
