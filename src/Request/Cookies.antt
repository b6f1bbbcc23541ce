-- ===== src/Request/Cookies.antt =====
-- core.hpp, "Cookie parsing": `parse_cookies`, with its map as a list of keys, each once, and the
-- getters of `request` for cookies.
use lundicpp.Base.{
  ℕ, zero, suc, ◌+◌, Bytes, List, [], ◌∷◌, Bool, true, false, ◌&&◌, Option, none, some, ◌==◌,
  if◌then◌else◌, length, take, drop, find_char, is_empty, bytes_eq, codes,
}
use lundicpp.Request.{HeaderEntry}
use lundicpp.Request.Lookup.{find_header_ci, first}

abbrev pub CookieMap : Type 0
CookieMap = List (Bytes × Bytes)

-- `cookies[ name ] = val`.
unfoldable pub put_cookie : Bytes → Bytes → CookieMap → CookieMap
unfolding bytes_eq
put_cookie name val [] = (name, val) ∷ []
put_cookie name val ((k, v) ∷ cookies) =
    let rest = put_cookie name val cookies in
    if bytes_eq k name then (k, val) ∷ cookies else (k, v) ∷ rest

-- `while( … cookie_header[ 0 ] == ' ' )`.
unfoldable pub skip_spaces : Bytes → Bytes
skip_spaces [] = []
skip_spaces (c ∷ s) = if c == 32 then skip_spaces s else c ∷ s

-- `while( … name.back() == ' ' )`.
unfoldable pub trim_back : Bytes → Bytes
trim_back [] = []
trim_back (c ∷ s) = let rest = trim_back s in if is_empty rest && c == 32 then [] else c ∷ rest

unfoldable pub add_cookie : Bytes → CookieMap → CookieMap
unfolding find_char put_cookie trim_back
add_cookie pair cookies = if is_empty pair then cookies else elim (find_char b'=' pair) [
  | none ↦ cookies
  | some eq ↦ put_cookie (trim_back (take eq pair)) (drop (eq + 1) pair) cookies
]

-- The loop, on the length of the view, since each round drops one byte at least.
unfoldable pub cookies_loop : ℕ → Bytes → CookieMap → CookieMap
unfolding find_char skip_spaces
cookies_loop zero cookie_header cookies = cookies
cookies_loop (suc fuel) [] cookies = cookies
cookies_loop (suc fuel) (c ∷ s) cookies =
    let view = skip_spaces (c ∷ s) in
    elim (find_char b';' view) [
      | none ↦ add_cookie view cookies
      | some semi ↦ cookies_loop fuel (drop (semi + 1) view) (add_cookie (take semi view) cookies)
    ]

unfoldable pub parse_cookies : Bytes → CookieMap
unfolding cookies_loop add_cookie
parse_cookies cookie_header = cookies_loop (length cookie_header) cookie_header []

-- What the first `ensure_cookies_parsed` leaves in `cookies_`.
unfoldable pub parsed_cookies : List HeaderEntry → Option CookieMap
unfolding find_header_ci parse_cookies
parsed_cookies headers = elim (find_header_ci (codes "cookie") headers) [
  | none ↦ none
  | some val ↦ some (parse_cookies val)
]

abbrev pub or_empty : Option Bytes → Bytes
or_empty none = []
or_empty (some v) = v

unfoldable pub cookie : Bytes → List HeaderEntry → Bytes
unfolding parsed_cookies bytes_eq
cookie name headers = elim (parsed_cookies headers) [
  | none ↦ []
  | some cookies ↦ or_empty (first name cookies)
]

abbrev pub is_some : Option Bytes → Bool
is_some none = false
is_some (some v) = true

unfoldable pub has_cookie : Bytes → List HeaderEntry → Bool
unfolding parsed_cookies bytes_eq
has_cookie name headers = elim (parsed_cookies headers) [
  | none ↦ false
  | some cookies ↦ is_some (first name cookies)
]

-- `cookies()`.
unfoldable pub all_cookies : List HeaderEntry → CookieMap
unfolding parsed_cookies
all_cookies headers = elim (parsed_cookies headers) [ none ↦ [] | some cookies ↦ cookies ]
