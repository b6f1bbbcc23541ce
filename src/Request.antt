-- ===== src/Request.antt =====
-- core.hpp, "Request" and "HTTP/1.1 header parser": `request`, its getters, and `parse_headers`.
pub mod Lines
pub mod Parse
pub mod Lookup
pub mod Getters
pub mod Typed
pub mod Cookies
pub mod CookieText
pub mod Multipart
pub mod Lazy
pub mod FormText
pub mod PartLines
pub mod FormParts
mod Examples
use mathlib.Core.Option
use lundicpp.Base.{
  ℕ, zero, suc, ◌+◌, ◌-◌, Bytes, List, [], ◌∷◌, ◌++◌, Bool, true, false, ◌&&◌, ◌||◌, Option, none,
  some, ltb, ◌==◌, if◌then◌else◌, length, take, drop, substr, codes, find_char, find_char_from,
  find_str, is_empty,
}
use lundicpp.Url.{url_decode, parse_query_string, QueryEntry}
use lundicpp.Router.{ParamEntry}

-- `request::header_entry`.
pub record HeaderEntry : Type 0 where
  pub name : Bytes
  pub value : Bytes

-- `headers` is the part of `headers_arr` in use, so that `num_headers` is its length.
pub record Request : Type 0 where
  pub method : Bytes
  pub path : Bytes
  pub raw_path : Bytes
  pub body : Bytes
  pub headers : List HeaderEntry
  pub params : List ParamEntry
  pub query_params : List QueryEntry

abbrev pub max_headers : ℕ
max_headers = 32

-- `request req;`
abbrev pub new_request : Request
new_request = record {
  method = [];
  path = [];
  raw_path = [];
  body = [];
  headers = [];
  params = [];
  query_params = [];
}

abbrev pub is_none : Option ℕ → Bool
is_none none = true
is_none (some n) = false

-- The text itself where it holds neither `%` nor `+`.
unfoldable pub decode_path : Bytes → Bytes
unfolding find_char url_decode
decode_path raw =
    if is_none (find_char b'%' raw) && is_none (find_char b'+' raw) then raw else url_decode raw

-- The path and the query of `raw_path`.
unfoldable pub set_target : Bytes → Bytes → Request → Request
unfolding find_char parse_query_string decode_path
set_target method raw_path req = elim (find_char b'?' raw_path) [
  | some qmark ↦ record req {
    method = method;
    raw_path = raw_path;
    path = decode_path (take qmark raw_path);
    query_params = parse_query_string (drop (qmark + 1) raw_path);
  }
  | none ↦ record req { method = method; raw_path = raw_path; path = decode_path raw_path }
]

-- `line.find( ' ', sp1 + 1 )`, where `npos + 1` is 0.
abbrev pub second_space : Option ℕ → Bytes → Option ℕ
second_space none line = find_char 32 line
second_space (some sp1) line = find_char_from 32 line (sp1 + 1)

-- The request line.
unfoldable pub set_line : Bytes → Request → Request
unfolding find_char set_target
set_line line req =
    elim (find_char 32 line) as (λ sp1. Option ℕ → Request) [
      | none ↦ λ sp2. req
      | some sp1 ↦ λ sp2. elim sp2 [
        | none ↦ req
        | some sp2 ↦ set_target (take sp1 line) (substr line (sp1 + 1) (sp2 - sp1 - 1)) req
      ]
    ]
      (second_space (find_char 32 line) line)

-- `find_first_not_of( " \t" )`.
unfoldable pub find_not_blank : Bytes → Option ℕ
find_not_blank [] = none
find_not_blank (c ∷ s) = if c == 32 || c == 9 then Option.map suc (find_not_blank s) else some 0

-- `val`, from what follows the colon.
unfoldable pub header_value : Bytes → Bytes
unfolding find_not_blank
header_value rest = elim (find_not_blank rest) [ none ↦ [] | some val_start ↦ drop val_start rest ]

-- `req.headers_arr[ req.num_headers++ ] = { key, val }` behind its guard.
unfoldable pub add_header : Bytes → List HeaderEntry → List HeaderEntry
unfolding find_char header_value
add_header hline hs = elim (find_char b':' hline) [
  | none ↦ hs
  | some colon ↦
      if ltb (length hs) max_headers
      then hs
        ++ record { name = take colon hline; value = header_value (drop (colon + 1) hline) } ∷ []
      else hs
]

-- `while( pos < header_data.size() )`, over the bytes from `pos` on. Each round but the last drops at
-- least two of them, so that their number is fuel enough.
unfoldable pub headers_loop : ℕ → Bytes → List HeaderEntry → List HeaderEntry
unfolding find_str add_header
headers_loop zero rest hs = hs
headers_loop (suc fuel) [] hs = hs
headers_loop (suc fuel) (c ∷ rest) hs = elim (find_str (codes "\r\n") (c ∷ rest)) [
  | none ↦ hs
  | some zero ↦ hs
  | some (suc n) ↦
      headers_loop fuel (drop (suc n + 2) (c ∷ rest)) (add_header (take (suc n) (c ∷ rest)) hs)
]

unfoldable pub parse_headers : Bytes → Request
unfolding find_str find_char set_line headers_loop add_header
parse_headers header_data = elim (find_str (codes "\r\n") header_data) [
  | none ↦ new_request
  | some line_end ↦
      let req = set_line (take line_end header_data) new_request in
      let rest = drop (line_end + 2) header_data in
      record req { headers = headers_loop (length rest) rest [] }
]
