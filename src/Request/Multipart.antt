-- ===== src/Request/Multipart.antt =====
-- core.hpp: `parse_multipart`, `extract_boundary` and the getters of forms.
use lundicpp.Base.{
  ℕ, zero, suc, ◌+◌, Bytes, List, [], ◌∷◌, ◌++◌, ◌&&◌, ◌||◌, Option, none, some, ltb, ◌==◌,
  if◌then◌else◌, bytes_eq, codes, length, take, drop, is_empty, get_or, find_str, find_char,
  prefix_to,
}
use lundicpp.Request.{Request}
use lundicpp.Request.Lookup.{find_header_ci}

pub record FormFile : Type 0 where
  pub filename : Bytes
  pub content_type : Bytes
  pub content : Bytes

-- The two maps, as lists in which each key stands once.
pub record FormData : Type 0 where
  pub fields : List (Bytes × Bytes)
  pub files : List (Bytes × FormFile)

abbrev pub new_form : FormData
new_form = record { fields = []; files = [] }

module _ {ℓ} {A : Type ℓ} where
  -- `map[ name ] = value` and `map.find( name )`.
  unfoldable pub put_entry : Bytes → A → List (Bytes × A) → List (Bytes × A)
  put_entry name value [] = (name, value) ∷ []
  put_entry name value ((k, v) ∷ entries) =
      let rest = put_entry name value entries in
      if bytes_eq k name then (k, value) ∷ entries else (k, v) ∷ rest

  unfoldable pub find_entry : Bytes → List (Bytes × A) → Option A
  find_entry name [] = none
  find_entry name ((k, v) ∷ entries) = if bytes_eq k name then some v else find_entry name entries

-- What stands between `key`, which ends in a quote, and the next quote.
unfoldable pub quoted : Bytes → Bytes → Bytes
unfolding find_str find_char
quoted key part_headers = elim (find_str key part_headers) [
  | none ↦ []
  | some n ↦
      let rest = drop (n + length key) part_headers in
      elim (find_char b'"' rest) [ none ↦ [] | some e ↦ take e rest ]
]

-- `content_type`, with the name of the header in its two spellings.
unfoldable pub part_type : Bytes → Bytes
unfolding find_str
part_type part_headers =
    let from = λ (n : ℕ).
      let rest = drop (n + 14) part_headers in prefix_to (find_str (codes "\r\n") rest) rest in
    elim (find_str (codes "Content-Type: ") part_headers) [
      | some n ↦ from n
      | none ↦ elim (find_str (codes "content-type: ") part_headers) [ none ↦ [] | some n ↦ from n ]
    ]

-- The body of a part, from the text behind its headers and the position of the next delimiter there. Where
-- that is 0, the two bytes before it are those that end the headers: `body_end - pos` wraps
-- around, and `substr` takes all the rest.
unfoldable pub part_body : Bytes → ℕ → Bytes
part_body rest zero = rest
part_body rest (suc zero) = take 1 rest
part_body rest (suc (suc n)) =
    if get_or rest n 0 == b'\r' && get_or rest (n + 1) 0 == b'\n'
    then take n rest
    else take (n + 2) rest

-- The end of a round, with the three texts of the headers.
unfoldable pub add_part : Bytes → Bytes → FormData → FormData
unfolding quoted part_type put_entry
add_part part_headers content form =
    let name = quoted (codes "name=\"") part_headers in
    let filename = quoted (codes "filename=\"") part_headers in
    let content_type = part_type part_headers in
    if is_empty name
    then form
    else if is_empty filename
    then record form { fields = put_entry name content form.fields }
    else record form {
      files =
          put_entry name
            (record {
              filename = filename;
              content_type =
                  if is_empty content_type then codes "application/octet-stream" else content_type;
              content = content;
            })
            form.files;
    }

-- `if( body[ pos ] == '\r' ) pos += 2`.
unfoldable pub skip_crlf : Bytes → Bytes
skip_crlf [] = []
skip_crlf (c ∷ rest) = if c == b'\r' then drop 2 (c ∷ rest) else c ∷ rest

-- The body of the loop in three steps, with `again` for the rounds that follow: behind the delimiter,
-- behind its line end, and behind the headers.
unfoldable pub behind_headers :
    (Bytes → FormData → FormData) → Bytes → Bytes → Bytes → FormData → FormData
unfolding find_str part_body add_part
behind_headers again delim part_headers text form = elim (find_str delim text) [
  | none ↦ form
  | some next ↦ again (drop next text) (add_part part_headers (part_body text next) form)
]

unfoldable pub behind_line : (Bytes → FormData → FormData) → Bytes → Bytes → FormData → FormData
unfolding find_str behind_headers
behind_line again delim part form = elim (find_str (codes "\r\n\r\n") part) [
  | none ↦ form
  | some header_end ↦
      behind_headers again delim (take header_end part) (drop (header_end + 4) part) form
]

unfoldable pub behind_delim : (Bytes → FormData → FormData) → Bytes → Bytes → FormData → FormData
unfolding skip_crlf behind_line
behind_delim again delim behind form =
    if ltb (length behind) 2 || (get_or behind 0 0 == b'-' && get_or behind 1 0 == b'-')
    then form
    else behind_line again delim (skip_crlf behind) form

-- `while( true )`, over the bytes from `pos` on, where a delimiter stands. Each round drops the
-- delimiter, which has two bytes at least, so that the length is fuel enough.
unfoldable pub parts_loop : ℕ → Bytes → Bytes → FormData → FormData
unfolding behind_delim
parts_loop zero delim rest form = form
parts_loop (suc fuel) delim rest form =
    behind_delim (parts_loop fuel delim) delim (drop (length delim) rest) form

unfoldable pub parse_multipart : Bytes → Bytes → FormData
unfolding find_str parts_loop
parse_multipart body boundary =
    let delim = codes "--" ++ boundary in
    elim (find_str delim body) [
      | none ↦ new_form
      | some pos ↦ parts_loop (length body) delim (drop pos body) new_form
    ]

-- `while( end > bp && … ) --end`.
unfoldable pub trim_end : Bytes → Bytes
trim_end [] = []
trim_end (c ∷ s) =
    let rest = trim_end s in if is_empty rest && (c == 32 || c == b'\r') then [] else c ∷ rest

-- What follows `boundary=`.
unfoldable pub boundary_value : Bytes → Bytes
unfolding find_char trim_end
boundary_value [] = []
boundary_value (c ∷ s) =
    if c == b'"'
    then (elim (find_char b'"' s) [ none ↦ [] | some n ↦ take n s ])
    else trim_end (prefix_to (find_char b';' (c ∷ s)) (c ∷ s))

unfoldable pub extract_boundary : Bytes → Bytes
unfolding find_str boundary_value
extract_boundary content_type = elim (find_str (codes "boundary=") content_type) [
  | none ↦ []
  | some n ↦ boundary_value (drop (n + 9) content_type)
]

-- What the first `ensure_form_parsed` leaves in `form_`.
unfoldable pub parsed_form : Request → FormData
unfolding find_header_ci find_str extract_boundary parse_multipart
parsed_form req = elim (find_header_ci (codes "content-type") req.headers) [
  | none ↦ new_form
  | some ct ↦ elim (find_str (codes "multipart/form-data") ct) [
    | none ↦ new_form
    | some n ↦
        let boundary = extract_boundary ct in
        if is_empty boundary then new_form else parse_multipart req.body boundary
  ]
]

unfoldable pub form_field : Bytes → Bytes → Request → Bytes
unfolding parsed_form find_entry
form_field name default_val req = elim (find_entry name (parsed_form req).fields) [
  | none ↦ default_val
  | some v ↦ v
]

unfoldable pub form_file_ptr : Bytes → Request → Option FormFile
unfolding parsed_form find_entry
form_file_ptr name req = find_entry name (parsed_form req).files
