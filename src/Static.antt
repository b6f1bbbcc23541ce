-- ===== src/Static.antt =====
-- static_files.hpp: `static_file_handler`, on a file system that is a parameter.
pub mod Mime
pub mod Laws
pub mod Headers
pub mod Revalidate
pub mod Mounts
mod Examples
use lundicpp.Base.{
  ℕ, zero, suc, ◌+◌, ◌-◌, Bytes, List, [], ◌∷◌, ◌++◌, Bool, true, false, ◌&&◌, ◌||◌, not, Option,
  none, some, ltb, leb, ◌==◌, if◌then◌else◌, bytes_eq, codes, length, take, drop, is_empty,
  starts_with, find_str, find_char, prefix_to,
}
use lundicpp.Base.Int.{ℤ, pos, negsuc}
use lundicpp.Base.Decimal.{decimal}
use lundicpp.Request.{Request}
use lundicpp.Request.Lookup.{find_header_ci}
use lundicpp.Response.{Response, new_response, set_header}
use lundicpp.Router.{back}
use lundicpp.Middleware.{Outcome, returned, thrown, thrown_other}
use lundicpp.Chunked.{hex}
use lundicpp.Server.{StaticFiles}
use lundicpp.Static.Mime.{extension_lower, mime_for_extension}

-- `std::filesystem` and `std::ifstream`, with `none` for an error code or a read that fails, and the
-- functions of the clock: the seconds of the time of a file as `unsigned long`, its `time_t`, what
-- `gmtime_r` and `strftime` make of that, and what `strptime` and `timegm` read from a C string, with
-- `none` for a null pointer.
pub record FileSystem : Type 1 where
  pub Time : Type 0
  pub is_regular_file : Bytes → Bool
  pub is_directory : Bytes → Bool
  pub canonical : Bytes → Option Bytes
  pub file_size : Bytes → Option ℕ
  pub last_write_time : Bytes → Option Time
  pub read : Bytes → ℕ → Option Bytes
  pub seconds : Time → ℕ
  pub to_time_t : Time → ℤ
  pub http_text : ℤ → Bytes
  pub http_time : Bytes → Option ℤ

pub record StaticOptions : Type 0 where
  pub max_age : ℤ
  pub etag : Bool
  pub last_modified : Bool
  pub index : Bytes
  pub max_file_size : ℕ

pub record StaticMount : Type 0 where
  pub prefix : Bytes
  pub directory : Bytes
  pub options : StaticOptions

-- `if( !s.empty() && s.back() != '/' ) s += '/'`.
unfoldable pub with_slash : Bytes → Bytes
with_slash s = if not (is_empty s) && not (back s == b'/') then s ++ b'/' ∷ [] else s

-- The test of the prefix.
unfoldable pub prefix_fits : Bytes → Bytes → Bool
prefix_fits prefix req_path =
    bytes_eq prefix (b'/' ∷ [])
    || (starts_with prefix req_path || bytes_eq (req_path ++ b'/' ∷ []) prefix)

-- `rel`; `none` is the exception of `substr` behind the end.
unfoldable pub relative : Bytes → Bytes → Option Bytes
relative prefix req_path =
    if bytes_eq prefix (b'/' ∷ [])
    then some (drop 1 req_path)
    else if leb (length prefix) (length req_path)
    then some (drop (length prefix) req_path)
    else none

-- A directory stands for its index file; `none` where there is no such name.
unfoldable pub with_index : Bytes → Bytes → Option Bytes
with_index index rel =
    if is_empty rel || back rel == b'/'
    then (if is_empty index then none else some (rel ++ index))
    else some rel

unfoldable pub strip_slash : Bytes → Bytes
strip_slash [] = []
strip_slash (c ∷ s) = if c == b'/' then s else c ∷ s

-- `std::filesystem::path( directory ) / rel` for a directory that ends in a slash.
abbrev pub join : Bytes → Bytes → Bytes
join directory [] = directory
join directory (c ∷ rel) = if c == b'/' then c ∷ rel else directory ++ c ∷ rel

-- `Cache-Control`, where the age is positive.
unfoldable pub add_max_age : ℤ → Response → Response
unfolding set_header
add_max_age (pos zero) res = res
add_max_age (pos (suc n)) res =
    set_header (codes "Cache-Control") (codes "public, max-age=" ++ decimal (suc n)) res
add_max_age (negsuc n) res = res

-- The same with the `else` of a whole file.
unfoldable pub add_cache_control : ℤ → Response → Response
unfolding add_max_age set_header
add_cache_control (pos zero) res = set_header (codes "Cache-Control") (codes "no-cache") res
add_cache_control (pos (suc n)) res = add_max_age (pos (suc n)) res
add_cache_control (negsuc n) res = set_header (codes "Cache-Control") (codes "no-cache") res

unfoldable pub add_if_some : Bytes → Bytes → Response → Response
unfolding set_header
add_if_some name value res = if is_empty value then res else set_header name value res

-- The two answers without a body, and the file.
unfoldable pub etag_answer : StaticOptions → Bytes → Response
unfolding set_header add_max_age
etag_answer opts etag =
    add_max_age opts.max_age
      (set_header (codes "ETag") etag (record new_response { status = pos 304 }))

unfoldable pub modified_answer : StaticOptions → Bytes → Bytes → Response
unfolding add_if_some add_max_age
modified_answer opts etag last_mod = add_max_age opts.max_age (
    add_if_some (codes "ETag") etag
      (add_if_some (codes "Last-Modified") last_mod (record new_response { status = pos 304 })))

unfoldable pub whole_file : StaticOptions → Bytes → Bytes → Bytes → Bytes → Response
unfolding set_header add_if_some add_cache_control extension_lower mime_for_extension
whole_file opts file etag last_mod body = add_cache_control opts.max_age (
    add_if_some (codes "Last-Modified") last_mod (
      add_if_some (codes "ETag") etag (
        set_header (codes "Content-Type") (mime_for_extension (extension_lower file))
          (record new_response { status = pos 200; body = body }))))

-- `inm && *inm == etag`.
unfoldable pub has_tag : Bytes → Option Bytes → Bool
has_tag etag none = false
has_tag etag (some inm) = bytes_eq inm etag

-- `make_etag`.
unfoldable pub make_etag : ℕ → ℕ → Bytes
make_etag size seconds = codes "W/\"" ++ (hex seconds ++ (codes "-" ++ (hex size ++ codes "\"")))

abbrev leq : ℤ → ℤ → Bool
leq (pos a) (pos b) = leb a b
leq (pos a) (negsuc b) = false
leq (negsuc a) (pos b) = true
leq (negsuc a) (negsuc b) = leb b a

abbrev is_minus_one : ℤ → Bool
is_minus_one (pos n) = false
is_minus_one (negsuc n) = n == 0

-- `client_time != -1 && file_time <= client_time`.
unfoldable pub unmodified : ℤ → ℤ → Bool
unmodified file_time client_time = not (is_minus_one client_time) && leq file_time client_time

-- `!mounts_.empty()`.
unfoldable pub has_mounts : List StaticMount → Bool
has_mounts [] = false
has_mounts (m ∷ mounts) = true

module _ (fs : FileSystem) where
  unfoldable pub format_http_date : fs.Time → Bytes
  format_http_date ftime = fs.http_text (fs.to_time_t ftime)

  -- `c_str()` ends at the first zero byte.
  unfoldable pub parse_http_date : Bytes → ℤ
  parse_http_date date_str = elim (fs.http_time (prefix_to (find_char 0 date_str) date_str)) [
    | none ↦ negsuc 0
    | some client_time ↦ client_time
  ]

  -- The file as a whole.
  unfoldable pub read_file : StaticOptions → Bytes → ℕ → Bytes → Bytes → Option Response
  unfolding whole_file
  read_file opts file size etag last_mod = elim (fs.read file size) [
    | none ↦ none
    | some body ↦ some (whole_file opts file etag last_mod body)
  ]

  -- The two conditional requests.
  unfoldable pub if_modified :
      StaticOptions → Bytes → ℕ → fs.Time → Bytes → Request → Option Response
  unfolding read_file modified_answer unmodified find_header_ci format_http_date parse_http_date
  if_modified opts file size mtime etag req =
      let last_mod = format_http_date mtime in
      if opts.last_modified
      then (elim (find_header_ci (codes "if-modified-since") req.headers) [
        | none ↦ read_file opts file size etag last_mod
        | some ims ↦
            if unmodified (fs.to_time_t mtime) (parse_http_date ims)
            then some (modified_answer opts etag last_mod)
            else read_file opts file size etag last_mod
      ])
      else read_file opts file size etag []

  unfoldable pub if_none_match : StaticOptions → Bytes → ℕ → fs.Time → Request → Option Response
  unfolding if_modified etag_answer make_etag has_tag find_header_ci
  if_none_match opts file size mtime req =
      let etag = make_etag size (fs.seconds mtime) in
      if opts.etag
      then (if has_tag etag (find_header_ci (codes "if-none-match") req.headers)
          then some (etag_answer opts etag)
          else if_modified opts file size mtime etag req)
      else if_modified opts file size mtime [] req

  -- Behind the resolution of the path: it stands under the directory, and its size is allowed.
  unfoldable pub checked : StaticMount → Bytes → Request → Option Response
  unfolding if_none_match
  checked mount file req =
      if starts_with mount.directory file
      then (elim (fs.file_size file) [
        | none ↦ none
        | some size ↦
            if ltb mount.options.max_file_size size then none else elim (fs.last_write_time file) [
              | none ↦ none
              | some mtime ↦ if_none_match mount.options file size mtime req
            ]
      ])
      else none

  unfoldable pub located : StaticMount → Bytes → Request → Option Response
  unfolding checked
  located mount full req =
      if fs.is_regular_file full
      then (elim (fs.canonical full) [ none ↦ none | some file ↦ checked mount file req ])
      else none

  -- A name without `..`.
  unfoldable pub named : StaticMount → Bytes → Request → Option Response
  unfolding located find_str
  named mount rel req = elim (find_str (codes "..") rel) [
    | some n ↦ none
    | none ↦ located mount (join mount.directory rel) req
  ]

  unfoldable pub try_mount : StaticMount → Bytes → Request → Outcome (Option Response)
  unfolding prefix_fits relative with_index strip_slash named
  try_mount mount req_path req =
      if prefix_fits mount.prefix req_path
      then (elim (relative mount.prefix req_path) [
        | none ↦ thrown (codes "basic_string::substr")
        | some rel ↦ elim (with_index mount.options.index rel) [
          | none ↦ returned none
          | some rel ↦ returned (named mount (strip_slash rel) req)
        ]
      ])
      else returned none

  unfoldable pub try_serve : List StaticMount → Bytes → Request → Outcome (Option Response)
  unfolding try_mount
  try_serve [] req_path req = returned none
  try_serve (m ∷ mounts) req_path req =
      let rest = try_serve mounts req_path req in
      elim (try_mount m req_path req) [
        | thrown what ↦ thrown what
        | thrown_other ↦ thrown_other
        | returned r ↦ elim r [ some res ↦ returned (some res) | none ↦ rest ]
      ]

  -- `mount`; an exception is `thrown`, with the mounts as they were.
  unfoldable pub mount :
      Bytes → Bytes → StaticOptions → List StaticMount → Outcome (List StaticMount)
  unfolding with_slash
  mount url_prefix directory opts mounts = elim (fs.canonical directory) [
    | none ↦ thrown (codes "serve_static: cannot resolve directory")
    | some dir ↦
        if fs.is_directory dir
        then returned (
            mounts
            ++ record { prefix = with_slash url_prefix; directory = with_slash dir; options = opts }
              ∷ [])
        else thrown (codes "serve_static: is not a directory")
  ]

  -- What `dispatch` asks.
  unfoldable pub serving : List StaticMount → StaticFiles
  unfolding try_serve has_mounts
  serving mounts = record { has_mounts = has_mounts mounts; try_serve = try_serve mounts }

  -- `app::serve_static`.
  unfoldable pub serve_static :
      Bytes → Bytes → StaticOptions → List StaticMount → Outcome (List StaticMount)
  unfolding mount
  serve_static url_prefix directory opts mounts = mount url_prefix directory opts mounts
