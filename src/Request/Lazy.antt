-- ===== src/Request/Lazy.antt =====
-- core.hpp: the members of `request` that its getters fill when they are first called, `cookies_` and
-- `form_` with their flags. What the getters answer is that of Request/Cookies and Request/Multipart.
pub mod Parses
mod Examples
use lundicpp.Base.{
  ◌≡◌, refl, sym, ap, ◌∙◌, Bytes, List, [], ◌∷◌, map, Bool, true, false, Option, none, some,
  if◌then◌else◌, find_str, is_empty, codes, if_cases,
}
use lundicpp.Request.{Request}
use lundicpp.Request.Lookup.{find_header_ci, first}
use lundicpp.Request.Cookies.{
  CookieMap, parse_cookies, parsed_cookies, cookie, has_cookie, all_cookies, or_empty, is_some,
}
use lundicpp.Request.Multipart.{
  FormData, FormFile, new_form, find_entry, extract_boundary, parse_multipart, parsed_form,
  form_field, form_file_ptr,
}

-- A request with its mutable members.
pub record LazyRequest : Type 0 where
  pub request : Request
  pub cookies : Option CookieMap
  pub cookies_parsed : Bool
  pub form : FormData
  pub form_parsed : Bool

unfoldable pub new_lazy : Request → LazyRequest
new_lazy req = record {
  request = req;
  cookies = none;
  cookies_parsed = false;
  form = new_form;
  form_parsed = false;
}

-- `if( val ) cookies_ = parse_cookies( *val )`.
abbrev pub cookies_from : Option Bytes → Option CookieMap → Option CookieMap
cookies_from none cookies = cookies
cookies_from (some val) cookies = some (parse_cookies val)

unfoldable pub ensure_cookies_parsed : LazyRequest → LazyRequest
unfolding find_header_ci
ensure_cookies_parsed r = if r.cookies_parsed then r else record r {
  cookies = cookies_from (find_header_ci (codes "cookie") r.request.headers) r.cookies;
  cookies_parsed = true;
}

-- The `if` of `ensure_form_parsed`, for the value of the content type.
abbrev pub form_from : Option Bytes → Bytes → FormData → FormData
form_from none body form = form
form_from (some ct) body form = elim (find_str (codes "multipart/form-data") ct) [
  | none ↦ form
  | some n ↦
      let boundary = extract_boundary ct in
      if is_empty boundary then form else parse_multipart body boundary
]

unfoldable pub ensure_form_parsed : LazyRequest → LazyRequest
unfolding find_header_ci
ensure_form_parsed r = if r.form_parsed then r else record r {
  form = form_from (find_header_ci (codes "content-type") r.request.headers) r.request.body r.form;
  form_parsed = true;
}

-- The getters, and what they give.
pub data CookieGetter : Type 0 where
  one_cookie any_cookie : Bytes → CookieGetter
  every_cookie : CookieGetter

pub data FormGetter : Type 0 where
  one_field : Bytes → Bytes → FormGetter
  one_file : Bytes → FormGetter
  whole_form : FormGetter

pub data Getter : Type 0 where
  of_cookies : CookieGetter → Getter
  of_form : FormGetter → Getter

pub data Answer : Type 0 where
  text : Bytes → Answer
  truth : Bool → Answer
  cookie_map : CookieMap → Answer
  form_data : FormData → Answer
  file_ptr : Option FormFile → Answer

-- What `cookie`, `has_cookie` and `cookies` read off `cookies_`.
unfoldable pub read_cookies : CookieGetter → Option CookieMap → Answer
unfolding lundicpp.Base.bytes_eq
read_cookies (one_cookie name) none = text []
read_cookies (one_cookie name) (some cookies) = text (or_empty (first name cookies))
read_cookies (any_cookie name) none = truth false
read_cookies (any_cookie name) (some cookies) = truth (is_some (first name cookies))
read_cookies every_cookie none = cookie_map []
read_cookies every_cookie (some cookies) = cookie_map cookies

abbrev pub or_default : Bytes → Option Bytes → Bytes
or_default default_val none = default_val
or_default default_val (some v) = v

-- What `form_field`, `form_file_ptr` and `form` read off `form_`.
unfoldable pub read_form : FormGetter → FormData → Answer
unfolding find_entry
read_form (one_field name default_val) form =
    text (or_default default_val (find_entry name form.fields))
read_form (one_file name) form = file_ptr (find_entry name form.files)
read_form whole_form form = form_data form

-- A call, with the members that it leaves.
unfoldable pub get : Getter → LazyRequest → Answer × LazyRequest
unfolding ensure_cookies_parsed ensure_form_parsed read_cookies read_form
get (of_cookies g) r = let r' = ensure_cookies_parsed r in (read_cookies g r'.cookies, r')
get (of_form g) r = let r' = ensure_form_parsed r in (read_form g r'.form, r')

unfoldable pub get_all : List Getter → LazyRequest → List Answer
unfolding get
get_all [] r = []
get_all (g ∷ gs) r = let (answer, r') = get g r in answer ∷ get_all gs r'

-- The same from the headers and the body, at every call.
unfoldable pub parse_and_get : Getter → Request → Answer
unfolding cookie has_cookie all_cookies form_field form_file_ptr parsed_form
parse_and_get (of_cookies (one_cookie name)) req = text (cookie name req.headers)
parse_and_get (of_cookies (any_cookie name)) req = truth (has_cookie name req.headers)
parse_and_get (of_cookies every_cookie) req = cookie_map (all_cookies req.headers)
parse_and_get (of_form (one_field name default_val)) req = text (form_field name default_val req)
parse_and_get (of_form (one_file name)) req = file_ptr (form_file_ptr name req)
parse_and_get (of_form whole_form) req = form_data (parsed_form req)
