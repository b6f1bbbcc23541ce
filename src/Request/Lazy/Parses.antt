-- ===== src/Request/Lazy/Parses.antt =====
-- The members that the getters fill stand for the parse of the request.
use lundicpp.Base.{
  ◌≡◌, refl, ap, ◌∙◌, Bytes, List, [], ◌∷◌, map, Bool, false, Option, none, some, if◌then◌else◌,
  find_str, is_empty, codes, if_cases,
}
use lundicpp.Request.{Request}
use lundicpp.Request.Lookup.{find_header_ci, first}
use lundicpp.Request.Cookies.{
  CookieMap, parse_cookies, parsed_cookies, cookie, has_cookie, all_cookies, or_empty, is_some,
}
use lundicpp.Request.Multipart.{
  FormData, new_form, find_entry, extract_boundary, parse_multipart, parsed_form, form_field,
  form_file_ptr,
}
use lundicpp.Request.Lazy.{
  LazyRequest, new_lazy, cookies_from, ensure_cookies_parsed, form_from, ensure_form_parsed,
  CookieGetter, one_cookie, any_cookie, every_cookie, FormGetter, one_field, one_file, whole_form,
  Getter, of_cookies, of_form, text, truth, cookie_map, read_cookies, or_default, read_form, get,
  get_all, parse_and_get,
}

-- Each member is as it was made, or what its parse gives.
record IsCached (req : Request) (r : LazyRequest) : Type 0 where
  same : r.request ≡ req
  cookies_once : r.cookies ≡ (if r.cookies_parsed then parsed_cookies req.headers else none)
  form_once : r.form ≡ (if r.form_parsed then parsed_form req else new_form)

cookies_from_lem :
    (req : Request)
    → cookies_from (find_header_ci (codes "cookie") req.headers) none ≡ parsed_cookies req.headers
unfolding parsed_cookies
cookies_from_lem req = go (find_header_ci (codes "cookie") req.headers)
  where
    go :
        (o : Option Bytes)
        → cookies_from o none ≡ elim o [ none ↦ none | some val ↦ some (parse_cookies val) ]
    go none = refl
    go (some val) = refl

form_from_lem :
    (req : Request)
    → form_from (find_header_ci (codes "content-type") req.headers) req.body new_form
      ≡ parsed_form req
unfolding parsed_form
form_from_lem req = go (find_header_ci (codes "content-type") req.headers)
  where
    go :
        (o : Option Bytes)
        → form_from o req.body new_form ≡ elim o [
          | none ↦ new_form
          | some ct ↦ elim (find_str (codes "multipart/form-data") ct) [
            | none ↦ new_form
            | some n ↦
                let boundary = extract_boundary ct in
                if is_empty boundary then new_form else parse_multipart req.body boundary
          ]
        ]
    go none = refl
    go (some ct) = refl

ensure_cookies-IsCached :
    (req : Request) (r : LazyRequest)
    → IsCached req r
    → IsCached req (ensure_cookies_parsed r)
      × ((ensure_cookies_parsed r).cookies ≡ parsed_cookies req.headers)
unfolding ensure_cookies_parsed
ensure_cookies-IsCached req r h =
    if_cases (λ t. IsCached req t × (t.cookies ≡ parsed_cookies req.headers)) r.cookies_parsed
      (λ parsed. (h, h.cookies_once ∙ ap once parsed))
      (λ unparsed.
        let made =
          ap (λ q. cookies_from (find_header_ci (codes "cookie") q.headers) r.cookies) h.same
          ∙ (ap (cookies_from (find_header_ci (codes "cookie") req.headers))
                (h.cookies_once ∙ ap once unparsed)
              ∙ cookies_from_lem req) in
        (record { same = h.same; cookies_once = made; form_once = h.form_once }, made))
  where
    once : Bool → Option CookieMap
    once parsed = if parsed then parsed_cookies req.headers else none

ensure_form-IsCached :
    (req : Request) (r : LazyRequest)
    → IsCached req r
    → IsCached req (ensure_form_parsed r) × ((ensure_form_parsed r).form ≡ parsed_form req)
unfolding ensure_form_parsed
ensure_form-IsCached req r h =
    if_cases (λ t. IsCached req t × (t.form ≡ parsed_form req)) r.form_parsed
      (λ parsed. (h, h.form_once ∙ ap once parsed))
      (λ unparsed.
        let made =
          ap (λ q. form_from (find_header_ci (codes "content-type") q.headers) q.body r.form) h.same
          ∙ (ap (form_from (find_header_ci (codes "content-type") req.headers) req.body)
                (h.form_once ∙ ap once unparsed)
              ∙ form_from_lem req) in
        (record { same = h.same; cookies_once = h.cookies_once; form_once = made }, made))
  where
    once : Bool → FormData
    once parsed = if parsed then parsed_form req else new_form

read_cookies_lem :
    (g : CookieGetter) (req : Request)
    → read_cookies g (parsed_cookies req.headers) ≡ parse_and_get (of_cookies g) req
unfolding read_cookies parse_and_get cookie has_cookie all_cookies
read_cookies_lem (one_cookie name) req = go (parsed_cookies req.headers)
  where
    go :
        (o : Option CookieMap)
        → read_cookies (one_cookie name) o
          ≡ text (elim o [ none ↦ [] | some cookies ↦ or_empty (first name cookies) ])
    go none = refl
    go (some cookies) = refl
read_cookies_lem (any_cookie name) req = go (parsed_cookies req.headers)
  where
    go :
        (o : Option CookieMap)
        → read_cookies (any_cookie name) o
          ≡ truth (elim o [ none ↦ false | some cookies ↦ is_some (first name cookies) ])
    go none = refl
    go (some cookies) = refl
read_cookies_lem every_cookie req = go (parsed_cookies req.headers)
  where
    go :
        (o : Option CookieMap)
        → read_cookies every_cookie o ≡ cookie_map (elim o [ none ↦ [] | some cookies ↦ cookies ])
    go none = refl
    go (some cookies) = refl

read_form_lem :
    (g : FormGetter) (req : Request) → read_form g (parsed_form req) ≡ parse_and_get (of_form g) req
unfolding read_form parse_and_get form_field form_file_ptr
read_form_lem (one_field name default_val) req = go (find_entry name (parsed_form req).fields)
  where
    go :
        (o : Option Bytes)
        → text (or_default default_val o) ≡ text (elim o [ none ↦ default_val | some v ↦ v ])
    go none = refl
    go (some v) = refl
read_form_lem (one_file name) req = refl
read_form_lem whole_form req = refl

get-IsCached :
    (g : Getter) (req : Request) (r : LazyRequest)
    → IsCached req r
    → ((get g r).0 ≡ parse_and_get g req) × IsCached req (get g r).1
unfolding get
get-IsCached (of_cookies g) req r h =
    let (kept, made) = ensure_cookies-IsCached req r h in
    (ap (read_cookies g) made ∙ read_cookies_lem g req, kept)
get-IsCached (of_form g) req r h =
    let (kept, made) = ensure_form-IsCached req r h in
    (ap (read_form g) made ∙ read_form_lem g req, kept)

get_all-IsCached :
    (gs : List Getter) (req : Request) (r : LazyRequest)
    → IsCached req r
    → get_all gs r ≡ map (λ g. parse_and_get g req) gs
unfolding get_all
get_all-IsCached [] req r h = refl
get_all-IsCached (g ∷ gs) req r h =
    let (answer, kept) = get-IsCached g req r h in
    ap (λ a. a ∷ get_all gs (get g r).1) answer
    ∙ ap (◌∷◌ (parse_and_get g req)) (get_all-IsCached gs req (get g r).1 kept)

-- Whatever getters of cookies and forms are called on a request, in whatever order, each gives what a
-- parse of its headers and its body would give.
pub get_all-parses :
    (gs : List Getter) (req : Request)
    → get_all gs (new_lazy req) ≡ map (λ g. parse_and_get g req) gs
unfolding new_lazy
get_all-parses gs req =
    get_all-IsCached gs req (new_lazy req)
      (record { same = refl; cookies_once = refl; form_once = refl })
