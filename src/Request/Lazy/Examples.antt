-- ===== src/Request/Lazy/Examples.antt =====
-- A request with a cookie header, asked twice.
use lundicpp.Base.{◌≡◌, refl, List, [], ◌∷◌, map, codes}
use lundicpp.Request.{Request, new_request}
use lundicpp.Request.Cookies.{parse_cookies}
use lundicpp.Request.Lazy.{
  new_lazy, ensure_cookies_parsed, one_cookie, any_cookie, every_cookie, whole_form, Getter,
  of_cookies, of_form, text, read_cookies, get_all, parse_and_get,
}
use lundicpp.Request.Lazy.Parses.{get_all-parses}

abbrev visit : Request
visit = record new_request {
  headers = record { name = codes "Cookie"; value = codes "a=1; b=2" } ∷ [];
}

abbrev calls : List Getter
calls =
    of_cookies (one_cookie (codes "b"))
    ∷ (of_form whole_form ∷ (of_cookies (any_cookie (codes "c")) ∷ (of_cookies every_cookie ∷ [])))

get_all-parses_example : get_all calls (new_lazy visit) ≡ map (λ g. parse_and_get g visit) calls
get_all-parses_example = get_all-parses calls visit

-- A header that is changed behind the first call is not seen.
stale :
    read_cookies
      (one_cookie (codes "b"))
      (ensure_cookies_parsed
        (record (ensure_cookies_parsed (new_lazy visit)) { request = new_request })).cookies
    ≡ text (codes "2")
unfolding read_cookies ensure_cookies_parsed new_lazy parse_cookies
stale = refl
