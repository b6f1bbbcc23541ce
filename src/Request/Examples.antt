-- ===== src/Request/Examples.antt =====
-- A concrete request and its getters.
use lundicpp.Base.{◌≡◌, refl, arith, Bytes, List, [], ◌∷◌, codes, some, true, map}
use lundicpp.Base.Int.{pos}
use lundicpp.Base.Decimal.{from_chars}
use lundicpp.Router.{RouteSegment, parse_pattern, split_path_sv, match_route}
use lundicpp.Request.Typed.{declared, IsTyped, match_route-IsTyped}
use lundicpp.Request.{Request, HeaderEntry, parse_headers}
use lundicpp.Request.Lines.{Line}
use lundicpp.Request.Parse.{Target, with_query, request_text}
use lundicpp.Request.Lookup.{header_equals, first, query_int}
use lundicpp.Base.{none, ◌++◌, find_str}
use lundicpp.Request.Cookies.{parse_cookies, cookie}
use lundicpp.Request.CookieText.{Cookie, cookies_text, last_value, parse_cookies-text}
use lundicpp.Request.Multipart.{find_entry, parse_multipart}
use lundicpp.Request.FormText.{parts_text}
use lundicpp.Request.PartLines.{FormPart, text_part, file_part, parts_of}
use lundicpp.Request.FormParts.{last_field, last_file, parse_multipart-parts}
use lundicpp.Url.{QueryEntry}

abbrev target : Target
target = with_query (codes "/a%20b") (codes "n=x&n=7")

abbrev lines : List Line
lines =
    record { name = codes "Host"; blanks = codes " "; value = codes "localhost" }
    ∷ record { name = codes "Upgrade"; blanks = codes "\t "; value = codes "WebSocket" }
    ∷ []

written :
    request_text (codes "GET") target (codes "HTTP/1.1") lines []
    ≡ codes "GET /a%20b?n=x&n=7 HTTP/1.1\r\nHost: localhost\r\nUpgrade:\t WebSocket\r\n\r\n"
written = refl

abbrev parsed_request : Request
parsed_request = parse_headers (request_text (codes "GET") target (codes "HTTP/1.1") lines [])

decoded : parsed_request.path ≡ codes "/a b"
unfolding parse_headers
decoded = refl

second_value : query_int (codes "n") parsed_request.query_params ≡ some (pos 7)
unfolding parse_headers query_int from_chars
second_value = refl

abbrev entries : List HeaderEntry
entries = record { name = codes "Upgrade"; value = codes "WebSocket" } ∷ []

upgrade_equals : header_equals (codes "upgrade") (codes "websocket") entries ≡ true
unfolding header_equals
upgrade_equals = refl

abbrev kept_cookies : List Cookie
kept_cookies =
    record { before = 0; initial = b'a'; tail = []; gap = 1; value = codes "1" }
    ∷ record { before = 1; initial = b'b'; tail = codes "c"; gap = 0; value = codes "x=y" }
    ∷ record { before = 2; initial = b'a'; tail = []; gap = 0; value = codes "2" }
    ∷ []

parse_cookies-text_example :
    first (codes "a") (parse_cookies (cookies_text kept_cookies))
    ≡ last_value (codes "a") kept_cookies none
parse_cookies-text_example = parse_cookies-text kept_cookies (codes "a") (omega arith)

cookie_header : cookies_text kept_cookies ≡ codes "a =1; bc=x=y;  a=2"
cookie_header = refl

last_wins :
    cookie (codes "a") (record { name = codes "Cookie"; value = codes "a=1; a=2" } ∷ []) ≡ codes "2"
unfolding cookie
last_wins = refl

abbrev two_values : List QueryEntry
two_values =
    record { name = codes "n"; value = codes "x" }
    ∷ record { name = codes "n"; value = codes "7" }
    ∷ []

-- A form with a field that stands twice, and a file.
abbrev form_parts : List FormPart
form_parts =
    text_part (codes "a") (codes "0")
    ∷ file_part (codes "f") (codes "x.txt") (codes "text/plain") (codes "hello")
    ∷ text_part (codes "a") (codes "1\r\n2")
    ∷ []

abbrev form_text : Bytes
form_text =
    (codes "--" ++ codes "XY") ++ parts_text (codes "--" ++ codes "XY") (parts_of form_parts)

parse_multipart-parts_example :
    (find_entry (codes "a") (parse_multipart form_text (codes "XY")).fields
      ≡ last_field (codes "a") form_parts none)
    × (find_entry (codes "a") (parse_multipart form_text (codes "XY")).files
        ≡ last_file (codes "a") form_parts none)
unfolding find_str
parse_multipart-parts_example =
    parse_multipart-parts (codes "XY") form_parts (codes "a")
      (
        (refl, omega arith, refl),
        (
          (refl, omega arith, refl, omega arith, refl, refl, refl, refl),
          ((refl, omega arith, refl), tt),
        ),
      )
      (
        ((λ rest. refl), (λ rest. refl)),
        (((λ rest. refl), (λ rest. refl)), (((λ rest. refl), (λ rest. refl)), tt)),
      )

last_field_wins : last_field (codes "a") form_parts none ≡ some (codes "1\r\n2")
unfolding lundicpp.Base.bytes_eq
last_field_wins = refl

abbrev user_pattern : List RouteSegment
unfolding parse_pattern
user_pattern = parse_pattern (codes "/users/<int:id>/<name>")

user_matched :
    match_route user_pattern (codes "/users/42/ann") []
    ≡ (true, (match_route user_pattern (codes "/users/42/ann") []).1)
unfolding match_route user_pattern lundicpp.Base.Int.from_chars_int from_chars
user_matched = refl

match_route-IsTyped_example :
    IsTyped
      (declared (codes "id") user_pattern (split_path_sv (codes "/users/42/ann")))
      (codes "id")
      (match_route user_pattern (codes "/users/42/ann") []).1
match_route-IsTyped_example =
    match_route-IsTyped user_pattern (codes "/users/42/ann") (codes "id")
      (match_route user_pattern (codes "/users/42/ann") []).1 user_matched
