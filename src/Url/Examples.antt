-- ===== src/Url/Examples.antt =====
-- Decoding and the query string on concrete texts.
use lundicpp.Base.{◌≡◌, refl, List, [], ◌∷◌, codes, arith, true, false, map}
use lundicpp.Url.{url_decode, parse_query_string, QueryEntry}
use lundicpp.Url.Decode.{Token, literal, blank, escape, spell_all, meaning, url_decode-spell}
use lundicpp.Url.Query.{parse_query_string-print, print_query}

abbrev tokens : List Token
tokens = literal b'a' ∷ blank ∷ escape true 255 ∷ escape false 0x2f ∷ []

url_decode-spell_example : url_decode (spell_all tokens) ≡ map meaning tokens
url_decode-spell_example = url_decode-spell tokens (omega arith)

spelled : spell_all tokens ≡ codes "a+%FF%2f"
spelled = refl

cut_escape : url_decode (codes "100%4") ≡ codes "100%4"
unfolding url_decode
cut_escape = refl

parsed_query :
    parse_query_string (codes "a=1&&b")
    ≡ record { name = codes "a"; value = codes "1" } ∷ record { name = codes "b"; value = [] } ∷ []
unfolding parse_query_string
parsed_query = refl

abbrev form : List QueryEntry
form = record { name = codes "k&"; value = codes "=v" } ∷ []

parse_query_string-print_example : parse_query_string (print_query form) ≡ form
parse_query_string-print_example = parse_query_string-print form (omega arith)
