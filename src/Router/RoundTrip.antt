-- ===== src/Router/RoundTrip.antt =====
-- A pattern and a path written from the same arguments: the pattern is parsed back and matches the
-- path with those arguments.
use lundicpp.Base.{
  ℕ, suc, ◌-◌, ◌≤◌, ◌<◌, ◌≡◌, ◌≢◌, ◌⊎◌, refl, ap, ◌∙◌, Bytes, List, [], ◌∷◌, ◌++◌, true, false,
  arith, length, take, is_empty, length-append, map, codes, bytes_eq, get_or, length-map,
}
use lundicpp.Base.Find.{All, All-append, Lacks, take_all, find_char-append, take-length_append}
use lundicpp.Base.Int.{ℤ, pos, negsuc, IsInt, decimal_int, from_chars_int-decimal}
use lundicpp.Base.Decimal.{decimal, decimal-IsDigit, decimal-length_pos, IsDigit}
use lundicpp.Router.{
  literal, param_int, param_string, RouteSegment, ParamEntry, int_value, string_value, front, back,
  param_segment, pattern_segment, parse_pattern, match_route, split_path_sv, max_segments,
}
use lundicpp.Router.Split.{
  parts-print, print_parts, IsPart, parse_pattern-parts, split_path_sv-parts,
}
use lundicpp.Router.Match.{same, number, text, Captures, done, next, match_route_complete}

-- A segment of a pattern with what the path has in its place.
pub data Arg : Type 0 where
  lit : Bytes → Arg
  int : Bytes → ℤ → Arg
  str : Bytes → Bytes → Arg

-- `<kind:name>`.
abbrev pub angled : Bytes → Bytes → Bytes
angled kind name = b'<' ∷ (kind ++ b':' ∷ (name ++ b'>' ∷ []))

abbrev pub pattern_text : Arg → Bytes
pattern_text (lit t) = t
pattern_text (int n z) = angled (codes "int") n
pattern_text (str n v) = angled (codes "string") n

abbrev pub path_text : Arg → Bytes
path_text (lit t) = t
path_text (int n z) = decimal_int z
path_text (str n v) = v

abbrev pub segment_of : Arg → RouteSegment
segment_of (lit t) = record { kind = literal; text = t }
segment_of (int n z) = record { kind = param_int; text = n }
segment_of (str n v) = record { kind = param_string; text = n }

abbrev pub params_of : List Arg → List ParamEntry
params_of [] = []
params_of (lit t ∷ args) = params_of args
params_of (int n z ∷ args) = record { name = n; value = int_value z } ∷ params_of args
params_of (str n v ∷ args) = record { name = n; value = string_value v } ∷ params_of args

-- A literal part that is not in angle brackets, a name with no slash, a value of `int`, a string
-- that can be one part of a path.
abbrev pub IsArg : Arg → Type 0
IsArg (lit t) = IsPart t × ((front t ≢ b'<') ⊎ (back t ≢ b'>'))
IsArg (int n z) = Lacks b'/' n × IsInt z
IsArg (str n v) = Lacks b'/' n × IsPart v

get_or-last : (s : Bytes) (c : ℕ) → get_or (s ++ c ∷ []) (length s) 0 ≡ c
get_or-last [] c = refl
get_or-last (x ∷ s) c = get_or-last s c

back-append : (s : Bytes) (c : ℕ) → back (s ++ c ∷ []) ≡ c
back-append s c =
    let e : length (s ++ c ∷ []) - 1 ≡ length s = omega (arith, length-append s (c ∷ [])) in
    rw e (get_or-last s c)

-- The text between the brackets.
inner_lem : (s : Bytes) → take (length (b'<' ∷ (s ++ b'>' ∷ [])) - 2) (s ++ b'>' ∷ []) ≡ s
inner_lem s =
    let e : length (b'<' ∷ (s ++ b'>' ∷ [])) - 2 ≡ length s =
      omega (arith, length-append s (b'>' ∷ [])) in
    rw e (take-length_append s (b'>' ∷ []))

pattern_segment-angled : (s : Bytes) → pattern_segment (b'<' ∷ (s ++ b'>' ∷ [])) ≡ param_segment s
unfolding pattern_segment
pattern_segment-angled s = ground (arith, back-append (b'<' ∷ s) b'>', inner_lem s)

param_segment_int :
    (n : Bytes) → param_segment (codes "int" ++ b':' ∷ n) ≡ record { kind = param_int; text = n }
unfolding param_segment bytes_eq
param_segment_int n = rw (find_char-append b':' (codes "int") n (omega arith), param_segment)

param_segment_string :
    (n : Bytes)
    → param_segment (codes "string" ++ b':' ∷ n) ≡ record { kind = param_string; text = n }
unfolding param_segment bytes_eq
param_segment_string n = rw (find_char-append b':' (codes "string") n (omega arith), param_segment)

pattern_segment_literal :
    (t : Bytes)
    → (front t ≢ b'<') ⊎ (back t ≢ b'>')
    → pattern_segment t ≡ record { kind = literal; text = t }
unfolding pattern_segment
pattern_segment_literal t h = ground (arith, h)

pattern_segment-text : (a : Arg) → IsArg a → pattern_segment (pattern_text a) ≡ segment_of a
pattern_segment-text (lit t) (p, h) = pattern_segment_literal t h
pattern_segment-text (int n z) h =
    pattern_segment-angled (codes "int" ++ b':' ∷ n) ∙ param_segment_int n
pattern_segment-text (str n v) h =
    pattern_segment-angled (codes "string" ++ b':' ∷ n) ∙ param_segment_string n

pattern_text-IsPart : (a : Arg) → IsArg a → IsPart (pattern_text a)
pattern_text-IsPart (lit t) (p, h) = p
pattern_text-IsPart (int n z) (h, k) = (
  refl,
  All-append _ (codes "<int:") (n ++ b'>' ∷ []) (omega arith)
      (All-append _ n (b'>' ∷ []) h (omega arith)),
)
pattern_text-IsPart (str n v) (h, k) = (
  refl,
  All-append _ (codes "<string:") (n ++ b'>' ∷ []) (omega arith)
      (All-append _ n (b'>' ∷ []) h (omega arith)),
)

digits-IsPart : (s : Bytes) → 0 < length s → All IsDigit s → IsPart s
digits-IsPart s h d = (filled s h, no_slash s d)
  where
    filled : (t : Bytes) → 0 < length t → is_empty t ≡ false
    filled [] k = absurd (omega arith)
    filled (c ∷ t) k = refl

    no_slash : (t : Bytes) → All IsDigit t → Lacks b'/' t
    no_slash [] k = tt
    no_slash (c ∷ t) (p, k) = (omega arith, no_slash t k)

decimal-IsPart : (n : ℕ) → IsPart (decimal n)
decimal-IsPart n = digits-IsPart (decimal n) (decimal-length_pos n) (decimal-IsDigit n)

decimal_int-IsPart : (z : ℤ) → IsPart (decimal_int z)
decimal_int-IsPart (pos n) = decimal-IsPart n
decimal_int-IsPart (negsuc n) = (refl, (omega arith, (decimal-IsPart (suc n)).1))

path_text-IsPart : (a : Arg) → IsArg a → IsPart (path_text a)
path_text-IsPart (lit t) (p, h) = p
path_text-IsPart (int n z) h = decimal_int-IsPart z
path_text-IsPart (str n v) (h, p) = p

pattern_texts-IsPart : (args : List Arg) → All IsArg args → All IsPart (map pattern_text args)
pattern_texts-IsPart [] h = tt
pattern_texts-IsPart (a ∷ args) (p, h) = (pattern_text-IsPart a p, pattern_texts-IsPart args h)

path_texts-IsPart : (args : List Arg) → All IsArg args → All IsPart (map path_text args)
path_texts-IsPart [] h = tt
path_texts-IsPart (a ∷ args) (p, h) = (path_text-IsPart a p, path_texts-IsPart args h)

segments_of :
    (args : List Arg)
    → All IsArg args
    → map pattern_segment (map pattern_text args) ≡ map segment_of args
segments_of [] h = refl
segments_of (a ∷ args) (p, h) = rw (pattern_segment-text a p, segments_of args h)

parse_pattern-print :
    (args : List Arg)
    → All IsArg args
    → parse_pattern (print_parts (map pattern_text args)) ≡ map segment_of args
parse_pattern-print args h =
    parse_pattern-parts (print_parts (map pattern_text args))
    ∙ ap (map pattern_segment) (parts-print (map pattern_text args) (pattern_texts-IsPart args h))
    ∙ segments_of args h

args-Captures :
    (args : List Arg)
    → All IsArg args
    → Captures (map segment_of args) (map path_text args) (params_of args)
args-Captures [] h = done
args-Captures (lit t ∷ args) (p, h) = next (same refl) (args-Captures args h)
args-Captures (int n z ∷ args) ((k, i), h) =
    next (number (from_chars_int-decimal z i)) (args-Captures args h)
args-Captures (str n v ∷ args) (p, h) = next text (args-Captures args h)

split_path_sv-print :
    (args : List Arg)
    → All IsArg args
    → length args ≤ max_segments
    → split_path_sv (print_parts (map path_text args)) ≡ map path_text args
split_path_sv-print args h n =
    split_path_sv-parts (print_parts (map path_text args))
    ∙ ap (take max_segments) (parts-print (map path_text args) (path_texts-IsPart args h))
    ∙ take_all max_segments (map path_text args) (omega (arith, length-map args path_text))

-- A pattern of at most 16 segments matches the path that is written with the same arguments, and
-- adds exactly their values: an `int` of either sign, a string with no slash.
pub match_route-print :
    (args : List Arg) (params : List ParamEntry)
    → length args ≤ max_segments
    → All IsArg args
    → match_route
        (parse_pattern (print_parts (map pattern_text args)))
        (print_parts (map path_text args))
        params
      ≡ (true, params ++ params_of args)
match_route-print args params n h =
    match_route_complete (parse_pattern (print_parts (map pattern_text args)))
      (print_parts (map path_text args)) params (params_of args)
      (rw (parse_pattern-print args h, split_path_sv-print args h n) (args-Captures args h))
