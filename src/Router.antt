-- ===== src/Router.antt =====
-- router.hpp: route patterns, the path splitter, `match_route` and the class `router`. A handler is
-- a value of any type; the route list owns it.
pub mod Split
pub mod Match
pub mod Resolve
pub mod RoundTrip
pub mod Depth
mod Examples
use lundicpp.Base.{
  ℕ, zero, suc, ◌+◌, ◌-◌, Bytes, List, [], ◌∷◌, ◌++◌, Bool, true, false, ◌&&◌, not, Option, none,
  some, ltb, ◌==◌, if◌then◌else◌, length, take, drop, find_char, is_empty, bytes_eq, codes, get_or,
}
use lundicpp.Base.Split.{pieces_loop}
use lundicpp.Base.Decimal.{FromChars, parsed, invalid_argument, result_out_of_range}
use lundicpp.Base.Int.{ℤ, from_chars_int}

-- `param_value` of core.hpp, the variant of the two.
pub data ParamValue : Type 0 where
  int_value : ℤ → ParamValue
  string_value : Bytes → ParamValue

-- `request::param_entry`.
pub record ParamEntry : Type 0 where
  pub name : Bytes
  pub value : ParamValue

pub data Kind : Type 0 where
  literal param_int param_string : Kind

pub record RouteSegment : Type 0 where
  pub kind : Kind
  pub text : Bytes

-- `part.back()` of a part that is not empty.
abbrev pub back : Bytes → ℕ
back s = get_or s (length s - 1) 0

abbrev pub front : Bytes → ℕ
front s = get_or s 0 0

-- The parameter between `<` and `>`.
unfoldable pub param_segment : Bytes → RouteSegment
param_segment inner = elim (find_char b':' inner) [
  | some colon ↦
      if bytes_eq (take colon inner) (codes "int")
      then record { kind = param_int; text = drop (colon + 1) inner }
      else record { kind = param_string; text = drop (colon + 1) inner }
  | none ↦ record { kind = param_string; text = inner }
]

-- The segment of a part that is not empty.
unfoldable pub pattern_segment : Bytes → RouteSegment
pattern_segment part =
    if front part == b'<' && back part == b'>'
    then param_segment (take (length part - 2) (drop 1 part))
    else record { kind = literal; text = part }

unfoldable pub add_segment : Bytes → List RouteSegment → List RouteSegment
add_segment part segments =
    if is_empty part then segments else segments ++ pattern_segment part ∷ []

-- `if( !sv.empty() && sv[ 0 ] == '/' ) sv.remove_prefix( 1 );`
abbrev pub strip_slash : Bytes → Bytes
strip_slash [] = []
strip_slash (c ∷ s) = if c == b'/' then s else c ∷ s

unfoldable pub parse_pattern : Bytes → List RouteSegment
unfolding add_segment pieces_loop pattern_segment param_segment find_char bytes_eq
parse_pattern pattern =
    let sv = strip_slash pattern in pieces_loop b'/' (λ _. true) add_segment (length sv) sv []

abbrev pub max_segments : ℕ
max_segments = 16

-- The first `count` entries of `path_segments::segments`.
abbrev pub PathSegments : Type 0
PathSegments = List Bytes

unfoldable pub add_part : Bytes → PathSegments → PathSegments
add_part part result = if is_empty part then result else result ++ part ∷ []

unfoldable pub split_path_sv : Bytes → PathSegments
unfolding add_part pieces_loop find_char
split_path_sv path =
    let sv = strip_slash path in
    pieces_loop b'/' (λ (r : PathSegments). ltb (length r) max_segments) add_part (length sv) sv []

-- `split_path` copies the views into strings.
unfoldable pub split_path : Bytes → List Bytes
unfolding split_path_sv
split_path path = split_path_sv path

-- The parameter of a number that takes the whole part, `ec == std::errc{}` and `ptr` at its end.
abbrev pub int_param : Bytes → FromChars ℤ → Option (List ParamEntry)
int_param name (parsed num []) = some (record { name = name; value = int_value num } ∷ [])
int_param name _ = none

-- One segment of a pattern against one of a path: the parameters that it adds, or `none` for
-- `return false`.
unfoldable pub match_segment : RouteSegment → Bytes → Option (List ParamEntry)
match_segment seg val = elim seg.kind [
  | literal ↦ if bytes_eq val seg.text then some [] else none
  | param_int ↦ int_param seg.text (from_chars_int val)
  | param_string ↦ some (record { name = seg.text; value = string_value val } ∷ [])
]

-- The loop over the segments. On a mismatch the parameters are cut back to those at entry, `initial`.
unfoldable pub match_loop :
    List ParamEntry → List RouteSegment → PathSegments → List ParamEntry → Bool × List ParamEntry
match_loop initial [] parts params = (true, params)
match_loop initial (seg ∷ pattern) [] params = (true, params)
match_loop initial (seg ∷ pattern) (val ∷ parts) params = elim (match_segment seg val) [
  | none ↦ (false, initial)
  | some found ↦ match_loop initial pattern parts (params ++ found)
]

-- The result and the parameters behind the call.
unfoldable pub match_route : List RouteSegment → Bytes → List ParamEntry → Bool × List ParamEntry
unfolding match_loop match_segment split_path_sv
match_route pattern path params =
    let parts = split_path_sv path in
    if length parts == length pattern
    then match_loop params pattern parts params
    else (false, params)

pub record RouteEntry {ℓ} (H : Type ℓ) : Type ℓ where
  pub method : Bytes
  pub pattern : List RouteSegment
  pub handler : H

module _ {ℓ} {H : Type ℓ} where
  -- `routes_.push_back`.
  unfoldable pub add : Bytes → Bytes → H → List (RouteEntry H) → List (RouteEntry H)
  unfolding parse_pattern
  add method pattern handler routes =
      routes ++ record { method = method; pattern = parse_pattern pattern; handler = handler } ∷ []

  -- The handler that is found, or `none` for a null pointer, and `params` behind the call.
  unfoldable pub resolve :
      List (RouteEntry H) → Bytes → Bytes → List ParamEntry → Option H × List ParamEntry
  resolve [] method path params = (none, params)
  resolve (route ∷ routes) method path params =
      let (matched, found) = match_route route.pattern path [] in
      let next = resolve routes method path params in
      let later = resolve routes method path found in
      if bytes_eq route.method method
      then (if matched then (some route.handler, found) else later)
      else next
