-- ===== src/Request/Lookup.antt =====
-- The getters of `request`: parameters, query parameters and headers by name.
use lundicpp.Base.{
  Bytes, List, [], ◌∷◌, Bool, true, false, ◌&&◌, Option, none, some, ◌==◌, if◌then◌else◌, length,
  bytes_eq,
}
use lundicpp.Base.Decimal.{parsed, invalid_argument, result_out_of_range}
use lundicpp.Base.Int.{ℤ, pos, from_chars_int}
use lundicpp.Url.{lower, QueryEntry}
use lundicpp.Router.{ParamEntry, ParamValue, int_value, string_value}
use lundicpp.Request.{HeaderEntry}

-- `std::get< T >` throws where the variant holds the other type.
pub data Access {ℓ} (A : Type ℓ) : Type ℓ where
  value : A → Access A
  bad_variant_access : Access A

abbrev pub get_int : ParamValue → Access ℤ
get_int (int_value n) = value n
get_int (string_value s) = bad_variant_access

abbrev pub get_string : ParamValue → Access Bytes
get_string (int_value n) = bad_variant_access
get_string (string_value s) = value s

-- The loop of `param_int`.
unfoldable pub param_int : Bytes → List ParamEntry → Access ℤ
unfolding bytes_eq
param_int name [] = value (pos 0)
param_int name (p ∷ ps) = if bytes_eq p.name name then get_int p.value else param_int name ps

unfoldable pub param_str : Bytes → List ParamEntry → Access Bytes
unfolding bytes_eq
param_str name [] = value []
param_str name (p ∷ ps) = if bytes_eq p.name name then get_string p.value else param_str name ps

-- `query( name )`.
unfoldable pub query : Bytes → List QueryEntry → Option Bytes
unfolding bytes_eq
query name [] = none
query name (q ∷ qs) = if bytes_eq q.name name then some q.value else query name qs

-- `query( name, default_val )`, a loop of its own.
unfoldable pub query_or : Bytes → Bytes → List QueryEntry → Bytes
unfolding bytes_eq
query_or name default_val [] = default_val
query_or name default_val (q ∷ qs) =
    if bytes_eq q.name name then q.value else query_or name default_val qs

-- A value that `from_chars` refuses is passed over; what follows the digits is not looked at.
unfoldable pub query_int : Bytes → List QueryEntry → Option ℤ
unfolding bytes_eq from_chars_int
query_int name [] = none
query_int name (q ∷ qs) =
    let rest = query_int name qs in
    if bytes_eq q.name name
    then (elim (from_chars_int q.value) [
      | parsed val after ↦ some val
      | invalid_argument ↦ rest
      | result_out_of_range ↦ rest
    ])
    else rest

-- The inner loop over two texts of one size.
unfoldable pub same_ci : Bytes → Bytes → Bool
unfolding lower
same_ci (x ∷ xs) (y ∷ ys) = if lower x == lower y then same_ci xs ys else false
same_ci _ _ = true

unfoldable pub find_header_ci : Bytes → List HeaderEntry → Option Bytes
unfolding same_ci
find_header_ci name [] = none
find_header_ci name (h ∷ hs) =
    if length h.name == length name && same_ci h.name name
    then some h.value
    else find_header_ci name hs

-- `header`.
unfoldable pub header : Bytes → List HeaderEntry → Bytes
unfolding find_header_ci
header name hs = elim (find_header_ci name hs) [ none ↦ [] | some val ↦ val ]

unfoldable pub header_equals : Bytes → Bytes → List HeaderEntry → Bool
unfolding find_header_ci same_ci
header_equals name expected hs = elim (find_header_ci name hs) [
  | none ↦ false
  | some val ↦ length val == length expected && same_ci val expected
]

-- The first entry under a key.
abbrev pub first {ℓ} : {A : Type ℓ} → Bytes → List (Bytes × A) → Option A
first key [] = none
first key ((k, a) ∷ ps) = if bytes_eq k key then some a else first key ps

-- `query_int( name, default_val )`.
unfoldable pub query_int_or : Bytes → ℤ → List QueryEntry → ℤ
unfolding query_int
query_int_or name default_val qs = elim (query_int name qs) [ none ↦ default_val | some n ↦ n ]
