-- ===== src/Router/Examples.antt =====
-- Routes and paths of the README.
use lundicpp.Base.{◌≡◌, ◌↔◌, ◌++◌, refl, List, [], ◌∷◌, codes, arith, true, Bytes, some}
use lundicpp.Base.Int.{negsuc}
use lundicpp.Router.{
  parse_pattern, split_path_sv, max_segments, match_route, resolve, RouteEntry, literal, param_int,
  param_string,
}
use lundicpp.Router.Split.{parts, print_parts}
use lundicpp.Router.Resolve.{Selects, resolve_iff}
use lundicpp.Router.RoundTrip.{
  Arg, lit, int, str, pattern_text, path_text, params_of, match_route-print,
}
use lundicpp.Router.Depth.{match_route-deep}
use lundicpp.Base.{map, ℕ, ◌≤◌, length}
use lundicpp.Base.Split.{split}

parsed_pattern :
    parse_pattern (codes "/users/<int:id>/<name>")
    ≡ record { kind = literal; text = codes "users" }
      ∷ record { kind = param_int; text = codes "id" }
      ∷ record { kind = param_string; text = codes "name" }
      ∷ []
unfolding parse_pattern
parsed_pattern = refl

trailing_slash : split_path_sv (codes "//users/42/") ≡ codes "users" ∷ codes "42" ∷ []
unfolding split_path_sv
trailing_slash = refl

abbrev routes : List (RouteEntry ℕ)
routes =
    record { method = codes "POST"; pattern = []; handler = 1 }
    ∷ record { method = codes "GET"; pattern = []; handler = 2 }
    ∷ []

resolve_iff_example :
    (resolve routes (codes "GET") (codes "/") [] ≡ (some 2, []))
    ↔ Selects (codes "GET") (codes "/") routes 2 []
resolve_iff_example = resolve_iff (codes "GET") (codes "/") routes [] [] 2

abbrev args : List Arg
args = lit (codes "users") ∷ int (codes "id") (negsuc 41) ∷ str (codes "tab") (codes "posts") ∷ []

match_route-print_example :
    match_route
      (parse_pattern (print_parts (map pattern_text args)))
      (print_parts (map path_text args))
      []
    ≡ (true, [] ++ params_of args)
match_route-print_example = match_route-print args [] (omega arith) (ground arith)

abbrev deep : Bytes
deep = codes "/a/b/c/d/e/f/g/h/i/j/k/l/m/n/o/p"

deep-parts : max_segments ≤ length (parts deep)
unfolding split
deep-parts = omega arith

match_route-deep_example :
    match_route (parse_pattern deep) (deep ++ b'/' ∷ codes "q") []
    ≡ match_route (parse_pattern deep) deep []
match_route-deep_example = match_route-deep (parse_pattern deep) deep (codes "q") [] deep-parts
