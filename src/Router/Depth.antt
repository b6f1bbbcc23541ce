-- ===== src/Router/Depth.antt =====
-- Paths with more parts than `path_segments` holds.
use lundicpp.Base.{
  ℕ, ◌≤◌, ◌≡◌, refl, ap, ◌∙◌, sym, Bytes, List, [], ◌∷◌, ◌++◌, arith, length, take, ◌==◌,
  Bool-cases, inl, inr,
}
use lundicpp.Base.Find.{take_prefix}
use lundicpp.Base.Split.{split, split-append_all}
use lundicpp.Router.{RouteSegment, ParamEntry, match_route, split_path_sv, max_segments}
use lundicpp.Router.Split.{parts, nonempty, split_path_sv-parts}

nonempty-append : (ps qs : List Bytes) → nonempty (ps ++ qs) ≡ nonempty ps ++ nonempty qs
nonempty-append [] qs = refl
nonempty-append (p ∷ ps) qs = ground (arith, nonempty-append ps qs)

parts-append :
    (c : ℕ) (s r : Bytes) → parts ((c ∷ s) ++ b'/' ∷ r) ≡ parts (c ∷ s) ++ nonempty (split b'/' r)
parts-append c s r = elim (Bool-cases (c == b'/')) [
  | inl e ↦ rw (e, split-append_all b'/' s r) (nonempty-append (split b'/' s) (split b'/' r))
  | inr e ↦
      rw (e, split-append_all b'/' (c ∷ s) r) (nonempty-append (split b'/' (c ∷ s)) (split b'/' r))
]

split_path_sv-deep :
    (path r : Bytes)
    → max_segments ≤ length (parts path)
    → split_path_sv (path ++ b'/' ∷ r) ≡ split_path_sv path
split_path_sv-deep [] r h = absurd (unfold split in omega arith)
split_path_sv-deep (c ∷ s) r h =
    split_path_sv-parts ((c ∷ s) ++ b'/' ∷ r)
    ∙ ap (take max_segments) (parts-append c s r)
    ∙ take_prefix max_segments (parts (c ∷ s)) (nonempty (split b'/' r)) h
    ∙ sym (split_path_sv-parts (c ∷ s))

-- A path of 16 parts or more is matched as its first 16 alone: whatever is written behind it, each
-- pattern gives the same result.
pub match_route-deep :
    (pattern : List RouteSegment) (path r : Bytes) (params : List ParamEntry)
    → max_segments ≤ length (parts path)
    → match_route pattern (path ++ b'/' ∷ r) params ≡ match_route pattern path params
unfolding match_route
match_route-deep pattern path r params h = rw (split_path_sv-deep path r h)
