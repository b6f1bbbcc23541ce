-- ===== src/Request/Typed.antt =====
-- The getters of route parameters on what a match captured: a parameter has the type that its pattern
-- declares.
use lundicpp.Base.{
  ◌≡◌, refl, ◌∙◌, Bytes, List, [], ◌∷◌, ◌++◌, true, Option, none, some, if◌then◌else◌, Bool-cases,
  inl, inr, bytes_eq,
}
use lundicpp.Base.Decimal.{parsed}
use lundicpp.Base.Int.{ℤ, pos, from_chars_int}
use lundicpp.Router.{
  Kind, literal, param_int, param_string, RouteSegment, ParamEntry, match_route, split_path_sv,
  PathSegments,
}
use lundicpp.Router.Match.{Gives, same, number, text, Captures, next, done, match_route_sound}
use lundicpp.Request.Lookup
use lundicpp.Request.Lookup.{value, bad_variant_access}

-- The first parameter of a name: its type, and the part of the path at its place.
abbrev pub declared : Bytes → List RouteSegment → PathSegments → Option (Kind × Bytes)
declared name [] vs = none
declared name (seg ∷ pattern) [] = none
declared name (seg ∷ pattern) (v ∷ vs) =
    let later = declared name pattern vs in
    elim seg.kind [
      | literal ↦ later
      | param_int ↦ if bytes_eq seg.text name then some (param_int, v) else later
      | param_string ↦ if bytes_eq seg.text name then some (param_string, v) else later
    ]

-- What both getters return for a parameter that is declared so: the number that its part of the path
-- spells, the part itself, or the default where there is none. The getter of the other type throws.
abbrev pub IsTyped : Option (Kind × Bytes) → Bytes → List ParamEntry → Type 0
IsTyped none name ps =
    (Lookup.param_int name ps ≡ value (pos 0)) × (Lookup.param_str name ps ≡ value [])
IsTyped (some (literal, v)) name ps = ⊥
IsTyped (some (param_int, v)) name ps =
    (z : ℤ) × (from_chars_int v ≡ parsed z [])
    × (Lookup.param_int name ps ≡ value z)
    × (Lookup.param_str name ps ≡ bad_variant_access)
IsTyped (some (param_string, v)) name ps =
    (Lookup.param_str name ps ≡ value v) × (Lookup.param_int name ps ≡ bad_variant_access)

-- One more entry in front that the getters pass over.
behind :
    (k : Option (Kind × Bytes)) (name : Bytes) (ps qs : List ParamEntry)
    → Lookup.param_int name qs ≡ Lookup.param_int name ps
    → Lookup.param_str name qs ≡ Lookup.param_str name ps
    → IsTyped k name ps
    → IsTyped k name qs
behind none name ps qs i s (a, b) = (i ∙ a, s ∙ b)
behind (some (literal, v)) name ps qs i s h = h
behind (some (param_int, v)) name ps qs i s (z, e, a, b) = (z, e, i ∙ a, s ∙ b)
behind (some (param_string, v)) name ps qs i s (a, b) = (s ∙ a, i ∙ b)

Captures-IsTyped :
    {pattern : List RouteSegment} {vs : PathSegments} {ps : List ParamEntry} (name : Bytes)
    → Captures pattern vs ps
    → IsTyped (declared name pattern vs) name ps
unfolding Lookup.param_int Lookup.param_str
Captures-IsTyped name done = (refl, refl)
Captures-IsTyped name (next {seg} {v} {found} {pattern} {vs} {ps} g c) =
    front seg.kind seg.text v found g (Captures-IsTyped name c)
  where
    front :
        (k : Kind) (t v : Bytes) (found : List ParamEntry)
        → Gives k t v found
        → IsTyped (declared name pattern vs) name ps
        → IsTyped
            (declared name (record { kind = k; text = t } ∷ pattern) (v ∷ vs))
            name
            (found ++ ps)
    front literal t v found (same e) h = behind (declared name pattern vs) name ps ps refl refl h
    front param_int t v found (number {z = z} e) h = elim (Bool-cases (bytes_eq t name)) [
      | inl hit ↦ rw hit (z, e, rw hit refl, rw hit refl)
      | inr miss ↦
          rw miss (behind (declared name pattern vs) name ps _ (rw miss refl) (rw miss refl) h)
    ]
    front param_string t v found text h = elim (Bool-cases (bytes_eq t name)) [
      | inl hit ↦ rw hit (rw hit refl, rw hit refl)
      | inr miss ↦
          rw miss (behind (declared name pattern vs) name ps _ (rw miss refl) (rw miss refl) h)
    ]

-- Where a path matches a pattern, the first parameter of a name is read with the type that the pattern
-- declares, from the part of the path at its own place: a number by `param_int` as the number that this part
-- spells, a text by `param_str` as this part. The getter of the other type throws, and a name
-- that is not declared has the default.
pub match_route-IsTyped :
    (pattern : List RouteSegment) (path name : Bytes) (ps : List ParamEntry)
    → match_route pattern path [] ≡ (true, ps)
    → IsTyped (declared name pattern (split_path_sv path)) name ps
match_route-IsTyped pattern path name ps h =
    let (qs, same_params, c) = match_route_sound pattern path [] ps h in
    rw same_params (Captures-IsTyped name c)
