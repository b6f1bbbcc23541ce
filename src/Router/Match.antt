-- ===== src/Router/Match.antt =====
-- `match_route` against the relation that says what a pattern captures of a path.
use lundicpp.Base.{
  suc, ◌≡◌, refl, sym, ap, ◌∙◌, Bytes, List, [], ◌∷◌, ◌++◌, true, false, none, some, arith, length,
  if◌then◌else◌, append_assoc, append-nil, Bool-cases, Option-cases, inl, inr, bytes_eq,
  bytes_eq_refl, bytes_eq-true, ◌==◌,
}
use lundicpp.Base.Decimal.{FromChars, parsed, invalid_argument, result_out_of_range}
use lundicpp.Base.Int.{ℤ, from_chars_int}
use lundicpp.Router.{
  Kind, literal, param_int, param_string, RouteSegment, ParamEntry, int_value, string_value,
  int_param, match_segment, match_loop, match_route, split_path_sv, PathSegments,
}

-- What a segment, given by its kind and its text, captures of a part of the path.
pub data Gives : Kind → Bytes → Bytes → List ParamEntry → Type 0 where
  same : {t v : Bytes} → v ≡ t → Gives literal t v []
  number :
      {t v : Bytes} {z : ℤ}
      → from_chars_int v ≡ parsed z []
      → Gives param_int t v (record { name = t; value = int_value z } ∷ [])
  text : {t v : Bytes} → Gives param_string t v (record { name = t; value = string_value v } ∷ [])

-- What a pattern captures of the parts of a path, segment by segment.
pub data Captures : List RouteSegment → PathSegments → List ParamEntry → Type 0 where
  done : Captures [] [] []
  next :
      {seg : RouteSegment} {v : Bytes} {found : List ParamEntry} {pattern : List RouteSegment}
      {vs : PathSegments} {ps : List ParamEntry}
      → Gives seg.kind seg.text v found
      → Captures pattern vs ps
      → Captures (seg ∷ pattern) (v ∷ vs) (found ++ ps)

abbrev segment : Kind → Bytes → RouteSegment
segment k t = record { kind = k; text = t }

number_sound :
    (t v : Bytes) (r : FromChars ℤ) (found : List ParamEntry)
    → from_chars_int v ≡ r
    → int_param t r ≡ some found
    → Gives param_int t v found
number_sound t v (parsed z []) found e h =
    let is : record { name = t; value = int_value z } ∷ [] ≡ found = cc in rw (← is) (number e)
number_sound t v (parsed z (c ∷ rest)) found e h = absurd (cc)
number_sound t v invalid_argument found e h = absurd (cc)
number_sound t v result_out_of_range found e h = absurd (cc)

literal_sound :
    (t v : Bytes) (found : List ParamEntry)
    → (if bytes_eq v t then some [] else none) ≡ some found
    → Gives literal t v found
literal_sound t v found h = elim (Bool-cases (bytes_eq v t)) [
  | inl e ↦ let is : [] ≡ found = ground (arith, e, h) in rw (← is) (same (bytes_eq-true v t e))
  | inr e ↦ absurd (ground (arith, e, h))
]

match_segment_sound :
    (k : Kind) (t v : Bytes) (found : List ParamEntry)
    → match_segment (segment k t) v ≡ some found
    → Gives k t v found
unfolding match_segment
match_segment_sound literal t v found h = literal_sound t v found h
match_segment_sound param_int t v found h = number_sound t v (from_chars_int v) found refl h
match_segment_sound param_string t v found h =
    let is : record { name = t; value = string_value v } ∷ [] ≡ found = cc in rw (← is) text

match_segment_complete :
    {k : Kind} {t v : Bytes} {found : List ParamEntry}
    → Gives k t v found
    → match_segment (segment k t) v ≡ some found
unfolding match_segment
match_segment_complete (same {t} {v} e) = rw (e, bytes_eq_refl t)
match_segment_complete (number {t} {v} {z} e) = rw e
match_segment_complete text = refl

match_loop_step :
    (initial params : List ParamEntry) (seg : RouteSegment) (v : Bytes) (found : List ParamEntry)
    (pattern : List RouteSegment) (vs : PathSegments)
    → match_segment seg v ≡ some found
    → match_loop initial (seg ∷ pattern) (v ∷ vs) params
      ≡ match_loop initial pattern vs (params ++ found)
unfolding match_loop
match_loop_step initial params seg v found pattern vs e = rw (e, match_loop)

match_loop_miss :
    (initial params : List ParamEntry) (seg : RouteSegment) (v : Bytes)
    (pattern : List RouteSegment) (vs : PathSegments)
    → match_segment seg v ≡ none
    → match_loop initial (seg ∷ pattern) (v ∷ vs) params ≡ (false, initial)
unfolding match_loop
match_loop_miss initial params seg v pattern vs e = rw (e, match_loop)

match_loop_complete :
    {pattern : List RouteSegment} {vs : PathSegments} {ps : List ParamEntry}
    (initial params : List ParamEntry)
    → Captures pattern vs ps
    → match_loop initial pattern vs params ≡ (true, params ++ ps)
match_loop_complete initial params done = unfold match_loop in rw append-nil
match_loop_complete initial params (next {seg} {v} {found} {pattern} {vs} {ps} g c) =
    match_loop_step initial params seg v found pattern vs (match_segment_complete g)
    ∙ match_loop_complete initial (params ++ found) c
    ∙ rw append_assoc

match_loop_ended :
    (initial : List ParamEntry) (vs : PathSegments) (params : List ParamEntry)
    → match_loop initial [] vs params ≡ (true, params)
unfolding match_loop
match_loop_ended initial vs params = refl

match_loop_short :
    (initial : List ParamEntry) (seg : RouteSegment) (pattern : List RouteSegment)
    (params : List ParamEntry)
    → match_loop initial (seg ∷ pattern) [] params ≡ (true, params)
unfolding match_loop
match_loop_short initial seg pattern params = refl

match_loop_sound :
    (initial : List ParamEntry) (pattern : List RouteSegment) (vs : PathSegments)
    (params q : List ParamEntry)
    → length vs ≡ length pattern
    → match_loop initial pattern vs params ≡ (true, q)
    → (ps : List ParamEntry) × (q ≡ params ++ ps) × Captures pattern vs ps
match_loop_sound initial [] [] params q n h =
    ([], ground (arith, h, match_loop_ended initial [] params, append-nil params), done)
match_loop_sound initial [] (v ∷ vs) params q n h = absurd (omega arith)
match_loop_sound initial (seg ∷ pattern) [] params q n h = absurd (omega arith)
match_loop_sound initial (seg ∷ pattern) (v ∷ vs) params q n h =
    elim (Option-cases (match_segment seg v)) [
      | inl miss ↦ absurd (cc (match_loop_miss initial params seg v pattern vs miss))
      | inr (found, e) ↦
          let (ps, split, c) =
            match_loop_sound initial pattern vs (params ++ found) q (omega arith)
              (sym (match_loop_step initial params seg v found pattern vs e) ∙ h) in
          (
            found ++ ps,
            split ∙ append_assoc params found ps,
            next (match_segment_sound seg.kind seg.text v found e) c,
          )
    ]

match_loop_restores :
    (initial : List ParamEntry) (pattern : List RouteSegment) (vs : PathSegments)
    (params q : List ParamEntry)
    → match_loop initial pattern vs params ≡ (false, q)
    → q ≡ initial
match_loop_restores initial [] vs params q h = absurd (cc (match_loop_ended initial vs params))
match_loop_restores initial (seg ∷ pattern) [] params q h =
    absurd (cc (match_loop_short initial seg pattern params))
match_loop_restores initial (seg ∷ pattern) (v ∷ vs) params q h =
    elim (Option-cases (match_segment seg v)) [
      | inl miss ↦ ground (arith, h, match_loop_miss initial params seg v pattern vs miss)
      | inr (found, e) ↦
          match_loop_restores initial pattern vs (params ++ found) q
            (sym (match_loop_step initial params seg v found pattern vs e) ∙ h)
    ]

Captures-length :
    {pattern : List RouteSegment} {vs : PathSegments} {ps : List ParamEntry}
    → Captures pattern vs ps
    → length vs ≡ length pattern
Captures-length done = refl
Captures-length (next g c) = ap suc (Captures-length c)

-- A match adds to the parameters what the pattern captures of the parts of the path.
pub match_route_sound :
    (pattern : List RouteSegment) (path : Bytes) (params q : List ParamEntry)
    → match_route pattern path params ≡ (true, q)
    → (ps : List ParamEntry) × (q ≡ params ++ ps) × Captures pattern (split_path_sv path) ps
unfolding match_route
match_route_sound pattern path params q h =
    elim (Bool-cases (length (split_path_sv path) == length pattern)) [
      | inl e ↦
          match_loop_sound params pattern (split_path_sv path) params q (ground arith)
            (rw (e, match_route) at h)
      | inr e ↦ absurd (cc (rw (e, match_route) at h))
    ]

pub match_route_complete :
    (pattern : List RouteSegment) (path : Bytes) (params ps : List ParamEntry)
    → Captures pattern (split_path_sv path) ps
    → match_route pattern path params ≡ (true, params ++ ps)
unfolding match_route
match_route_complete pattern path params ps c =
    let e : (length (split_path_sv path) == length pattern) ≡ true =
      ground (arith, Captures-length c) in
    rw (e, match_route) (match_loop_complete params params c)

-- After `return false` the parameters are those at entry.
pub match_route_restores :
    (pattern : List RouteSegment) (path : Bytes) (params q : List ParamEntry)
    → match_route pattern path params ≡ (false, q)
    → q ≡ params
unfolding match_route
match_route_restores pattern path params q h =
    elim (Bool-cases (length (split_path_sv path) == length pattern)) [
      | inl e ↦
          match_loop_restores params pattern (split_path_sv path) params q
            (rw (e, match_route) at h)
      | inr e ↦ ground (arith, rw (e, match_route) at h)
    ]
