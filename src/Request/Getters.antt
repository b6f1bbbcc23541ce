-- ===== src/Request/Getters.antt =====
-- What the getters of Request/Lookup return, against the first entry under a key.
use lundicpp.Base.{
  ◌≡◌, ◌↔◌, refl, sym, ◌∙◌, Bytes, List, [], ◌∷◌, true, false, ◌&&◌, Option, none, some, map, arith,
  ◌==◌, length, bytes_eq, Bool-cases, inl, inr, bytes_eq-true, bytes_eq_refl,
}
use lundicpp.Url.{to_lower, QueryEntry}
use lundicpp.Request.{HeaderEntry}
use lundicpp.Request.Lookup.{same_ci, find_header_ci, header_equals, first, query, query_or}

-- Sizes and bytes are compared one by one; that is equality of the lower-case texts.
same_ci-to_lower :
    (xs ys : Bytes)
    → (length xs == length ys && same_ci xs ys) ≡ bytes_eq (to_lower xs) (to_lower ys)
unfolding same_ci to_lower bytes_eq
same_ci-to_lower [] [] = ground arith
same_ci-to_lower [] (y ∷ ys) = ground arith
same_ci-to_lower (x ∷ xs) [] = ground arith
same_ci-to_lower (x ∷ xs) (y ∷ ys) = ground (arith, same_ci-to_lower xs ys)

-- A header as an entry under its name in lower case.
abbrev pub lowered : HeaderEntry → Bytes × Bytes
lowered h = (to_lower h.name, h.value)

-- The value of the first header whose name has the same letters in either case, or none.
pub find_header_ci-first :
    (name : Bytes) (hs : List HeaderEntry)
    → find_header_ci name hs ≡ first (to_lower name) (map lowered hs)
unfolding find_header_ci
find_header_ci-first name [] = refl
find_header_ci-first name (h ∷ hs) =
    rw (same_ci-to_lower h.name name, find_header_ci-first name hs) refl

-- The test holds exactly when the first header of that name has the value in letters of either case.
pub header_equals_iff :
    (name expected : Bytes) (hs : List HeaderEntry)
    → (header_equals name expected hs ≡ true) ↔ (
        (val : Bytes) × (first (to_lower name) (map lowered hs) ≡ some val)
        × (to_lower val ≡ to_lower expected))
unfolding header_equals
header_equals_iff name expected hs =
    rw (find_header_ci-first name hs, header_equals)
      (by_case (first (to_lower name) (map lowered hs)))
  where
    by_case :
        (o : Option Bytes)
        → ((elim o [
          | none ↦ false
          | some val ↦ length val == length expected && same_ci val expected
        ])
            ≡ true)
          ↔ ((val : Bytes) × (o ≡ some val) × (to_lower val ≡ to_lower expected))
    by_case none = (λ h. cc, λ (val, e, _). cc)
    by_case (some v) = (
      λ h. (v, refl, bytes_eq-true _ _ (sym (same_ci-to_lower v expected) ∙ h)),
      λ (val, e, low).
          let same : v ≡ val = cc in
          same_ci-to_lower v expected ∙ rw (same, low) (bytes_eq_refl (to_lower expected)),
    )

abbrev pub pair : QueryEntry → Bytes × Bytes
pair q = (q.name, q.value)

-- Both forms of `query` return the value of the first parameter of that name, and without one they
-- return nothing and the default.
pub query-first :
    (name default_val : Bytes) (qs : List QueryEntry)
    → (query name qs ≡ first name (map pair qs))
      × (query_or name default_val qs
          ≡ (elim (first name (map pair qs)) [ none ↦ default_val | some v ↦ v ]))
unfolding query query_or
query-first name default_val [] = (refl, refl)
query-first name default_val (q ∷ qs) =
    let (one, other) = query-first name default_val qs in
    elim (Bool-cases (bytes_eq q.name name)) [
      | inl e ↦ rw e (refl, refl)
      | inr e ↦ rw e (one, other)
    ]
