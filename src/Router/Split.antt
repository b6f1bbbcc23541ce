-- ===== src/Router/Split.antt =====
-- The parts of a path, and the segments of a pattern, against the pieces between slashes.
use lundicpp.Base.{
  ℕ, suc, ◌-◌, ◌≤◌, ◌<◌, ◌≡◌, refl, sym, ◌∙◌, Bytes, List, [], ◌∷◌, ◌++◌, Bool, true, false, ltb,
  arith, length, take, if◌then◌else◌, is_empty, append_assoc, append-nil, length-append, Bool-cases,
  inl, inr, map,
}
use lundicpp.Base.Find.{All, Lacks, take_all}
use lundicpp.Base.Split.{split, fold_pieces, pieces_loop-fold, split-append, split-only}
use lundicpp.Router.{
  strip_slash, split_path_sv, add_part, PathSegments, max_segments, RouteSegment, pattern_segment,
  add_segment, parse_pattern,
}

-- The pieces that are not empty.
abbrev pub nonempty : List Bytes → List Bytes
nonempty [] = []
nonempty (p ∷ ps) = if is_empty p then nonempty ps else p ∷ nonempty ps

-- The parts of a path: what stands between slashes.
abbrev pub parts : Bytes → List Bytes
parts path = nonempty (split b'/' (strip_slash path))

abbrev pub has_room : PathSegments → Bool
has_room r = ltb (length r) max_segments

fold-full :
    (ps : List Bytes) (r : PathSegments)
    → has_room r ≡ false
    → fold_pieces b'/' has_room add_part ps r ≡ r
fold-full [] r h = refl
fold-full (p ∷ ps) r h = rw h

take-sub_suc {ℓ} :
    {A : Type ℓ} (n k : ℕ) (x : A) (xs : List A)
    → k < n
    → take (n - k) (x ∷ xs) ≡ x ∷ take (n - suc k) xs
take-sub_suc n k x xs h = let e : n - k ≡ suc (n - suc k) = omega arith in rw e

take-nil {ℓ} : {A : Type ℓ} (k : ℕ) → take {A = A} k [] ≡ []
take-nil k = take_all k [] (omega arith)

-- A list with no room left takes nothing.
take-full :
    (r : PathSegments) (ps : List Bytes)
    → length r ≤ max_segments
    → has_room r ≡ false
    → r ≡ r ++ take (max_segments - length r) ps
take-full r ps h full =
    let e : max_segments - length r ≡ 0 = ground arith in rw e (sym (append-nil r))

length-add_part :
    (c : ℕ) (p : Bytes) (r : PathSegments) → length (r ++ (c ∷ p) ∷ []) ≡ suc (length r)
length-add_part c p r = omega (arith, length-append r ((c ∷ p) ∷ []))

fold-parts :
    (ps : List Bytes) (r : PathSegments)
    → length r ≤ max_segments
    → fold_pieces b'/' has_room add_part ps r ≡ r ++ take (max_segments - length r) (nonempty ps)
unfolding add_part
fold-parts [] r h = rw take-nil (sym (append-nil r))
fold-parts ([] ∷ ps) r h = elim (Bool-cases (has_room r)) [
  | inl room ↦ rw room (fold-parts ps r h)
  | inr full ↦ rw full (take-full r (nonempty ps) h full)
]
fold-parts ((c ∷ p) ∷ ps) r h = elim (Bool-cases (has_room r)) [
  | inl room ↦
      let lt : length r < max_segments = ground arith in
      rw (
        room,
        fold-parts ps (r ++ (c ∷ p) ∷ []) (omega (arith, length-add_part c p r)),
        length-add_part c p r,
        take-sub_suc max_segments (length r) (c ∷ p) (nonempty ps) lt,
        append_assoc,
      )
  | inr full ↦ rw full (take-full r (nonempty ((c ∷ p) ∷ ps)) h full)
]

-- The splitter returns the first 16 of the parts between slashes that are not empty, for every path.
pub split_path_sv-parts : (path : Bytes) → split_path_sv path ≡ take max_segments (parts path)
unfolding split_path_sv
split_path_sv-parts path =
    pieces_loop-fold b'/' has_room add_part (λ s. unfold add_part in refl)
      (length (strip_slash path)) (strip_slash path) [] (omega arith)
    ∙ fold-parts (split b'/' (strip_slash path)) [] (omega arith)

abbrev pub segments : List Bytes → List RouteSegment
segments ps = map pattern_segment (nonempty ps)

add_segment-segments :
    (p : Bytes) (ps : List Bytes) (r : List RouteSegment)
    → add_segment p r ++ segments ps ≡ r ++ segments (p ∷ ps)
unfolding add_segment
add_segment-segments [] ps r = refl
add_segment-segments (c ∷ p) ps r = append_assoc r (pattern_segment (c ∷ p) ∷ []) (segments ps)

fold-segments :
    (ps : List Bytes) (r : List RouteSegment)
    → fold_pieces b'/' (λ _. true) add_segment ps r ≡ r ++ segments ps
fold-segments [] r = sym (append-nil r)
fold-segments (p ∷ ps) r = fold-segments ps (add_segment p r) ∙ add_segment-segments p ps r

-- A pattern has a segment for each of its parts, in order.
pub parse_pattern-parts :
    (pattern : Bytes) → parse_pattern pattern ≡ map pattern_segment (parts pattern)
unfolding parse_pattern
parse_pattern-parts pattern =
    pieces_loop-fold b'/' (λ _. true) add_segment (λ s. unfold add_segment in refl)
      (length (strip_slash pattern)) (strip_slash pattern) [] (omega arith)
    ∙ fold-segments (split b'/' (strip_slash pattern)) []

-- A part of a path or of a pattern: it has a byte, and no slash.
abbrev pub IsPart : Bytes → Type 0
IsPart p = (is_empty p ≡ false) × Lacks b'/' p

-- The parts written one after another, each behind a slash.
abbrev pub print_parts : List Bytes → Bytes
print_parts [] = []
print_parts (p ∷ ps) = b'/' ∷ (p ++ print_parts ps)

nonempty-print_parts :
    (p : Bytes) (ps : List Bytes)
    → IsPart p
    → All IsPart ps
    → nonempty (split b'/' (p ++ print_parts ps)) ≡ p ∷ ps
nonempty-print_parts p [] (e, h) hs = rw (append-nil p, split-only b'/' p h, e)
nonempty-print_parts p (q ∷ ps) (e, h) (k, ks) =
    rw (split-append b'/' p (q ++ print_parts ps) h, e, nonempty-print_parts q ps k ks)

pub parts-print : (ps : List Bytes) → All IsPart ps → parts (print_parts ps) ≡ ps
parts-print [] h = unfold split in refl
parts-print (p ∷ ps) (k, ks) = nonempty-print_parts p ps k ks
