-- ===== src/Server/Workers.antt =====
-- The worker that `accept_loop` takes for a new connection.
use lundicpp.Base.{
  ℕ, zero, suc, ◌≤◌, ◌<◌, ◌≡◌, refl, List, [], ◌∷◌, ◌++◌, some, arith, ltb, length, take, get_elem?,
  length-append, get_elem?-left, get_elem?-last, append_assoc, append-nil, Bool-cases, inl, inr,
}
use lundicpp.Base.Find.{All, All-append, take-length_append, take_prefix}
use lundicpp.Server.{least_loop, least_loaded}
use lundicpp.Server.Routes.{worker_count}
use lundicpp.Base.Int.{ℤ, pos, negsuc}

-- `b` is the first position of the least count `v`.
pub record IsFirstLeast (xs : List ℕ) (b v : ℕ) : Type 0 where
  pub inside : b < length xs
  pub there : get_elem? xs b ≡ some v
  pub least : All (λ x. v ≤ x) xs
  pub before : All (λ x. v < x) (take b xs)

pub All-weaken : {P Q : ℕ → Type 0} → ((x : ℕ) → P x → Q x) → (xs : List ℕ) → All P xs → All Q xs
All-weaken f [] h = tt
All-weaken f (x ∷ xs) (p, h) = (f x p, All-weaken f xs h)

module _ (xs : List ℕ) (b v c : ℕ) (h : IsFirstLeast xs b v) where
  -- A smaller count behind the others is the new least.
  replaced : c < v → IsFirstLeast (xs ++ c ∷ []) (length xs) c
  replaced lt = record {
    inside = omega (arith, length-append xs (c ∷ []));
    there = get_elem?-last xs c;
    least =
        All-append _ xs (c ∷ []) (All-weaken (λ x p. omega (arith, p, lt)) xs h.least)
          (omega arith, tt);
    before =
        rw (take-length_append xs (c ∷ [])) (All-weaken (λ x p. omega (arith, p, lt)) xs h.least);
  }

  kept : v ≤ c → IsFirstLeast (xs ++ c ∷ []) b v
  kept le = record {
    inside = omega (arith, h.inside, length-append xs (c ∷ []));
    there = get_elem?-left xs (c ∷ []) b h.there;
    least = All-append _ xs (c ∷ []) h.least (le, tt);
    before = rw (take_prefix b xs (c ∷ []) (omega (arith, h.inside))) h.before;
  }

loop-IsFirstLeast :
    (rest xs : List ℕ) (b v i : ℕ)
    → i ≡ length xs
    → IsFirstLeast xs b v
    → (u : ℕ) × IsFirstLeast (xs ++ rest) (least_loop i b v rest) u
unfolding least_loop
loop-IsFirstLeast [] xs b v i e h = (v, rw (append-nil xs) h)
loop-IsFirstLeast (c ∷ rest) xs b v i e h =
    let longer : suc i ≡ length (xs ++ c ∷ []) = omega (arith, length-append xs (c ∷ [])) in
    rw (← append_assoc xs (c ∷ []) rest) (elim (Bool-cases (ltb c v)) [
      | inl lt ↦
          rw (lt, e)
            (loop-IsFirstLeast rest (xs ++ c ∷ []) (length xs) c (suc (length xs))
              (omega (arith, longer, e)) (replaced xs b v c h (ground arith)))
      | inr ge ↦ rw ge (
          loop-IsFirstLeast rest (xs ++ c ∷ []) b v (suc i) longer (kept xs b v c h (ground arith)))
    ])

-- The worker exists, its count is the least of all, and every worker before it has a greater one.
pub least_loaded-IsFirstLeast :
    (first : ℕ) (counts : List ℕ)
    → (v : ℕ) × IsFirstLeast (first ∷ counts) (least_loaded first counts) v
unfolding least_loaded
least_loaded-IsFirstLeast first counts =
    loop-IsFirstLeast counts (first ∷ []) 0 first 1 refl
      (record { inside = omega arith; there = refl; least = (omega arith, tt); before = tt })

-- There is a worker whatever the options and the machine say.
pub worker_count-pos : (threads : ℤ) (hardware : ℕ) → 0 < worker_count threads hardware
unfolding worker_count
worker_count-pos (pos zero) hardware = omega arith
worker_count-pos (pos (suc n)) hardware = omega arith
worker_count-pos (negsuc n) hardware = omega arith
