-- ===== src/Callable/Lifetimes.antt =====
-- Whole runs of a program over its objects.
use lundicpp.Base.{ℕ, ◌≡◌, refl, List, [], ◌∷◌, Option, none, some, inl, inr, Option-cases}
use lundicpp.Callable.{Program, Operation, exec}
use lundicpp.Callable.Ownership.{IsOwned}
use lundicpp.Callable.Meaning.{IsAllowed}
use lundicpp.Callable.Refines.{exec-refines}
use mathlib.Core.Path.{subst}

-- Before the first object.
abbrev pub no_objects {ℓ} : {V : Type ℓ} → Program V
no_objects = record { objects = λ x. none; heap = λ a. none }

pub no_objects-IsOwned {ℓ} : {V : Type ℓ} → IsOwned (no_objects {V = V})
no_objects-IsOwned = record {
  sound = λ x. inl refl;
  single = λ x y k j a e e'. absurd (cc);
  no_leak = λ a c e. absurd (cc);
}

module _ {ℓ} {V A R : Type ℓ} (run : ℕ → V → A → V × R) where
  -- Allowed operations one after the other, with the results of the calls.
  pub data Runs : Program V → List (Operation V A) → List (Option R) → Program V → Type ℓ where
    stops : {p : Program V} → Runs p [] [] p
    goes :
        {p p' q : Program V} {op : Operation V A} {ops : List (Operation V A)} {r : Option R}
        {rs : List (Option R)}
        → IsAllowed p op
        → exec run op p ≡ some (r, p')
        → Runs p' ops rs q
        → Runs p (op ∷ ops) (r ∷ rs) q

  Runs-IsOwned :
      (p q : Program V) (ops : List (Operation V A)) (rs : List (Option R))
      → IsOwned p
      → Runs p ops rs q
      → IsOwned q
  Runs-IsOwned p q [] rs h stops = h
  Runs-IsOwned p q (op ∷ ops) rs h (goes {p' = p'} allowed e later) =
      let (p1, e1, shows) = exec-refines run op p h allowed in
      let same : p1 ≡ p' = cc in Runs-IsOwned p' q ops _ (subst IsOwned same shows.owned) later

  -- However a program makes, moves, assigns, calls and ends its objects, when none is left every callable
  -- has been deleted.
  pub Runs-no_leak :
      (q : Program V) (ops : List (Operation V A)) (rs : List (Option R))
      → Runs no_objects ops rs q
      → ((x : ℕ) → q.objects x ≡ none)
      → (a : ℕ) → q.heap a ≡ none
  Runs-no_leak q ops rs runs all_gone a =
      let h = Runs-IsOwned no_objects q ops rs no_objects-IsOwned runs in
      elim (Option-cases (q.heap a)) [
        | inl e ↦ e
        | inr (c, e) ↦ let (x, k, is) = h.no_leak a c e in let gone_too = all_gone x in absurd (cc)
      ]
