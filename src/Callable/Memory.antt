-- ===== src/Callable/Memory.antt =====
-- A store that has something or nothing under each number, and a family with one value changed.
use lundicpp.Base.{
  ℕ, ◌≡◌, ◌≢◌, ◌⊎◌, refl, sym, ap, ◌∙◌, Option, ◌==◌, if◌then◌else◌, arith, Bool-cases, inl, inr,
}

abbrev pub Store {ℓ} : Type ℓ → Type ℓ
Store A = ℕ → Option A

module _ {ℓ} {A : Type ℓ} where
  abbrev pub set : ℕ → A → (ℕ → A) → ℕ → A
  set x o s y = if y == x then o else s y

  -- What holds of the new value, and of the others.
  pub set_cases {κ} :
      (P : A → Type κ) (x y : ℕ) (o : A) (s : ℕ → A)
      → (y ≡ x → P o)
      → (y ≢ x → P (s y))
      → P (set x o s y)
  set_cases P x y o s here away = elim (Bool-cases (y == x)) [
    | inl e ↦ rw e (here (ground (arith, e)))
    | inr e ↦ rw e (away (λ same. ground (arith, e, same)))
  ]

  -- Where a value after the change comes from.
  pub set_from :
      (x y : ℕ) (o c : A) (s : ℕ → A)
      → set x o s y ≡ c
      → ((y ≡ x) × (o ≡ c)) ⊎ ((y ≢ x) × (s y ≡ c))
  set_from x y o c s =
      set_cases (λ t. t ≡ c → ((y ≡ x) × (o ≡ c)) ⊎ ((y ≢ x) × (s y ≡ c))) x y o s
        (λ here e. inl (here, e)) (λ away e. inr (away, e))

  pub set_here : (x : ℕ) (o : A) (s : ℕ → A) → set x o s x ≡ o
  set_here x o s = set_cases (λ t. t ≡ o) x x o s (λ _. refl) (λ away. absurd (away refl))

  pub set_away : (x y : ℕ) (o : A) (s : ℕ → A) → y ≢ x → set x o s y ≡ s y
  set_away x y o s h = set_cases (λ t. t ≡ s y) x y o s (λ here. absurd (h here)) (λ _. refl)

  -- The last change of a number counts.
  pub set-set : (x y : ℕ) (o o' : A) (s : ℕ → A) → set x o (set x o' s) y ≡ set x o s y
  set-set x y o o' s =
      set_cases (λ t. t ≡ set x o s y) x y o (set x o' s)
        (λ here. sym (ap (set x o s) here ∙ set_here x o s))
        (λ away. set_away x y o' s away ∙ sym (set_away x y o s away))

  -- A change to the value that is there.
  pub set_same : (x y : ℕ) (o : A) (s : ℕ → A) → s x ≡ o → set x o s y ≡ s y
  set_same x y o s e = set_cases (λ t. t ≡ s y) x y o s (λ here. sym (ap s here ∙ e)) (λ _. refl)

  pub set_agree :
      (x y : ℕ) (o : A) (s t : ℕ → A) → ((z : ℕ) → s z ≡ t z) → set x o s y ≡ set x o t y
  set_agree x y o s t same = elim (Bool-cases (y == x)) [
    | inl e ↦ rw e refl
    | inr e ↦ rw e (same y)
  ]

  pub set_over :
      (x y z : ℕ) (o e c : A) (s : ℕ → A) → set x o (set y e (set x c s)) z ≡ set x o (set y e s) z
  set_over x y z o e c s = elim (Bool-cases (z == x)) [ inl h ↦ rw h refl | inr h ↦ rw h refl ]

pub set_map {ℓ κ} :
    {A : Type ℓ} {B : Type κ} (f : A → B) (x z : ℕ) (o : A) (s : ℕ → A)
    → f (set x o s z) ≡ set x (f o) (λ y. f (s y)) z
set_map f x z o s = elim (Bool-cases (z == x)) [ inl h ↦ rw h refl | inr h ↦ rw h refl ]
