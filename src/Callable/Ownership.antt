-- ===== src/Callable/Ownership.antt =====
-- Who owns the callables: what holds of the objects and the heap between two steps, and the changes of
-- which the steps are made.
use lundicpp.Base.{ℕ, ◌≡◌, ◌≢◌, ◌⊎◌, refl, sym, ap, ◌∙◌, Option, none, some, inl, inr}
use lundicpp.Callable.{HandlerFn, empty_fn, owner, Program}
use lundicpp.Callable.Memory.{Store, set, set_here, set_away, set_cases, set_from}

-- An object that owns nothing.
abbrev pub OwnsNone : Option HandlerFn → Type 0
OwnsNone o = (o ≡ none) ⊎ (o ≡ some empty_fn)

pub no_owner : (o : Option HandlerFn) (k a : ℕ) → OwnsNone o → o ≢ some (owner k a)
no_owner o k a (inl e) h = cc
no_owner o k a (inr e) h = cc

module _ {ℓ} {V : Type ℓ} where
  -- An object is not alive, holds nothing, or owns a callable of the type that it knows.
  abbrev pub IsSound : Store (ℕ × V) → Option HandlerFn → Type ℓ
  IsSound heap o =
      (o ≡ none)
      ⊎ ((o ≡ some empty_fn)
          ⊎ ((k : ℕ) × (a : ℕ) × (v : V) × (o ≡ some (owner k a)) × (heap a ≡ some (k, v))))

  -- Every callable that was allocated and not deleted has exactly one owner.
  pub record IsOwned (p : Program V) : Type ℓ where
    pub sound : (x : ℕ) → IsSound p.heap (p.objects x)
    pub single :
        (x y k j a : ℕ) → p.objects x ≡ some (owner k a) → p.objects y ≡ some (owner j a) → x ≡ y
    pub no_leak :
        (a : ℕ) (c : ℕ × V)
        → p.heap a ≡ some c
        → (x : ℕ) × (k : ℕ) × (p.objects x ≡ some (owner k a))

  -- What an owner knows of its cell.
  pub owner_cell :
      (heap : Store (ℕ × V)) (o : Option HandlerFn) (k a : ℕ)
      → IsSound heap o
      → o ≡ some (owner k a)
      → (v : V) × (heap a ≡ some (k, v))
  owner_cell heap o k a (inl e) h = absurd (cc)
  owner_cell heap o k a (inr (inl e)) h = absurd (cc)
  owner_cell heap o k a (inr (inr (j, b, v, e, cell))) h =
      let same_type : j ≡ k = cc in
      let same_cell : b ≡ a = cc in (v, rw (← same_cell, ← same_type) cell)

  pub IsOwned-agree :
      (p q : Program V)
      → ((x : ℕ) → p.objects x ≡ q.objects x)
      → ((a : ℕ) → p.heap a ≡ q.heap a)
      → IsOwned p
      → IsOwned q
  IsOwned-agree p q same_objects same_heap h = record {
    sound = λ x. elim (h.sound x) [
      | inl e ↦ inl (sym (same_objects x) ∙ e)
      | inr (inl e) ↦ inr (inl (sym (same_objects x) ∙ e))
      | inr (inr (k, a, v, e, cell)) ↦
          inr (inr (k, a, v, sym (same_objects x) ∙ e, sym (same_heap a) ∙ cell))
    ];
    single = λ x y k j a e e'. h.single x y k j a (same_objects x ∙ e) (same_objects y ∙ e');
    no_leak = λ a c e.
        let (x, k, is) = h.no_leak a c (same_heap a ∙ e) in (x, k, sym (same_objects x) ∙ is);
  }

  blank-IsSound : (heap : Store (ℕ × V)) (o : Option HandlerFn) → OwnsNone o → IsSound heap o
  blank-IsSound heap o (inl e) = inl e
  blank-IsSound heap o (inr e) = inr (inl e)

  -- An object that owns nothing is set to one that owns nothing.
  pub set-IsOwned :
      (p : Program V) (x : ℕ) (o : Option HandlerFn)
      → OwnsNone (p.objects x)
      → OwnsNone o
      → IsOwned p
      → IsOwned (record p { objects = set x o p.objects })
  set-IsOwned p x o free blank h = record {
    sound = λ y.
        set_cases (IsSound p.heap) x y o p.objects (λ _. blank-IsSound p.heap o blank)
          (λ _. h.sound y);
    single = λ y z k j a e e'. h.single y z k j a (stays y k a e) (stays z j a e');
    no_leak = λ a c e.
        let (y, k, is) = h.no_leak a c e in
        (
          y,
          k,
          set_away x y o p.objects (λ here. no_owner _ k a free (ap p.objects (sym here) ∙ is))
              ∙ is,
        );
  }
    where
      stays : (y k a : ℕ) → set x o p.objects y ≡ some (owner k a) → p.objects y ≡ some (owner k a)
      stays y k a e = elim (set_from x y o (some (owner k a)) p.objects e) [
        | inl (_, is) ↦ absurd (no_owner o k a blank is)
        | inr (_, is) ↦ is
      ]

  -- An owner's callable is deleted.
  pub release-IsOwned :
      (p : Program V) (x k a : ℕ) (o : Option HandlerFn)
      → p.objects x ≡ some (owner k a)
      → OwnsNone o
      → IsOwned p
      → IsOwned (record { objects = set x o p.objects; heap = set a none p.heap })
  release-IsOwned p x k a o own blank h = record {
    sound = λ y.
        set_cases (IsSound (set a none p.heap)) x y o p.objects
          (λ _. blank-IsSound (set a none p.heap) o blank) (λ away. other y away (h.sound y));
    single = λ y z j i b e e'. h.single y z j i b (stays y j b e).1 (stays z i b e').1;
    no_leak = λ b c e. elim (set_from a b none (some c) p.heap e) [
      | inl (_, is) ↦ absurd (cc)
      | inr (away, there) ↦
          let (y, j, is) = h.no_leak b c there in
          (y, j, set_away x y o p.objects (λ here. away (same_cell y j b here is)) ∙ is)
    ];
  }
    where
      same_cell : (y j b : ℕ) → y ≡ x → p.objects y ≡ some (owner j b) → b ≡ a
      same_cell y j b here is =
          let both : some (owner j b) ≡ some (owner k a) = sym is ∙ (ap p.objects here ∙ own) in cc

      stays :
          (y j b : ℕ)
          → set x o p.objects y ≡ some (owner j b)
          → (y ≢ x) × (p.objects y ≡ some (owner j b))
      stays y j b e = elim (set_from x y o (some (owner j b)) p.objects e) [
        | inl (_, is) ↦ absurd (no_owner o j b blank is)
        | inr found ↦ found
      ]

      other :
          (y : ℕ) → y ≢ x → IsSound p.heap (p.objects y) → IsSound (set a none p.heap) (p.objects y)
      other y away (inl e) = inl e
      other y away (inr (inl e)) = inr (inl e)
      other y away (inr (inr (j, b, v, e, cell))) = inr (
          inr (
            j,
            b,
            v,
            e,
            set_away a b none p.heap
                  (λ at. away (h.single y x j k b e (own ∙ ap (λ i. some (owner k i)) (sym at))))
                ∙ cell,
          ))

  -- An object that owned nothing gets a callable at an address where nothing was.
  pub acquire-IsOwned :
      (p : Program V) (x k a : ℕ) (v : V)
      → OwnsNone (p.objects x)
      → p.heap a ≡ none
      → IsOwned p
      → IsOwned (record {
        objects = set x (some (owner k a)) p.objects;
        heap = set a (some (k, v)) p.heap;
      })
  acquire-IsOwned p x k a v free nothing h = record {
    sound = λ y.
        set_cases (IsSound (set a (some (k, v)) p.heap)) x y (some (owner k a)) p.objects
          (λ _. inr (inr (k, a, v, refl, set_here a (some (k, v)) p.heap)))
          (λ _. other y (h.sound y));
    single = λ y z j i b e e'.
        one y z j i b (set_from x y (some (owner k a)) (some (owner j b)) p.objects e)
          (set_from x z (some (owner k a)) (some (owner i b)) p.objects e');
    no_leak = λ b c e. elim (set_from a b (some (k, v)) (some c) p.heap e) [
      | inl (at, is) ↦
          (x, k, set_here x (some (owner k a)) p.objects ∙ ap (λ i. some (owner k i)) (sym at))
      | inr (away, there) ↦
          let (y, j, is) = h.no_leak b c there in
          (
            y,
            j,
            set_away x y (some (owner k a)) p.objects
                  (λ here. no_owner _ j b free (ap p.objects (sym here) ∙ is))
                ∙ is,
          )
    ];
  }
    where
      other :
          (y : ℕ)
          → IsSound p.heap (p.objects y)
          → IsSound (set a (some (k, v)) p.heap) (p.objects y)
      other y (inl e) = inl e
      other y (inr (inl e)) = inr (inl e)
      other y (inr (inr (j, b, u, e, cell))) =
          inr (inr (j, b, u, e, set_away a b (some (k, v)) p.heap (λ at. absurd (cc)) ∙ cell))

      fresh : (z i b : ℕ) → b ≡ a → p.objects z ≢ some (owner i b)
      fresh z i b at e =
          let (u, cell) = owner_cell p.heap (p.objects z) i b (h.sound z) e in
          let here : p.heap b ≡ none = ap p.heap at ∙ nothing in cc

      New : ℕ → ℕ → ℕ → Type 0
      New y j b =
          ((y ≡ x) × (some (owner k a) ≡ some (owner j b)))
          ⊎ ((y ≢ x) × (p.objects y ≡ some (owner j b)))

      one : (y z j i b : ℕ) → New y j b → New z i b → y ≡ z
      one y z j i b (inl (here, _)) (inl (there, _)) = here ∙ sym there
      one y z j i b (inl (here, is)) (inr (_, e)) = absurd (fresh z i b (cc) e)
      one y z j i b (inr (_, e)) (inl (there, is)) = absurd (fresh y j b (cc) e)
      one y z j i b (inr (_, e)) (inr (_, e')) = h.single y z j i b e e'
