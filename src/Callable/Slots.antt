-- ===== src/Callable/Slots.antt =====
-- What an object is to the one who uses it: gone, vacant, or the holder of a callable that nothing else
-- can reach. Addresses play no part.
use lundicpp.Base.{ℕ, ◌≡◌, ◌≢◌, refl, sym, ap, ◌∙◌, Option, none, some, inl, inr}
use lundicpp.Callable.{HandlerFn, owner, Program}
use lundicpp.Callable.Memory.{Store, set, set_away, set_here, set_cases, set_map}
use lundicpp.Callable.Ownership.{
  IsSound, IsOwned, OwnsNone, owner_cell, IsOwned-agree, set-IsOwned, release-IsOwned,
  acquire-IsOwned,
}

pub data Slot {ℓ} (V : Type ℓ) : Type ℓ where
  gone vacant : Slot V
  holding : ℕ → V → Slot V

module _ {ℓ} {V : Type ℓ} where
  abbrev pub held : Option (ℕ × V) → Slot V
  held none = vacant
  held (some (k, v)) = holding k v

  abbrev pub slot : Store (ℕ × V) → Option HandlerFn → Slot V
  slot heap none = gone
  slot heap (some f) = elim f.data_ptr [ none ↦ vacant | some a ↦ held (heap a) ]

  abbrev pub view : Program V → ℕ → Slot V
  view p x = slot p.heap (p.objects x)

  -- The program owns its callables, and its objects are these to their users.
  pub record Shows (p : Program V) (s : ℕ → Slot V) : Type ℓ where
    pub owned : IsOwned p
    pub shown : (z : ℕ) → view p z ≡ s z

  pub Shows-agree :
      (p q : Program V) (s t : ℕ → Slot V)
      → ((x : ℕ) → p.objects x ≡ q.objects x)
      → ((a : ℕ) → p.heap a ≡ q.heap a)
      → ((z : ℕ) → s z ≡ t z)
      → Shows p s
      → Shows q t
  Shows-agree p q s t same_objects same_heap same h = record {
    owned = IsOwned-agree p q same_objects same_heap h.owned;
    shown = λ z. sym (same_view z) ∙ (h.shown z ∙ same z);
  }
    where
      other_heap : (o : Option HandlerFn) → slot p.heap o ≡ slot q.heap o
      other_heap none = refl
      other_heap (some f) =
          elim f.data_ptr
            as (λ (d : Option ℕ).
              elim d [ none ↦ vacant | some a ↦ held (p.heap a) ]
              ≡ elim d [ none ↦ vacant | some a ↦ held (q.heap a) ]) [
                | none ↦ refl
                | some a ↦ ap held (same_heap a)
              ]

      same_view : (z : ℕ) → view p z ≡ view q z
      same_view z = ap (slot p.heap) (same_objects z) ∙ other_heap (q.objects z)

  pub set-Shows :
      (p : Program V) (x : ℕ) (o : Option HandlerFn)
      → OwnsNone (p.objects x)
      → OwnsNone o
      → IsOwned p
      → Shows (record p { objects = set x o p.objects }) (set x (slot p.heap o) (view p))
  set-Shows p x o free blank h = record {
    owned = set-IsOwned p x o free blank h;
    shown = λ z. set_map (slot p.heap) x z o p.objects;
  }

  -- Where one object and the heap change, the others show the same if their cells do not.
  changed :
      (p : Program V) (heap : Store (ℕ × V)) (x z : ℕ) (o : Option HandlerFn) (t : Slot V)
      → slot heap o ≡ t
      → (z ≢ x → slot heap (p.objects z) ≡ view p z)
      → slot heap (set x o p.objects z) ≡ set x t (view p) z
  changed p heap x z o t here away =
      set_cases (λ u. slot heap (set x o p.objects z) ≡ u) x z t (view p)
        (λ at.
          ap (λ y. slot heap (set x o p.objects y)) at
          ∙ (ap (slot heap) (set_here x o p.objects) ∙ here))
        (λ off. ap (slot heap) (set_away x z o p.objects off) ∙ away off)

  -- A cell that an object does not own may change.
  unmoved :
      (heap : Store (ℕ × V)) (a : ℕ) (c : Option (ℕ × V)) (o : Option HandlerFn)
      → IsSound heap o
      → ((j : ℕ) → o ≢ some (owner j a))
      → slot (set a c heap) o ≡ slot heap o
  unmoved heap a c o (inl e) other = rw e refl
  unmoved heap a c o (inr (inl e)) other = rw e refl
  unmoved heap a c o (inr (inr (j, b, v, e, cell))) other =
      rw e (ap held (set_away a b c heap (λ at. other j (e ∙ ap (λ i. some (owner j i)) at))))

  pub release-Shows :
      (p : Program V) (x k a : ℕ) (o : Option HandlerFn) (t : Slot V)
      → p.objects x ≡ some (owner k a)
      → OwnsNone o
      → slot (set a none p.heap) o ≡ t
      → IsOwned p
      → Shows (record { objects = set x o p.objects; heap = set a none p.heap }) (set x t (view p))
  release-Shows p x k a o t own blank is h = record {
    owned = release-IsOwned p x k a o own blank h;
    shown = λ z. changed p (set a none p.heap) x z o t is (λ off.
        unmoved p.heap a none (p.objects z) (h.sound z) (λ j e. off (h.single z x j k a e own)));
  }

  pub acquire-Shows :
      (p : Program V) (x k a : ℕ) (v : V)
      → OwnsNone (p.objects x)
      → p.heap a ≡ none
      → IsOwned p
      → Shows
          (record {
            objects = set x (some (owner k a)) p.objects;
            heap = set a (some (k, v)) p.heap;
          })
          (set x (holding k v) (view p))
  acquire-Shows p x k a v free nothing h = record {
    owned = acquire-IsOwned p x k a v free nothing h;
    shown = λ z.
        changed p (set a (some (k, v)) p.heap) x z (some (owner k a)) (holding k v)
          (ap held (set_here a (some (k, v)) p.heap))
          (λ off.
            unmoved p.heap a (some (k, v)) (p.objects z) (h.sound z)
              (λ j e. let (u, cell) = owner_cell p.heap (p.objects z) j a (h.sound z) e in cc));
  }
