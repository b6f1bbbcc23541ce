-- ===== src/Callable/Moves.antt =====
-- A move from one object to another that owns nothing.
use lundicpp.Base.{ℕ, ◌≡◌, ◌≢◌, refl, sym, ap, ◌∙◌, none, some, inl, inr}
use lundicpp.Callable.{HandlerFn, empty_fn, owner, Program}
use lundicpp.Callable.Memory.{set, set_away, set_here, set-set, set_same, set_agree}
use lundicpp.Callable.Ownership.{IsOwned, OwnsNone, owner_cell}
use lundicpp.Callable.Slots.{
  vacant, holding, slot, held, view, Shows, Shows-agree, set-Shows, release-Shows, acquire-Shows,
}

module _ {ℓ} {V : Type ℓ} where
  move_blank :
      (p : Program V) (x y : ℕ)
      → x ≢ y
      → p.objects y ≡ some empty_fn
      → OwnsNone (p.objects x)
      → IsOwned p
      → Shows
          (record p { objects = set x (some empty_fn) (set y (some empty_fn) p.objects) })
          (set x (view p y) (set y vacant (view p)))
  move_blank p x y apart from free h =
      let p1 : Program V = record p { objects = set y (some empty_fn) p.objects } in
      let first : Shows p1 (set y vacant (view p)) =
        set-Shows p y (some empty_fn) (inr from) (inr refl) h in
      let second =
        set-Shows p1 x (some empty_fn) (rw (set_away y x (some empty_fn) p.objects apart) free)
          (inr refl) first.owned in
      Shows-agree _ _ _ _ (λ z. refl) (λ a. refl)
        (λ z.
          set_agree x z vacant _ _ first.shown
          ∙ ap (λ t. set x t (set y vacant (view p)) z) (sym (ap (slot p.heap) from)))
        second

  move_owner :
      (p : Program V) (x y k a : ℕ)
      → x ≢ y
      → p.objects y ≡ some (owner k a)
      → OwnsNone (p.objects x)
      → IsOwned p
      → Shows
          (record p { objects = set x (some (owner k a)) (set y (some empty_fn) p.objects) })
          (set x (view p y) (set y vacant (view p)))
  move_owner p x y k a apart own free h =
      let (v, cell) = owner_cell p.heap (p.objects y) k a (h.sound y) own in
      let p1 : Program V = record {
        objects = set y (some empty_fn) p.objects;
        heap = set a none p.heap;
      } in
      let first : Shows p1 (set y vacant (view p)) =
        release-Shows p y k a (some empty_fn) vacant own (inr refl) refl h in
      let second =
        acquire-Shows p1 x k a v (rw (set_away y x (some empty_fn) p.objects apart) free)
          (set_here a none p.heap) first.owned in
      Shows-agree _ _ _ _ (λ z. refl)
        (λ b. set-set a b (some (k, v)) none p.heap ∙ set_same a b (some (k, v)) p.heap cell)
        (λ z.
          set_agree x z (holding k v) _ _ first.shown
          ∙ ap (λ t. set x t (set y vacant (view p)) z) (sym (ap (slot p.heap) own ∙ ap held cell)))
        second

  pub move-Shows :
      (p : Program V) (x y : ℕ) (f : HandlerFn)
      → x ≢ y
      → p.objects y ≡ some f
      → OwnsNone (p.objects x)
      → IsOwned p
      → Shows
          (record p { objects = set x (some f) (set y (some empty_fn) p.objects) })
          (set x (view p y) (set y vacant (view p)))
  move-Shows p x y f apart from free h = elim (h.sound y) [
    | inl e ↦ absurd (cc)
    | inr (inl e) ↦ let is : empty_fn ≡ f = cc in rw (← is) (move_blank p x y apart e free h)
    | inr (inr (k, a, v, e, cell)) ↦
        let is : owner k a ≡ f = cc in rw (← is) (move_owner p x y k a apart e free h)
  ]
