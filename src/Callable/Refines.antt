-- ===== src/Callable/Refines.antt =====
-- Each operation of `handler_fn` does to the objects what moving a callable by value would do.
use lundicpp.Base.{
  ℕ, ◌≡◌, ◌≢◌, refl, sym, ap, ◌∙◌, none, some, true, ◌==◌, if◌then◌else◌, arith, inl, inr,
  Bool-cases,
}
use lundicpp.Callable.{
  HandlerFn, empty_fn, owner, is_callable, Program, Operation, default_construct, construct,
  move_construct, move_assign, call, destruct, free_cell, destroy_data, invoke_cell, on_call, ended,
  on_destruct, on_move, assigned, on_assign, exec,
}
use lundicpp.Callable.Memory.{
  Store, set, set_away, set_here, set-set, set_same, set_over, set_agree,
}
use lundicpp.Callable.Ownership.{IsOwned}
use lundicpp.Callable.Slots.{
  gone, vacant, holding, slot, held, view, Shows, Shows-agree, set-Shows, release-Shows,
  acquire-Shows,
}
use lundicpp.Callable.Meaning.{
  IsAllowed, new_object, new_cell, new_from, both_alive, tested, alive, Implements,
}
use lundicpp.Callable.Moves.{move-Shows}

module _ {ℓ} {V A R : Type ℓ} (run : ℕ → V → A → V × R) where
  after_owner :
      (p : Program V) (x y k a : ℕ) (g : HandlerFn)
      → x ≢ y
      → p.objects x ≡ some (owner k a)
      → p.objects y ≡ some g
      → IsOwned p
      → Shows
          (record {
            objects = set x (some g) (set y (some empty_fn) p.objects);
            heap = set a none p.heap;
          })
          (set x (view p y) (set y vacant (view p)))
  after_owner p x y k a g apart o e' h =
      let p1 : Program V = record {
        objects = set x (some empty_fn) p.objects;
        heap = set a none p.heap;
      } in
      let first : Shows p1 (set x vacant (view p)) =
        release-Shows p x k a (some empty_fn) vacant o (inr refl) refl h in
      let away : y ≢ x = λ at. apart (sym at) in
      let second =
        move-Shows p1 x y g apart (set_away x y (some empty_fn) p.objects away ∙ e')
          (inr (set_here x (some empty_fn) p.objects)) first.owned in
      let same_source : view p1 y ≡ view p y = first.shown y ∙ set_away x y vacant (view p) away in
      Shows-agree _ _ _ _ (λ z. set_over x y z (some g) (some empty_fn) (some empty_fn) p.objects)
        (λ b. refl)
        (λ z.
          ap (λ t. set x t (set y vacant (view p1)) z) same_source
          ∙ (set_agree x z (view p y) _ _ (λ u. set_agree y u vacant _ _ first.shown)
              ∙ set_over x y z (view p y) vacant vacant (view p)))
        second

  destroy_own :
      (heap : Store (ℕ × V)) (k a : ℕ) (v : V)
      → heap a ≡ some (k, v)
      → destroy_data (owner k a) heap ≡ some (set a none heap)
  unfolding destroy_data
  destroy_own heap k a v e = ap (free_cell k a heap) e ∙ ground arith

  on_destruct-Shows :
      (p : Program V) (x : ℕ) (f : HandlerFn)
      → p.objects x ≡ some f
      → IsOwned p
      → Implements run (destruct x) p
  unfolding exec
  on_destruct-Shows p x f e h = elim (h.sound x) [
    | inl o ↦ absurd (cc)
    | inr (inl o) ↦ (
      record p { objects = set x none p.objects },
      ap (λ t. on_destruct x t p) o,
      set-Shows p x none (inr o) (inl refl) h,
    )
    | inr (inr (k, a, v, o, cell)) ↦ (
      record { objects = set x none p.objects; heap = set a none p.heap },
      ap (λ t. on_destruct x t p) o ∙ ap (ended x p) (destroy_own p.heap k a v cell),
      release-Shows p x k a none gone o (inl refl) refl h,
    )
  ]

  call_owner :
      (p : Program V) (x : ℕ) (arg : A) (k a : ℕ) (v : V)
      → p.objects x ≡ some (owner k a)
      → p.heap a ≡ some (k, v)
      → IsOwned p
      → Implements run (call x arg) p
  unfolding exec
  call_owner p x arg k a v o cell h =
      let held_there : view p x ≡ holding k v = ap (slot p.heap) o ∙ ap held cell in
      let v' = (run k v arg).0 in
      let p1 : Program V = record {
        objects = set x (some empty_fn) p.objects;
        heap = set a none p.heap;
      } in
      let first : Shows p1 (set x vacant (view p)) =
        release-Shows p x k a (some empty_fn) vacant o (inr refl) refl h in
      let second =
        acquire-Shows p1 x k a v' (inr (set_here x (some empty_fn) p.objects))
          (set_here a none p.heap) first.owned in
      rw held_there (
        record p { heap = set a (some (k, v')) p.heap },
        ap (λ t. on_call run t arg p) o ∙ (ap (invoke_cell run k a arg p) cell ∙ ground arith),
        Shows-agree _ _ _ _
            (λ z.
              set-set x z (some (owner k a)) (some empty_fn) p.objects
              ∙ set_same x z (some (owner k a)) p.objects o)
            (λ b. set-set a b (some (k, v')) none p.heap)
            (λ z.
              set_agree x z (holding k v') _ _ first.shown
              ∙ set-set x z (holding k v') vacant (view p))
            second,
      )

  on_call-Shows :
      (p : Program V) (x : ℕ) (arg : A) (f : HandlerFn)
      → p.objects x ≡ some f
      → is_callable f ≡ true
      → IsOwned p
      → Implements run (call x arg) p
  unfolding exec
  on_call-Shows p x arg f e some_callable h = elim (h.sound x) [
    | inl o ↦ absurd (cc)
    | inr (inl o) ↦ let is : f ≡ empty_fn = cc in let blank = ap is_callable is in absurd (cc)
    | inr (inr (k, a, v, o, cell)) ↦ call_owner p x arg k a v o cell h
  ]

  -- The callable of the target is deleted before the source's takes its place.
  apart_Shows :
      (p : Program V) (x y : ℕ) (f g : HandlerFn)
      → x ≢ y
      → p.objects x ≡ some f
      → p.objects y ≡ some g
      → IsOwned p
      → (heap : Store (ℕ × V)) × (destroy_data f p.heap ≡ some heap)
        × Shows
            (record { objects = set x (some g) (set y (some empty_fn) p.objects); heap = heap })
            (set x (view p y) (set y vacant (view p)))
  unfolding destroy_data
  apart_Shows p x y f g apart e e' h = elim (h.sound x) [
    | inl o ↦ absurd (cc)
    | inr (inl o) ↦
        let is : empty_fn ≡ f = cc in
        (p.heap, rw (← is) refl, move-Shows p x y g apart e' (inr o) h)
    | inr (inr (k, a, v, o, cell)) ↦
        let is : owner k a ≡ f = cc in
        (
          set a none p.heap,
          rw (← is) (destroy_own p.heap k a v cell),
          after_owner p x y k a g apart o e' h,
        )
  ]

  on_assign-Shows :
      (p : Program V) (x y : ℕ) (f g : HandlerFn)
      → p.objects x ≡ some f
      → p.objects y ≡ some g
      → IsOwned p
      → Implements run (move_assign x y) p
  unfolding exec
  on_assign-Shows p x y f g e e' h =
      let alive : on_assign x y (p.objects x) (p.objects y) p ≡ on_assign x y (some f) (some g) p =
        ap (λ t. on_assign x y t (p.objects y) p) e ∙ ap (λ t. on_assign x y (some f) t p) e' in
      elim (Bool-cases (x == y)) [
        | inl same ↦ rw same (
          p,
          alive
              ∙ ap (λ b. if b then some (none, p) else assigned x y g p (destroy_data f p.heap))
                  same,
          record { owned = h; shown = λ z. refl },
        )
        | inr other ↦
            let (heap, destroyed, shows) =
              apart_Shows p x y f g (λ at. ground (arith, at, other)) e e' h in
            rw other (
              record { objects = set x (some g) (set y (some empty_fn) p.objects); heap = heap },
              alive
                  ∙ (ap
                        (λ b.
                          if b then some (none, p) else assigned x y g p (destroy_data f p.heap))
                        other
                      ∙ ap (assigned x y g p) destroyed),
              shows,
            )
      ]

  -- An operation that is allowed ends without a fault: nothing is deleted twice or used after that, every
  -- callable has one owner still, and the objects are what the meaning of the operation says, with the
  -- result of a call.
  pub exec-refines :
      (op : Operation V A) (p : Program V) → IsOwned p → IsAllowed p op → Implements run op p
  unfolding exec
  exec-refines (default_construct x) p h (new_object e) = (
    record p { objects = set x (some empty_fn) p.objects },
    refl,
    set-Shows p x (some empty_fn) (inl e) (inr refl) h,
  )
  exec-refines (construct x a k v) p h (new_cell e nothing) = (
    record { objects = set x (some (owner k a)) p.objects; heap = set a (some (k, v)) p.heap },
    refl,
    acquire-Shows p x k a v (inl e) nothing h,
  )
  exec-refines (move_construct x y) p h (new_from {f = f} e e') = (
    record p { objects = set x (some f) (set y (some empty_fn) p.objects) },
    ap (λ t. on_move x y t p) e',
    move-Shows p x y f (λ at. let there = sym e ∙ ap p.objects at in cc) e' (inl e) h,
  )
  exec-refines (move_assign x y) p h (both_alive e e') = on_assign-Shows p x y _ _ e e' h
  exec-refines (call x arg) p h (tested e some_callable) = on_call-Shows p x arg _ e some_callable h
  exec-refines (destruct x) p h (alive e) = on_destruct-Shows p x _ e h
