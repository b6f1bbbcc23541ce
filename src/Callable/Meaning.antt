-- ===== src/Callable/Meaning.antt =====
-- What C++ allows of the operations of `handler_fn`, and what they mean to their user.
use lundicpp.Base.{ℕ, ◌≡◌, Option, none, some, true, ◌==◌, if◌then◌else◌}
use lundicpp.Callable.{
  HandlerFn, is_callable, Program, Operation, default_construct, construct, move_construct,
  move_assign, call, destruct, exec,
}
use lundicpp.Callable.Memory.{set}
use lundicpp.Callable.Slots.{Slot, gone, vacant, holding, view, Shows}

module _ {ℓ} {V A : Type ℓ} where
  -- What C++ asks of the one who writes the operation, and `new` promises: a name is new, or its
  -- object alive, a call is behind a test of the object, and nothing is at a new address.
  pub data IsAllowed (p : Program V) : Operation V A → Type ℓ where
    new_object : {x : ℕ} → p.objects x ≡ none → IsAllowed p (default_construct x)
    new_cell :
        {x a k : ℕ} {v : V} → p.objects x ≡ none → p.heap a ≡ none → IsAllowed p (construct x a k v)
    new_from :
        {x y : ℕ} {f : HandlerFn}
        → p.objects x ≡ none
        → p.objects y ≡ some f
        → IsAllowed p (move_construct x y)
    both_alive :
        {x y : ℕ} {f g : HandlerFn}
        → p.objects x ≡ some f
        → p.objects y ≡ some g
        → IsAllowed p (move_assign x y)
    tested :
        {x : ℕ} {arg : A} {f : HandlerFn}
        → p.objects x ≡ some f
        → is_callable f ≡ true
        → IsAllowed p (call x arg)
    alive : {x : ℕ} {f : HandlerFn} → p.objects x ≡ some f → IsAllowed p (destruct x)

module _ {ℓ} {V A R : Type ℓ} (run : ℕ → V → A → V × R) where
  abbrev called : ℕ → A → Slot V → (ℕ → Slot V) → Option R × (ℕ → Slot V)
  called x arg gone s = (none, s)
  called x arg vacant s = (none, s)
  called x arg (holding k v) s = let (v', r) = run k v arg in (some r, set x (holding k v') s)

  -- The meaning of an operation: a move empties its source, an assignment to itself does nothing, and a
  -- call runs the callable that the object holds, and no other.
  abbrev pub meaning : Operation V A → (ℕ → Slot V) → Option R × (ℕ → Slot V)
  meaning (default_construct x) s = (none, set x vacant s)
  meaning (construct x a k v) s = (none, set x (holding k v) s)
  meaning (move_construct x y) s = (none, set x (s y) (set y vacant s))
  meaning (move_assign x y) s = (none, if x == y then s else set x (s y) (set y vacant s))
  meaning (call x arg) s = called x arg (s x) s
  meaning (destruct x) s = (none, set x gone s)

  abbrev pub Implements : Operation V A → Program V → Type ℓ
  Implements op p =
      (p' : Program V) × (exec run op p ≡ some ((meaning op (view p)).0, p'))
      × Shows p' (meaning op (view p)).1
