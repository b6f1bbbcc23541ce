-- ===== src/Callable.antt =====
-- core.hpp: `handler_fn`, the type-erased callable that owns what it calls, with the memory in which the
-- callables are.
pub mod Memory
pub mod Ownership
pub mod Slots
pub mod Meaning
pub mod Moves
pub mod Refines
pub mod Lifetimes
mod Examples
use lundicpp.Base.{ℕ, Bool, true, false, Option, none, some, ◌==◌, if◌then◌else◌}
use lundicpp.Callable.Memory.{Store, set}

-- The two function pointers are instances of the templates for the type of the callable, and given by
-- that type, a number; null is `none`.
pub record HandlerFn : Type 0 where
  pub invoke : Option ℕ
  pub data_ptr : Option ℕ
  pub destroy : Option ℕ

-- `handler_fn() = default`, and an object that was moved from.
abbrev pub empty_fn : HandlerFn
empty_fn = record { invoke = none; data_ptr = none; destroy = none }

-- What the constructor from a callable of type `k` sets, with the address of its copy.
abbrev pub owner : ℕ → ℕ → HandlerFn
owner k a = record { invoke = some k; data_ptr = some a; destroy = some k }

-- The objects that are alive, by their names, and the callables that were allocated and not deleted, by
-- their addresses, each with its type.
pub record Program {ℓ} (V : Type ℓ) : Type ℓ where
  pub objects : Store HandlerFn
  pub heap : Store (ℕ × V)

-- What a program does with objects: the five special members, `operator()`, and the end of an object.
pub data Operation {ℓ} (V A : Type ℓ) : Type ℓ where
  default_construct : ℕ → Operation V A
  construct : ℕ → ℕ → ℕ → V → Operation V A
  move_construct : ℕ → ℕ → Operation V A
  move_assign : ℕ → ℕ → Operation V A
  call : ℕ → A → Operation V A
  destruct : ℕ → Operation V A

-- `operator bool`.
abbrev pub is_callable : HandlerFn → Bool
is_callable f = elim f.invoke [ none ↦ false | some k ↦ true ]

-- A use of memory that was deleted, or of a callable of another type, is a fault (`none`).
module _ {ℓ} {V : Type ℓ} where
  -- `delete static_cast< DecayF* >( d )`, with what is at the address.
  unfoldable pub free_cell : ℕ → ℕ → Store (ℕ × V) → Option (ℕ × V) → Option (Store (ℕ × V))
  free_cell k a heap none = none
  free_cell k a heap (some (k', v)) = if k == k' then some (set a none heap) else none

  unfoldable pub delete_at : ℕ → Option ℕ → Store (ℕ × V) → Option (Store (ℕ × V))
  unfolding free_cell
  delete_at k none heap = some heap
  delete_at k (some a) heap = free_cell k a heap (heap a)

  -- `if( destroy_ ) destroy_( data_ )`.
  unfoldable pub destroy_data : HandlerFn → Store (ℕ × V) → Option (Store (ℕ × V))
  unfolding delete_at
  destroy_data f heap = elim f.destroy [ none ↦ some heap | some k ↦ delete_at k f.data_ptr heap ]

module _ {ℓ} {V R : Type ℓ} where
  -- `~handler_fn()`, behind the call of `destroy_`.
  unfoldable pub ended : ℕ → Program V → Option (Store (ℕ × V)) → Option (Option R × Program V)
  ended x p none = none
  ended x p (some heap) = some (none, record { objects = set x none p.objects; heap = heap })

  unfoldable pub on_destruct : ℕ → Option HandlerFn → Program V → Option (Option R × Program V)
  unfolding destroy_data ended
  on_destruct x none p = none
  on_destruct x (some f) p = ended x p (destroy_data f p.heap)

  -- `handler_fn( handler_fn&& o )`.
  unfoldable pub on_move : ℕ → ℕ → Option HandlerFn → Program V → Option (Option R × Program V)
  on_move x y none p = none
  on_move x y (some f) p =
      some (none, record p { objects = set x (some f) (set y (some empty_fn) p.objects) })

  -- `operator=( handler_fn&& o )` behind the call of `destroy_`, where `this != &o`.
  unfoldable pub assigned :
      ℕ → ℕ → HandlerFn → Program V → Option (Store (ℕ × V)) → Option (Option R × Program V)
  assigned x y g p none = none
  assigned x y g p (some heap) =
      some
        (none, record { objects = set x (some g) (set y (some empty_fn) p.objects); heap = heap })

  unfoldable pub on_assign :
      ℕ → ℕ → Option HandlerFn → Option HandlerFn → Program V → Option (Option R × Program V)
  unfolding destroy_data assigned
  on_assign x y none g p = none
  on_assign x y (some f) none p = none
  on_assign x y (some f) (some g) p =
      if x == y then some (none, p) else assigned x y g p (destroy_data f p.heap)

-- What the callables do: the call of one of a type, with an argument, changes it and returns a result.
module _ {ℓ} {V A R : Type ℓ} (run : ℕ → V → A → V × R) where
  -- `( *static_cast< DecayF* >( d ) )( args... )`, with what is at the address.
  unfoldable pub invoke_cell :
      ℕ → ℕ → A → Program V → Option (ℕ × V) → Option (Option R × Program V)
  invoke_cell k a arg p none = none
  invoke_cell k a arg p (some (k', v)) =
      let (v', r) = run k v arg in
      if k == k' then some (some r, record p { heap = set a (some (k, v')) p.heap }) else none

  -- `operator()` of an object.
  unfoldable pub on_call : Option HandlerFn → A → Program V → Option (Option R × Program V)
  unfolding invoke_cell
  on_call none arg p = none
  on_call (some f) arg p = elim f.invoke [
    | none ↦ none
    | some k ↦ elim f.data_ptr [ none ↦ none | some a ↦ invoke_cell k a arg p (p.heap a) ]
  ]

  -- A step of the program, with the result of a call. `new` gives an address where nothing is.
  unfoldable pub exec : Operation V A → Program V → Option (Option R × Program V)
  unfolding on_call on_destruct on_move on_assign
  exec (default_construct x) p = some (none, record p { objects = set x (some empty_fn) p.objects })
  exec (construct x a k v) p = some (
    none,
    record { objects = set x (some (owner k a)) p.objects; heap = set a (some (k, v)) p.heap },
  )
  exec (move_construct x y) p = on_move x y (p.objects y) p
  exec (move_assign x y) p = on_assign x y (p.objects x) (p.objects y) p
  exec (call x arg) p = on_call (p.objects x) arg p
  exec (destruct x) p = on_destruct x (p.objects x) p
