-- ===== src/Callable/Examples.antt =====
-- A callable that counts its calls, in a few objects.
use lundicpp.Base.{ℕ, ◌+◌, suc, ◌≡◌, refl, [], ◌∷◌, inl, arith, none, some}
use lundicpp.Callable.{Program, construct, move_assign, call, destruct, exec, owner}
use lundicpp.Callable.Memory.{set}
use lundicpp.Callable.Ownership.{IsOwned, acquire-IsOwned}
use lundicpp.Callable.Meaning.{new_cell, both_alive, tested, alive, Implements}
use lundicpp.Callable.Refines.{exec-refines}
use lundicpp.Callable.Lifetimes.{no_objects, no_objects-IsOwned, Runs, stops, goes, Runs-no_leak}

abbrev counter : ℕ → ℕ → ℕ → ℕ × ℕ
counter k v arg = (suc v, v + arg)

abbrev at_rest : Program ℕ
at_rest = no_objects

-- Object 0 holds a counter and object 1 another.
abbrev one : Program ℕ
one = record {
  objects = set 0 (some (owner 7 100)) at_rest.objects;
  heap = set 100 (some (7, 5)) at_rest.heap;
}

abbrev two : Program ℕ
two = record {
  objects = set 1 (some (owner 8 200)) one.objects;
  heap = set 200 (some (8, 0)) one.heap;
}

two-IsOwned : IsOwned two
two-IsOwned =
    acquire-IsOwned one 1 8 200 0 (inl refl) refl
      (acquire-IsOwned at_rest 0 7 100 5 (inl refl) refl no_objects-IsOwned)

-- The first is assigned to the second, whose own counter is deleted.
exec-refines_example : Implements counter (move_assign 1 0) two
exec-refines_example = exec-refines counter (move_assign 1 0) two two-IsOwned (both_alive refl refl)

-- It is called then, and both are ended.
script :
    (q : Program ℕ) × Runs counter at_rest
      (construct 0 100 7 5
        ∷ construct 1 200 8 0
        ∷ move_assign 1 0
        ∷ call 1 10
        ∷ destruct 0
        ∷ destruct 1
        ∷ [])
      (none ∷ none ∷ none ∷ some 15 ∷ none ∷ none ∷ [])
      q
    × ((x : ℕ) → q.objects x ≡ none)
unfolding exec
script = (
  _,
  goes (new_cell refl refl) refl (
      goes (new_cell refl refl) refl (
        goes (both_alive refl refl) refl
          (goes (tested refl refl) refl (goes (alive refl) refl (goes (alive refl) refl stops))))),
  λ x. ground arith,
)

Runs-no_leak_example : script.0.heap 200 ≡ none
Runs-no_leak_example = Runs-no_leak counter script.0 _ _ script.1 script.2 200
