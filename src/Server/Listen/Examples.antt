-- ===== src/Server/Listen/Examples.antt =====
-- Two workers and a few connections.
use lundicpp.Base.{ℕ, ◌≤◌, suc, ◌≡◌, refl, [], ◌∷◌, some, arith, replicate}
use lundicpp.Base.Find.{All}
use lundicpp.Server.Listen.{Listening, start_listening, accepted, signalled, ended, happens}
use lundicpp.Server.Listen.Counts.{
  IsExact, can_accept, can_end, can_signal, happens-IsExact, start_listening-IsExact,
}
use lundicpp.Server.Listen.Balance.{
  Steps, at_end, then_goes, IsOrdered, start_listening-Steps, start_listening-even,
}

-- The loop has chosen the first worker when the connection of the second ends.
busy :
    (t : Listening) × Steps
      (start_listening 2)
      (accepted ∷ accepted ∷ ended 1 ∷ accepted ∷ signalled ∷ ended 0 ∷ [])
      t
    × (t.conn_counts ≡ 1 ∷ 0 ∷ [])
unfolding happens start_listening
busy = (
  _,
  then_goes (can_accept refl) refl (
      then_goes (can_accept refl) refl (
        then_goes (can_end (omega arith)) refl (
          then_goes (can_accept refl) refl
            (then_goes (can_signal refl) refl (then_goes (can_end (omega arith)) refl at_end))))),
  refl,
)

start_listening-Steps_example :
    IsExact busy.0 × IsOrdered (accepted ∷ accepted ∷ ended 1 ∷ accepted ∷ signalled ∷ ended 0 ∷ [])
start_listening-Steps_example = start_listening-Steps 2 _ busy.0 (omega arith) busy.1

three : (t : Listening) × Steps (start_listening 2) (replicate 3 accepted) t
unfolding happens start_listening
three = (
  _,
  then_goes (can_accept refl) refl
      (then_goes (can_accept refl) refl (then_goes (can_accept refl) refl at_end)),
)

start_listening-even_example : (m : ℕ) × All (λ c. (m ≤ c) × (c ≤ suc m)) three.0.conn_counts
start_listening-even_example = start_listening-even 2 3 three.0 (omega arith) three.1

start-IsExact : IsExact (start_listening 2)
start-IsExact = start_listening-IsExact 2 (omega arith)

happens-IsExact_example :
    (t : Listening) × (happens accepted (start_listening 2) ≡ some t) × IsExact t
unfolding start_listening
happens-IsExact_example =
    happens-IsExact accepted (start_listening 2) start-IsExact (can_accept refl)
