-- ===== src/Server/Timer.antt =====
-- server.hpp: `spawn_date_timer`. The timer is owned by the local `timer` and by the copy in the local
-- `tick`; the closure that waits holds `tick` by reference, and owns nothing.
mod Examples
use lundicpp.Base.{
  ℕ, zero, suc, ◌-◌, ◌≡◌, refl, ap, ◌∙◌, Bytes, List, [], ◌∷◌, Bool, true, false, Option, none,
  some, if◌then◌else◌,
}
use lundicpp.Engine.DateCache.{DateCache, update}

-- The cache, the owners of the timer, and whether the local `tick` exists.
pub record DateTimer : Type 0 where
  pub cache : DateCache
  pub owners : ℕ
  pub has_tick : Bool

-- What asio says of a wait: whether it ends with an error, from the number of owners of its timer and
-- whatever else there is. The destructor of a timer cancels its wait.
pub record IsWait (fails : ℕ → ℕ → Bool) : Type 0 where
  pub destroyed_fails : (other : ℕ) → fails 0 other ≡ true

module _ (date_text : ℕ → Bytes) where
  -- The body of `tick`, at the second that the clock shows; a wait follows.
  unfoldable pub tick : ℕ → DateTimer → DateTimer
  tick epoch t = record t { cache = update date_text epoch t.cache }

  -- The return from the call: `tick` is destroyed with its copy, then `timer`.
  unfoldable pub end_call : DateTimer → DateTimer
  end_call t = record t { has_tick = false; owners = t.owners - 2 }

  unfoldable pub spawn_date_timer : ℕ → DateCache → DateTimer
  unfolding tick end_call
  spawn_date_timer epoch cache =
      end_call (tick epoch (record { cache = cache; owners = 2; has_tick = true }))

  -- The closure, with `ec`. A call of a `tick` that is gone is a fault (`none`).
  unfoldable pub on_wait : Bool → ℕ → DateTimer → Option DateTimer
  unfolding tick
  on_wait true epoch t = some t
  on_wait false epoch t = if t.has_tick then some (tick epoch t) else none

  module _ (fails : ℕ → ℕ → Bool) where
    -- Waits one after the other, each ending at a second and with what else asio looks at.
    unfoldable pub on_waits : List (ℕ × ℕ) → DateTimer → Option DateTimer
    unfolding on_wait
    on_waits [] t = some t
    on_waits ((epoch, other) ∷ waits) t = elim (on_wait (fails t.owners other) epoch t) [
      | none ↦ none
      | some u ↦ on_waits waits u
    ]

    on_waits-unowned :
        (waits : List (ℕ × ℕ)) (t : DateTimer)
        → IsWait fails
        → t.owners ≡ 0
        → on_waits waits t ≡ some t
    unfolding on_waits on_wait
    on_waits-unowned [] t law e = refl
    on_waits-unowned ((epoch, other) ∷ waits) t law e =
        let failed : fails t.owners other ≡ true =
          ap (λ n. fails n other) e ∙ law.destroyed_fails other in
        ap (λ (ec : Bool). elim (on_wait ec epoch t) [ none ↦ none | some u ↦ on_waits waits u ])
          failed
        ∙ on_waits-unowned waits t law e

    -- The date is updated once, in the call of `spawn_date_timer`, and never again: the timer ends with
    -- the call, so that every wait ends with an error.
    pub spawn_date_timer-once :
        (epoch : ℕ) (cache : DateCache) (waits : List (ℕ × ℕ))
        → IsWait fails
        → (t : DateTimer) × (on_waits waits (spawn_date_timer epoch cache) ≡ some t)
          × (t.cache ≡ update date_text epoch cache)
    unfolding spawn_date_timer tick end_call
    spawn_date_timer-once epoch cache waits law =
        (_, on_waits-unowned waits (spawn_date_timer epoch cache) law refl, refl)
