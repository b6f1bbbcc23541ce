-- ===== src/Server/Timer/Examples.antt =====
-- Two seconds behind the start.
use lundicpp.Base.{ℕ, ◌≡◌, refl, ◌==◌, [], ◌∷◌, Bool, Bytes, some, replicate}
use lundicpp.Engine.DateCache.{date, date_len, fresh, update}
use lundicpp.Server.Timer.{DateTimer, IsWait, spawn_date_timer, on_waits, spawn_date_timer-once}

abbrev repeated : ℕ → Bytes
repeated t = replicate date_len t

abbrev fails : ℕ → ℕ → Bool
fails owners other = owners == 0

fails-IsWait : IsWait fails
fails-IsWait = record { destroyed_fails = λ other. refl }

spawn_date_timer-once_example :
    (t : DateTimer) × (on_waits repeated fails
        ((8, 0) ∷ ((9, 0) ∷ []))
        (spawn_date_timer repeated 7 fresh)
      ≡ some t)
    × (t.cache ≡ update repeated 7 fresh)
spawn_date_timer-once_example =
    spawn_date_timer-once repeated fails 7 fresh ((8, 0) ∷ ((9, 0) ∷ [])) fails-IsWait

-- The date is that of the start.
stays_seven : date (spawn_date_timer repeated 7 fresh).cache ≡ repeated 7
unfolding spawn_date_timer update
stays_seven = refl
