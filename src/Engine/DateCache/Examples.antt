-- ===== src/Engine/DateCache/Examples.antt =====
-- The date cache on concrete seconds.
use lundicpp.Base.{ℕ, ◌≡◌, refl, Bytes, replicate, length}
use lundicpp.Engine.DateCache.{date, date_len, update, fresh}

abbrev same_letters : ℕ → Bytes
same_letters t = replicate date_len t

same_letters_full : (t : ℕ) → length (same_letters t) ≡ date_len
same_letters_full t = refl

-- A second 0 is never formatted, since the cache starts with that second.
second_zero : date (update same_letters 0 fresh) ≡ replicate date_len 0
unfolding update
second_zero = refl
