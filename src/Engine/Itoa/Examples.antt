-- ===== src/Engine/Itoa/Examples.antt =====
-- The formatter on concrete values.
use lundicpp.Base.{ℕ, ◌≡◌, refl, codes, some, arith, ◌-◌, ◌^◌}
use lundicpp.Engine.Itoa.{FastItoa, format, fresh, read_at, ◌>>=◌}
use lundicpp.Engine.Itoa.RoundTrip.{IsFormatted, format-IsFormatted}

format_four_digits : (format 8080 fresh >>= λ (s, p). some (read_at s p)) ≡ some (codes "8080")
unfolding format
format_four_digits = refl

format-IsFormatted_example :
    (r : FastItoa × ℕ) × (format (2 ^ 64 - 1) fresh ≡ some r) × IsFormatted (2 ^ 64 - 1) r
format-IsFormatted_example = format-IsFormatted (2 ^ 64 - 1) fresh refl (omega arith)
