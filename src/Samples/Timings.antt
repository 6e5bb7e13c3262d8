-- ===== src/Samples/Timings.antt =====
-- internal/measure/stats.go on concrete durations.
use sql_sentinel.Prelude.{ℕ, ◌+◌, ◌≡◌, refl, Option, none, List, [], ◌∷◌, ◌⊎◌, inl, inr}
use sql_sentinel.Prelude.Int.{ℤ, pos, ◌-ℤ◌}
use sql_sentinel.Measure.Stats.{median, mad}

abbrev samples : List ℤ
samples = pos 5 ∷ pos 9 ∷ pos 2 ∷ pos 40 ∷ []

middle_values : (median samples ≡ pos 7) × (mad samples ≡ pos 3)
unfolding median mad sql_sentinel.Prelude.Int.wrap64 sql_sentinel.Prelude.Int.◌+ℤ◌ ◌-ℤ◌
middle_values = (refl, refl)
