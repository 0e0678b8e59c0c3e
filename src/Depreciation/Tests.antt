-- ===== src/Depreciation/Tests.antt =====
-- Depreciation at concrete inputs, with fixed-point numbers for the floats.
use real_estate_agent.Depreciation.Schedule.{
  project_depreciation-HasRow, HasRow, residual_life_used-antitone,
}
use real_estate_agent.Common.{ℕ, ◌*◌, ◌≤◌, ◌≡◌, refl, some, arith}
use real_estate_agent.Common.Int.{pos}
use real_estate_agent.Float.Fixed.{num, Fixed, fixed_float}
use real_estate_agent.Depreciation.{
  project_depreciation, DepreciationSchedule, statutory_life, residual_of, residual_life_used,
  schedule_for, wood,
}

abbrev yen : ℕ → Fixed
yen n = num (pos (n * 1_000_000))

-- A wooden house of ten years has fourteen years left, one of thirty has four.
wood_10 : residual_life_used wood (pos 10) ≡ some 14
unfolding residual_life_used residual_of statutory_life
wood_10 = refl

wood_30 : residual_life_used wood (pos 30) ≡ some 4
unfolding residual_life_used residual_of statutory_life
wood_30 = refl

residual_life_used-antitone_example :
    (r : ℕ) × (s : ℕ) × (residual_life_used wood (pos 10) ≡ some r)
    × (residual_life_used wood (pos 30) ≡ some s)
    × (2 ≤ s)
    × (s ≤ r)
    × (r ≤ statutory_life wood)
residual_life_used-antitone_example = residual_life_used-antitone wood 10 30 (omega arith)

abbrev schedule : DepreciationSchedule Fixed
schedule = schedule_for wood (yen 900) (num (pos 330_000)) (some 12) 4

projected :
    project_depreciation wood (yen 900) (pos 30) (num (pos 330_000)) (some 12) ≡ some schedule
unfolding project_depreciation residual_life_used residual_of statutory_life
projected = refl

-- The tenth year of twelve, six years after the last depreciation.
project_depreciation-HasRow_example : HasRow (some 12) 9 (num (pos 330_000)) schedule
project_depreciation-HasRow_example =
    project_depreciation-HasRow wood (yen 900) (num (pos 330_000)) (pos 30) (some 12) 9 projected
      (omega arith)
