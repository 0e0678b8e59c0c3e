-- ===== src/Depreciation.antt =====
-- intelligence/depreciation_jp.py: the statutory and residual lives of buildings, and the schedule
-- of the depreciation with its tax shield. `none` is a `ValueError`. The products of whole years
-- with 0.20 are truncated fifths, so that the lives are computed in whole numbers; a negative
-- horizon gives no rows, as 0 does.
pub mod Schedule
mod Tests
use real_estate_agent.Float.{one_f, zero_f, Float}
use real_estate_agent.Common.{
  ℕ, zero, suc, ◌+◌, ◌-◌, ◌*◌, ◌/◌, max, not, ◌&&◌, Option, none, some, List, [], ◌∷◌, leb,
  if◌then◌else◌, last?,
}
use real_estate_agent.Common.Int.{ℤ, pos, negsuc}

pub data ConstructionType : Type 0 where
  wood : ConstructionType
  light_steel : ConstructionType
  steel : ConstructionType
  rc : ConstructionType
  src : ConstructionType

-- `STATUTORY_LIFE_YEARS[construction]`
unfoldable pub statutory_life : ConstructionType → ℕ
statutory_life wood = 22
statutory_life light_steel = 27
statutory_life steel = 34
statutory_life rc = 47
statutory_life src = 47

unfoldable pub residual_of : ℕ → ℕ → ℕ
residual_of life age = max 2 (if leb life age then life / 5 else (5 * (life - age) + age) / 5)

unfoldable pub residual_life_used : ConstructionType → ℤ → Option ℕ
unfolding residual_of statutory_life
residual_life_used construction (negsuc _) = none
residual_life_used construction (pos age) = some (residual_of (statutory_life construction) age)

pub record DepreciationYear {ℓ} (F : Type ℓ) : Type ℓ where
  pub year_index : ℕ
  pub depreciation_yen : F
  pub tax_shield_yen : F
  pub cumulative_shield_yen : F

pub record DepreciationSchedule {ℓ} (F : Type ℓ) : Type ℓ where
  pub construction : ConstructionType
  pub building_basis_yen : F
  pub residual_life_years : ℕ
  pub annual_depreciation_yen : F
  pub marginal_tax_rate : F
  pub years : List (DepreciationYear F)

-- The number of years of a schedule: the horizon, or the residual life without one.
abbrev pub or_residual : ℕ → Option ℕ → ℕ
or_residual residual none = residual
or_residual residual (some horizon) = horizon

module _ {ℓ} {F : Type ℓ} ⦃d : Float F⦄ where
  open d use {add, mul, div, lt, le, of_nat}

  unfoldable pub depreciation_at : ℕ → F → ℕ → F
  depreciation_at residual annual y = if leb y residual then annual else zero_f

  unfoldable pub shield_at : ℕ → F → F → ℕ → F
  shield_at residual annual rate y = if leb y residual then mul annual rate else zero_f

  -- The loop from year `y` on, with the rows that are left and the shield so far.
  unfoldable pub rows_from : ℕ → F → F → F → ℕ → ℕ → List (DepreciationYear F)
  unfolding depreciation_at shield_at
  rows_from residual annual rate cumulative y zero = []
  rows_from residual annual rate cumulative y (suc n) =
      let shield = shield_at residual annual rate y in
      let total = add cumulative shield in
      record {
        year_index = y;
        depreciation_yen = depreciation_at residual annual y;
        tax_shield_yen = shield;
        cumulative_shield_yen = total;
      }
      ∷ rows_from residual annual rate total (suc y) n

  -- The schedule for a residual life, which is never 0.
  unfoldable pub schedule_for : ConstructionType → F → F → Option ℕ → ℕ → DepreciationSchedule F
  unfolding rows_from
  schedule_for construction basis rate horizon residual =
      let annual = div basis (of_nat residual) in
      record {
        construction = construction;
        building_basis_yen = basis;
        residual_life_years = residual;
        annual_depreciation_yen = annual;
        marginal_tax_rate = rate;
        years = rows_from residual annual rate zero_f 1 (or_residual residual horizon);
      }

  unfoldable pub project_depreciation :
      ConstructionType → F → ℤ → F → Option ℕ → Option (DepreciationSchedule F)
  unfolding schedule_for residual_life_used
  project_depreciation construction basis age rate horizon =
      if lt basis zero_f
      then none
      else if not (le zero_f rate && le rate one_f)
      then none
      else elim (residual_life_used construction age) [
        | none ↦ none
        | some residual ↦ some (schedule_for construction basis rate horizon residual)
      ]

  unfoldable pub total_shield_yen : DepreciationSchedule F → F
  total_shield_yen schedule = elim (last? schedule.years) [
    | none ↦ zero_f
    | some row ↦ row.cumulative_shield_yen
  ]
