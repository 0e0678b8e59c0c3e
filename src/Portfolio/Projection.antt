-- ===== src/Portfolio/Projection.antt =====
-- services/strategy_runner.py: the projection of one holding over the hold period. `none` is the
-- `ValueError` of a tax rate that is no rate. The columns are those of api/schemas.py that are read.
use real_estate_agent.Common.Enum.{member_of}
use real_estate_agent.Float.{is_truthy, zero_f, one_f, sum_f, Float}
use real_estate_agent.Common.{
  ℕ, String, Bool, true, false, ◌&&◌, Option, none, some, List, [], ◌∷◌, map, str_eq, ltb, leb,
  if◌then◌else◌,
}
use real_estate_agent.Depreciation.{
  DepreciationYear, ConstructionType, DepreciationSchedule, project_depreciation, total_shield_yen,
  wood, light_steel, steel, rc, src,
}
use real_estate_agent.Portfolio.Summary.{HoldingSummaryEntry}
use real_estate_agent.Common.Int.{pos}

-- `StrategyProfile` with its assumptions, policies and thesis.
pub record StrategyProfile {ℓ} (F : Type ℓ) : Type ℓ where
  pub rent_growth : F
  pub expense_growth : F
  pub hold_period_years : ℕ
  pub exit_cap_rate : F
  pub loan_rate_outlook : Option F
  pub marginal_tax_rate : F
  pub refi_rate_threshold : F
  pub raise_rent_bias : F
  pub tenant_protection : Bool
  pub trajectory : String
  pub market_outlook : String

pub record HoldingProjection {ℓ} (F : Type ℓ) : Type ℓ where
  pub holding_id : String
  pub address : String
  pub horizon_years : ℕ
  pub projected_value : Option F
  pub projected_annual_noi : Option F
  pub projected_cap_rate : Option F
  pub projected_monthly_cash_flow : Option F
  pub projected_recommendation : String
  pub annual_tax_shield_yen : Option F
  pub total_tax_shield_yen : Option F
  pub shield_expires_year : Option ℕ
  pub shield_expired_in_horizon : Bool

-- The values of `_project_depreciation_shield`.
pub record Shield {ℓ} (F : Type ℓ) : Type ℓ where
  pub annual : Option F
  pub total : Option F
  pub expires_year : Option ℕ
  pub expired : Bool

abbrev pub construction_types : List ConstructionType
construction_types = wood ∷ light_steel ∷ steel ∷ rc ∷ src ∷ []

unfoldable pub construction_value : ConstructionType → String
construction_value wood = "wood"
construction_value light_steel = "light_steel"
construction_value steel = "steel"
construction_value rc = "rc"
construction_value src = "src"

module _ {ℓ} {F : Type ℓ} where
  abbrev pub no_shield : Shield F
  no_shield = record { annual = none; total = none; expires_year = none; expired = false }

  -- Two readings, when both are there.
  abbrev pub both : Option F → Option F → (F → F → Option F) → Option F
  both (some x) (some y) f = f x y
  both _ _ f = none

module _ {ℓ} {F : Type ℓ} ⦃d : Float F⦄ where
  open d use {lit, add, sub, mul, div, neg, power, lt, le, of_nat}

  -- `_market_outlook_modifier`
  unfoldable pub market_outlook_modifier : String → F
  market_outlook_modifier outlook =
      if str_eq outlook "bullish"
      then lit 2 2
      else if str_eq outlook "bearish"
      then neg (lit 15 3)
      else zero_f

  unfoldable pub shield_of : ℕ → DepreciationSchedule F → Shield F
  unfolding sum_f total_shield_yen
  shield_of horizon schedule =
      let in_horizon = sum_f (map (λ (y : DepreciationYear F). y.tax_shield_yen) schedule.years) in
      record {
        annual = some (if ltb 0 horizon then div in_horizon (of_nat horizon) else zero_f);
        total = some (total_shield_yen schedule);
        expires_year = some schedule.residual_life_years;
        expired = leb schedule.residual_life_years horizon;
      }

  abbrev pub shield_or_error : ℕ → Option (DepreciationSchedule F) → Option (Shield F)
  shield_or_error horizon none = none
  shield_or_error horizon (some schedule) = some (shield_of horizon schedule)

  -- The shield of a building with a construction, a basis and an age.
  unfoldable pub shield_for :
      StrategyProfile F → Option String → Option F → Option ℕ → Option (Shield F)
  unfolding shield_of project_depreciation member_of construction_value
  shield_for profile (some construction) (some basis) (some age) =
      if le basis zero_f
      then some no_shield
      else elim (member_of construction_value construction_types construction) [
        | none ↦ some no_shield
        | some ctype ↦ shield_or_error profile.hold_period_years (
            project_depreciation ctype basis (pos age) profile.marginal_tax_rate
              (some profile.hold_period_years))
      ]
  shield_for profile _ _ _ = some no_shield

  -- `_project_depreciation_shield`
  unfoldable pub project_depreciation_shield :
      HoldingSummaryEntry F → StrategyProfile F → Option (Shield F)
  unfolding shield_for
  project_depreciation_shield row profile =
      shield_for profile row.construction_type row.building_basis_yen row.building_age_years

  -- `_growth_factors`
  unfoldable pub growth_factors : StrategyProfile F → ℕ → F × F
  unfolding market_outlook_modifier
  growth_factors profile years = (
    power (sub (add one_f profile.rent_growth) profile.expense_growth) years,
    power (add (add one_f (lit 3 2)) (market_outlook_modifier profile.market_outlook)) years,
  )

  -- A test on a reading that fails without one.
  abbrev pub holds_of : Option F → (F → Bool) → Bool
  holds_of none p = false
  holds_of (some x) p = p x

  abbrev pub holds_of_both : Option F → Option F → (F → F → Bool) → Bool
  holds_of_both (some x) (some y) p = p x y
  holds_of_both _ _ p = false

  abbrev pub is_thin : Option F → Bool
  is_thin none = true
  is_thin (some cf) = lt cf (lit 50_000 0)

  -- `_project_recommendation`
  unfoldable pub project_recommendation :
      Option F → Option F → Option F → Option F → Option F → StrategyProfile F → Bool → String
  project_recommendation today_cap projected_cap today_noi projected_noi projected_cf profile
        shield_expired =
      if holds_of projected_cf (λ cf. lt cf zero_f)
      then "SELL"
      else if holds_of_both today_noi projected_noi (λ today later. lt later (mul today (lit 9 1)))
      then "SELL"
      else if shield_expired && is_thin projected_cf
      then "SELL"
      else if holds_of profile.loan_rate_outlook (λ rate. lt profile.refi_rate_threshold rate)
      then "REFI"
      else if profile.tenant_protection
      then (if holds_of_both today_cap projected_cap (λ today later. lt today later)
          then "IMPROVE"
          else "HOLD")
      else if lt (lit 2 1) profile.raise_rent_bias
      then "RAISE_RENT"
      else if holds_of projected_cap (λ cap. lt cap (mul profile.exit_cap_rate (lit 4 1)))
      then "SELL"
      else "HOLD"

  abbrev pub value_after : F → Option F → Option F
  value_after appreciation none = none
  value_after appreciation (some value) =
      if lt zero_f value then some (mul value appreciation) else none

  abbrev pub ratio_if_positive : F → F → Option F
  ratio_if_positive noi value =
      if is_truthy (some value) && lt zero_f value then some (div noi value) else none

  abbrev pub times : F → Option F → Option F
  times factor none = none
  times factor (some x) = some (mul x factor)

  -- The cash flow with a twelfth of the shield of a year.
  abbrev pub with_shield : Option F → Option F → Option F
  with_shield none annual = none
  with_shield (some cf) none = some cf
  with_shield (some cf) (some annual) = some (add cf (div annual (lit 12 0)))

  -- The projection with the shield that was computed.
  unfoldable pub projection_with :
      HoldingSummaryEntry F → StrategyProfile F → Shield F → HoldingProjection F
  unfolding growth_factors project_recommendation is_truthy
  projection_with row profile shield =
      let (noi_growth, appreciation) = growth_factors profile profile.hold_period_years in
      let today_noi = both row.metrics.cap_rate row.metrics.current_value (λ c v. some (mul c v)) in
      let value = value_after appreciation row.metrics.current_value in
      let noi = times noi_growth today_noi in
      let cap = both noi value ratio_if_positive in
      let cash_flow = with_shield (times noi_growth row.metrics.monthly_cash_flow) shield.annual in
      record {
        holding_id = row.holding_id;
        address = row.address;
        horizon_years = profile.hold_period_years;
        projected_value = value;
        projected_annual_noi = noi;
        projected_cap_rate = cap;
        projected_monthly_cash_flow = cash_flow;
        projected_recommendation =
            project_recommendation row.metrics.cap_rate cap today_noi noi cash_flow profile
              shield.expired;
        annual_tax_shield_yen = shield.annual;
        total_tax_shield_yen = shield.total;
        shield_expires_year = shield.expires_year;
        shield_expired_in_horizon = shield.expired;
      }

  -- `_project_holding`
  unfoldable pub project_holding :
      HoldingSummaryEntry F → StrategyProfile F → Option (HoldingProjection F)
  unfolding projection_with project_depreciation_shield
  project_holding row profile = elim (project_depreciation_shield row profile) [
    | none ↦ none
    | some shield ↦ some (projection_with row profile shield)
  ]
