-- ===== src/Portfolio/Metrics.antt =====
-- services/portfolio_summary.py: the metrics of a holding and the inputs of its depreciation.
use real_estate_agent.Holding.{HoldingFinancials}
use real_estate_agent.Float.{one_f, zero_f, or_default, is_truthy, Float}
use real_estate_agent.Common.{ℕ, ◌-◌, String, Option, none, some, if◌then◌else◌}
use real_estate_agent.Store.MarketState.Compose.{Property}

pub data AssetTier : Type 0 where
  one_room : AssetTier
  aparuto : AssetTier
  family_mansion : AssetTier

-- The metrics of a summary row.
pub record HoldingMetrics {ℓ} (F : Type ℓ) : Type ℓ where
  pub current_value : Option F
  pub monthly_noi : Option F
  pub monthly_cash_flow : Option F
  pub cap_rate : Option F
  pub dscr : Option F
  pub cash_on_cash : Option F

-- A property with the columns of its building.
pub record Building {ℓ} (F : Type ℓ) : Type ℓ where
  pub row : Property F
  pub construction_type : Option String
  pub built_year : Option ℕ
  pub asset_tier : Option AssetTier

abbrev pub age_at : ℕ → Option ℕ → Option ℕ
age_at as_of_year none = none
age_at as_of_year (some built_year) = some (as_of_year - built_year)

module _ {ℓ} {F : Type ℓ} ⦃d : Float F⦄ where
  open d use {lit, add, sub, mul, div, lt}

  -- `_BUILDING_RATIO_BY_TIER`
  unfoldable pub building_ratio : Option AssetTier → F
  building_ratio (some one_room) = lit 85 2
  building_ratio (some aparuto) = lit 60 2
  building_ratio (some family_mansion) = lit 65 2
  building_ratio none = lit 70 2

  abbrev pub divided_if_positive : F → F → Option F
  divided_if_positive x y = if lt zero_f y then some (div x y) else none

  -- `annual_noi / value if value and value > 0 else None`
  abbrev pub cap_rate_of : F → Option F → Option F
  cap_rate_of annual_noi none = none
  cap_rate_of annual_noi (some value) =
      if is_truthy (some value) then divided_if_positive annual_noi value else none

  unfoldable pub monthly_noi_of : HoldingFinancials F → F
  unfolding or_default
  monthly_noi_of fin =
      let eff_rent =
        mul (or_default zero_f fin.monthly_rent) (sub one_f (or_default zero_f fin.vacancy_rate)) in
      let tax_m = div (or_default zero_f fin.property_tax_annual) (lit 12 0) in
      let ins_m = div (or_default zero_f fin.insurance_annual) (lit 12 0) in
      sub (sub (sub eff_rent (or_default zero_f fin.monthly_opex_estimate)) tax_m) ins_m

  -- `_per_holding_metrics`
  unfoldable pub per_holding_metrics : Option (HoldingFinancials F) → HoldingMetrics F
  unfolding monthly_noi_of or_default is_truthy
  per_holding_metrics none = record {
    current_value = none;
    monthly_noi = none;
    monthly_cash_flow = none;
    cap_rate = none;
    dscr = none;
    cash_on_cash = none;
  }
  per_holding_metrics (some fin) =
      let noi_m = monthly_noi_of fin in
      let annual_noi = mul noi_m (lit 12 0) in
      let piti = or_default zero_f fin.monthly_piti in
      let monthly_cf = sub noi_m piti in
      let equity =
        sub (or_default zero_f fin.current_value_estimate) (or_default zero_f fin.loan_balance) in
      record {
        current_value = fin.current_value_estimate;
        monthly_noi = some noi_m;
        monthly_cash_flow = some monthly_cf;
        cap_rate = cap_rate_of annual_noi fin.current_value_estimate;
        dscr = divided_if_positive annual_noi (mul piti (lit 12 0));
        cash_on_cash = divided_if_positive (mul monthly_cf (lit 12 0)) equity;
      }

  abbrev pub cost_basis_of : Option (HoldingFinancials F) → Option F
  cost_basis_of none = none
  cost_basis_of (some fin) = fin.cost_basis

  abbrev pub building_basis : Option AssetTier → Option F → Option F
  building_basis tier none = none
  building_basis tier (some cost_basis) =
      if lt zero_f cost_basis then some (mul cost_basis (building_ratio tier)) else none

  -- `_derive_depreciation_inputs`: the subtraction of years stops at zero.
  unfoldable pub derive_depreciation_inputs :
      Option (Building F) → Option (HoldingFinancials F) → ℕ → Option String × Option ℕ × Option F
  unfolding building_ratio
  derive_depreciation_inputs none fin as_of_year = (none, none, none)
  derive_depreciation_inputs (some b) fin as_of_year = (
    b.construction_type,
    age_at as_of_year b.built_year,
    building_basis b.asset_tier (cost_basis_of fin),
  )
