-- ===== src/Portfolio/Simulation.antt =====
-- services/strategy_runner.py: `project_year_series` and `project_simulation`.
use real_estate_agent.Portfolio.Metrics.{divided_if_positive}
use real_estate_agent.Float.{zero_f, is_truthy, Float}
use real_estate_agent.Common.{
  ℕ, zero, suc, String, Option, none, some, List, [], ◌∷◌, ◌++◌, foldl, str_eq, if◌then◌else◌,
}
use real_estate_agent.Portfolio.Projection.{
  project_holding, growth_factors, StrategyProfile, HoldingProjection,
}
use real_estate_agent.Portfolio.Summary.{HoldingSummaryEntry, SummaryReport}
use Prim.Native.String.{◌++◌ as ◌⊕◌}

pub record YearProjection {ℓ} (F : Type ℓ) : Type ℓ where
  pub year : ℕ
  pub portfolio_value : F
  pub annual_noi : F
  pub monthly_cash_flow : F
  pub cap_rate : Option F

pub record SimulationReport {ℓ} (F : Type ℓ) : Type ℓ where
  pub portfolio_id : String
  pub horizon_years : ℕ
  pub per_holding : List (HoldingProjection F)
  pub aggregate_value_projection : F
  pub aggregate_annual_noi_projection : F
  pub aggregate_cap_rate_projection : Option F
  pub per_year : List (YearProjection F)
  pub notes : List String

-- The sums of a year: value, income and cash flow.
pub record YearSums {ℓ} (F : Type ℓ) : Type ℓ where
  pub value : F
  pub noi : F
  pub cash_flow : F

-- The variables of the loop of `project_simulation`.
pub record Totals {ℓ} (F : Type ℓ) : Type ℓ where
  pub projections : List (HoldingProjection F)
  pub value : F
  pub noi : F

module _ {ℓ} {F : Type ℓ} ⦃d : Float F⦄ where
  open d use {add, mul, lt, show_fixed}

  -- `x += y` when there is a reading.
  abbrev pub add_optional : F → Option F → F
  add_optional x none = x
  add_optional x (some y) = add x y

  abbrev pub noi_after : F → F → Option F → Option F
  noi_after noi_growth value none = none
  noi_after noi_growth value (some cap) = some (mul (mul cap value) noi_growth)

  -- The value and the income of a row with a positive value.
  unfoldable pub add_value : F × F → Option F → Option F → YearSums F → YearSums F
  add_value factors none cap s = s
  add_value (noi_growth, appreciation) (some v) cap s =
      if lt zero_f v
      then record s {
        value = add s.value (mul v appreciation);
        noi = add_optional s.noi (noi_after noi_growth v cap);
      }
      else s

  unfoldable pub add_cash_flow : F × F → Option F → YearSums F → YearSums F
  add_cash_flow factors none s = s
  add_cash_flow (noi_growth, _) (some cf) s = record s {
    cash_flow = add s.cash_flow (mul cf noi_growth);
  }

  -- One round of the inner loop.
  unfoldable pub add_year_row : F × F → YearSums F → HoldingSummaryEntry F → YearSums F
  unfolding add_value add_cash_flow
  add_year_row factors s row =
      add_cash_flow factors row.metrics.monthly_cash_flow
        (add_value factors row.metrics.current_value row.metrics.cap_rate s)

  unfoldable pub year_sums : SummaryReport F → F × F → YearSums F
  unfolding add_year_row
  year_sums analysis factors =
      foldl (add_year_row factors) (record { value = zero_f; noi = zero_f; cash_flow = zero_f })
        analysis.per_holding

  unfoldable pub year_projection : SummaryReport F → StrategyProfile F → ℕ → YearProjection F
  unfolding year_sums growth_factors
  year_projection analysis profile year =
      let s = year_sums analysis (growth_factors profile year) in
      record {
        year = year;
        portfolio_value = s.value;
        annual_noi = s.noi;
        monthly_cash_flow = s.cash_flow;
        cap_rate = divided_if_positive s.noi s.value;
      }

  -- `n + 1` years from `year` on.
  unfoldable pub years_from : SummaryReport F → StrategyProfile F → ℕ → ℕ → List (YearProjection F)
  unfolding year_projection
  years_from analysis profile year zero = year_projection analysis profile year ∷ []
  years_from analysis profile year (suc n) =
      year_projection analysis profile year ∷ years_from analysis profile (suc year) n

  unfoldable pub project_year_series : SummaryReport F → StrategyProfile F → List (YearProjection F)
  unfolding years_from
  project_year_series analysis profile = years_from analysis profile 0 profile.hold_period_years

  -- `if x: total += x`
  unfoldable pub add_if_truthy : F → Option F → F
  unfolding is_truthy
  add_if_truthy total none = total
  add_if_truthy total (some x) = if is_truthy (some x) then add total x else total

  unfoldable pub add_projection : Totals F → HoldingProjection F → Totals F
  unfolding add_if_truthy
  add_projection t proj = record {
    projections = t.projections ++ proj ∷ [];
    value = add_if_truthy t.value proj.projected_value;
    noi = add_if_truthy t.noi proj.projected_annual_noi;
  }

  -- The loop; `none` is the `ValueError` of a projection.
  unfoldable pub project_rows :
      StrategyProfile F → Totals F → List (HoldingSummaryEntry F) → Option (Totals F)
  unfolding add_projection project_holding
  project_rows profile t [] = some t
  project_rows profile t (row ∷ rows) = elim (project_holding row profile) [
    | none ↦ none
    | some proj ↦ project_rows profile (add_projection t proj) rows
  ]

  abbrev pub outlook_note : StrategyProfile F → Option F → List String
  outlook_note profile none = []
  outlook_note profile (some rate) =
      ("loan rate outlook "
        ⊕ (show_fixed 3 rate ⊕ (" vs refi threshold " ⊕ show_fixed 3 profile.refi_rate_threshold)))
      ∷ []

  unfoldable pub simulation_notes : StrategyProfile F → List String
  simulation_notes profile =
      (if str_eq profile.trajectory "none"
        then []
        else ("thesis trajectory '" ⊕ (profile.trajectory ⊕ "' applied to neighborhood reactions"))
          ∷ [])
      ++ ((if profile.tenant_protection
            then "tenant protection on — RAISE_RENT actions suppressed" ∷ []
            else [])
          ++ outlook_note profile profile.loan_rate_outlook)

  unfoldable pub simulation_of : SummaryReport F → StrategyProfile F → Totals F → SimulationReport F
  unfolding project_year_series simulation_notes
  simulation_of analysis profile t = record {
    portfolio_id = analysis.portfolio_id;
    horizon_years = profile.hold_period_years;
    per_holding = t.projections;
    aggregate_value_projection = t.value;
    aggregate_annual_noi_projection = t.noi;
    aggregate_cap_rate_projection = divided_if_positive t.noi t.value;
    per_year = project_year_series analysis profile;
    notes = simulation_notes profile;
  }

  abbrev pub start_totals : Totals F
  start_totals = record { projections = []; value = zero_f; noi = zero_f }

  unfoldable pub project_simulation :
      SummaryReport F → StrategyProfile F → Option (SimulationReport F)
  unfolding simulation_of project_rows
  project_simulation analysis profile =
      elim (project_rows profile start_totals analysis.per_holding) [
        | none ↦ none
        | some t ↦ some (simulation_of analysis profile t)
      ]
