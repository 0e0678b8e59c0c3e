-- ===== src/Portfolio/Endpoint.antt =====
-- The last point of the curve against the totals, and the actions that a profile rules out.
use real_estate_agent.Common.Dict.{string_key, get}
use real_estate_agent.Portfolio.Attention.{summarize-entries}
use real_estate_agent.Holding.{PortfolioHolding, HoldingFinancials}
use real_estate_agent.Portfolio.Tables.{Loaded}
use real_estate_agent.Portfolio.Metrics.{cap_rate_of, per_holding_metrics}
use real_estate_agent.Portfolio.Projection.{
  project_depreciation_shield, growth_factors, both, HoldingProjection, times, StrategyProfile,
  value_after, projection_with, project_holding,
}
use mathlib.Core.Path.{subst}
use mathlib.Core.Option.{some-injective, none-ne-some}
use real_estate_agent.Float.{is_truthy, zero_f, Float}
use real_estate_agent.Common.{
  ℕ, zero, suc, ◌+◌, String, ◌≡◌, refl, sym, ap, ◌∙◌, ◌⊎◌, inl, inr, true, Option, none, some, List,
  [], ◌∷◌, foldl, arith, Bool-cases, Option-cases, All, last?, All-map,
}
use real_estate_agent.Portfolio.Summary.{
  summary_entry, summarize, SummaryReport, HoldingSummaryEntry,
}
use real_estate_agent.Portfolio.Simulation.{
  start_totals, year_sums, project_year_series, YearProjection, simulation_of, SimulationReport,
  project_simulation, project_rows, year_projection, add_year_row, years_from, add_cash_flow,
  add_value, add_projection, add_optional, add_if_truthy, Totals, YearSums,
}

-- Adding a zero to a sum that starts at 0.0 leaves it; `IsSum` is for such sums, which are never -0.0.
pub record ZeroLaws {ℓ} (F : Type ℓ) ⦃d : Float F⦄ (IsSum : F → Type 0) : Type ℓ where
  pub start : IsSum zero_f
  pub step : (x y : F) → IsSum x → IsSum (d.add x y)
  pub skip : (x y : F) → IsSum x → d.eq y zero_f ≡ true → d.add x y ≡ x

module _ {ℓ} {F : Type ℓ} ⦃d : Float F⦄ where
  -- A cap rate is there only with a positive value.
  abbrev pub HasValue : Option F → Option F → Type ℓ
  HasValue cap value = (cap ≡ none) ⊎ ((v : F) × (value ≡ some v) × (d.lt zero_f v ≡ true))

  abbrev pub RowHasValue : HoldingSummaryEntry F → Type ℓ
  RowHasValue row = HasValue row.metrics.cap_rate row.metrics.current_value

  -- What a row adds to the value and the income of a year.
  add_value-adds :
      (g a : F) (cap value : Option F) (s : YearSums F)
      → HasValue cap value
      → ((add_value (g, a) value cap s).value ≡ add_optional s.value (value_after a value))
        × ((add_value (g, a) value cap s).noi
            ≡ add_optional s.noi (times g (both cap value (λ c v. some (d.mul c v)))))
  unfolding add_value
  add_value-adds g a none none s h = (refl, refl)
  add_value-adds g a (some c) none s (inl e) = absurd (ground (arith, e))
  add_value-adds g a (some c) none s (inr (v, e, _)) = absurd (ground (arith, e))
  add_value-adds g a none (some v) s h = elim (Bool-cases (d.lt zero_f v)) [
    | inl p ↦ rw p (refl, refl)
    | inr p ↦ rw p (refl, refl)
  ]
  add_value-adds g a (some c) (some v) s (inl e) = absurd (ground (arith, e))
  add_value-adds g a (some c) (some v) s (inr (w, e, p)) =
      rw (ap (d.lt zero_f) (some-injective v w e) ∙ p) (refl, refl)

  add_cash_flow-keeps :
      (f : F × F) (cf : Option F) (s : YearSums F)
      → ((add_cash_flow f cf s).value ≡ s.value) × ((add_cash_flow f cf s).noi ≡ s.noi)
  unfolding add_cash_flow
  add_cash_flow-keeps f none s = (refl, refl)
  add_cash_flow-keeps (g, a) (some cf) s = (refl, refl)

  project_holding-fields :
      (row : HoldingSummaryEntry F) (profile : StrategyProfile F) (proj : HoldingProjection F)
      → project_holding row profile ≡ some proj
      → (proj.projected_value
          ≡ value_after
              (growth_factors profile profile.hold_period_years).1
              row.metrics.current_value)
        × (proj.projected_annual_noi
            ≡ times
                (growth_factors profile profile.hold_period_years).0
                (both row.metrics.cap_rate row.metrics.current_value (λ c v. some (d.mul c v))))
  unfolding project_holding projection_with
  project_holding-fields row profile proj h =
      elim (Option-cases (project_depreciation_shield row profile)) [
        | inl e ↦ absurd (none-ne-some proj (rw (e, project_holding) at h))
        | inr (shield, e) ↦
            let same =
              some-injective (projection_with row profile shield) proj
                (rw (e, project_holding) at h) in
            (
              sym (ap (λ (q : HoldingProjection F). q.projected_value) same),
              sym (ap (λ (q : HoldingProjection F). q.projected_annual_noi) same),
            )
      ]

  last-years_from :
      (analysis : SummaryReport F) (profile : StrategyProfile F) (year n : ℕ)
      → last? (years_from analysis profile year n)
        ≡ some (year_projection analysis profile (year + n))
  unfolding years_from
  last-years_from analysis profile year zero =
      ap (λ y. some (year_projection analysis profile y)) (omega arith)
  last-years_from analysis profile year (suc zero) =
      ap (λ y. some (year_projection analysis profile y)) (omega arith)
  last-years_from analysis profile year (suc (suc n)) =
      last-years_from analysis profile (suc year) (suc n)
      ∙ ap (λ y. some (year_projection analysis profile y)) (omega arith)

  -- The curve of a simulation ends in its totals.
  abbrev pub EndsIn : SimulationReport F → YearProjection F → Type ℓ
  EndsIn sim last =
      (last? sim.per_year ≡ some last)
      × (last.year ≡ sim.horizon_years)
      × (last.portfolio_value ≡ sim.aggregate_value_projection)
      × (last.annual_noi ≡ sim.aggregate_annual_noi_projection)
      × (last.cap_rate ≡ sim.aggregate_cap_rate_projection)

  module _ {IsSum : F → Type 0} (laws : ZeroLaws F IsSum) where
    open laws use {start, step, skip}

    add_if_truthy_lem : (x : F) (o : Option F) → IsSum x → add_if_truthy x o ≡ add_optional x o
    unfolding add_if_truthy is_truthy
    add_if_truthy_lem x none s = refl
    add_if_truthy_lem x (some y) s = ground (arith, skip x y s)

    add_optional-IsSum : (x : F) (o : Option F) → IsSum x → IsSum (add_optional x o)
    add_optional-IsSum x none s = s
    add_optional-IsSum x (some y) s = step x y s

    -- The totals and the sums of a year agree.
    abbrev Agree : Totals F → YearSums F → Type ℓ
    Agree t s = (t.value ≡ s.value) × (t.noi ≡ s.noi)

    abbrev IsSums : YearSums F → Type 0
    IsSums s = IsSum s.value × IsSum s.noi

    add_projection-Agree :
        (row : HoldingSummaryEntry F) (profile : StrategyProfile F) (proj : HoldingProjection F)
        (t : Totals F) (s : YearSums F)
        → RowHasValue row
        → project_holding row profile ≡ some proj
        → Agree t s
        → IsSums s
        → Agree
            (add_projection t proj)
            (add_year_row (growth_factors profile profile.hold_period_years) s row)
          × IsSums (add_year_row (growth_factors profile profile.hold_period_years) s row)
    unfolding add_projection add_year_row
    add_projection-Agree row profile proj t s has e (p, q) (x, y) =
        let f = growth_factors profile profile.hold_period_years in
        let (v, n) = add_value-adds f.0 f.1 row.metrics.cap_rate row.metrics.current_value s has in
        let (kv, kn) =
          add_cash_flow-keeps f row.metrics.monthly_cash_flow
            (add_value f row.metrics.current_value row.metrics.cap_rate s) in
        let (pv, pn) = project_holding-fields row profile proj e in
        (
          (
            ap (λ z. add_if_truthy z proj.projected_value) p
                ∙ ap (add_if_truthy s.value) pv
                ∙ add_if_truthy_lem s.value _ x
                ∙ sym (kv ∙ v),
            ap (λ z. add_if_truthy z proj.projected_annual_noi) q
                ∙ ap (add_if_truthy s.noi) pn
                ∙ add_if_truthy_lem s.noi _ y
                ∙ sym (kn ∙ n),
          ),
          (
            subst IsSum (sym (kv ∙ v))
                (add_optional-IsSum s.value (value_after f.1 row.metrics.current_value) x),
            subst IsSum (sym (kn ∙ n)) (
                add_optional-IsSum s.noi
                  (times f.0
                    (both row.metrics.cap_rate row.metrics.current_value (λ c v. some (d.mul c v))))
                  y),
          ),
        )

    project_rows-Agree :
        (profile : StrategyProfile F) (rows : List (HoldingSummaryEntry F)) (t u : Totals F)
        (s : YearSums F)
        → All RowHasValue rows
        → project_rows profile t rows ≡ some u
        → Agree t s
        → IsSums s
        → Agree u (foldl (add_year_row (growth_factors profile profile.hold_period_years)) s rows)
    unfolding project_rows
    project_rows-Agree profile [] t u s has e (p, q) sums =
        let same = some-injective t u e in
        (sym (ap (λ (w : Totals F). w.value) same) ∙ p, sym (ap (λ (w : Totals F). w.noi) same) ∙ q)
    project_rows-Agree profile (row ∷ rows) t u s (h, has) e agree sums =
        elim (Option-cases (project_holding row profile)) [
          | inl n ↦ absurd (none-ne-some u (rw (n, project_rows) at e))
          | inr (proj, f) ↦
              let (next, kept) = add_projection-Agree row profile proj t s h f agree sums in
              project_rows-Agree profile rows (add_projection t proj) u
                (add_year_row (growth_factors profile profile.hold_period_years) s row) has
                (rw (f, project_rows) at e) next kept
        ]

    project_simulation-EndsIn :
        (analysis : SummaryReport F) (profile : StrategyProfile F) (sim : SimulationReport F)
        → All RowHasValue analysis.per_holding
        → project_simulation analysis profile ≡ some sim
        → (last : YearProjection F) × EndsIn sim last
    unfolding project_simulation simulation_of project_year_series year_projection year_sums
    project_simulation-EndsIn analysis profile sim has e =
        elim (Option-cases (project_rows profile start_totals analysis.per_holding)) [
          | inl n ↦ absurd (none-ne-some sim (rw (n, project_simulation) at e))
          | inr (t, f) ↦
              let (v, n) =
                project_rows-Agree profile analysis.per_holding start_totals t
                  (record { value = zero_f; noi = zero_f; cash_flow = zero_f }) has f (refl, refl)
                  (start, start) in
              subst (λ r. (last : YearProjection F) × EndsIn r last)
                (some-injective (simulation_of analysis profile t) sim
                  (rw (f, project_simulation) at e))
                (
                  year_projection analysis profile profile.hold_period_years,
                  (
                    last-years_from analysis profile 0 profile.hold_period_years
                        ∙ ap (λ y. some (year_projection analysis profile y)) (omega arith),
                    refl,
                    sym v,
                    sym n,
                    rw (v, n) refl,
                  ),
                )
        ]

  metrics-HasValue :
      (fin : Option (HoldingFinancials F))
      → HasValue (per_holding_metrics fin).cap_rate (per_holding_metrics fin).current_value
  unfolding per_holding_metrics
  metrics-HasValue none = inl refl
  metrics-HasValue (some fin) = cap_rate_of-HasValue _ fin.current_value_estimate
    where
      cap_rate_of-HasValue : (noi : F) (value : Option F) → HasValue (cap_rate_of noi value) value
      cap_rate_of-HasValue noi none = inl refl
      cap_rate_of-HasValue noi (some v) = elim (Bool-cases (is_truthy (some v))) [
        | inr t ↦ inl (rw t refl)
        | inl t ↦ elim (Bool-cases (d.lt zero_f v)) [
          | inl p ↦ inr (v, refl, p)
          | inr p ↦ inl (rw (t, p) refl)
        ]
      ]

  -- The curve of a simulation of a portfolio summary ends, in the last year of the horizon, in the
  -- totals of value, income and cap rate that are summed over the projected holdings. Adding a zero
  -- to one of the sums must leave it unchanged.
  pub summarize-EndsIn :
      {IsSum : F → Type 0} (laws : ZeroLaws F IsSum) (now as_of_year : ℕ) (loaded : Loaded F)
      (portfolio_id : String) (hs : List PortfolioHolding) (profile : StrategyProfile F)
      (sim : SimulationReport F)
      → project_simulation (summarize now as_of_year loaded portfolio_id hs) profile ≡ some sim
      → (last : YearProjection F) × EndsIn sim last
  summarize-EndsIn laws now as_of_year loaded portfolio_id hs profile sim e =
      project_simulation-EndsIn laws (summarize now as_of_year loaded portfolio_id hs) profile sim
        (subst (All RowHasValue) (sym (summarize-entries now as_of_year loaded portfolio_id hs)) (
          All-map RowHasValue (summary_entry now as_of_year loaded) hs
            (λ h. unfold summary_entry in metrics-HasValue (get loaded.fin_by_holding h.id))))
        e
