-- ===== src/Portfolio/Protection.antt =====
-- Which profiles give a simulation, and the actions that it can propose.
use mathlib.Core.Option.{some-injective, none-ne-some}
use mathlib.Core.Path.{subst}
use mathlib.Core.List.{append_assoc, append-nil, map-append}
use real_estate_agent.Common.Enum.{member_of}
use mathlib.Core.Bool.{true≢false}
use real_estate_agent.Float.Order.{InUnit, IsOrdered}
use real_estate_agent.Store.MarketState.Latest.{includes}
use real_estate_agent.Float.{zero_f, Float}
use real_estate_agent.Common.{
  ℕ, String, ◌≡◌, refl, sym, ap, ◌∙◌, inl, inr, Bool, true, false, ◌&&◌, Option, none, some, List,
  [], ◌∷◌, ◌++◌, map, Bool-cases, Option-cases, All, All-append,
}
use real_estate_agent.Portfolio.Projection.{
  with_shield, ratio_if_positive, value_after, times, both, growth_factors, shield_or_error,
  shield_of, construction_types, construction_value, is_thin, projection_with, no_shield,
  project_depreciation_shield, holds_of_both, holds_of, shield_for, project_holding,
  project_recommendation, StrategyProfile, HoldingProjection, Shield,
}
use real_estate_agent.Portfolio.Summary.{SummaryReport, HoldingSummaryEntry}
use real_estate_agent.Portfolio.Simulation.{
  start_totals, SimulationReport, simulation_of, project_simulation, add_projection, project_rows,
  Totals,
}
use real_estate_agent.Common.Int.{pos}
use real_estate_agent.Depreciation.{
  statutory_life, residual_of, schedule_for, residual_life_used, ConstructionType,
  DepreciationSchedule, project_depreciation,
}

abbrev pub spares_tenants : String → Bool
spares_tenants = includes ("SELL" ∷ "REFI" ∷ "IMPROVE" ∷ "HOLD" ∷ [])

module _ {ℓ} {F : Type ℓ} ⦃d : Float F⦄ where
  -- The action is one that protects the tenants: a sale, a refinancing, an improvement or to hold.
  abbrev pub SparesTenants : HoldingProjection F → Type 0
  SparesTenants p = spares_tenants p.projected_recommendation ≡ true

  project_recommendation-SparesTenants :
      (tc pc tn pn cf : Option F) (profile : StrategyProfile F) (expired : Bool)
      → profile.tenant_protection ≡ true
      → includes
          ("SELL" ∷ "REFI" ∷ "IMPROVE" ∷ "HOLD" ∷ [])
          (project_recommendation tc pc tn pn cf profile expired)
        ≡ true
  unfolding project_recommendation
  project_recommendation-SparesTenants tc pc tn pn cf profile expired h =
      elim (Bool-cases (holds_of cf (λ c. d.lt c zero_f))) [
        | inl a ↦ rw a refl
        | inr a ↦
            elim (Bool-cases
              (holds_of_both tn pn (λ today later. d.lt later (d.mul today (d.lit 9 1))))) [
                | inl b ↦ rw (a, b) refl
                | inr b ↦ elim (Bool-cases (expired && is_thin cf)) [
                  | inl c ↦ rw (a, b, c) refl
                  | inr c ↦
                      elim (Bool-cases (
                        holds_of profile.loan_rate_outlook
                          (λ rate. d.lt profile.refi_rate_threshold rate))) [
                            | inl e ↦ rw (a, b, c, e) refl
                            | inr e ↦
                                elim (Bool-cases
                                  (holds_of_both tc pc (λ today later. d.lt today later))) [
                                    | inl f ↦ rw (a, b, c, e, h, f) refl
                                    | inr f ↦ rw (a, b, c, e, h, f) refl
                                  ]
                          ]
                ]
              ]
      ]

  projection_with-SparesTenants :
      (row : HoldingSummaryEntry F) (profile : StrategyProfile F) (shield : Shield F)
      → profile.tenant_protection ≡ true
      → SparesTenants (projection_with row profile shield)
  unfolding projection_with
  projection_with-SparesTenants row profile shield h =
      let (g, a) = growth_factors profile profile.hold_period_years in
      let today_noi =
        both row.metrics.cap_rate row.metrics.current_value (λ c v. some (d.mul c v)) in
      let noi = times g today_noi in
      project_recommendation-SparesTenants row.metrics.cap_rate
        (both noi (value_after a row.metrics.current_value) ratio_if_positive) today_noi noi
        (with_shield (times g row.metrics.monthly_cash_flow) shield.annual) profile shield.expired h

  project_holding-shield :
      (row : HoldingSummaryEntry F) (profile : StrategyProfile F) (proj : HoldingProjection F)
      → project_holding row profile ≡ some proj
      → (shield : Shield F) × (projection_with row profile shield ≡ proj)
  unfolding project_holding
  project_holding-shield row profile proj h =
      elim (Option-cases (project_depreciation_shield row profile)) [
        | inl e ↦ absurd (none-ne-some proj (rw (e, project_holding) at h))
        | inr (shield, e) ↦ (shield, some-injective _ proj (rw (e, project_holding) at h))
      ]

  -- A relation of rows and projections is carried along the loop.
  project_rows-carry {κ} :
      (P : List (HoldingSummaryEntry F) → List (HoldingProjection F) → Type κ)
      (profile : StrategyProfile F)
      → ((row : HoldingSummaryEntry F) (proj : HoldingProjection F)
            (done : List (HoldingSummaryEntry F)) (projections : List (HoldingProjection F))
          → project_holding row profile ≡ some proj
          → P done projections
          → P (done ++ row ∷ []) (projections ++ proj ∷ []))
      → (rows done : List (HoldingSummaryEntry F)) (t u : Totals F)
      → project_rows profile t rows ≡ some u
      → P done t.projections
      → P (done ++ rows) u.projections
  unfolding project_rows add_projection
  project_rows-carry P profile step [] done t u e p =
      subst (λ l. P l u.projections) (sym (append-nil done))
        (subst (P done) (ap (λ (w : Totals F). w.projections) (some-injective t u e)) p)
  project_rows-carry P profile step (row ∷ rows) done t u e p =
      elim (Option-cases (project_holding row profile)) [
        | inl n ↦ absurd (none-ne-some u (rw (n, project_rows) at e))
        | inr (proj, f) ↦
            subst (λ l. P l u.projections) (append_assoc done (row ∷ []) rows)
              (project_rows-carry P profile step rows (done ++ row ∷ []) (add_projection t proj) u
                (rw (f, project_rows) at e) (step row proj done t.projections f p))
      ]

  -- With tenant protection no simulation pushes a rent: every projected action is a sale, a
  -- refinancing, an improvement or to hold.
  pub project_simulation-SparesTenants :
      (analysis : SummaryReport F) (profile : StrategyProfile F) (sim : SimulationReport F)
      → profile.tenant_protection ≡ true
      → project_simulation analysis profile ≡ some sim
      → All SparesTenants sim.per_holding
  unfolding project_simulation simulation_of
  project_simulation-SparesTenants analysis profile sim h e =
      elim (Option-cases (project_rows profile start_totals analysis.per_holding)) [
        | inl n ↦ absurd (none-ne-some sim (rw (n, project_simulation) at e))
        | inr (u, f) ↦
            subst (λ (r : SimulationReport F). All SparesTenants r.per_holding)
              (some-injective (simulation_of analysis profile u) sim
                (rw (f, project_simulation) at e))
              (project_rows-carry (λ _ ps. All SparesTenants ps) profile step analysis.per_holding
                [] start_totals u f tt)
      ]
    where
      step :
          (row : HoldingSummaryEntry F) (proj : HoldingProjection F)
          (done : List (HoldingSummaryEntry F)) (projections : List (HoldingProjection F))
          → project_holding row profile ≡ some proj
          → All SparesTenants projections
          → All SparesTenants (projections ++ proj ∷ [])
      step row proj done projections f p =
          let (shield, same) = project_holding-shield row profile proj f in
          All-append SparesTenants projections (proj ∷ []) p
            (subst SparesTenants same (projection_with-SparesTenants row profile shield h), tt)

  module _ (laws : IsOrdered F) where
    project_depreciation-some :
        (c : ConstructionType) (basis : F) (age horizon : ℕ) (rate : F)
        → d.le basis zero_f ≡ false
        → InUnit rate
        → (s : DepreciationSchedule F) × (project_depreciation c basis (pos age) rate (some horizon)
            ≡ some s)
    unfolding project_depreciation residual_life_used
    project_depreciation-some c basis age horizon rate h (lo, hi) = (
      schedule_for c basis rate (some horizon) (residual_of (statutory_life c) age),
      rw (above, lo, hi) refl,
    )
      where
        above : d.lt basis zero_f ≡ false
        above = elim (Bool-cases (d.lt basis zero_f)) [
          | inl e ↦ absurd (true≢false (sym (laws.le_of_lt basis zero_f e) ∙ h))
          | inr e ↦ e
        ]

    shield_for-some :
        (profile : StrategyProfile F) (construction : Option String) (basis : Option F)
        (age : Option ℕ)
        → InUnit profile.marginal_tax_rate
        → (s : Shield F) × (shield_for profile construction basis age ≡ some s)
    unfolding shield_for
    shield_for-some profile none basis age h = (no_shield, refl)
    shield_for-some profile (some c) none age h = (no_shield, refl)
    shield_for-some profile (some c) (some b) none h = (no_shield, refl)
    shield_for-some profile (some c) (some b) (some n) h = elim (Bool-cases (d.le b zero_f)) [
      | inl e ↦ (no_shield, rw e refl)
      | inr e ↦ elim (Option-cases (member_of construction_value construction_types c)) [
        | inl m ↦ (no_shield, rw e (rw (m, shield_for) refl))
        | inr (t, m) ↦
            let (s, q) =
              project_depreciation-some t b n profile.hold_period_years profile.marginal_tax_rate e
                h in
            (
              shield_of profile.hold_period_years s,
              rw e (rw (m, shield_for) (ap (shield_or_error profile.hold_period_years) q)),
            )
      ]
    ]

    project_holding-some :
        (row : HoldingSummaryEntry F) (profile : StrategyProfile F)
        → InUnit profile.marginal_tax_rate
        → (p : HoldingProjection F) × (project_holding row profile ≡ some p)
    unfolding project_holding project_depreciation_shield
    project_holding-some row profile h =
        let (s, e) =
          shield_for-some profile row.construction_type row.building_basis_yen
            row.building_age_years h in
        (projection_with row profile s, rw (e, project_holding) refl)

    project_rows-some :
        (profile : StrategyProfile F) (t : Totals F) (rows : List (HoldingSummaryEntry F))
        → InUnit profile.marginal_tax_rate
        → (u : Totals F) × (project_rows profile t rows ≡ some u)
    unfolding project_rows
    project_rows-some profile t [] h = (t, refl)
    project_rows-some profile t (row ∷ rows) h =
        let (p, e) = project_holding-some row profile h in
        let (u, f) = project_rows-some profile (add_projection t p) rows h in
        (u, rw (e, project_rows) f)

    -- The ids of the projections are the ids of the rows.
    abbrev SameIds : List (HoldingSummaryEntry F) → List (HoldingProjection F) → Type 0
    SameIds rows ps =
        map (λ (p : HoldingProjection F). p.holding_id) ps
        ≡ map (λ (e : HoldingSummaryEntry F). e.holding_id) rows

    -- With a tax rate in [0, 1] a simulation never fails, and it projects every row of the analysis,
    -- in the order of the rows.
    pub project_simulation-some :
        (analysis : SummaryReport F) (profile : StrategyProfile F)
        → InUnit profile.marginal_tax_rate
        → (sim : SimulationReport F) × (project_simulation analysis profile ≡ some sim)
          × (map (λ (p : HoldingProjection F). p.holding_id) sim.per_holding
              ≡ map (λ (e : HoldingSummaryEntry F). e.holding_id) analysis.per_holding)
    unfolding project_simulation simulation_of
    project_simulation-some analysis profile h =
        let (u, e) = project_rows-some profile start_totals analysis.per_holding h in
        (
          simulation_of analysis profile u,
          rw (e, project_simulation) refl,
          project_rows-carry SameIds profile step analysis.per_holding [] start_totals u e refl,
        )
      where
        step :
            (row : HoldingSummaryEntry F) (proj : HoldingProjection F)
            (done : List (HoldingSummaryEntry F)) (projections : List (HoldingProjection F))
            → project_holding row profile ≡ some proj
            → SameIds done projections
            → SameIds (done ++ row ∷ []) (projections ++ proj ∷ [])
        step row proj done projections f p =
            let (shield, same) = project_holding-shield row profile proj f in
            map-append (λ (q : HoldingProjection F). q.holding_id) projections (proj ∷ [])
            ∙ ap (λ ids. ids ++ proj.holding_id ∷ []) p
            ∙ ap (λ id. map (λ (e : HoldingSummaryEntry F). e.holding_id) done ++ id ∷ [])
                (sym (ap (λ (q : HoldingProjection F). q.holding_id) same))
            ∙ sym (map-append (λ (e : HoldingSummaryEntry F). e.holding_id) done (row ∷ []))
