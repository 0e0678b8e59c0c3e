-- ===== src/Portfolio/Tests.antt =====
-- Concrete portfolios.
use real_estate_agent.Portfolio.Runner.{
  StrategyRunRecord, raised, failed_record, RunInput, returned, Attempt, execute_strategy_run,
  World,
}
use real_estate_agent.Portfolio.Runner.Terminal.{
  execute_strategy_run-closing_event, execute_strategy_run-IsOver, closing_event, Settles,
  event_types,
}
use real_estate_agent.Portfolio.Protection.{
  project_simulation-SparesTenants, project_simulation-some, SparesTenants,
}
use real_estate_agent.Portfolio.Endpoint.{summarize-EndsIn, EndsIn, ZeroLaws}
use real_estate_agent.Float.Order.{InUnit}
use real_estate_agent.Portfolio.Simulation.{YearProjection, project_simulation, SimulationReport}
use real_estate_agent.Portfolio.Projection.{HoldingProjection, StrategyProfile}
use real_estate_agent.Portfolio.Unified.{reconcile_unified_report, UnifiedReport}
use real_estate_agent.Portfolio.Survival.{
  reconcile_unified_report-survives, KeepsSales, is_flipped, IsConsistent,
}
use real_estate_agent.Common.Dict.{assign}
use real_estate_agent.Float.Ranking.{Descends}
use real_estate_agent.Common.Int.{+ℤ_parts, eq_of_parts, neg_part, pos_part, ℤ, pos}
use real_estate_agent.Portfolio.Attention.{summarize-Descends, needs_action, entries}
use real_estate_agent.Portfolio.Summary.{
  HoldingSummaryEntry, SummaryReport, item_score, attention_item, AttentionItem, summarize,
}
use real_estate_agent.Holding.{
  refi_at, refi_candidate, policy_candidates, rank_candidates, PortfolioHolding, HoldingFinancials,
}
use real_estate_agent.Common.{
  ◌/◌, ◌≤◌, max, String, ◌≡◌, refl, ap, ◌↔◌, true, false, Option, none, some, List, [], ◌∷◌, ◌++◌,
  map, arith, length, All, keep_if,
}
use real_estate_agent.Float.Fixed.{nan, Fixed-IsOrdered, Fixed, num, fixed_float}
use real_estate_agent.Portfolio.Tables.{Loaded}
use mathlib.Core.List.{Perm}

abbrev flat : String → PortfolioHolding
flat id = record {
  id = id;
  address = "1-1";
  zip_code = none;
  property_id = none;
  asset_class = "one_room";
}

-- A loan at 9 %, above the benchmark.
abbrev costly_loan : HoldingFinancials Fixed
costly_loan = record {
  current_value_estimate = some (num (pos 5_000_000));
  loan_balance = some (num (pos 3_000_000));
  interest_rate = some (num (pos 90_000));
  monthly_rent = none;
  vacancy_rate = none;
  monthly_opex_estimate = none;
  property_tax_annual = none;
  insurance_annual = none;
  monthly_piti = none;
  cost_basis = none;
}

abbrev loaded : Loaded Fixed
loaded = record {
  fin_by_holding = ("h2", costly_loan) ∷ [];
  prop_by_id = [];
  owner = none;
  prop_snapshots = [];
  zip_snapshots = [];
}

abbrev flats : List PortfolioHolding
flats = flat "h1" ∷ flat "h2" ∷ []

summarize-Descends_example :
    ((summarize 0 2026 loaded "p" flats).per_holding ≡ entries 0 2026 loaded flats)
    × Perm
        (summarize 0 2026 loaded "p" flats).attention
        (map attention_item (keep_if needs_action (entries 0 2026 loaded flats)))
    × Descends item_score (summarize 0 2026 loaded "p" flats).attention
    × ((summarize 0 2026 loaded "p" flats).coverage_with_signals
        ≡ length (keep_if (λ e. e.market_context_available) (entries 0 2026 loaded flats)))
summarize-Descends_example = summarize-Descends 0 2026 loaded Fixed-IsOrdered "p" flats

-- The second flat is to be refinanced, and the first one is held.
one_flagged :
    map (λ (i : AttentionItem Fixed). i.holding_id) (summarize 0 2026 loaded "p" flats).attention
    ≡ "h2" ∷ []
unfolding summarize rank_candidates policy_candidates refi_candidate assign refi_at
one_flagged = refl

abbrev profile : StrategyProfile Fixed
profile = record {
  rent_growth = num (pos 30_000);
  expense_growth = num (pos 25_000);
  hold_period_years = 10;
  exit_cap_rate = num (pos 70_000);
  loan_rate_outlook = none;
  marginal_tax_rate = num (pos 330_000);
  refi_rate_threshold = num (pos 60_000);
  raise_rent_bias = num (pos 0);
  tenant_protection = false;
  trajectory = "none";
  market_outlook = "neutral";
}

abbrev simulation : SimulationReport Fixed
simulation = record {
  portfolio_id = "p";
  horizon_years = 10;
  per_holding = [];
  aggregate_value_projection = num (pos 0);
  aggregate_annual_noi_projection = num (pos 0);
  aggregate_cap_rate_projection = none;
  per_year = [];
  notes = [];
}

abbrev unified : UnifiedReport Fixed
unified = reconcile_unified_report (summarize 0 2026 loaded "p" flats) simulation profile

reconcile_unified_report-survives_example :
    All IsConsistent unified.reconciliations
    × ((unified.survives ≡ true) ↔ (
        (length (keep_if is_flipped unified.reconciliations)
          ≤ max 1 (length unified.reconciliations / 3))
        × All KeepsSales unified.reconciliations))
reconcile_unified_report-survives_example =
    reconcile_unified_report-survives (summarize 0 2026 loaded "p" flats) simulation profile

abbrev analysis : SummaryReport Fixed
analysis = summarize 0 2026 loaded "p" flats

valid_rate : InUnit profile.marginal_tax_rate
valid_rate = (refl, refl)

project_simulation-some_example :
    (sim : SimulationReport Fixed) × (project_simulation analysis profile ≡ some sim)
    × (map (λ (p : HoldingProjection Fixed). p.holding_id) sim.per_holding
        ≡ map (λ (e : HoldingSummaryEntry Fixed). e.holding_id) analysis.per_holding)
project_simulation-some_example =
    project_simulation-some Fixed-IsOrdered analysis profile valid_rate

-- The result of the simulation.
abbrev simulated : SimulationReport Fixed
simulated = (project_simulation-some Fixed-IsOrdered analysis profile valid_rate).0

Fixed-ZeroLaws : ZeroLaws Fixed (λ _. Unit)
Fixed-ZeroLaws = record { start = tt; step = λ x y _. tt; skip = λ x y _ h. add_zero x y h }
  where
    add_zero : (x y : Fixed) → fixed_float.eq y (num (pos 0)) ≡ true → fixed_float.add x y ≡ x
    add_zero nan y h = refl
    add_zero (num a) nan h = absurd (ground (arith, h))
    add_zero (num a) (num b) h =
        ap num (eq_of_parts _ _ (omega (arith, +ℤ_parts a b, zero_parts b h)))
      where
        zero_parts : (b : ℤ) → fixed_float.eq (num b) (num (pos 0)) ≡ true → pos_part b ≡ neg_part b
        zero_parts b h = ground (arith, h)

summarize-EndsIn_example : (last : YearProjection Fixed) × EndsIn simulated last
summarize-EndsIn_example =
    summarize-EndsIn Fixed-ZeroLaws 0 2026 loaded "p" flats profile simulated
      (project_simulation-some Fixed-IsOrdered analysis profile valid_rate).1

abbrev tenant_profile : StrategyProfile Fixed
tenant_profile = record profile { tenant_protection = true; raise_rent_bias = num (pos 900_000) }

abbrev protected : SimulationReport Fixed
protected = (project_simulation-some Fixed-IsOrdered analysis tenant_profile valid_rate).0

project_simulation-SparesTenants_example : All SparesTenants protected.per_holding
project_simulation-SparesTenants_example =
    project_simulation-SparesTenants analysis tenant_profile protected refl
      (project_simulation-some Fixed-IsOrdered analysis tenant_profile valid_rate).1

abbrev run_input : Attempt (Option (SummaryReport Fixed)) → RunInput Fixed
run_input summary = record {
  run_id = "r1";
  portfolio_id = "p";
  profile = profile;
  correlation_id = none;
  clock = λ n. n;
  commit_start = returned tt;
  summary = summary;
  commit = returned tt;
  commit_failure = true;
}

abbrev empty_world : World Fixed
empty_world = record { runs = []; events = [] }

execute_strategy_run-IsOver_example :
    Settles
      (run_input (returned (some analysis)))
      (execute_strategy_run (run_input (returned (some analysis))) empty_world).0
      (execute_strategy_run (run_input (returned (some analysis))) empty_world).1
execute_strategy_run-IsOver_example =
    execute_strategy_run-IsOver (run_input (returned (some analysis))) empty_world

-- The portfolio is missing, so that the run fails.
execute_strategy_run-closing_event_example :
    (r : StrategyRunRecord Fixed) × ((execute_strategy_run
        (run_input (returned none))
        empty_world).0
      ≡ returned r)
    × (event_types (execute_strategy_run (run_input (returned none)) empty_world).1
        ≡ event_types empty_world ++ "strategy.run_started" ∷ closing_event r ∷ [])
execute_strategy_run-closing_event_example =
    execute_strategy_run-closing_event (run_input (returned none)) empty_world refl refl refl

status_of : Attempt (StrategyRunRecord Fixed) → String
status_of (returned r) = r.status
status_of (raised text) = text

missing_portfolio :
    status_of (execute_strategy_run (run_input (returned none)) empty_world).0 ≡ "failed"
unfolding execute_strategy_run failed_record status_of
missing_portfolio = refl
