-- ===== src/Holding/Tests.antt =====
-- The recommendation for a holding at a concrete input, with fixed-point numbers for the floats.
use real_estate_agent.Holding.Dominance.{compute_holding_decision-Dominates}
use real_estate_agent.Float.Order.{◌≼◌}
use real_estate_agent.Common.Int.{pos}
use real_estate_agent.Holding.Candidates.{
  proposals, compute_holding_decision-IsInvestorAction, IsInvestorAction,
}
use real_estate_agent.Float.Ranking.{Descends}
use real_estate_agent.Market.{blank_snapshot, MarketContextSnapshot}
use real_estate_agent.Holding.{
  investor_actions, DecisionCandidate, candidate_score, compute_holding_decision, PortfolioHolding,
  HoldingFinancials,
}
use real_estate_agent.Common.{ℕ, ◌*◌, ◌≡◌, true, none, some, str_eq, All, any_of}
use real_estate_agent.Float.Fixed.{Fixed-IsOrdered, num, Fixed, fixed_float}

abbrev dollars : ℕ → Fixed
dollars n = num (pos (n * 1_000_000))

abbrev house : PortfolioHolding
house = record {
  id = "h1";
  address = "1 Main St";
  zip_code = some "60614";
  property_id = none;
  asset_class = "residential";
}

-- A loan at 7.5 %.
abbrev finances : HoldingFinancials Fixed
finances = record {
  current_value_estimate = some (dollars 300_000);
  loan_balance = some (dollars 200_000);
  interest_rate = some (num (pos 75_000));
  monthly_rent = some (dollars 2_500);
  vacancy_rate = none;
  monthly_opex_estimate = none;
  property_tax_annual = none;
  insurance_annual = none;
  monthly_piti = none;
  cost_basis = none;
}

abbrev market : MarketContextSnapshot Fixed
market = record blank_snapshot {
  inventory_pressure = some (num (pos 800_000));
  median_rent = some (dollars 2_000);
}

compute_holding_decision-Dominates_example :
    Descends candidate_score
      (compute_holding_decision 7 house (some finances) (some market) none).candidates
    × All
        (λ (c : DecisionCandidate Fixed).
          c.score ≼ (compute_holding_decision 7 house (some finances) (some market) none).score)
        (proposals 7 house (some finances) (some market) none)
compute_holding_decision-Dominates_example =
    compute_holding_decision-Dominates Fixed-IsOrdered 7 house (some finances) (some market) none

compute_holding_decision-IsInvestorAction_example :
    (any_of
        (str_eq
          (compute_holding_decision 7 house (some finances) (some market) none).recommendation)
        investor_actions
      ≡ true)
    × All IsInvestorAction
        (compute_holding_decision 7 house (some finances) (some market) none).candidates
compute_holding_decision-IsInvestorAction_example =
    compute_holding_decision-IsInvestorAction 7 house (some finances) (some market) none
