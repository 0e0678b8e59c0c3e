-- ===== src/Actors/Tests.antt =====
-- The projection of profiles at concrete inputs, with fixed-point numbers for the floats.
use real_estate_agent.Common.Int.{pos}
use real_estate_agent.Float.Order.{InSigned, InUnit}
use real_estate_agent.Actors.Bounds.{household_signals_bounds}
use real_estate_agent.Actors.{household_signal_snapshot, Profile, Household}
use real_estate_agent.Common.{ℕ, ◌*◌, none, some}
use real_estate_agent.Float.Fixed.{Fixed-IsOrdered, num, Fixed, fixed_float}

abbrev dollars : ℕ → Fixed
dollars n = num (pos (n * 1_000_000))

-- A household that earns nothing and is not satisfied at all.
abbrev unhappy : Household Fixed
unhappy = record {
  id = some "h7";
  income_band = some "low";
  housing_type = none;
  monthly_income = some (dollars 0);
  monthly_housing_cost = some (dollars 900);
  policy_support_score = none;
  housing_market_sentiment = some (dollars 1);
  neighborhood_satisfaction = some (dollars 0);
  eviction_risk = some (num (pos 800_000));
  social_connections = some (dollars 40);
}

household_signals_bounds_example :
    let s = (household_signal_snapshot unhappy).signals in
    InUnit s.affordability_pressure
    × InSigned s.trust_in_trajectory
    × InUnit s.perceived_safety
    × InUnit s.social_proof
    × InUnit s.displacement_concern
    × InUnit s.investor_optimism
    × InUnit s.willingness_to_transact
    × InUnit s.resistance_to_development
household_signals_bounds_example = household_signals_bounds Fixed-IsOrdered unhappy

-- A seller in a hurry, with a budget of ten to forty thousand.
abbrev seller_profile : Profile Fixed
seller_profile = record {
  actor_type = none;
  role = some "seller";
  housing_type = none;
  budget_min = some (dollars 10_000);
  budget_max = some (dollars 40_000);
  timeline_days = some 20;
  risk_tolerance = some "Aggressive";
}
