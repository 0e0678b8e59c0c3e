-- ===== src/Outcomes/Tests.antt =====
-- Outcome metrics at concrete inputs, with fixed-point numbers for the floats.
use real_estate_agent.Outcomes.Metrics.{project_time_on_market-type_error_iff}
use real_estate_agent.Common.Int.{pos}
use real_estate_agent.Common.{ℕ, ◌*◌, String, ◌≡◌, ◌↔◌, Option, none, some, List, [], ◌∷◌}
use real_estate_agent.Float.Fixed.{num, Fixed, fixed_float}
use real_estate_agent.Outcomes.{
  Datetime, Elapsed, NegotiationOfferSnapshot, project_time_on_market, aware, naive,
}

abbrev dollars : ℕ → Fixed
dollars n = num (pos (n * 1_000_000))

abbrev offer : Option Fixed → String → NegotiationOfferSnapshot Fixed
offer price status = record {
  offer_id = "o";
  property_id = "p";
  buyer_id = none;
  offer_price = price;
  actor_role = none;
  actor_user_id = none;
  status = some status;
  parent_offer_id = none;
  correlation_id = none;
  message = none;
  created_at = none;
}

abbrev offers : List (NegotiationOfferSnapshot Fixed)
offers =
    offer (some (dollars 90)) "rejected"
    ∷ offer none "withdrawn"
    ∷ offer (some (dollars 95)) "rejected"
    ∷ offer (some (dollars 99)) "accepted"
    ∷ []

project_time_on_market-type_error_iff_example :
    (project_time_on_market (some (aware 900)) none (some (naive 1000)) 0 ≡ Elapsed.type_error) ↔ (
      (Path (Option Datetime) none none)
      × ((t : ℕ) × (Path (Option Datetime) (some (naive 1000)) (some (naive t)))))
project_time_on_market-type_error_iff_example =
    project_time_on_market-type_error_iff (aware 900) none (some (naive 1000)) 0
