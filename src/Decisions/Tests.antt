-- ===== src/Decisions/Tests.antt =====
-- The decision layer at concrete inputs, with fixed-point numbers for the floats.
use real_estate_agent.Float.Ranking.{Descends}
use mathlib.Core.List.{Perm}
use real_estate_agent.Common.Int.{◌-ℤ◌, ◌+ℤ◌}
use real_estate_agent.Float.Fixed.{quotient, product, round_int, units}
use real_estate_agent.Float.Fixed.{fixed_float}
use real_estate_agent.Float.{to_unit}
use real_estate_agent.Float.{sum_f, min_of, max_of}
use real_estate_agent.Float.Order.{◌≼◌, IsNum-InUnit}
use real_estate_agent.Reactions.{neutral_vector}
use real_estate_agent.Decisions.Policies.Scores.{
  dev_resistance-UnitScore, churn-UnitScore, lease-UnitScore, list_hold-UnitScore,
}
use real_estate_agent.Decisions.Policies.{
  hold_score, list_score, dev_resistance_policy, churn_policy, lease_policy, list_hold_policy,
  policy,
}
use real_estate_agent.Common.Int.{pos}
use real_estate_agent.Market.{blank_snapshot}
use real_estate_agent.Decisions.Runtime.Ranking.{
  evaluate_lem, contribution, top-Descends, HasScore, Recommends,
}
use real_estate_agent.Float.Fixed.{Fixed-IsOrdered, num, Fixed}
use real_estate_agent.Decisions.Negotiation.Analysis.{
  midpoint_of, spread_of, build_negotiation_analysis-Verdict, with_broker, with_zopa,
  default_options, build_negotiation_analysis, Verdict, NegotiationAnalysis, complete,
}
use real_estate_agent.Common.{
  ℕ, ◌*◌, ◌≡◌, refl, ◌⊎◌, inl, inr, true, false, none, some, List, [], ◌∷◌, map, arith, All,
  keep_some,
}
use real_estate_agent.Decisions.Negotiation.{
  transitions, State, Action, transition, accepted, place_offer, accept, counter, moved,
  invalid_transition, withdrawn,
}
use real_estate_agent.Decisions.Negotiation.Paths.{
  run, transition_progress, transition-IsFinal, settlement, run-IsClosingPath, IsClosingPath,
  IsFinal,
}
use real_estate_agent.Common.Enum.{member}
use real_estate_agent.Decisions.Runtime.{
  score_of, figures, DecisionRecommendation, evaluate, top, DecisionContext, DecisionPolicy,
  recommended,
}

abbrev deal : List Action
deal = place_offer ∷ counter ∷ counter ∷ accept ∷ settlement

run-IsClosingPath_example : IsClosingPath deal
run-IsClosingPath_example = run-IsClosingPath deal (unfold run transitions in refl)

transition-IsFinal_example :
    transition withdrawn (member accept) 3 ≡ invalid_transition withdrawn accept
transition-IsFinal_example = transition-IsFinal withdrawn (inr (inl refl)) accept 3 (omega arith)

transition_progress_example :
    IsFinal accepted ⊎ ((a : Action) × (t : State) × (transition accepted (member a) 4 ≡ moved t))
transition_progress_example = transition_progress accepted 4 (omega arith)

-- Dollars, halves and hundredths.
abbrev dollars : ℕ → Fixed
dollars n = num (pos (n * 1_000_000))

abbrev half : Fixed
half = num (pos 500_000)

abbrev prices : List Fixed
prices = dollars 100 ∷ dollars 99 ∷ dollars 98 ∷ []

abbrev analysis : NegotiationAnalysis Fixed
analysis = record {
  round = 6;
  spread_percent = dollars 2;
  offer_history = prices;
  zopa_detected = some true;
  suggested_price = some (pos 99);
  broker_mediation_recommended = false;
  recommendation = some "suggest_split";
}

analyzed : build_negotiation_analysis default_options 6 prices ≡ complete analysis
unfolding build_negotiation_analysis with_zopa with_broker spread_of midpoint_of max_of min_of sum_f
    quotient product ◌-ℤ◌ round_int units ◌+ℤ◌
analyzed = refl

build_negotiation_analysis-Verdict_example : Verdict analysis
build_negotiation_analysis-Verdict_example =
    build_negotiation_analysis-Verdict Fixed-IsOrdered 6 prices analyzed

-- A market with an inventory pressure and a rent, and the neutral vector.
abbrev context : DecisionContext Fixed
context = record {
  market = record blank_snapshot {
    inventory_pressure = some half;
    median_rent = some (dollars 900);
  };
  reaction = neutral_vector;
  actor = none;
  metadata = record { offer_prices = none; negotiation_state = none; round_count = none };
}

abbrev policies : List (DecisionPolicy Fixed)
policies =
    policy "list_hold" list_hold_policy
    ∷ policy "lease" lease_policy
    ∷ policy "churn" churn_policy
    ∷ policy "dev_resistance" dev_resistance_policy
    ∷ []

scored : All (Recommends (HasScore {F = Fixed}) context) policies
scored = (
  λ r e. IsNum-InUnit Fixed-IsOrdered r.score (list_hold-UnitScore Fixed-IsOrdered context r e),
  (
    λ r e. IsNum-InUnit Fixed-IsOrdered r.score (lease-UnitScore Fixed-IsOrdered context r e),
    (
      λ r e. IsNum-InUnit Fixed-IsOrdered r.score (churn-UnitScore Fixed-IsOrdered context r e),
      (
        λ r e.
            IsNum-InUnit Fixed-IsOrdered r.score
              (dev_resistance-UnitScore Fixed-IsOrdered context r e),
        tt,
      ),
    ),
  ),
)

evaluate_lem_example :
    Perm
      (evaluate policies context)
      (keep_some (map (λ (p : DecisionPolicy Fixed). contribution (p.evaluate context)) policies))
    × Descends score_of (evaluate policies context)
evaluate_lem_example = evaluate_lem Fixed-IsOrdered policies context scored

top-Descends_example :
    ((top policies context ≡ none) × (evaluate policies context ≡ []))
    ⊎ ((t : DecisionRecommendation Fixed) × (top policies context ≡ some t)
        × All (λ (r : DecisionRecommendation Fixed). r.score ≼ t.score) (evaluate policies context))
top-Descends_example = top-Descends Fixed-IsOrdered policies context scored

abbrev listed : DecisionRecommendation Fixed
listed = record {
  kind = "list_hold";
  action = "list";
  score = half;
  rationale = "inventory_pressure=# optimism=#";
  payload = figures (("list_score", half) ∷ ("hold_score", half) ∷ []);
}

recommends : list_hold_policy context ≡ recommended listed
unfolding list_hold_policy list_score hold_score to_unit neutral_vector quotient ◌+ℤ◌ product ◌-ℤ◌
recommends = refl
