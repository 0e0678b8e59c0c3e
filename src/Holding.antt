-- ===== src/Holding.antt =====
-- services/holding_decision.py: the recommendation for one holding from its market snapshot, its
-- owner and its finances. What the service reads from the database is given to it.
pub mod Candidates
pub mod Numbers
pub mod Dominance
mod Tests
use real_estate_agent.Reactions.Derive.{build_reaction_vector}
use real_estate_agent.Decisions.Policies.{churn_policy, lease_policy, list_hold_policy, policy}
use real_estate_agent.Market.{MarketContextSnapshot}
use real_estate_agent.Actors.{
  infer_actor_type, user_profile_signals, ActorSignalState, cohort_signals, Profile,
  CohortSignalState,
}
use real_estate_agent.Float.Ranking.{sort_descending}
use real_estate_agent.Decisions.Runtime.{
  new_runtime, DecisionContext, evaluate, DecisionPolicy, Metadata, DecisionRecommendation,
}
use real_estate_agent.Float.{zero_f, one_f, min_f, is_truthy, clamp_signed, Float}
use real_estate_agent.Common.Dict.{Key, string_key, assign, values, get, Dict}
use real_estate_agent.Common.{
  ℕ, String, Bool, true, false, not, ◌||◌, Option, none, some, List, [], ◌∷◌, ◌++◌, map, foldl,
  str_eq, if◌then◌else◌, keep_some,
}
use Prim.Native.String.{◌++◌ as ◌⊕◌}

-- The columns of `PortfolioHolding` and `HoldingFinancials` that the services read.
pub record PortfolioHolding : Type 0 where
  pub id : String
  pub address : String
  pub zip_code : Option String
  pub property_id : Option String
  pub asset_class : String

pub record HoldingFinancials {ℓ} (F : Type ℓ) : Type ℓ where
  pub current_value_estimate : Option F
  pub loan_balance : Option F
  pub interest_rate : Option F
  pub monthly_rent : Option F
  pub vacancy_rate : Option F
  pub monthly_opex_estimate : Option F
  pub property_tax_annual : Option F
  pub insurance_annual : Option F
  pub monthly_piti : Option F
  pub cost_basis : Option F

pub record DecisionCandidate {ℓ} (F : Type ℓ) : Type ℓ where
  pub action : String
  pub score : F
  pub rationale : String
  pub source : String

pub record HoldingDecisionResponse {ℓ} (F : Type ℓ) : Type ℓ where
  pub holding_id : String
  pub recommendation : String
  pub score : F
  pub rationale : String
  pub market_context_available : Bool
  pub candidates : List (DecisionCandidate F)

abbrev pub investor_actions : List String
investor_actions = "HOLD" ∷ "RAISE_RENT" ∷ "REFI" ∷ "SELL" ∷ "IMPROVE" ∷ []

abbrev pub policy_action_map : Dict String String
policy_action_map =
    ("list", "SELL")
    ∷ ("hold", "HOLD")
    ∷ ("raise_rent", "RAISE_RENT")
    ∷ ("hold_rent", "HOLD")
    ∷ ("freeze_rent", "HOLD")
    ∷ ("intervene", "IMPROVE")
    ∷ ("monitor", "HOLD")
    ∷ []

abbrev pub is_present {ℓ} : {A : Type ℓ} → Option A → Bool
is_present none = false
is_present (some _) = true

abbrev pub text_or_empty : Option String → String
text_or_empty none = ""
text_or_empty (some s) = s

module _ {ℓ} {F : Type ℓ} ⦃d : Float F⦄ where
  open d use {lit, add, sub, mul, lt, le, round_to, show_fixed, show_thousands}

  -- `_build_actor_state`
  unfoldable pub build_actor_state : Option (Profile F) → String → Option (CohortSignalState F)
  build_actor_state none label = none
  build_actor_state (some owner) label =
      some (cohort_signals (user_profile_signals owner ∷ []) (infer_actor_type owner) label)

  unfoldable pub refi_at : F → F → DecisionCandidate F
  unfolding min_f
  refi_at rate balance =
      let gap = sub rate (lit 6 2) in
      record {
        action = "REFI";
        score = round_to 4 (min_f one_f (add (lit 3 1) (mul gap (lit 10 0))));
        rationale =
            "note rate "
            ⊕ (show_fixed 3 rate
                ⊕ (" exceeds "
                    ⊕ (show_fixed 3 (lit 6 2)
                        ⊕ (" benchmark on $" ⊕ (show_thousands balance ⊕ " balance")))));
        source = "financial_heuristic";
      }

  -- `_refi_candidate`
  unfoldable pub refi_candidate : Option (HoldingFinancials F) → Option (DecisionCandidate F)
  unfolding is_truthy
  refi_candidate none = none
  refi_candidate (some fin) = elim fin.interest_rate [
    | none ↦ none
    | some rate ↦ elim fin.loan_balance [
      | none ↦ none
      | some balance ↦
          if not (is_truthy (some balance))
          then none
          else if le rate (lit 6 2)
          then none
          else some (refi_at rate balance)
    ]
  ]

  unfoldable pub mapped_score : F → F
  unfolding clamp_signed
  mapped_score score = if lt score zero_f then round_to 4 (clamp_signed score) else round_to 4 score

  -- `_map_policy_rec`
  unfoldable pub map_policy_rec : DecisionRecommendation F → Option (DecisionCandidate F)
  unfolding mapped_score
  map_policy_rec r = elim (get policy_action_map r.action) [
    | none ↦ none
    | some action ↦ some (record {
      action = action;
      score = mapped_score r.score;
      rationale = if str_eq r.rationale "" then r.kind ⊕ (" → " ⊕ r.action) else r.rationale;
      source = r.kind;
    })
  ]

  abbrev pub blank_metadata : Metadata F
  blank_metadata = record { offer_prices = none; negotiation_state = none; round_count = none }

  abbrev pub holding_policies : List (DecisionPolicy F)
  holding_policies =
      policy "list_hold" list_hold_policy
      ∷ policy "lease" lease_policy
      ∷ policy "churn" churn_policy
      ∷ []

  -- `fin.monthly_rent if fin else None`
  abbrev pub rent_of : Option (HoldingFinancials F) → Option F
  rent_of none = none
  rent_of (some fin) = fin.monthly_rent

  -- The signals of the actor, without the labels of the cohort.
  abbrev pub signals_of : Option (CohortSignalState F) → Option (ActorSignalState F)
  signals_of none = none
  signals_of (some c) = some c.signals

  unfoldable pub holding_context :
      ℕ
      → PortfolioHolding
      → Option (HoldingFinancials F)
      → MarketContextSnapshot F
      → Option (Profile F)
      → DecisionContext F
  unfolding build_actor_state
  holding_context now holding fin snapshot owner =
      let actor = signals_of (build_actor_state owner (text_or_empty holding.zip_code)) in
      record {
        market = snapshot;
        reaction = build_reaction_vector now actor snapshot (rent_of fin);
        actor = actor;
        metadata = blank_metadata;
      }

  -- The candidates that the policies give.
  unfoldable pub policy_candidates :
      ℕ
      → PortfolioHolding
      → Option (HoldingFinancials F)
      → Option (MarketContextSnapshot F)
      → Option (Profile F)
      → List (DecisionCandidate F)
  policy_candidates now holding fin none owner = []
  policy_candidates now holding fin (some snapshot) owner = keep_some (
      map map_policy_rec
        (evaluate (new_runtime holding_policies) (holding_context now holding fin snapshot owner)))

  -- One round of the loop over the candidates.
  unfoldable pub keep_best :
      Dict String (DecisionCandidate F) → DecisionCandidate F → Dict String (DecisionCandidate F)
  keep_best best cand = elim (get best cand.action) [
    | none ↦ assign best cand.action cand
    | some existing ↦ if lt existing.score cand.score then assign best cand.action cand else best
  ]

  unfoldable pub best_by_action : List (DecisionCandidate F) → Dict String (DecisionCandidate F)
  unfolding keep_best
  best_by_action = foldl keep_best []

  abbrev pub candidate_score : DecisionCandidate F → F
  candidate_score c = c.score

  abbrev pub fallback : DecisionCandidate F
  fallback = record {
    action = "HOLD";
    score = lit 3 1;
    rationale = "insufficient market and financial signal — defaulting to hold";
    source = "fallback";
  }

  abbrev pub or_fallback :
      List (DecisionCandidate F) → DecisionCandidate F × List (DecisionCandidate F)
  or_fallback [] = (fallback, fallback ∷ [])
  or_fallback (c ∷ cs) = (c, c ∷ cs)

  abbrev pub has_scalar : MarketContextSnapshot F → Bool
  has_scalar s =
      is_present s.transit_score
      || (is_present s.school_score
          || (is_present s.safety_score
              || (is_present s.median_rent
                  || (is_present s.median_sale_price || is_present s.inventory_pressure))))

  abbrev pub context_available : Option (MarketContextSnapshot F) → Bool
  context_available none = false
  context_available (some s) = has_scalar s

  abbrev pub optional_list : Option (DecisionCandidate F) → List (DecisionCandidate F)
  optional_list none = []
  optional_list (some c) = c ∷ []

  unfoldable pub rank_candidates : List (DecisionCandidate F) → List (DecisionCandidate F)
  unfolding best_by_action sort_descending
  rank_candidates candidates = sort_descending candidate_score (values (best_by_action candidates))

  -- `compute_holding_decision_preloaded`
  unfoldable pub compute_holding_decision :
      ℕ
      → PortfolioHolding
      → Option (HoldingFinancials F)
      → Option (MarketContextSnapshot F)
      → Option (Profile F)
      → HoldingDecisionResponse F
  compute_holding_decision now holding fin snapshot owner =
      let candidates =
        policy_candidates now holding fin snapshot owner ++ optional_list (refi_candidate fin) in
      let (top, ranked) = or_fallback (rank_candidates candidates) in
      record {
        holding_id = holding.id;
        recommendation = top.action;
        score = top.score;
        rationale = top.rationale;
        market_context_available = context_available snapshot;
        candidates = ranked;
      }
