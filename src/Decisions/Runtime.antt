-- ===== src/Decisions/Runtime.antt =====
-- domain/decisions/runtime.py: the context, the recommendations, and the runtime that runs every
-- policy and ranks what they recommend. A policy that raises is `raised`.
pub mod Ranking
use real_estate_agent.Decisions.Negotiation.{State}
use real_estate_agent.Decisions.Negotiation.Analysis.{NegotiationAnalysis}
use real_estate_agent.Actors.{ActorSignalState}
use real_estate_agent.Float.Ranking.{sort_descending}
use real_estate_agent.Common.Enum.{Input}
use real_estate_agent.Common.{ℕ, String, not, Option, List, [], ◌∷◌, ◌++◌, foldl, head?}
use real_estate_agent.Reactions.{ReactionVector}
use real_estate_agent.Common.Dict.{Dict}
use real_estate_agent.Market.{MarketContextSnapshot}
use real_estate_agent.Float.{Float}

-- What the code reads of `metadata`: a count is not negative.
pub record Metadata {ℓ} (F : Type ℓ) : Type ℓ where
  pub offer_prices : Option (List F)
  pub negotiation_state : Option (Input State)
  pub round_count : Option ℕ

pub record DecisionContext {ℓ} (F : Type ℓ) : Type ℓ where
  pub market : MarketContextSnapshot F
  pub reaction : ReactionVector F
  pub actor : Option (ActorSignalState F)
  pub metadata : Metadata F

-- The two shapes of a payload: named figures, or the analysis of a negotiation.
pub data Payload {ℓ} (F : Type ℓ) : Type ℓ where
  figures : Dict String F → Payload F
  negotiation : Option (NegotiationAnalysis F) → Payload F

pub record DecisionRecommendation {ℓ} (F : Type ℓ) : Type ℓ where
  pub kind : String
  pub action : String
  pub score : F
  pub rationale : String
  pub payload : Payload F

pub data Evaluation {ℓ} (F : Type ℓ) : Type ℓ where
  raised : Evaluation F
  declined : Evaluation F
  recommended : DecisionRecommendation F → Evaluation F

-- `DecisionPolicy`: the protocol is this record, so that `register` has nothing to refuse.
pub record DecisionPolicy {ℓ} (F : Type ℓ) : Type ℓ where
  pub kind : String
  pub evaluate : DecisionContext F → Evaluation F

module _ {ℓ} {F : Type ℓ} where
  -- The state of `DecisionRuntime` is its list of policies.
  unfoldable pub register : List (DecisionPolicy F) → DecisionPolicy F → List (DecisionPolicy F)
  register policies policy = policies ++ (policy ∷ [])

  unfoldable pub new_runtime : List (DecisionPolicy F) → List (DecisionPolicy F)
  unfolding register
  new_runtime = foldl register []

  -- The loop of `evaluate`.
  unfoldable pub collect :
      List (DecisionPolicy F) → DecisionContext F → List (DecisionRecommendation F)
  collect [] context = []
  collect (p ∷ policies) context =
      let rest = collect policies context in
      elim (p.evaluate context) [ raised ↦ rest | declined ↦ rest | recommended r ↦ r ∷ rest ]

module _ {ℓ} {F : Type ℓ} ⦃d : Float F⦄ where
  abbrev pub score_of : DecisionRecommendation F → F
  score_of r = r.score

  unfoldable pub evaluate :
      List (DecisionPolicy F) → DecisionContext F → List (DecisionRecommendation F)
  unfolding collect
  evaluate policies context = sort_descending score_of (collect policies context)

  unfoldable pub top :
      List (DecisionPolicy F) → DecisionContext F → Option (DecisionRecommendation F)
  unfolding evaluate
  top policies context = head? (evaluate policies context)
