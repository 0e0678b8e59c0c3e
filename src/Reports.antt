-- ===== src/Reports.antt =====
-- domain/reports: the report builders and the replay of reaction events. A report keeps the
-- outcome, the reactions and the decisions that it is composed from.
pub mod Replay
pub mod Briefs
mod Tests
use real_estate_agent.Reactions.{resistance_to_development, displacement_concern}
use real_estate_agent.Decisions.Policies.{zopa_found}
use real_estate_agent.Reactions.Engine.{or_neutral}
use real_estate_agent.Common.Dict.{string_key, Key, get}
use real_estate_agent.Market.{MarketContextSnapshot}
use real_estate_agent.Common.Sort.{sort_stable}
use real_estate_agent.Reactions.Narratives.{weaker, NarrativeCluster}
use real_estate_agent.Reactions.{ReactionVector}
use real_estate_agent.Decisions.Runtime.{DecisionRecommendation, negotiation, figures, Payload}
use real_estate_agent.Common.Show.{show_nat}
use real_estate_agent.Decisions.Negotiation.Analysis.{NegotiationAnalysis}
use real_estate_agent.Outcomes.{MarketOutcomeSnapshot}
use real_estate_agent.Float.{one_f, zero_f, or_default, to_unit, is_truthy, clamp_unit, Float}
use real_estate_agent.Common.{
  ℕ, ◌%◌, String, Bool, true, false, Option, none, some, List, [], ◌∷◌, ◌++◌, str_eq, if◌then◌else◌,
  take, keep_if,
}
use Prim.Native.String.{◌++◌ as ◌⊕◌}

pub record UnderwritingReport {ℓ} (F : Type ℓ) : Type ℓ where
  pub listing_id : Option String
  pub asking_price : Option F
  pub outcome : MarketOutcomeSnapshot F
  pub headline : String
  pub recommendation : String
  pub confidence : F
  pub drivers : List String

pub record NegotiationBriefing {ℓ} (F : Type ℓ) : Type ℓ where
  pub negotiation_id : Option String
  pub round_count : ℕ
  pub current_state : String
  pub next_action : String
  pub rationale : String
  pub spread_percent : Option F
  pub zopa_detected : Bool
  pub top_decision_score : F

pub record PolicyRiskBrief {ℓ} (F : Type ℓ) : Type ℓ where
  pub jurisdiction : Option String
  pub zoning_code : Option String
  pub resistance_score : F
  pub displacement_risk : F
  pub permit_friction : Option F
  pub sentiment : Option F
  pub headline : String
  pub recommendation : String
  pub key_narratives : List String

-- `listing_id or 'listing'`
abbrev pub listing_name : Option String → String
listing_name none = "listing"
listing_name (some s) = if str_eq s "" then "listing" else s

-- One driver: nothing for a missing figure.
abbrev pub driver {κ} : {A : Type κ} → (A → String) → Option A → List String
driver show none = []
driver show (some x) = show x ∷ []

module _ {ℓ} {F : Type ℓ} ⦃d : Float F⦄ where
  open d use {lit, add, sub, mul, lt, le, eq, abs, show_fixed}

  abbrev pub or_half : Option F → F
  or_half none = lit 5 1
  or_half (some x) = x

  unfoldable pub underwriting_score : MarketOutcomeSnapshot F → ReactionVector F → F
  unfolding clamp_unit to_unit or_default
  underwriting_score outcome reaction =
      let friction = or_default zero_f outcome.permit_friction in
      let optimism = to_unit reaction.investor_optimism in
      let affordability = to_unit reaction.affordability_pressure in
      clamp_unit (
        add
          (add
            (add (mul (lit 4 1) (or_half outcome.neighborhood_sentiment)) (mul (lit 3 1) optimism))
            (mul (lit 2 1) (sub one_f affordability)))
          (mul (lit 1 1) (sub one_f friction)))

  -- The recommendation for a score, with the beginning of its headline.
  unfoldable pub underwriting_verdict : F → String × String
  underwriting_verdict score =
      if le (lit 65 2) score
      then ("buy", "Strong fundamentals for ")
      else if le score (lit 35 2)
      then ("pass", "Headwinds against ")
      else ("hold", "Mixed signals for ")

  unfoldable pub drivers_of : MarketOutcomeSnapshot F → List String
  unfolding show_nat
  drivers_of outcome =
      driver (λ x. "price_change=" ⊕ (show_fixed 1 x ⊕ "%")) outcome.price_change_pct
      ++ (driver (λ n. "days_on_market=" ⊕ show_nat n) outcome.time_on_market_days
          ++ (driver (λ x. "sentiment=" ⊕ show_fixed 2 x) outcome.neighborhood_sentiment
              ++ driver (λ x. "concession=" ⊕ (show_fixed 1 x ⊕ "%")) outcome.concession_rate))

  -- `reaction or ReactionVector()` is `or_neutral`.
  unfoldable pub build_underwriting_report :
      Option String
      → Option F
      → MarketOutcomeSnapshot F
      → Option (ReactionVector F)
      → UnderwritingReport F
  unfolding underwriting_score underwriting_verdict drivers_of
  build_underwriting_report listing_id asking_price outcome reaction =
      let score = underwriting_score outcome (or_neutral reaction) in
      let (recommendation, opening) = underwriting_verdict score in
      record {
        listing_id = listing_id;
        asking_price = asking_price;
        outcome = outcome;
        headline = opening ⊕ listing_name listing_id;
        recommendation = recommendation;
        confidence = score;
        drivers = drivers_of outcome;
      }

  abbrev pub spread_in : Option (NegotiationAnalysis F) → Option F
  spread_in none = none
  spread_in (some a) = some a.spread_percent

  -- `payload.get("spread_percent")`
  abbrev pub payload_spread : Payload F → Option F
  payload_spread (figures entries) = get entries "spread_percent"
  payload_spread (negotiation analysis) = spread_in analysis

  -- `bool(payload.get("zopa_detected"))`
  abbrev pub payload_zopa : Payload F → Bool
  payload_zopa (figures entries) = is_truthy (get entries "zopa_detected")
  payload_zopa (negotiation analysis) = zopa_found analysis

  unfoldable pub build_negotiation_briefing :
      Option String → ℕ → String → Option (DecisionRecommendation F) → NegotiationBriefing F
  unfolding is_truthy get
  build_negotiation_briefing negotiation_id round_count current_state none = record {
    negotiation_id = negotiation_id;
    round_count = round_count;
    current_state = current_state;
    next_action = "await_offer";
    rationale = "No decision signal yet — waiting on offer history.";
    spread_percent = none;
    zopa_detected = false;
    top_decision_score = zero_f;
  }
  build_negotiation_briefing negotiation_id round_count current_state (some decision) = record {
    negotiation_id = negotiation_id;
    round_count = round_count;
    current_state = current_state;
    next_action = decision.action;
    rationale =
        if str_eq decision.rationale ""
        then "decision-runtime recommendation"
        else decision.rationale;
    spread_percent = payload_spread decision.payload;
    zopa_detected = payload_zopa decision.payload;
    top_decision_score = decision.score;
  }

  -- The recommendation for a risk, with its headline.
  unfoldable pub risk_verdict : F → String × String
  risk_verdict risk =
      if le (lit 7 1) risk
      then ("expect_pushback", "High community resistance projected")
      else if le (lit 45 2) risk
      then ("engage_community", "Material resistance — early outreach advised")
      else ("proceed", "Low community-resistance projection")

  -- The clusters about resistance and displacement.
  unfoldable pub is_policy_cluster : NarrativeCluster F → Bool
  is_policy_cluster cluster = elim cluster.variable [
    | resistance_to_development ↦ true
    | displacement_concern ↦ true
    | _ ↦ false
  ]

  abbrev pub samples_of : List (NarrativeCluster F) → List String
  samples_of [] = []
  samples_of (c ∷ cs) = c.sample_narratives ++ samples_of cs

  unfoldable pub key_narratives : ℕ → List (NarrativeCluster F) → List String
  unfolding is_policy_cluster sort_stable
  key_narratives narrative_limit narratives = take narrative_limit (
      samples_of (take narrative_limit (sort_stable weaker (keep_if is_policy_cluster narratives))))

  unfoldable pub policy_risk : F → F → F
  unfolding clamp_unit
  policy_risk resistance displacement =
      clamp_unit (add (mul (lit 6 1) resistance) (mul (lit 4 1) displacement))

  abbrev pub friction_of : Option (MarketOutcomeSnapshot F) → Option F
  friction_of none = none
  friction_of (some outcome) = outcome.permit_friction

  abbrev pub sentiment_of : Option (MarketOutcomeSnapshot F) → Option F
  sentiment_of none = none
  sentiment_of (some outcome) = outcome.neighborhood_sentiment

  unfoldable pub build_policy_risk_brief :
      MarketContextSnapshot F
      → ReactionVector F
      → Option (MarketOutcomeSnapshot F)
      → List (NarrativeCluster F)
      → ℕ
      → PolicyRiskBrief F
  unfolding policy_risk risk_verdict key_narratives to_unit clamp_unit
  build_policy_risk_brief market reaction outcome narratives narrative_limit =
      let resistance = clamp_unit (to_unit reaction.resistance_to_development) in
      let displacement = clamp_unit (to_unit reaction.displacement_concern) in
      let (recommendation, headline) = risk_verdict (policy_risk resistance displacement) in
      record {
        jurisdiction = market.jurisdiction;
        zoning_code = market.zoning_code;
        resistance_score = resistance;
        displacement_risk = displacement;
        permit_friction = friction_of outcome;
        sentiment = sentiment_of outcome;
        headline = headline;
        recommendation = recommendation;
        key_narratives = key_narratives narrative_limit narratives;
      }
