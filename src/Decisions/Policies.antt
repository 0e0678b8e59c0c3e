-- ===== src/Decisions/Policies.antt =====
-- domain/decisions/policies.py: the five built-in policies. `show_status` is the interpreter's format
-- of a negotiation status in an f-string, which differs between versions of Python for enums.
pub mod Scores
use real_estate_agent.Common.Show.{show_nat}
use real_estate_agent.Decisions.Runtime.{
  raised, negotiation, declined, recommended, figures, DecisionPolicy, Evaluation,
  DecisionRecommendation, DecisionContext,
}
use real_estate_agent.Decisions.Negotiation.Analysis.{
  default_options, build_negotiation_analysis, NegotiationAnalysis, AnalysisResult, round_error,
  insufficient_data, complete,
}
use real_estate_agent.Common.Enum.{text, member, Input}
use real_estate_agent.Float.{zero_f, one_f, max_f, to_unit, clamp_unit, Float}
use real_estate_agent.Decisions.Negotiation.{resolve_offer_action, idle, State, Action}
use real_estate_agent.Common.{
  ℕ, ◌%◌, String, Bool, false, ◌&&◌, Option, none, some, List, [], ◌∷◌, ◌++◌, str_eq, ◌==◌,
  if◌then◌else◌,
}
use Prim.Native.String.{◌++◌ as ◌⊕◌}

-- `meta.get("negotiation_state") or NegotiationState.IDLE`; the empty text counts as missing.
unfoldable pub status_or_idle : Option (Input State) → Input State
status_or_idle none = member idle
status_or_idle (some (text s)) = if str_eq s "" then member idle else text s
status_or_idle (some (member s)) = member s

abbrev pub or_zero : Option ℕ → ℕ
or_zero none = 0
or_zero (some n) = n

-- `list(meta.get("offer_prices") or [])`
abbrev pub or_nil {ℓ} : {A : Type ℓ} → Option (List A) → List A
or_nil none = []
or_nil (some xs) = xs

-- `analysis.get(...) == expected`
abbrev pub is_text : Option String → String → Bool
is_text none expected = false
is_text (some s) expected = str_eq s expected

-- The label of the next move: an escalation or a split comes before the offer or counter.
unfoldable pub action_label : Action → Option String → String
action_label next recommendation =
    if is_text recommendation "escalate_to_broker"
    then "escalate_to_broker"
    else if is_text recommendation "suggest_split"
    then "suggest_split"
    else elim next [ Action.place_offer ↦ "place_offer" | _ ↦ "counter" ]

-- The zoning part of a rationale: nothing for a missing or an empty code.
abbrev pub zoning_text : Option String → String
zoning_text none = ""
zoning_text (some code) = if str_eq code "" then "" else " zoning=" ⊕ code

module _ {ℓ} {F : Type ℓ} ⦃d : Float F⦄ where
  open d use {lit, add, sub, mul, lt, le, eq, show_fixed, show_float}

  -- What the policy reads of an analysis; it has no keys if there are fewer than two prices.
  abbrev pub zopa_found : Option (NegotiationAnalysis F) → Bool
  zopa_found none = false
  zopa_found (some a) = elim a.zopa_detected [ none ↦ false | some b ↦ b ]

  abbrev pub broker_found : Option (NegotiationAnalysis F) → Bool
  broker_found none = false
  broker_found (some a) = a.broker_mediation_recommended

  abbrev pub recommendation_of : Option (NegotiationAnalysis F) → Option String
  recommendation_of none = none
  recommendation_of (some a) = a.recommendation

  abbrev pub spread_text : Option (NegotiationAnalysis F) → String
  spread_text none = "None"
  spread_text (some a) = show_float a.spread_percent

  unfoldable pub negotiation_score : F → Option (NegotiationAnalysis F) → F
  unfolding clamp_unit to_unit max_f
  negotiation_score willingness_to_transact analysis =
      let base = add (lit 4 1) (mul (lit 4 1) (clamp_unit (to_unit willingness_to_transact))) in
      let with_zopa = if zopa_found analysis then max_f base (lit 85 2) else base in
      if broker_found analysis then max_f with_zopa (lit 9 1) else with_zopa

  unfoldable pub negotiation_recommendation :
      (Input State → String)
      → DecisionContext F
      → Input State
      → Action
      → ℕ
      → Option (NegotiationAnalysis F)
      → DecisionRecommendation F
  unfolding action_label negotiation_score
  negotiation_recommendation show_status context current next round_count analysis = record {
    kind = "negotiation";
    action = action_label next (recommendation_of analysis);
    score = negotiation_score context.reaction.willingness_to_transact analysis;
    rationale =
        "round="
        ⊕ (show_nat round_count
            ⊕ (" state=" ⊕ (show_status current ⊕ (" spread=" ⊕ (spread_text analysis ⊕ "%")))));
    payload = negotiation analysis;
  }

  abbrev pub with_analysis :
      (Option (NegotiationAnalysis F) → DecisionRecommendation F) → AnalysisResult F → Evaluation F
  with_analysis recommend round_error = raised
  with_analysis recommend insufficient_data = recommended (recommend none)
  with_analysis recommend (complete a) = recommended (recommend (some a))

  -- `NegotiationPolicy.evaluate`
  unfoldable pub negotiation_policy : (Input State → String) → DecisionContext F → Evaluation F
  negotiation_policy show_status context =
      let offer_prices = or_nil context.metadata.offer_prices in
      let current = status_or_idle context.metadata.negotiation_state in
      let round_count = or_zero context.metadata.round_count in
      elim offer_prices [
        | [] ↦ declined
        | p ∷ ps ↦ elim (resolve_offer_action current) [
          | none ↦ raised
          | some next ↦
              with_analysis
                (negotiation_recommendation show_status context current next round_count)
                (build_negotiation_analysis default_options round_count (p ∷ ps))
        ]
      ]

  unfoldable pub list_score : F → F → F
  unfolding clamp_unit
  list_score inventory optimism =
      clamp_unit (add (mul (lit 5 1) (sub one_f inventory)) (mul (lit 5 1) optimism))

  unfoldable pub hold_score : F → F → F
  unfolding clamp_unit
  hold_score inventory displacement =
      clamp_unit (add (mul (lit 5 1) inventory) (mul (lit 5 1) displacement))

  -- `ListHoldPolicy.evaluate`
  unfoldable pub list_hold_policy : DecisionContext F → Evaluation F
  list_hold_policy context = elim context.market.inventory_pressure [
    | none ↦ declined
    | some inventory ↦
        let optimism = to_unit context.reaction.investor_optimism in
        let displacement = to_unit context.reaction.displacement_concern in
        let listed = list_score inventory optimism in
        let held = hold_score inventory displacement in
        let payload = figures (("list_score", listed) ∷ ("hold_score", held) ∷ []) in
        recommended (
          if le held listed
          then record {
            kind = "list_hold";
            action = "list";
            score = listed;
            rationale =
                "inventory_pressure="
                ⊕ (show_fixed 2 inventory ⊕ (" optimism=" ⊕ show_fixed 2 optimism));
            payload = payload;
          }
          else record {
            kind = "list_hold";
            action = "hold";
            score = held;
            rationale =
                "inventory_pressure="
                ⊕ (show_fixed 2 inventory ⊕ (" displacement=" ⊕ show_fixed 2 displacement));
            payload = payload;
          })
  ]

  unfoldable pub lease_move : F → F → DecisionRecommendation F
  unfolding clamp_unit
  lease_move affordability willingness =
      if lt (lit 7 1) affordability
      then record {
        kind = "lease";
        action = "freeze_rent";
        score = clamp_unit affordability;
        rationale =
            "affordability_pressure=" ⊕ (show_fixed 2 affordability ⊕ " — tenant retention risk");
        payload = figures (("affordability", affordability) ∷ []);
      }
      else if lt (lit 6 1) willingness && lt affordability (lit 5 1)
      then record {
        kind = "lease";
        action = "raise_rent";
        score = clamp_unit (mul willingness (sub one_f affordability));
        rationale =
            "willingness="
            ⊕ (show_fixed 2 willingness ⊕ (" affordability=" ⊕ show_fixed 2 affordability));
        payload = figures (("willingness", willingness) ∷ ("affordability", affordability) ∷ []);
      }
      else record {
        kind = "lease";
        action = "hold_rent";
        score = lit 4 1;
        rationale = "balanced affordability/willingness — no rent move";
        payload = figures (("affordability", affordability) ∷ ("willingness", willingness) ∷ []);
      }

  -- `LeasePolicy.evaluate`
  unfoldable pub lease_policy : DecisionContext F → Evaluation F
  lease_policy context = elim context.market.median_rent [
    | none ↦ declined
    | some _ ↦ recommended (
        lease_move (to_unit context.reaction.affordability_pressure)
          (to_unit context.reaction.willingness_to_transact))
  ]

  unfoldable pub churn_risk : F → F → F
  unfolding clamp_unit
  churn_risk displacement safety =
      clamp_unit (add (mul (lit 6 1) displacement) (mul (lit 4 1) (sub one_f safety)))

  -- `ChurnPolicy.evaluate`
  unfoldable pub churn_policy : DecisionContext F → Evaluation F
  churn_policy context =
      let displacement = to_unit context.reaction.displacement_concern in
      let safety = to_unit context.reaction.perceived_safety in
      let risk = churn_risk displacement safety in
      if eq context.reaction.displacement_concern zero_f
        && eq context.reaction.perceived_safety zero_f
      then declined
      else recommended (record {
        kind = "churn";
        action = if lt (lit 6 1) risk then "intervene" else "monitor";
        score = risk;
        rationale =
            "displacement=" ⊕ (show_fixed 2 displacement ⊕ (" safety=" ⊕ show_fixed 2 safety));
        payload = figures (("risk", risk) ∷ []);
      })

  unfoldable pub resistance_score : F → F → F
  unfolding clamp_unit
  resistance_score resistance displacement =
      clamp_unit (add (mul (lit 7 1) resistance) (mul (lit 3 1) displacement))

  -- `DevResistancePolicy.evaluate`
  unfoldable pub dev_resistance_policy : DecisionContext F → Evaluation F
  dev_resistance_policy context =
      let resistance = to_unit context.reaction.resistance_to_development in
      let displacement = to_unit context.reaction.displacement_concern in
      let score = resistance_score resistance displacement in
      recommended (record {
        kind = "dev_resistance";
        action = if lt (lit 6 1) score then "expect_pushback" else "proceed";
        score = score;
        rationale =
            "resistance="
            ⊕ (show_fixed 2 resistance
                ⊕ (" displacement="
                    ⊕ (show_fixed 2 displacement ⊕ zoning_text context.market.zoning_code)));
        payload = figures (("resistance", resistance) ∷ ("displacement", displacement) ∷ []);
      })

  abbrev pub policy : String → (DecisionContext F → Evaluation F) → DecisionPolicy F
  policy kind run = record { kind = kind; evaluate = run }

  unfoldable pub default_policies : (Input State → String) → List (DecisionPolicy F)
  default_policies show_status =
      policy "negotiation" (negotiation_policy show_status)
      ∷ policy "list_hold" list_hold_policy
      ∷ policy "lease" lease_policy
      ∷ policy "churn" churn_policy
      ∷ policy "dev_resistance" dev_resistance_policy
      ∷ []
