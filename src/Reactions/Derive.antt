-- ===== src/Reactions/Derive.antt =====
-- domain/reactions/derive.py: from actor signals and market readings to reaction events, and their
-- fold into the vector of a holding.
pub mod Signals
use real_estate_agent.Common.Dict.{get}
use real_estate_agent.Reactions.Invariant.{
  vector_for-apply_batch, apply_batch-IsBounded, IsBounded, fold_events,
}
use real_estate_agent.Float.Order.{clamp_signed-InSigned, InSigned, IsOrdered}
use real_estate_agent.Common.{
  ℕ, String, Bool, true, false, ◌&&◌, Option, none, some, List, [], ◌∷◌, ◌++◌, map, if◌then◌else◌,
  keep_some,
}
use Prim.Native.String.{◌++◌ as ◌⊕◌}
use real_estate_agent.Float.{Float, zero_f, one_f, clamp_signed, or_default, is_truthy}
use real_estate_agent.Market.{MarketContextSnapshot}
use real_estate_agent.Actors.{ActorSignalState}
use real_estate_agent.Reactions.{
  neutral_vector, Variable, affordability_pressure, perceived_safety, displacement_concern,
  investor_optimism, willingness_to_transact, variable_name, reaction_variables, ReactionVector,
  ReactionEvent,
}
use real_estate_agent.Reactions.Engine.{apply_delta, new_engine, vector_for, apply_batch}

module _ {ℓ} {F : Type ℓ} where
  -- `getattr(actor, variable)`
  unfoldable pub signal : ActorSignalState F → Variable → F
  signal a Variable.trust_in_trajectory = a.trust_in_trajectory
  signal a Variable.affordability_pressure = a.affordability_pressure
  signal a Variable.perceived_safety = a.perceived_safety
  signal a Variable.social_proof = a.social_proof
  signal a Variable.displacement_concern = a.displacement_concern
  signal a Variable.investor_optimism = a.investor_optimism
  signal a Variable.willingness_to_transact = a.willingness_to_transact
  signal a Variable.resistance_to_development = a.resistance_to_development

-- `variable in _SIGNED_ACTOR_VARIABLES`
abbrev pub is_signed : Variable → Bool
is_signed Variable.trust_in_trajectory = true
is_signed _ = false

module _ {ℓ} {F : Type ℓ} ⦃d : Float F⦄ where
  open d use {lit, add, sub, mul, div, neg, eq, show_fixed}

  -- An event with the defaults of `ReactionEvent`; `now` is the time of the call.
  abbrev pub event_at : ℕ → String → Variable → F → String → ReactionEvent F
  event_at now topic variable delta narrative = record {
    topic = topic;
    variable = variable_name variable;
    delta = delta;
    narrative = narrative;
    metadata = [];
    occurred_at = now;
  }

  unfoldable pub signed_delta : Variable → F → F
  unfolding clamp_signed
  signed_delta variable raw =
      if is_signed variable then clamp_signed raw else clamp_signed (sub (mul (lit 2 0) raw) one_f)

  -- One round of the loop of `actor_reaction_events`.
  unfoldable pub actor_event : ℕ → String → ActorSignalState F → Variable → Option (ReactionEvent F)
  unfolding or_default signal signed_delta
  actor_event now topic actor variable =
      let raw = or_default zero_f (some (signal actor variable)) in
      let delta = signed_delta variable raw in
      if eq raw zero_f
      then none
      else if eq delta zero_f
      then none
      else some (
          event_at now topic variable delta
            ("actor " ⊕ (variable_name variable ⊕ ("=" ⊕ show_fixed 3 raw))))

  unfoldable pub actor_reaction_events : ℕ → String → ActorSignalState F → List (ReactionEvent F)
  unfolding actor_event
  actor_reaction_events now topic actor =
      keep_some (map (actor_event now topic actor) reaction_variables)

  -- `_emit`
  unfoldable pub emit : ℕ → String → Variable → F → String → List (ReactionEvent F)
  emit now topic variable delta narrative =
      let clamped = clamp_signed delta in
      if eq clamped zero_f then [] else event_at now topic variable clamped narrative ∷ []

  unfoldable pub inventory_events : ℕ → String → Option F → List (ReactionEvent F)
  unfolding emit
  inventory_events now topic none = []
  inventory_events now topic (some pressure) =
      let slack = clamp_signed (sub one_f (mul (lit 2 0) pressure)) in
      let narrative = "inventory_pressure=" ⊕ show_fixed 3 pressure in
      emit now topic investor_optimism slack narrative
      ++ emit now topic willingness_to_transact slack narrative

  unfoldable pub safety_events : ℕ → String → Option F → List (ReactionEvent F)
  unfolding emit
  safety_events now topic none = []
  safety_events now topic (some score) =
      let safety = clamp_signed (sub (div score (lit 5 0)) one_f) in
      let narrative = "safety_score=" ⊕ show_fixed 3 score in
      emit now topic perceived_safety safety narrative
      ++ emit now topic displacement_concern (neg safety) narrative

  unfoldable pub rent_events : ℕ → String → Option F → Option F → List (ReactionEvent F)
  unfolding emit is_truthy
  rent_events now topic (some median) (some rent) =
      if is_truthy (some median) && is_truthy (some rent)
      then emit now topic affordability_pressure (div (sub rent median) median)
          ("rent " ⊕ (show_fixed 0 rent ⊕ (" vs median " ⊕ show_fixed 0 median)))
      else []
  rent_events now topic _ _ = []

  unfoldable pub market_reaction_events :
      ℕ → String → MarketContextSnapshot F → Option F → List (ReactionEvent F)
  unfolding inventory_events safety_events rent_events
  market_reaction_events now topic market monthly_rent =
      inventory_events now topic market.inventory_pressure
      ++ (safety_events now topic market.safety_score
          ++ rent_events now topic market.median_rent monthly_rent)

  abbrev pub actor_part : ℕ → Option (ActorSignalState F) → List (ReactionEvent F)
  actor_part now none = []
  actor_part now (some actor) = actor_reaction_events now "actor_signal" actor

  abbrev pub holding_events :
      ℕ → Option (ActorSignalState F) → MarketContextSnapshot F → Option F → List (ReactionEvent F)
  holding_events now actor market monthly_rent =
      actor_part now actor ++ market_reaction_events now "market_signal" market monthly_rent

  unfoldable pub build_reaction_vector :
      ℕ → Option (ActorSignalState F) → MarketContextSnapshot F → Option F → ReactionVector F
  build_reaction_vector now actor market monthly_rent =
      vector_for
        (apply_batch new_engine (
          map (λ (e : ReactionEvent F). ("holding", e))
            (holding_events now actor market monthly_rent)))
        "holding"
