-- ===== src/Reactions/Derive/Signals.antt =====
-- The events of a holding and the vector that they fold to.
use real_estate_agent.Common.Dict.{get}
use real_estate_agent.Market.{MarketContextSnapshot}
use real_estate_agent.Actors.{ActorSignalState}
use real_estate_agent.Reactions.Invariant.{
  vector_for-apply_batch, apply_batch-IsBounded, IsBounded, fold_events,
}
use real_estate_agent.Reactions.Engine.{new_engine, vector_for, apply_delta}
use real_estate_agent.Reactions.Derive.{
  vector_for-apply_batch, apply_batch-IsBounded, actor_part, signal, holding_events, get, IsBounded,
  MarketContextSnapshot, new_engine, signed_delta, apply_delta, market_reaction_events, actor_event,
  actor_reaction_events, rent_events, safety_events, ActorSignalState, inventory_events, vector_for,
  fold_events, emit, build_reaction_vector,
}
use real_estate_agent.Float.Order.{clamp_signed-InSigned, InSigned, IsOrdered}
use real_estate_agent.Float.{zero_f, or_default, clamp_signed, is_truthy, Float}
use real_estate_agent.Common.{
  ap, ◌++◌, ℕ, String, ◌≡◌, refl, ◌∙◌, inl, inr, false, ◌&&◌, Option, none, some, List, [], ◌∷◌,
  map, foldl, Bool-cases, All, All-append, OnSome, keep_some-All, All-map,
}
use real_estate_agent.Reactions.{
  neutral_vector, reaction_variables, variable_name, ReactionEvent, ReactionVector, Float, Variable,
  affordability_pressure, perceived_safety, displacement_concern, investor_optimism,
  willingness_to_transact,
}

module _ {ℓ} {F : Type ℓ} ⦃d : Float F⦄ where
  open d use {lit, add, sub, mul, div, neg, eq}

  -- A registered event: its variable is one of the eight, its delta is a nonzero value in [-1, 1].
  abbrev pub IsSignal : ReactionEvent F → Type 0
  IsSignal e =
      (v : Variable) × (e.variable ≡ variable_name v)
      × InSigned e.delta
      × (eq e.delta zero_f ≡ false)

  module _ (laws : IsOrdered F) where
    signed_delta-InSigned : (v : Variable) (raw : F) → InSigned (signed_delta v raw)
    unfolding signed_delta
    signed_delta-InSigned Variable.trust_in_trajectory raw = clamp_signed-InSigned laws _
    signed_delta-InSigned _ raw = clamp_signed-InSigned laws _

    emit-IsSignal :
        (now : ℕ) (topic : String) (v : Variable) (delta : F) (n : String)
        → All IsSignal (emit now topic v delta n)
    unfolding emit
    emit-IsSignal now topic v delta n = elim (Bool-cases (eq (clamp_signed delta) zero_f)) [
      | inl e ↦ rw e tt
      | inr e ↦ rw e ((v, refl, clamp_signed-InSigned laws delta, e), tt)
    ]

    actor_event-IsSignal :
        (now : ℕ) (topic : String) (actor : ActorSignalState F) (v : Variable)
        → OnSome IsSignal (actor_event now topic actor v)
    unfolding actor_event
    actor_event-IsSignal now topic actor v =
        let raw = or_default zero_f (some (signal actor v)) in
        elim (Bool-cases (eq raw zero_f)) [
          | inl a ↦ rw a tt
          | inr b ↦ elim (Bool-cases (eq (signed_delta v raw) zero_f)) [
            | inl x ↦ rw (b, x) tt
            | inr y ↦ rw (b, y) (v, refl, signed_delta-InSigned v raw, y)
          ]
        ]

    actor_reaction_events-IsSignal :
        (now : ℕ) (topic : String) (actor : ActorSignalState F)
        → All IsSignal (actor_reaction_events now topic actor)
    unfolding actor_reaction_events
    actor_reaction_events-IsSignal now topic actor =
        keep_some-All IsSignal (map (actor_event now topic actor) reaction_variables) (
          All-map (OnSome IsSignal) (actor_event now topic actor) reaction_variables
            (actor_event-IsSignal now topic actor))

    inventory_events-IsSignal :
        (now : ℕ) (topic : String) (o : Option F) → All IsSignal (inventory_events now topic o)
    unfolding inventory_events
    inventory_events-IsSignal now topic none = tt
    inventory_events-IsSignal now topic (some x) =
        All-append IsSignal _ _ (emit-IsSignal now topic investor_optimism _ _)
          (emit-IsSignal now topic willingness_to_transact _ _)

    safety_events-IsSignal :
        (now : ℕ) (topic : String) (o : Option F) → All IsSignal (safety_events now topic o)
    unfolding safety_events
    safety_events-IsSignal now topic none = tt
    safety_events-IsSignal now topic (some x) =
        All-append IsSignal _ _ (emit-IsSignal now topic perceived_safety _ _)
          (emit-IsSignal now topic displacement_concern _ _)

    rent_events-IsSignal :
        (now : ℕ) (topic : String) (median rent : Option F)
        → All IsSignal (rent_events now topic median rent)
    unfolding rent_events
    rent_events-IsSignal now topic (some m) (some r) =
        elim (Bool-cases (is_truthy (some m) && is_truthy (some r))) [
          | inl e ↦ rw e (emit-IsSignal now topic affordability_pressure _ _)
          | inr e ↦ rw e tt
        ]
    rent_events-IsSignal now topic _ _ = tt

    -- Every event that actors and market give rise to names one of the eight variables and moves it
    -- by an amount in [-1, 1] that is not zero.
    pub holding_events-IsSignal :
        (now : ℕ) (actor : Option (ActorSignalState F)) (market : MarketContextSnapshot F)
        (monthly_rent : Option F)
        → All IsSignal (holding_events now actor market monthly_rent)
    unfolding market_reaction_events
    holding_events-IsSignal now actor market rent = All-append IsSignal _ _ (part actor) (
        All-append IsSignal _ _
          (inventory_events-IsSignal now "market_signal" market.inventory_pressure)
          (All-append IsSignal _ _ (safety_events-IsSignal now "market_signal" market.safety_score)
            (rent_events-IsSignal now "market_signal" market.median_rent rent)))
      where
        part : (o : Option (ActorSignalState F)) → All IsSignal (actor_part now o)
        part none = tt
        part (some a) = actor_reaction_events-IsSignal now "actor_signal" a

    -- The vector of a holding lies in [-1, 1] in all eight variables, for every owner and market.
    pub build_reaction_vector-IsBounded :
        (now : ℕ) (actor : Option (ActorSignalState F)) (market : MarketContextSnapshot F)
        (monthly_rent : Option F)
        → IsBounded (build_reaction_vector now actor market monthly_rent)
    unfolding build_reaction_vector
    build_reaction_vector-IsBounded now actor market rent =
        apply_batch-IsBounded laws
          (map (λ (e : ReactionEvent F). ("holding", e)) (holding_events now actor market rent))
          "holding"

  -- The events folded directly, without an engine.
  abbrev pub fold_all : ReactionVector F → List (ReactionEvent F) → ReactionVector F
  fold_all = foldl (λ v (e : ReactionEvent F). apply_delta v e.variable e.delta)

  fold_events-tagged :
      (events : List (ReactionEvent F)) (v : ReactionVector F)
      → fold_events "holding" v (map (λ (e : ReactionEvent F). ("holding", e)) events)
        ≡ fold_all v events
  fold_events-tagged [] v = refl
  fold_events-tagged (e ∷ events) v = fold_events-tagged events (apply_delta v e.variable e.delta)

  fold_all-append :
      (v : ReactionVector F) (xs ys : List (ReactionEvent F))
      → fold_all v (xs ++ ys) ≡ fold_all (fold_all v xs) ys
  fold_all-append v [] ys = refl
  fold_all-append v (x ∷ xs) ys = fold_all-append (apply_delta v x.variable x.delta) xs ys

  -- The neutral vector with the events of the owner's signals folded in, if there is an owner.
  abbrev pub owner_vector : ℕ → Option (ActorSignalState F) → ReactionVector F
  owner_vector now none = neutral_vector
  owner_vector now (some owner) =
      fold_all neutral_vector (actor_reaction_events now "actor_signal" owner)

  fold_all-actor_part :
      (now : ℕ) (actor : Option (ActorSignalState F))
      → fold_all neutral_vector (actor_part now actor) ≡ owner_vector now actor
  fold_all-actor_part now none = refl
  fold_all-actor_part now (some owner) = refl

  -- The vector of a holding is the neutral vector with the events of the owner's signals and then
  -- the events of the market folded in, one after the other; without an owner, only the market's.
  pub build_reaction_vector-fold_all :
      (now : ℕ) (actor : Option (ActorSignalState F)) (market : MarketContextSnapshot F)
      (monthly_rent : Option F)
      → build_reaction_vector now actor market monthly_rent
        ≡ fold_all
            (owner_vector now actor)
            (market_reaction_events now "market_signal" market monthly_rent)
  unfolding build_reaction_vector vector_for new_engine get
  build_reaction_vector-fold_all now actor market rent =
      let events = holding_events now actor market rent in
      let readings = market_reaction_events now "market_signal" market rent in
      vector_for-apply_batch (map (λ (e : ReactionEvent F). ("holding", e)) events) new_engine
        "holding"
      ∙ fold_events-tagged events neutral_vector
      ∙ fold_all-append neutral_vector (actor_part now actor) readings
      ∙ ap (λ v. fold_all v readings) (fold_all-actor_part now actor)
