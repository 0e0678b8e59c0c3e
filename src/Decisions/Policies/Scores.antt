-- ===== src/Decisions/Policies/Scores.antt =====
-- The scores of the policies and the moves that they recommend.
use real_estate_agent.Decisions.Runtime.Ranking.{Recommends}
use real_estate_agent.Decisions.Runtime.{recommended, DecisionContext, DecisionRecommendation}
use real_estate_agent.Decisions.Policies.{
  policy, lease_policy, list_score, churn_risk, hold_score, churn_policy, resistance_score,
  lease_move, dev_resistance_policy, to_unit, one_f, recommended, DecisionContext, list_hold_policy,
}
use real_estate_agent.Float.Order.{IsNum-InUnit, ◌≼◌, clamp_unit-InUnit, InUnit, IsOrdered}
use real_estate_agent.Float.{to_unit, one_f, Float}
use real_estate_agent.Common.{
  ◌≡◌, ◌⊎◌, inl, inr, true, false, some, [], ◌∷◌, arith, Option-cases, All,
}

abbrev pub UnitScore {ℓ} : {F : Type ℓ} ⦃d : Float F⦄ → DecisionRecommendation F → Type 0
UnitScore r = InUnit r.score

module _ {ℓ} {F : Type ℓ} ⦃d : Float F⦄ (laws : IsOrdered F) where
  open d use {lit, lt, le}

  list_score-InUnit : (x y : F) → InUnit (list_score x y)
  unfolding list_score
  list_score-InUnit x y = clamp_unit-InUnit laws _

  hold_score-InUnit : (x y : F) → InUnit (hold_score x y)
  unfolding hold_score
  hold_score-InUnit x y = clamp_unit-InUnit laws _

  churn_risk-InUnit : (x y : F) → InUnit (churn_risk x y)
  unfolding churn_risk
  churn_risk-InUnit x y = clamp_unit-InUnit laws _

  resistance_score-InUnit : (x y : F) → InUnit (resistance_score x y)
  unfolding resistance_score
  resistance_score-InUnit x y = clamp_unit-InUnit laws _

  lease_move-UnitScore : (x y : F) → UnitScore (lease_move x y)
  unfolding lease_move
  lease_move-UnitScore x y = ground (
    arith,
    clamp_unit-InUnit laws x,
    clamp_unit-InUnit laws (d.mul y (d.sub one_f x)),
    laws.lit_le 0 0 4 1 (omega arith),
    laws.lit_le 4 1 1 0 (omega arith),
  )

  pub list_hold-UnitScore :
      (context : DecisionContext F) (r : DecisionRecommendation F)
      → list_hold_policy context ≡ recommended r
      → UnitScore r
  unfolding list_hold_policy
  list_hold-UnitScore context r e = elim (Option-cases context.market.inventory_pressure) [
    | inl n ↦ ground (arith, n)
    | inr (x, s) ↦ ground (
      arith,
      list_score-InUnit x (to_unit context.reaction.investor_optimism),
      hold_score-InUnit x (to_unit context.reaction.displacement_concern),
    )
  ]

  pub lease-UnitScore :
      (context : DecisionContext F) (r : DecisionRecommendation F)
      → lease_policy context ≡ recommended r
      → UnitScore r
  unfolding lease_policy
  lease-UnitScore context r e = ground (
    arith,
    lease_move-UnitScore (to_unit context.reaction.affordability_pressure)
        (to_unit context.reaction.willingness_to_transact),
  )

  pub churn-UnitScore :
      (context : DecisionContext F) (r : DecisionRecommendation F)
      → churn_policy context ≡ recommended r
      → UnitScore r
  unfolding churn_policy
  churn-UnitScore context r e = ground (
    arith,
    churn_risk-InUnit (to_unit context.reaction.displacement_concern)
        (to_unit context.reaction.perceived_safety),
  )

  pub dev_resistance-UnitScore :
      (context : DecisionContext F) (r : DecisionRecommendation F)
      → dev_resistance_policy context ≡ recommended r
      → UnitScore r
  unfolding dev_resistance_policy
  dev_resistance-UnitScore context r e = ground (
    arith,
    resistance_score-InUnit (to_unit context.reaction.resistance_to_development)
        (to_unit context.reaction.displacement_concern),
  )

  -- In every context, NaN readings included, the scores of the list-or-hold, lease, churn and
  -- resistance policies lie in [0, 1].
  pub default_policies-UnitScore :
      (context : DecisionContext F)
      → All (Recommends UnitScore context) (
          policy "list_hold" list_hold_policy
          ∷ policy "lease" lease_policy
          ∷ policy "churn" churn_policy
          ∷ policy "dev_resistance" dev_resistance_policy
          ∷ [])
  default_policies-UnitScore context = (
    list_hold-UnitScore context,
    (lease-UnitScore context, (churn-UnitScore context, (dev_resistance-UnitScore context, tt))),
  )

  -- The recommended action follows the scores: `list` where the list score is at least the hold
  -- score, and `hold` elsewhere; the score is then the larger of the two.
  pub list_hold_policy-choice :
      (context : DecisionContext F) (r : DecisionRecommendation F)
      → list_hold_policy context ≡ recommended r
      → (inventory : F) × (context.market.inventory_pressure ≡ some inventory)
        × (let listed = list_score inventory (to_unit context.reaction.investor_optimism) in
            let held = hold_score inventory (to_unit context.reaction.displacement_concern) in
            ((r.action ≡ "list") × (held ≼ listed) × (r.score ≡ listed))
            ⊎ ((r.action ≡ "hold")
                × (d.le held listed ≡ false)
                × (listed ≼ held)
                × (r.score ≡ held)))
  unfolding list_hold_policy
  list_hold_policy-choice context r e = elim (Option-cases context.market.inventory_pressure) [
    | inl n ↦ absurd (ground (arith, n))
    | inr (x, s) ↦
        let listed = list_score x (to_unit context.reaction.investor_optimism) in
        let held = hold_score x (to_unit context.reaction.displacement_concern) in
        let total =
          laws.le_total listed held
            (IsNum-InUnit laws listed
              (list_score-InUnit x (to_unit context.reaction.investor_optimism)))
            (IsNum-InUnit laws held
              (hold_score-InUnit x (to_unit context.reaction.displacement_concern))) in
        (x, s, ground (arith, total))
  ]

module _ {ℓ} {F : Type ℓ} ⦃d : Float F⦄ where
  open d use {lit, lt}

  -- The three rent moves: a freeze where more than 0.7 of the affordability is gone, whatever the
  -- willingness is; a rise where it is not, less than 0.5 is gone and the willingness is over 0.6;
  -- and elsewhere the rent is held.
  pub lease_move_cases :
      (affordability willingness : F)
      → (((lease_move affordability willingness).action ≡ "freeze_rent")
          × (lt (lit 7 1) affordability ≡ true))
        ⊎ (((lease_move affordability willingness).action ≡ "raise_rent")
            × (lt (lit 7 1) affordability ≡ false)
            × (lt affordability (lit 5 1) ≡ true)
            × (lt (lit 6 1) willingness ≡ true))
        ⊎ (((lease_move affordability willingness).action ≡ "hold_rent")
            × (lt (lit 7 1) affordability ≡ false)
            × ((lt affordability (lit 5 1) ≡ false) ⊎ (lt (lit 6 1) willingness ≡ false)))
  unfolding lease_move
  lease_move_cases x y = ground arith
