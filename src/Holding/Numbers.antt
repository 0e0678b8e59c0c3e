-- ===== src/Holding/Numbers.antt =====
-- The scores of what is proposed for a holding.
use real_estate_agent.Decisions.Policies.Scores.{
  churn-UnitScore, lease-UnitScore, list_hold-UnitScore,
}
use real_estate_agent.Common.Sort.{sort_stable-All}
use real_estate_agent.Decisions.Runtime.Ranking.{collect-All, new_runtime_lem}
use real_estate_agent.Market.{MarketContextSnapshot}
use real_estate_agent.Common.Dict.{string_key, get}
use real_estate_agent.Actors.{Profile}
use real_estate_agent.Holding.Candidates.{
  refi_candidate-OnSome, policy_candidates-All, recommendations, proposals, HasNumber,
}
use real_estate_agent.Float.Ranking.{behind, sort_descending}
use real_estate_agent.Decisions.Runtime.{score_of, DecisionRecommendation, evaluate}
use real_estate_agent.Holding.{
  holding_policies, holding_context, policy_action_map, Profile, MarketContextSnapshot, get,
  HoldingFinancials, sort_descending, mapped_score, map_policy_rec, PortfolioHolding, refi_at,
}
use real_estate_agent.Float.Order.{
  IsNum-InUnit, clamp_signed-InSigned, IsNum-InSigned, IsNum, InUnit, IsOrdered,
}
use real_estate_agent.Float.{one_f, zero_f, min_f, Float}
use real_estate_agent.Common.{
  ℕ, inl, inr, Option, arith, Bool-cases, Option-cases, All, All-append, OnSome,
}

module _ {ℓ} {F : Type ℓ} ⦃d : Float F⦄ where
  module _ (laws : IsOrdered F) where
    mapped_score-IsNum : (x : F) → InUnit x → IsNum (mapped_score x)
    unfolding mapped_score
    mapped_score-IsNum x h = elim (Bool-cases (d.lt x zero_f)) [
      | inl e ↦ rw e (laws.round_num 4 _ (IsNum-InSigned laws _ (clamp_signed-InSigned laws x)))
      | inr e ↦ rw e (laws.round_num 4 x (IsNum-InUnit laws x h))
    ]

    map_policy_rec-HasNumber :
        (r : DecisionRecommendation F) → InUnit r.score → OnSome HasNumber (map_policy_rec r)
    unfolding map_policy_rec
    map_policy_rec-HasNumber r h = elim (Option-cases (get policy_action_map r.action)) [
      | inl e ↦ rw (e, map_policy_rec) tt
      | inr (a, e) ↦ rw (e, map_policy_rec) (mapped_score-IsNum r.score h)
    ]

    -- `min` with 1.0 in the first place is a number, be the second NaN.
    min_f-IsNum : (x : F) → IsNum (min_f one_f x)
    unfolding min_f
    min_f-IsNum x = elim (Bool-cases (d.lt x one_f)) [
      | inl e ↦ rw e (laws.num_of_le x one_f (laws.le_of_lt x one_f e)).0
      | inr e ↦ rw e (laws.lit_le 1 0 1 0 (omega arith))
    ]

    refi_at-HasNumber : (rate balance : F) → HasNumber (refi_at rate balance)
    unfolding refi_at
    refi_at-HasNumber rate balance = laws.round_num 4 _ (min_f-IsNum _)

    recommendations-UnitScore :
        (now : ℕ) (holding : PortfolioHolding) (fin : Option (HoldingFinancials F))
        (owner : Option (Profile F)) (s : MarketContextSnapshot F)
        → All
            (λ (r : DecisionRecommendation F). InUnit r.score)
            (recommendations now holding fin s owner)
    unfolding evaluate sort_descending
    recommendations-UnitScore now holding fin owner s =
        let context = holding_context now holding fin s owner in
        rw (new_runtime_lem holding_policies) (
          sort_stable-All (behind score_of) (λ (r : DecisionRecommendation F). InUnit r.score) _
            (collect-All (λ (r : DecisionRecommendation F). InUnit r.score) holding_policies context
              (
                list_hold-UnitScore laws context,
                (lease-UnitScore laws context, (churn-UnitScore laws context, tt)),
              )))

    pub proposals-HasNumber :
        (now : ℕ) (holding : PortfolioHolding) (fin : Option (HoldingFinancials F))
        (snapshot : Option (MarketContextSnapshot F)) (owner : Option (Profile F))
        → All HasNumber (proposals now holding fin snapshot owner)
    proposals-HasNumber now holding fin snapshot owner =
        All-append HasNumber _ _
          (policy_candidates-All HasNumber (λ (r : DecisionRecommendation F). InUnit r.score) now
            holding fin snapshot owner map_policy_rec-HasNumber
            (recommendations-UnitScore now holding fin owner))
          (refi_candidate-OnSome HasNumber fin refi_at-HasNumber)
