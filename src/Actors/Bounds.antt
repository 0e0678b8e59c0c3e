-- ===== src/Actors/Bounds.antt =====
-- The ranges of the projected signals.
use real_estate_agent.Common.{
  ℕ, ◌≤◌, String, ◌≡◌, Bool, true, false, none, some, arith, leb, if◌then◌else◌,
}
use real_estate_agent.Float.{Float, zero_f, one_f, or_default}
use real_estate_agent.Float.Order.{
  InUnit, InSigned, IsOrdered, clamp_unit-InUnit, clamp_signed-InSigned,
}
use real_estate_agent.Common.Text.{lower}
use real_estate_agent.Actors.{
  household_signal_snapshot, spread_pressure, or_ninety, or_text, ActorType, seller, buyer,
  Household, Profile, household_signals, risk_to_optimism, budget_pressure, role_willingness,
  user_profile_signals,
}

module _ {ℓ} {F : Type ℓ} ⦃d : Float F⦄ where
  open d use {lit, eq, lt}

  -- A satisfaction of exactly zero is projected as if it were missing.
  pub household_signals-zero_satisfaction :
      (h : Household F) (x : F)
      → eq x zero_f ≡ true
      → household_signal_snapshot (record h { neighborhood_satisfaction = some x })
        ≡ household_signal_snapshot (record h { neighborhood_satisfaction = none })
  unfolding household_signal_snapshot household_signals or_default
  household_signals-zero_satisfaction h x e = rw e

  module _ (laws : IsOrdered F) where
    one_unit : InUnit {F = F} one_f
    one_unit = (laws.lit_le 0 0 1 0 (omega arith), laws.lit_le 1 0 1 0 (omega arith))

    tenths : (n : ℕ) → n ≤ 10 → InUnit {F = F} (lit n 1)
    tenths n h = (laws.lit_le 0 0 n 1 (omega arith), laws.lit_le n 1 1 0 (omega arith))

    unit_if : (b : Bool) (x y : F) → InUnit x → InUnit y → InUnit (if b then x else y)
    unit_if true x y p q = p
    unit_if false x y p q = q

    -- Whatever a household reports, its trust lies in [-1, 1] and its other seven signals in [0, 1].
    pub household_signals_bounds :
        (h : Household F)
        → let s = (household_signal_snapshot h).signals in
          InUnit s.affordability_pressure
          × InSigned s.trust_in_trajectory
          × InUnit s.perceived_safety
          × InUnit s.social_proof
          × InUnit s.displacement_concern
          × InUnit s.investor_optimism
          × InUnit s.willingness_to_transact
          × InUnit s.resistance_to_development
    unfolding household_signal_snapshot
    household_signals_bounds h = (
      unit_if (lt zero_f (or_default zero_f h.monthly_income)) _ _ (clamp_unit-InUnit laws _)
          one_unit,
      clamp_signed-InSigned laws _,
      clamp_unit-InUnit laws _,
      clamp_unit-InUnit laws _,
      clamp_unit-InUnit laws _,
      clamp_unit-InUnit laws _,
      clamp_unit-InUnit laws _,
      clamp_unit-InUnit laws _,
    )

    spread_pressure-InUnit : (lo hi : F) → InUnit (spread_pressure lo hi)
    unfolding spread_pressure
    spread_pressure-InUnit lo hi =
        unit_if (lt zero_f hi) _ _ (clamp_unit-InUnit laws _) (tenths 5 (omega arith))

    budget_pressure-InUnit : (p : Profile F) → InUnit (budget_pressure p)
    unfolding budget_pressure
    budget_pressure-InUnit p =
        unit_if (leb (or_ninety p.timeline_days) 30) _ _ (clamp_unit-InUnit laws _)
          (spread_pressure-InUnit (or_default zero_f p.budget_min) (or_default zero_f p.budget_max))

    risk_to_optimism-InUnit : (s : String) → InUnit {F = F} (risk_to_optimism s)
    unfolding risk_to_optimism
    risk_to_optimism-InUnit s = unit_if _ _ _ (tenths 2 (omega arith)) (
        unit_if _ _ _ (tenths 5 (omega arith))
          (unit_if _ _ _ (tenths 8 (omega arith)) (tenths 5 (omega arith))))

    role_willingness-InUnit : (t : ActorType) (p o : F) → InUnit (role_willingness t p o)
    unfolding role_willingness
    role_willingness-InUnit seller p o = clamp_unit-InUnit laws _
    role_willingness-InUnit buyer p o = clamp_unit-InUnit laws _
    role_willingness-InUnit _ p o = tenths 5 (omega arith)

    -- Whatever a user profile holds, trust lies in [-1, 1], and pressure, safety, proof, optimism,
    -- willingness and resistance in [0, 1].
    pub user_profile_signals_bounds :
        (p : Profile F)
        → let s = user_profile_signals p in
          InUnit s.affordability_pressure
          × InSigned s.trust_in_trajectory
          × InUnit s.perceived_safety
          × InUnit s.social_proof
          × InUnit s.investor_optimism
          × InUnit s.willingness_to_transact
          × InUnit s.resistance_to_development
    unfolding user_profile_signals
    user_profile_signals_bounds p = (
      budget_pressure-InUnit p,
      clamp_signed-InSigned laws _,
      tenths 5 (omega arith),
      tenths 5 (omega arith),
      risk_to_optimism-InUnit (lower (or_text "moderate" p.risk_tolerance)),
      role_willingness-InUnit _ _ _,
      clamp_unit-InUnit laws _,
    )
