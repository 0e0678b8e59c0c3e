-- ===== src/Actors.antt =====
-- domain/actors/profiles.py: the kinds of actors and the signals that profiles are projected to.
-- The duck-typed entity (an ORM row, a dictionary or a model) is a record of the attributes that the
-- code reads, `none` where one is missing.
pub mod Bounds
mod Tests
use real_estate_agent.Common.{
  ℕ, zero, suc, String, not, Option, none, some, List, [], ◌∷◌, map, str_eq, leb, if◌then◌else◌,
  length,
}
use real_estate_agent.Common.Dict.{Dict, Key, string_key, get}
use real_estate_agent.Common.Text.{strip, lower}
use real_estate_agent.Float.{
  Float, zero_f, one_f, max_f, clamp_unit, clamp_signed, or_default, sum_f,
}

pub data ActorType : Type 0 where
  buyer : ActorType
  seller : ActorType
  renter : ActorType
  landlord : ActorType
  broker : ActorType
  investor : ActorType
  city : ActorType
  business : ActorType
  household : ActorType
  unknown : ActorType

pub record ActorSignalState {ℓ} (F : Type ℓ) : Type ℓ where
  pub affordability_pressure : F
  pub trust_in_trajectory : F
  pub perceived_safety : F
  pub social_proof : F
  pub displacement_concern : F
  pub investor_optimism : F
  pub willingness_to_transact : F
  pub resistance_to_development : F

-- The attributes of a household; a count of connections is read as a float.
pub record Household {ℓ} (F : Type ℓ) : Type ℓ where
  pub id : Option String
  pub income_band : Option String
  pub housing_type : Option String
  pub monthly_income : Option F
  pub monthly_housing_cost : Option F
  pub policy_support_score : Option F
  pub housing_market_sentiment : Option F
  pub neighborhood_satisfaction : Option F
  pub eviction_risk : Option F
  pub social_connections : Option F

pub record HouseholdSignalSnapshot {ℓ} (F : Type ℓ) : Type ℓ where
  pub signals : ActorSignalState F
  pub household_id : Option String
  pub income_band : String
  pub housing_type : String

abbrev pub role_to_actor_type : Dict String ActorType
role_to_actor_type =
    ("buyer", buyer)
    ∷ ("seller", seller)
    ∷ ("renter", renter)
    ∷ ("tenant", renter)
    ∷ ("landlord", landlord)
    ∷ ("owner", landlord)
    ∷ ("broker", broker)
    ∷ ("agent", broker)
    ∷ ("investor", investor)
    ∷ ("city", city)
    ∷ ("official", city)
    ∷ ("business", business)
    ∷ ("household", household)
    ∷ ("both", buyer)
    ∷ []

-- The attributes of a user profile that the projection reads.
pub record Profile {ℓ} (F : Type ℓ) : Type ℓ where
  pub actor_type : Option String
  pub role : Option String
  pub housing_type : Option String
  pub budget_min : Option F
  pub budget_max : Option F
  pub timeline_days : Option ℕ
  pub risk_tolerance : Option String

-- `a or b` on texts: the empty text counts as missing.
unfoldable pub first_text : Option String → Option String → Option String
first_text none b = b
first_text (some a) b = if str_eq a "" then b else some a

-- `int(x or 90)`
abbrev pub or_ninety : Option ℕ → ℕ
or_ninety none = 90
or_ninety (some zero) = 90
or_ninety (some (suc n)) = suc n

abbrev pub or_text : String → Option String → String
or_text fallback none = fallback
or_text fallback (some s) = if str_eq s "" then fallback else s

-- The choice of the attribute and the table, `infer_actor_type` without its warning.
unfoldable pub infer_actor_type {ℓ} : {F : Type ℓ} → Profile F → ActorType
unfolding first_text get strip lower
infer_actor_type p = elim (first_text p.actor_type (first_text p.role p.housing_type)) [
  | none ↦ unknown
  | some key ↦ elim (get role_to_actor_type (lower (strip key))) [ none ↦ unknown | some t ↦ t ]
]

-- An attribute that is not there is "unknown".
abbrev pub or_unknown : Option String → String
or_unknown none = "unknown"
or_unknown (some s) = s

module _ {ℓ} {F : Type ℓ} ⦃d : Float F⦄ where
  open d use {lit, add, sub, mul, div, neg, lt, le, of_nat}

  -- The eight signals of `household_signal_snapshot`.
  unfoldable pub household_signals : Household F → ActorSignalState F
  unfolding or_default clamp_unit clamp_signed max_f
  household_signals h =
      let monthly_income = or_default zero_f h.monthly_income in
      let monthly_housing_cost = or_default zero_f h.monthly_housing_cost in
      let policy_support = or_default zero_f h.policy_support_score in
      let market_sentiment = or_default zero_f h.housing_market_sentiment in
      let neighborhood_satisfaction = or_default (lit 5 1) h.neighborhood_satisfaction in
      let eviction_risk = or_default zero_f h.eviction_risk in
      let affordability_pressure =
        if lt zero_f monthly_income
        then clamp_unit (div monthly_housing_cost monthly_income)
        else one_f in
      let perceived_safety = clamp_unit neighborhood_satisfaction in
      let displacement_concern = clamp_unit (
        add (mul affordability_pressure (lit 6 1))
          (mul (max_f zero_f (neg policy_support)) (lit 4 1))) in
      record {
        affordability_pressure = affordability_pressure;
        trust_in_trajectory = clamp_signed (div (add market_sentiment policy_support) (lit 2 0));
        perceived_safety = perceived_safety;
        social_proof = clamp_unit (div (or_default zero_f h.social_connections) (lit 12 0));
        displacement_concern = displacement_concern;
        investor_optimism = clamp_unit (max_f zero_f market_sentiment);
        willingness_to_transact = clamp_unit (
            add
              (div
                (max_f zero_f (sub (add market_sentiment perceived_safety) affordability_pressure))
                (lit 2 0))
              (lit 5 1));
        resistance_to_development =
            clamp_unit (add (mul displacement_concern (lit 7 1)) (mul eviction_risk (lit 3 1)));
      }

  -- `household_signal_snapshot`
  unfoldable pub household_signal_snapshot : Household F → HouseholdSignalSnapshot F
  unfolding household_signals
  household_signal_snapshot h = record {
    signals = household_signals h;
    household_id = h.id;
    income_band = or_unknown h.income_band;
    housing_type = or_unknown h.housing_type;
  }

  unfoldable pub risk_to_optimism : String → F
  risk_to_optimism raw =
      if str_eq raw "conservative"
      then lit 2 1
      else if str_eq raw "moderate"
      then lit 5 1
      else if str_eq raw "aggressive"
      then lit 8 1
      else lit 5 1

  unfoldable pub spread_pressure : F → F → F
  unfolding clamp_unit max_f
  spread_pressure budget_min budget_max =
      if lt zero_f budget_max
      then clamp_unit (sub one_f (div (max_f (sub budget_max budget_min) zero_f) budget_max))
      else lit 5 1

  -- The affordability pressure; a timeline of at most 30 days adds to it.
  unfoldable pub budget_pressure : Profile F → F
  unfolding or_default clamp_unit spread_pressure
  budget_pressure p =
      let pressure =
        spread_pressure (or_default zero_f p.budget_min) (or_default zero_f p.budget_max) in
      if leb (or_ninety p.timeline_days) 30 then clamp_unit (add pressure (lit 2 1)) else pressure

  unfoldable pub role_willingness : ActorType → F → F → F
  unfolding clamp_unit
  role_willingness seller pressure optimism =
      clamp_unit (add (lit 6 1) (mul (sub one_f pressure) (lit 3 1)))
  role_willingness buyer pressure optimism = clamp_unit (add (lit 5 1) (mul optimism (lit 4 1)))
  role_willingness _ pressure optimism = lit 5 1

  unfoldable pub user_profile_signals : Profile F → ActorSignalState F
  unfolding budget_pressure risk_to_optimism role_willingness infer_actor_type clamp_unit
      clamp_signed
  user_profile_signals p =
      let pressure = budget_pressure p in
      let optimism = risk_to_optimism (lower (or_text "moderate" p.risk_tolerance)) in
      record {
        affordability_pressure = pressure;
        trust_in_trajectory = clamp_signed (sub (mul optimism (lit 2 0)) one_f);
        perceived_safety = lit 5 1;
        social_proof = lit 5 1;
        displacement_concern = mul pressure (lit 5 1);
        investor_optimism = optimism;
        willingness_to_transact = role_willingness (infer_actor_type p) pressure optimism;
        resistance_to_development = clamp_unit (sub one_f optimism);
      }

-- `CohortSignalState`
pub record CohortSignalState {ℓ} (F : Type ℓ) : Type ℓ where
  pub signals : ActorSignalState F
  pub cohort_size : ℕ
  pub cohort_label : String
  pub actor_type : ActorType

module _ {ℓ} {F : Type ℓ} ⦃d : Float F⦄ where
  -- `ActorSignalState()`
  unfoldable pub neutral_signals : ActorSignalState F
  neutral_signals = record {
    affordability_pressure = zero_f;
    trust_in_trajectory = zero_f;
    perceived_safety = zero_f;
    social_proof = zero_f;
    displacement_concern = zero_f;
    investor_optimism = zero_f;
    willingness_to_transact = zero_f;
    resistance_to_development = zero_f;
  }

  unfoldable pub average_of : List (ActorSignalState F) → (ActorSignalState F → F) → F
  unfolding sum_f
  average_of snapshots field = d.div (sum_f (map field snapshots)) (d.of_nat (length snapshots))

  unfoldable pub cohort_signals :
      List (ActorSignalState F) → ActorType → String → CohortSignalState F
  unfolding neutral_signals average_of
  cohort_signals [] actor_type label = record {
    signals = neutral_signals;
    cohort_size = 0;
    cohort_label = label;
    actor_type = actor_type;
  }
  cohort_signals (s ∷ ss) actor_type label =
      let average = average_of (s ∷ ss) in
      record {
        signals = record {
          affordability_pressure = average (λ x. x.affordability_pressure);
          trust_in_trajectory = average (λ x. x.trust_in_trajectory);
          perceived_safety = average (λ x. x.perceived_safety);
          social_proof = average (λ x. x.social_proof);
          displacement_concern = average (λ x. x.displacement_concern);
          investor_optimism = average (λ x. x.investor_optimism);
          willingness_to_transact = average (λ x. x.willingness_to_transact);
          resistance_to_development = average (λ x. x.resistance_to_development);
        };
        cohort_size = length (s ∷ ss);
        cohort_label = label;
        actor_type = actor_type;
      }
