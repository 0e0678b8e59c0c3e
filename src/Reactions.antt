-- ===== src/Reactions.antt =====
-- domain/reactions/models.py: the reaction variables, vectors and events; the children hold the
-- engine, the bridge from actors and market, and the social runtime.
pub mod Engine
pub mod Invariant
pub mod Narratives
pub mod Derive
pub mod Topics
pub mod Social
mod Tests
use real_estate_agent.Common.{ℕ, String, Option, List, [], ◌∷◌}
use real_estate_agent.Common.Dict.{Dict}
use real_estate_agent.Common.Enum.{member_of}
use real_estate_agent.Float.{Float, zero_f}

pub data Variable : Type 0 where
  trust_in_trajectory : Variable
  affordability_pressure : Variable
  perceived_safety : Variable
  social_proof : Variable
  displacement_concern : Variable
  investor_optimism : Variable
  willingness_to_transact : Variable
  resistance_to_development : Variable

unfoldable pub variable_name : Variable → String
variable_name trust_in_trajectory = "trust_in_trajectory"
variable_name affordability_pressure = "affordability_pressure"
variable_name perceived_safety = "perceived_safety"
variable_name social_proof = "social_proof"
variable_name displacement_concern = "displacement_concern"
variable_name investor_optimism = "investor_optimism"
variable_name willingness_to_transact = "willingness_to_transact"
variable_name resistance_to_development = "resistance_to_development"

abbrev pub reaction_variables : List Variable
reaction_variables =
    trust_in_trajectory ∷ affordability_pressure ∷ perceived_safety ∷ social_proof
    ∷ displacement_concern ∷ investor_optimism ∷ willingness_to_transact ∷ resistance_to_development
    ∷ []

-- `variable in REACTION_VARIABLES`, with the variable that it names.
unfoldable pub variable_of : String → Option Variable
unfolding member_of variable_name
variable_of = member_of variable_name reaction_variables

pub record ReactionVector {ℓ} (F : Type ℓ) : Type ℓ where
  pub trust_in_trajectory : F
  pub affordability_pressure : F
  pub perceived_safety : F
  pub social_proof : F
  pub displacement_concern : F
  pub investor_optimism : F
  pub willingness_to_transact : F
  pub resistance_to_development : F

-- `ReactionEvent`; instants are numbers, and the values of `metadata` are kept as text.
pub record ReactionEvent {ℓ} (F : Type ℓ) : Type ℓ where
  pub topic : String
  pub variable : String
  pub delta : F
  pub narrative : String
  pub metadata : Dict String String
  pub occurred_at : ℕ

module _ {ℓ} {F : Type ℓ} where
  -- `getattr(vector, variable)`
  unfoldable pub read : ReactionVector F → Variable → F
  read v Variable.trust_in_trajectory = v.trust_in_trajectory
  read v Variable.affordability_pressure = v.affordability_pressure
  read v Variable.perceived_safety = v.perceived_safety
  read v Variable.social_proof = v.social_proof
  read v Variable.displacement_concern = v.displacement_concern
  read v Variable.investor_optimism = v.investor_optimism
  read v Variable.willingness_to_transact = v.willingness_to_transact
  read v Variable.resistance_to_development = v.resistance_to_development

  -- `replace(vector, **{variable: value})`
  unfoldable pub write : ReactionVector F → Variable → F → ReactionVector F
  write v Variable.trust_in_trajectory x = record v { trust_in_trajectory = x }
  write v Variable.affordability_pressure x = record v { affordability_pressure = x }
  write v Variable.perceived_safety x = record v { perceived_safety = x }
  write v Variable.social_proof x = record v { social_proof = x }
  write v Variable.displacement_concern x = record v { displacement_concern = x }
  write v Variable.investor_optimism x = record v { investor_optimism = x }
  write v Variable.willingness_to_transact x = record v { willingness_to_transact = x }
  write v Variable.resistance_to_development x = record v { resistance_to_development = x }

-- `ReactionVector()`
unfoldable pub neutral_vector {ℓ} : {F : Type ℓ} ⦃d : Float F⦄ → ReactionVector F
neutral_vector = record {
  trust_in_trajectory = zero_f;
  affordability_pressure = zero_f;
  perceived_safety = zero_f;
  social_proof = zero_f;
  displacement_concern = zero_f;
  investor_optimism = zero_f;
  willingness_to_transact = zero_f;
  resistance_to_development = zero_f;
}
