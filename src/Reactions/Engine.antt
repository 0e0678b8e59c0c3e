-- ===== src/Reactions/Engine.antt =====
-- domain/reactions/engine.py: `_apply_delta`, `ReactionEngine` with its convergence report. The
-- `str` keys are actor ids. Warnings that are only logged are left out.
use real_estate_agent.Common.{String, Bool, true, Option, none, some, List, [], ◌∷◌, map, length}
use real_estate_agent.Common.Dict.{Dict, string_key, get, assign, values}
use real_estate_agent.Float.{Float, zero_f, clamp_signed, sum_f}
use real_estate_agent.Reactions.{
  Variable, reaction_variables, variable_of, ReactionVector, ReactionEvent, read, write,
  neutral_vector,
}

pub record ReactionEngine {ℓ} (F : Type ℓ) : Type ℓ where
  pub convergence_threshold : F
  pub vectors : Dict String (ReactionVector F)

pub record ConvergenceReport {ℓ} (F : Type ℓ) : Type ℓ where
  pub per_variable_variance : Dict Variable F
  pub aggregate_variance : F
  pub is_converged : Bool

module _ {ℓ} {F : Type ℓ} ⦃d : Float F⦄ where
  open d use {add, sub, div, power, lit, lt, of_nat}

  -- `_apply_delta`; a variable that is not registered leaves the vector as it is.
  unfoldable pub apply_delta : ReactionVector F → String → F → ReactionVector F
  unfolding variable_of read write
  apply_delta vector variable delta = elim (variable_of variable) [
    | none ↦ vector
    | some v ↦ write vector v (clamp_signed (add (read vector v) delta))
  ]

  unfoldable pub new_engine : ReactionEngine F
  new_engine = record { convergence_threshold = lit 2 2; vectors = [] }

  abbrev pub or_neutral : Option (ReactionVector F) → ReactionVector F
  or_neutral none = neutral_vector
  or_neutral (some v) = v

  unfoldable pub vector_for : ReactionEngine F → String → ReactionVector F
  vector_for engine actor_id = or_neutral (get engine.vectors actor_id)

  -- `apply`: the engine afterwards; the vector that it returns is `vector_for` of the actor.
  unfoldable pub apply : ReactionEngine F → String → ReactionEvent F → ReactionEngine F
  unfolding vector_for
  apply engine actor_id event = record engine {
    vectors =
        assign engine.vectors actor_id
          (apply_delta (vector_for engine actor_id) event.variable event.delta);
  }

  unfoldable pub apply_batch : ReactionEngine F → List (String × ReactionEvent F) → ReactionEngine F
  apply_batch engine [] = engine
  apply_batch engine ((actor_id, event) ∷ rest) = apply_batch (apply engine actor_id event) rest

  -- The mean and the variance of a list that is not empty.
  unfoldable pub mean_of : List F → F
  unfolding sum_f
  mean_of samples = div (sum_f samples) (of_nat (length samples))

  unfoldable pub variance_of : List F → F
  unfolding mean_of sum_f
  variance_of samples =
      let mean = mean_of samples in
      div (sum_f (map (λ s. power (sub s mean) 2) samples)) (of_nat (length samples))

  unfoldable pub convergence : ReactionEngine F → ConvergenceReport F
  unfolding variance_of mean_of
  convergence engine = elim engine.vectors [
    | [] ↦ record {
      per_variable_variance = map (λ v. (v, zero_f)) reaction_variables;
      aggregate_variance = zero_f;
      is_converged = true;
    }
    | e ∷ es ↦
        let per_var =
          map (λ (v : Variable). variance_of (map (λ x. read x v) (values (e ∷ es))))
            reaction_variables in
        let aggregate = mean_of per_var in
        record {
          per_variable_variance =
              map (λ (v : Variable). (v, variance_of (map (λ x. read x v) (values (e ∷ es)))))
                reaction_variables;
          aggregate_variance = aggregate;
          is_converged = lt aggregate engine.convergence_threshold;
        }
  ]

  unfoldable pub divergence_score : ReactionEngine F → F
  unfolding convergence
  divergence_score engine = (convergence engine).aggregate_variance
