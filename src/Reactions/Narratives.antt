-- ===== src/Reactions/Narratives.antt =====
-- domain/reactions/engine.py: `extract_narratives`, which groups events by variable and direction.
pub mod Keys
pub mod Counting
use real_estate_agent.Common.{
  ℕ, zero, String, ◌≡◌, ◌↔◌, Bool, true, not, ◌&&◌, Option, none, some, List, [], ◌∷◌, ◌++◌, map,
  arith, str_eq, ◌==◌, if◌then◌else◌, length, take, keep_if,
}
use real_estate_agent.Common.Dict.{Dict, Key, get, assign}
use real_estate_agent.Common.Sort.{sort_stable, sum_by, sum_by-sort_stable}
use real_estate_agent.Float.{Float, zero_f, sum_f}
use real_estate_agent.Reactions.{Variable, variable_of, ReactionEvent}

pub data Direction : Type 0 where
  positive : Direction
  negative : Direction

-- The key of a bucket.
abbrev pub Bucket : Type 0
Bucket = Variable × Direction

pub record NarrativeCluster {ℓ} (F : Type ℓ) : Type ℓ where
  pub variable : Variable
  pub direction : Direction
  pub total_delta : F
  pub event_count : ℕ
  pub sample_narratives : List String

unfoldable pub variable_index : Variable → ℕ
variable_index Variable.trust_in_trajectory = 0
variable_index Variable.affordability_pressure = 1
variable_index Variable.perceived_safety = 2
variable_index Variable.social_proof = 3
variable_index Variable.displacement_concern = 4
variable_index Variable.investor_optimism = 5
variable_index Variable.willingness_to_transact = 6
variable_index Variable.resistance_to_development = 7

pub direction_index : Direction → ℕ
direction_index positive = 0
direction_index negative = 1

unfoldable pub same_bucket : Bucket → Bucket → Bool
unfolding variable_index direction_index
same_bucket (v, a) (w, b) =
    (variable_index v == variable_index w) && (direction_index a == direction_index b)

pub same_variable_iff : (v w : Variable) → ((variable_index v == variable_index w) ≡ true) ↔ (v ≡ w)
unfolding variable_index
same_variable_iff v w = ground arith

same_direction_iff : (a b : Direction) → ((direction_index a == direction_index b) ≡ true) ↔ (a ≡ b)
unfolding direction_index
same_direction_iff a b = ground arith

pub same_bucket_iff : (a b : Bucket) → (same_bucket a b ≡ true) ↔ (a ≡ b)
unfolding same_bucket
same_bucket_iff (v, a) (w, b) = ground (arith, same_variable_iff v w, same_direction_iff a b)

instance abbrev pub bucket_key : Key Bucket
bucket_key = record { same = same_bucket; same_iff = same_bucket_iff }

abbrev pub Buckets {ℓ} : Type ℓ → Type ℓ
Buckets F = Dict Bucket (List (ReactionEvent F))

module _ {ℓ} {F : Type ℓ} ⦃d : Float F⦄ where
  open d use {lt, eq, abs}

  -- `defaultdict(list)`
  abbrev pub or_empty : Option (List (ReactionEvent F)) → List (ReactionEvent F)
  or_empty none = []
  or_empty (some events) = events

  -- The bucket of an event, unless its variable is unknown or its delta is zero.
  unfoldable pub bucket_of : ReactionEvent F → Option Bucket
  unfolding variable_of
  bucket_of event = elim (variable_of event.variable) [
    | none ↦ none
    | some v ↦
        if eq event.delta zero_f
        then none
        else some (v, if lt zero_f event.delta then positive else negative)
  ]

  unfoldable pub add_to_bucket : Buckets F → Option Bucket → ReactionEvent F → Buckets F
  add_to_bucket buckets none event = buckets
  add_to_bucket buckets (some k) event = assign buckets k (or_empty (get buckets k) ++ (event ∷ []))

  -- The first loop.
  unfoldable pub group_events : Buckets F → List (ReactionEvent F) → Buckets F
  group_events buckets [] = buckets
  group_events buckets (event ∷ events) =
      group_events (add_to_bucket buckets (bucket_of event) event) events

  -- The narratives of the strongest events, the empty ones left out.
  unfoldable pub sample_of : ℕ → List (ReactionEvent F) → List String
  sample_of sample_limit grouped =
      keep_if (λ n. not (str_eq n ""))
        (map (λ (e : ReactionEvent F). e.narrative)
          (take sample_limit
            (sort_stable (λ (x y : ReactionEvent F). lt (abs x.delta) (abs y.delta)) grouped)))

  unfoldable pub cluster_of : ℕ → Bucket × List (ReactionEvent F) → NarrativeCluster F
  unfolding sum_f sample_of
  cluster_of sample_limit ((variable, direction), grouped) = record {
    variable = variable;
    direction = direction;
    total_delta = sum_f (map (λ (e : ReactionEvent F). e.delta) grouped);
    event_count = length grouped;
    sample_narratives = sample_of sample_limit grouped;
  }

  abbrev pub weaker : NarrativeCluster F → NarrativeCluster F → Bool
  weaker x y = lt (abs x.total_delta) (abs y.total_delta)

  unfoldable pub extract_narratives : ℕ → List (ReactionEvent F) → List (NarrativeCluster F)
  unfolding group_events cluster_of
  extract_narratives sample_limit events =
      sort_stable weaker (map (cluster_of sample_limit) (group_events [] events))
