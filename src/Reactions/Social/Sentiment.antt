-- ===== src/Reactions/Social/Sentiment.antt =====
-- domain/reactions/runtime.py: `compute_sentiment_delta`. `none` is the `KeyError` of a household
-- without opinions.
use real_estate_agent.Common.Dict.{string_key, assign, Dict}
use real_estate_agent.Reactions.Social.{Dict, Opinions, SocialReactionRuntime}
use real_estate_agent.Reactions.Social.Stances.{at_least_one, values_on}
use real_estate_agent.Float.{sum_f, Float}
use real_estate_agent.Common.{◌>>=◌}
use real_estate_agent.Common.{String, Option, none, some, List, [], ◌∷◌, length}

pub record SentimentDelta {ℓ} (F : Type ℓ) : Type ℓ where
  pub initial_avg : F
  pub final_avg : F
  pub shift : F
  pub volatility : F

module _ {ℓ} {F : Type ℓ} ⦃d : Float F⦄ where
  open d use {sub, div, abs, of_nat, round_to}

  -- `[abs(final - initial) for final, initial in zip(final_values, initial_values)]`
  abbrev pub distances : List F → List F → List F
  distances [] initials = []
  distances (x ∷ finals) [] = []
  distances (x ∷ finals) (y ∷ initials) = abs (sub x y) ∷ distances finals initials

  unfoldable pub delta_from : List F → List F → SentimentDelta F
  unfolding sum_f
  delta_from initial_values final_values =
      let count = of_nat (at_least_one (length initial_values)) in
      let initial_avg = div (sum_f initial_values) count in
      let final_avg = div (sum_f final_values) count in
      record {
        initial_avg = round_to 4 initial_avg;
        final_avg = round_to 4 final_avg;
        shift = round_to 4 (sub final_avg initial_avg);
        volatility = round_to 4 (div (sum_f (distances final_values initial_values)) count);
      }

  -- The change on one topic.
  unfoldable pub topic_delta :
      SocialReactionRuntime F → Opinions F → String → Option (SentimentDelta F)
  unfolding delta_from values_on
  topic_delta runtime initial_opinions topic = do
    initial_values ← values_on initial_opinions runtime.households topic
    final_values ← values_on runtime.opinions runtime.households topic
    some (delta_from initial_values final_values)

  unfoldable pub compute_sentiment_delta :
      SocialReactionRuntime F → Opinions F → List String → Option (Dict String (SentimentDelta F))
  unfolding topic_delta
  compute_sentiment_delta runtime initial_opinions topics = go [] topics
    where
      go : Dict String (SentimentDelta F) → List String → Option (Dict String (SentimentDelta F))
      go delta [] = some delta
      go delta (t ∷ ts) = elim (topic_delta runtime initial_opinions t) [
        | none ↦ none
        | some n ↦ go (assign delta t n) ts
      ]
