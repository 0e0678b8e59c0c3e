-- ===== src/Reactions/Tests.antt =====
-- The reaction layer at concrete inputs, with fixed-point numbers for the floats.
use real_estate_agent.Reactions.Derive.{
  market_reaction_events, holding_events, build_reaction_vector,
}
use real_estate_agent.Reactions.Derive.Signals.{
  holding_events-IsSignal, build_reaction_vector-fold_all, fold_all, owner_vector, IsSignal,
}
use real_estate_agent.Common.Int.{pos}
use real_estate_agent.Reactions.Narratives.Counting.{extract_narratives-count, has_key, is_about}
use real_estate_agent.Reactions.Narratives.{positive, extract_narratives, NarrativeCluster}
use real_estate_agent.Reactions.Engine.{new_engine, apply_batch, vector_for}
use real_estate_agent.Common.Sort.{sum_by}
use real_estate_agent.Reactions.{variable_name, Variable, ReactionEvent}
use real_estate_agent.Reactions.Invariant.{
  vector_for-apply_batch, fold_events, apply_batch-IsBounded, IsBounded,
}
use real_estate_agent.Market.{blank_snapshot, MarketContextSnapshot}
use real_estate_agent.Common.{
  ℕ, ◌*◌, min, String, ◌≡◌, refl, none, some, List, [], ◌∷◌, map, length, All, keep_if,
}
use real_estate_agent.Float.Fixed.{Fixed-IsOrdered, num, Fixed, fixed_float}

abbrev tenths : ℕ → Fixed
tenths n = num (pos (n * 100_000))

abbrev moved_by : String → Fixed → String → ReactionEvent Fixed
moved_by variable delta narrative = record {
  topic = "local_news";
  variable = variable;
  delta = delta;
  narrative = narrative;
  metadata = [];
  occurred_at = 7;
}

-- Two actors; the second event of Ann goes past the bound and the last one names no variable.
abbrev batch : List (String × ReactionEvent Fixed)
batch =
    ("ann", moved_by "perceived_safety" (tenths 7) "new lights")
    ∷ ("bob", moved_by "displacement_concern" (tenths 4) "rents rise")
    ∷ ("ann", moved_by "perceived_safety" (tenths 9) "patrols")
    ∷ ("ann", moved_by "weather" (tenths 3) "rain")
    ∷ []

vector_for-apply_batch_example :
    vector_for (apply_batch new_engine batch) "ann"
    ≡ fold_events "ann" (vector_for new_engine "ann") batch
vector_for-apply_batch_example = vector_for-apply_batch batch new_engine "ann"

apply_batch-IsBounded_example : IsBounded (vector_for (apply_batch new_engine batch) "ann")
apply_batch-IsBounded_example = apply_batch-IsBounded Fixed-IsOrdered batch "ann"

abbrev batch_events : List (ReactionEvent Fixed)
batch_events = map (λ e. e.1) batch

extract_narratives-count_example :
    let clusters =
      keep_if (has_key (Variable.perceived_safety, positive)) (extract_narratives 3 batch_events) in
    (length clusters
      ≡ min 1 (length (keep_if (is_about Variable.perceived_safety positive) batch_events)))
    × (sum_by (λ (c : NarrativeCluster Fixed). c.event_count) clusters
        ≡ length (keep_if (is_about Variable.perceived_safety positive) batch_events))
extract_narratives-count_example =
    extract_narratives-count 3 batch_events Variable.perceived_safety positive

-- Two of the four events are about safety, and they make one cluster.
about_safety : length (keep_if (is_about Variable.perceived_safety positive) batch_events) ≡ 2
unfolding variable_name
about_safety = refl

-- A market with readings of all three kinds, and a rent above the median.
abbrev market : MarketContextSnapshot Fixed
market = record blank_snapshot {
  inventory_pressure = some (tenths 8);
  safety_score = some (tenths 2);
  median_rent = some (tenths 100);
}

build_reaction_vector-fold_all_example :
    build_reaction_vector 7 none market (some (tenths 130))
    ≡ fold_all
        (owner_vector 7 none)
        (market_reaction_events 7 "market_signal" market (some (tenths 130)))
build_reaction_vector-fold_all_example =
    build_reaction_vector-fold_all 7 none market (some (tenths 130))

holding_events-IsSignal_example : All IsSignal (holding_events 7 none market (some (tenths 130)))
holding_events-IsSignal_example =
    holding_events-IsSignal Fixed-IsOrdered 7 none market (some (tenths 130))
