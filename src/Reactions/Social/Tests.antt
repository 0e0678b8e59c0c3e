-- ===== src/Reactions/Social/Tests.antt =====
-- The social runtime at a concrete graph, with fixed-point numbers for the floats.
use real_estate_agent.Common.Int.{pos}
use real_estate_agent.Reactions.Social.Graph.{neighbors_of-all_links, all_links}
use real_estate_agent.Reactions.Social.Drift.{
  gather_neighbor_opinions-IsHeld, apply_opinion_drift-InSigned, IsHeld,
}
use real_estate_agent.Reactions.Social.Stances.{
  supportive, values_on, opinions_on, narrative_from, Entry, entries_of, TopicNarrative,
  detect_narrative,
}
use real_estate_agent.Float.Order.{InSigned}
use real_estate_agent.Reactions.Social.{
  gather_neighbor_opinions, new_social, apply_opinion_drift, SocialReactionRuntime, Edge, Opinions,
  neighbors_of,
}
use real_estate_agent.Common.Dict.{get, values, keys}
use real_estate_agent.Reactions.Topics.{
  build_initial_opinions-InSigned, social_reaction_topics, build_initial_opinions, Resident,
}
use real_estate_agent.Reactions.Social.Stances.Counts.{detect_narrative-CountsAll, CountsAll}
use real_estate_agent.Common.{ℕ, ◌*◌, String, ◌≡◌, refl, Option, none, some, List, [], ◌∷◌, All}
use real_estate_agent.Float.Fixed.{Fixed-IsOrdered, num, Fixed, fixed_float}
use real_estate_agent.Float.{or_default}

abbrev tenths : ℕ → Fixed
tenths n = num (pos (n * 100_000))

abbrev resident : String → Option String → Resident Fixed
resident id band = record {
  id = id;
  influence_weight = none;
  communication_style = some "vocal";
  income_band = band;
  housing_type = some "renter";
  opinion_stability = some (tenths 8);
  housing_market_sentiment = none;
  policy_support_score = some (tenths 30);
  neighborhood_satisfaction = none;
}

abbrev residents : List (Resident Fixed)
residents = resident "ann" (some "low") ∷ resident "bob" none ∷ resident "eve" (some "low") ∷ []

abbrev edges : List (Edge Fixed)
edges =
    record { source_id = "ann"; target_id = "bob"; edge_weight = tenths 5; edge_type = "block" }
    ∷ record { source_id = "eve"; target_id = "ann"; edge_weight = tenths 9; edge_type = "kin" }
    ∷ []

abbrev opinions : Opinions Fixed
opinions =
    ("ann", ("market_prices", tenths 4) ∷ [])
    ∷ ("bob", ("market_prices", tenths 1) ∷ [])
    ∷ ("eve", [])
    ∷ []

abbrev town : SocialReactionRuntime Fixed
town = record {
  households =
      ("ann", resident "ann" (some "low"))
      ∷ ("bob", resident "bob" none)
      ∷ ("eve", resident "eve" (some "low"))
      ∷ [];
  neighbors = [];
  opinions = opinions;
}

neighbors_of-all_links_example :
    neighbors_of (new_social residents edges opinions) "ann" ≡ all_links "ann" edges
neighbors_of-all_links_example = neighbors_of-all_links residents edges opinions "ann"

gather_neighbor_opinions-IsHeld_example :
    All
      (IsHeld (new_social residents edges opinions) "market_prices")
      (gather_neighbor_opinions (new_social residents edges opinions) "ann" "market_prices")
gather_neighbor_opinions-IsHeld_example =
    gather_neighbor_opinions-IsHeld (new_social residents edges opinions) "ann" "market_prices"

apply_opinion_drift-InSigned_example :
    InSigned (apply_opinion_drift (resident "ann" none) (tenths 9) [] (tenths 90))
apply_opinion_drift-InSigned_example =
    apply_opinion_drift-InSigned Fixed-IsOrdered (resident "ann" none) (tenths 9) [] (tenths 90)

abbrev entry : String → Fixed → String → Entry Fixed
entry id opinion band = record {
  id = id;
  opinion = opinion;
  income_band = band;
  housing_type = "renter";
  influence = tenths 0;
}

abbrev narrative : TopicNarrative Fixed
narrative =
    narrative_from
      (entry "ann" (tenths 4) "low"
        ∷ entry "bob" (tenths 1) "unknown"
        ∷ entry "eve" (tenths 0) "low"
        ∷ [])
      (tenths 4 ∷ tenths 1 ∷ tenths 0 ∷ [])

detected : detect_narrative town "market_prices" ≡ some narrative
unfolding detect_narrative entries_of opinions_on values_on or_default get
detected = refl

detect_narrative-CountsAll_example : CountsAll town "market_prices" supportive "unknown" narrative
detect_narrative-CountsAll_example =
    detect_narrative-CountsAll town "market_prices" supportive "unknown" detected

build_initial_opinions-InSigned_example :
    (keys (build_initial_opinions (resident "ann" none)) ≡ social_reaction_topics)
    × All InSigned (values (build_initial_opinions (resident "ann" none)))
build_initial_opinions-InSigned_example =
    build_initial_opinions-InSigned Fixed-IsOrdered (resident "ann" none)
