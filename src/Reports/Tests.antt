-- ===== src/Reports/Tests.antt =====
-- Reports at concrete inputs, with fixed-point numbers for the floats.
use real_estate_agent.Reactions.Engine.{new_engine}
use real_estate_agent.Common.Int.{pos}
use real_estate_agent.Market.{blank_snapshot}
use real_estate_agent.Reports.Briefs.{
  samples_on, clusters_on, build_policy_risk_brief-key_narratives,
  build_underwriting_report-verdict, IsSoundReport,
}
use real_estate_agent.Reactions.Narratives.{positive, NarrativeCluster}
use real_estate_agent.Reports.{
  is_policy_cluster, build_underwriting_report, build_policy_risk_brief,
}
use real_estate_agent.Outcomes.{MarketOutcomeSnapshot}
use real_estate_agent.Reports.Replay.{replay_reactions-frames, frame_at, replay_reactions}
use real_estate_agent.Reactions.{
  displacement_concern, neutral_vector, resistance_to_development, ReactionEvent,
}
use real_estate_agent.Common.{
  ℕ, ◌+◌, ◌*◌, ◌≤◌, ◌<◌, min, String, ◌≡◌, refl, ◌⊎◌, true, none, some, List, [], ◌∷◌, str_eq,
  length, get_elem?, All, any_of,
}
use real_estate_agent.Float.Fixed.{Fixed-IsOrdered, num, Fixed, fixed_float}

abbrev tenths : ℕ → Fixed
tenths n = num (pos (n * 100_000))

abbrev event_on : String → Fixed → ReactionEvent Fixed
event_on variable delta = record {
  topic = "local_news";
  variable = variable;
  delta = delta;
  narrative = "";
  metadata = [];
  occurred_at = 7;
}

abbrev stream : List (String × ReactionEvent Fixed)
stream =
    ("ann", event_on "perceived_safety" (tenths 4))
    ∷ ("bob", event_on "displacement_concern" (tenths 9))
    ∷ ("ann", event_on "perceived_safety" (tenths 8))
    ∷ []

replay_reactions-frames_example :
    (length (replay_reactions stream "week").frames ≡ length stream)
    × (get_elem? (replay_reactions stream "week").frames 2 ≡ frame_at new_engine stream 0 2)
replay_reactions-frames_example = replay_reactions-frames stream "week" 2

abbrev cluster : NarrativeCluster Fixed
cluster = record {
  variable = resistance_to_development;
  direction = positive;
  total_delta = tenths 6;
  event_count = 2;
  sample_narratives = "towers" ∷ "shadows" ∷ [];
}

abbrev Sound : String → Type 0
Sound s = any_of (str_eq s) ("towers" ∷ "shadows" ∷ []) ≡ true

build_policy_risk_brief-key_narratives_example :
    (length
        (build_policy_risk_brief blank_snapshot neutral_vector none (cluster ∷ []) 1).key_narratives
      ≤ 1)
    × All Sound
        (build_policy_risk_brief blank_snapshot neutral_vector none (cluster ∷ []) 1).key_narratives
    × ((1
          < clusters_on resistance_to_development (cluster ∷ [])
            + clusters_on displacement_concern (cluster ∷ []))
        ⊎ (length
              (build_policy_risk_brief blank_snapshot neutral_vector none
                (cluster ∷ [])
                1).key_narratives
            ≡ min 1 (
                samples_on resistance_to_development (cluster ∷ [])
                + samples_on displacement_concern (cluster ∷ []))))
unfolding is_policy_cluster
build_policy_risk_brief-key_narratives_example =
    build_policy_risk_brief-key_narratives Sound blank_snapshot neutral_vector none (cluster ∷ []) 1
      ((λ _. (refl, (refl, tt))), tt)

abbrev outcome : MarketOutcomeSnapshot Fixed
outcome = record {
  listing_id = some "l1";
  price_change_pct = some (tenths 15);
  time_on_market_days = some 12;
  offer_volume = 3;
  concession_rate = none;
  turnover_rate = none;
  permit_friction = some (tenths 3);
  neighborhood_sentiment = some (tenths 8);
}

build_underwriting_report-verdict_example :
    IsSoundReport (build_underwriting_report (some "l1") none outcome (some neutral_vector))
build_underwriting_report-verdict_example =
    build_underwriting_report-verdict Fixed-IsOrdered (some "l1") none outcome (some neutral_vector)
