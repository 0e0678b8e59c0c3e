-- ===== src/Reactions/Social/Stances.antt =====
-- domain/reactions/runtime.py: `detect_narratives`, the stances of the households on a topic.
-- `none` is the `KeyError` of an opinion without a household or a household without opinions.
pub mod Breakdown
pub mod Counts
use real_estate_agent.Actors.{or_unknown}
use real_estate_agent.Reactions.Social.{Opinions, or_unknown, value_or, SocialReactionRuntime}
use real_estate_agent.Reactions.Topics.{Resident}
use real_estate_agent.Common.Dict.{string_key, keys, Key, assign, values, get, Dict}
use real_estate_agent.Float.{zero_f, one_f, or_default, sum_f, Float}
use real_estate_agent.Common.{◌>>=◌}
use real_estate_agent.Common.{
  ℕ, ◌+◌, String, Bool, true, false, Option, none, some, List, [], ◌∷◌, map, ltb, ◌==◌,
  if◌then◌else◌, length, keep_if,
}

pub data Stance : Type 0 where
  supportive : Stance
  opposed : Stance
  neutral : Stance

pub record Entry {ℓ} (F : Type ℓ) : Type ℓ where
  pub id : String
  pub opinion : F
  pub income_band : String
  pub housing_type : String
  pub influence : F

-- The counts of a breakdown.
pub record StanceCounts : Type 0 where
  pub supportive : ℕ
  pub opposed : ℕ
  pub neutral : ℕ

pub record TopicNarrative {ℓ} (F : Type ℓ) : Type ℓ where
  pub avg_opinion : F
  pub consensus_strength : F
  pub supportive_count : ℕ
  pub opposed_count : ℕ
  pub neutral_count : ℕ
  pub dominant_stance : String
  pub income_breakdown : Dict String StanceCounts
  pub housing_type_breakdown : Dict String StanceCounts

unfoldable pub same_stance : Stance → Stance → Bool
same_stance supportive supportive = true
same_stance opposed opposed = true
same_stance neutral neutral = true
same_stance _ _ = false

abbrev pub no_counts : StanceCounts
no_counts = record { supportive = 0; opposed = 0; neutral = 0 }

-- `breakdown[field_value][label] += 1`
unfoldable pub count_one : Stance → StanceCounts → StanceCounts
count_one supportive c = record c { supportive = c.supportive + 1 }
count_one opposed c = record c { opposed = c.opposed + 1 }
count_one neutral c = record c { neutral = c.neutral + 1 }

abbrev pub or_no_counts : Option StanceCounts → StanceCounts
or_no_counts none = no_counts
or_no_counts (some c) = c

-- The first failure of a list of lookups, or all their results.
abbrev pub all_some {ℓ} : {A : Type ℓ} → List (Option A) → Option (List A)
all_some [] = some []
all_some (none ∷ os) = none
all_some (some x ∷ os) = elim (all_some os) [ none ↦ none | some xs ↦ some (x ∷ xs) ]

unfoldable pub dominant_of : ℕ → ℕ → String
dominant_of supportive_count opposed_count =
    if ltb opposed_count supportive_count
    then "supportive"
    else if ltb supportive_count opposed_count
    then "opposed"
    else "divided"

-- `len(xs) if xs else 1`
abbrev pub at_least_one : ℕ → ℕ
at_least_one n = if n == 0 then 1 else n

module _ {ℓ} {F : Type ℓ} where
  -- One group of `_stance_breakdown`.
  unfoldable pub count_group :
      (Entry F → String)
      → Stance
      → Dict String StanceCounts
      → List (Entry F)
      → Dict String StanceCounts
  unfolding count_one
  count_group field label breakdown [] = breakdown
  count_group field label breakdown (e ∷ group) =
      count_group field label
        (assign breakdown (field e) (count_one label (or_no_counts (get breakdown (field e)))))
        group

  unfoldable pub stance_breakdown :
      (Entry F → String)
      → List (Entry F)
      → List (Entry F)
      → List (Entry F)
      → Dict String StanceCounts
  unfolding count_group
  stance_breakdown field for_it against unsure =
      count_group field neutral
        (count_group field opposed (count_group field supportive [] for_it) against) unsure

module _ {ℓ} {F : Type ℓ} ⦃d : Float F⦄ where
  open d use {lit, sub, div, neg, abs, lt, of_nat, round_to}

  unfoldable pub stance_of : Entry F → Stance
  stance_of e =
      if lt (lit 2 1) e.opinion
      then supportive
      else if lt e.opinion (neg (lit 2 1))
      then opposed
      else neutral

  abbrev pub entry_for : String → F → Option (Resident F) → Option (Entry F)
  entry_for id opinion none = none
  entry_for id opinion (some h) = some (record {
    id = id;
    opinion = opinion;
    income_band = or_unknown h.income_band;
    housing_type = or_unknown h.housing_type;
    influence = or_default zero_f h.influence_weight;
  })

  -- The entry of every household that has opinions.
  unfoldable pub entries_of : SocialReactionRuntime F → String → Option (List (Entry F))
  unfolding or_default get
  entries_of runtime topic = all_some (
      map
        (λ (o : String × Dict String F).
          entry_for o.0 (value_or zero_f (get o.1 topic)) (get runtime.households o.0))
        runtime.opinions)

  abbrev pub opinion_in : String → Option (Dict String F) → Option F
  opinion_in topic none = none
  opinion_in topic (some topics) = some (value_or zero_f (get topics topic))

  -- `[opinions[id].get(topic, 0.0) for id in households]`
  unfoldable pub values_on : Opinions F → Dict String (Resident F) → String → Option (List F)
  unfolding get
  values_on opinions households topic =
      all_some (map (λ id. opinion_in topic (get opinions id)) (keys households))

  unfoldable pub opinions_on : SocialReactionRuntime F → String → Option (List F)
  unfolding values_on
  opinions_on runtime topic = values_on runtime.opinions runtime.households topic

  unfoldable pub narrative_from : List (Entry F) → List F → TopicNarrative F
  unfolding stance_of stance_breakdown sum_f dominant_of
  narrative_from entries all_opinions =
      let for_it = keep_if (λ e. same_stance (stance_of e) supportive) entries in
      let against = keep_if (λ e. same_stance (stance_of e) opposed) entries in
      let unsure = keep_if (λ e. same_stance (stance_of e) neutral) entries in
      let count = of_nat (at_least_one (length all_opinions)) in
      let avg_opinion = div (sum_f all_opinions) count in
      record {
        avg_opinion = round_to 4 avg_opinion;
        consensus_strength =
            round_to 4
              (sub one_f (div (sum_f (map (λ o. abs (sub o avg_opinion)) all_opinions)) count));
        supportive_count = length for_it;
        opposed_count = length against;
        neutral_count = length unsure;
        dominant_stance = dominant_of (length for_it) (length against);
        income_breakdown = stance_breakdown (λ (e : Entry F). e.income_band) for_it against unsure;
        housing_type_breakdown =
            stance_breakdown (λ (e : Entry F). e.housing_type) for_it against unsure;
      }

  -- `detect_narratives` for one topic.
  unfoldable pub detect_narrative : SocialReactionRuntime F → String → Option (TopicNarrative F)
  unfolding narrative_from entries_of opinions_on
  detect_narrative runtime topic = do
    entries ← entries_of runtime topic
    all_opinions ← opinions_on runtime topic
    some (narrative_from entries all_opinions)

  -- The loop over the topics; a topic that stands twice is detected once.
  unfoldable pub detect_narratives :
      SocialReactionRuntime F → List String → Option (Dict String (TopicNarrative F))
  unfolding detect_narrative
  detect_narratives runtime topics = go [] topics
    where
      go : Dict String (TopicNarrative F) → List String → Option (Dict String (TopicNarrative F))
      go narratives [] = some narratives
      go narratives (t ∷ ts) = elim (detect_narrative runtime t) [
        | none ↦ none
        | some n ↦ go (assign narratives t n) ts
      ]
