-- ===== src/Reactions/Social/Stances/Counts.antt =====
-- The counts of the stances on a topic.
use real_estate_agent.Reactions.Social.Stances.Breakdown.{
  count_in-count_group, and_true, count_of, under, count_in, length-all_some,
}
use real_estate_agent.Reactions.Social.{SocialReactionRuntime, value_or}
use real_estate_agent.Reactions.Topics.{Resident}
use real_estate_agent.Actors.{or_unknown}
use real_estate_agent.Common.Dict.{get, Dict, string_key}
use real_estate_agent.Float.{Float, zero_f}
use real_estate_agent.Common.{
  ℕ, ◌+◌, String, ◌≡◌, refl, sym, ap, ◌∙◌, inl, inr, Bool, true, false, not, ◌&&◌, none, some, List,
  [], arith, str_eq, if◌then◌else◌, Option-cases, length, keep_if, keep_if-keep_if,
}
use mathlib.Core.Path.{subst}
use mathlib.Core.Option.{some-injective, none-ne-some}
use real_estate_agent.Reactions.Social.Stances.{
  no_counts, narrative_from, same_stance, Entry, detect_narrative, entries_of, entry_for,
  or_unknown, TopicNarrative, stance_breakdown, Stance, count_group, StanceCounts, stance_of,
  opinions_on, supportive, opposed, neutral,
}

module _ {ℓ} {F : Type ℓ} ⦃d : Float F⦄ where
  open d use {lit, lt, neg}

  -- A stance by the opinion: supportive above 0.2, opposed below -0.2, and neutral otherwise.
  abbrev pub takes : Stance → F → Bool
  takes supportive opinion = lt (lit 2 1) opinion
  takes opposed opinion = not (lt (lit 2 1) opinion) && lt opinion (neg (lit 2 1))
  takes neutral opinion = not (lt (lit 2 1) opinion) && not (lt opinion (neg (lit 2 1)))

  same_stance-stance_of :
      (s : Stance) (e : Entry F) → same_stance (stance_of e) s ≡ takes s e.opinion
  unfolding same_stance stance_of
  same_stance-stance_of s e = ground arith

  abbrev with_stance : Stance → List (Entry F) → List (Entry F)
  with_stance s = keep_if (λ e. same_stance (stance_of e) s)

  abbrev for_it : (Entry F → String) → List (Entry F) → Dict String StanceCounts
  for_it field entries = count_group field supportive [] (with_stance supportive entries)

  abbrev against : (Entry F → String) → List (Entry F) → Dict String StanceCounts
  against field entries =
      count_group field opposed (for_it field entries) (with_stance opposed entries)

  -- The part of one stance in a breakdown.
  abbrev part : (Entry F → String) → Stance → Stance → String → List (Entry F) → ℕ
  part field s label value entries =
      if same_stance label s
      then length (keep_if (under field value) (with_stance label entries))
      else 0

  breakdown_parts :
      (field : Entry F → String) (s : Stance) (value : String) (entries : List (Entry F))
      → count_in s
          (stance_breakdown field
            (with_stance supportive entries)
            (with_stance opposed entries)
            (with_stance neutral entries))
          value
        ≡ count_of s no_counts
          + part field s supportive value entries
          + part field s opposed value entries
          + part field s neutral value entries
  unfolding stance_breakdown get
  breakdown_parts field s value entries = omega (
    arith,
    count_in-count_group field s neutral value (with_stance neutral entries)
        (against field entries),
    count_in-count_group field s opposed value (with_stance opposed entries) (for_it field entries),
    count_in-count_group field s supportive value (with_stance supportive entries) [],
  )

  count_in-stance_breakdown :
      (field : Entry F → String) (s : Stance) (value : String) (entries : List (Entry F))
      → count_in s
          (stance_breakdown field
            (with_stance supportive entries)
            (with_stance opposed entries)
            (with_stance neutral entries))
          value
        ≡ length (keep_if (under field value) (with_stance s entries))
  unfolding same_stance
  count_in-stance_breakdown field supportive value entries =
      omega (arith, breakdown_parts field supportive value entries)
  count_in-stance_breakdown field opposed value entries =
      omega (arith, breakdown_parts field opposed value entries)
  count_in-stance_breakdown field neutral value entries =
      omega (arith, breakdown_parts field neutral value entries)

  -- Whether a household with opinions takes a stance on the topic and satisfies a test; an opinion
  -- that is missing is 0.
  abbrev pub household_takes :
      SocialReactionRuntime F
      → String
      → Stance
      → (Resident F → Bool)
      → String × Dict String F
      → Bool
  household_takes runtime topic s test (id, topics) = elim (get runtime.households id) [
    | none ↦ false
    | some h ↦ takes s (value_or zero_f (get topics topic)) && test h
  ]

  abbrev pub households_with : SocialReactionRuntime F → String → Stance → (Resident F → Bool) → ℕ
  households_with runtime topic s test =
      length (keep_if (household_takes runtime topic s test) runtime.opinions)

  -- The counts of a narrative are the numbers of households: of each stance, and of each stance under
  -- each income band and each type of housing.
  abbrev pub CountsAll :
      SocialReactionRuntime F → String → Stance → String → TopicNarrative F → Type 0
  CountsAll runtime topic s value n =
      (count_of s (record {
        supportive = n.supportive_count;
        opposed = n.opposed_count;
        neutral = n.neutral_count;
      })
        ≡ households_with runtime topic s (λ h. true))
      × (count_in s n.income_breakdown value
          ≡ households_with runtime topic s (λ h. str_eq (or_unknown h.income_band) value))
      × (count_in s n.housing_type_breakdown value
          ≡ households_with runtime topic s (λ h. str_eq (or_unknown h.housing_type) value))

  -- The entries counted by a test are the households counted by what the test reads of them.
  entries_of-count :
      (runtime : SocialReactionRuntime F) (topic : String) (s : Stance) (test : Resident F → Bool)
      (p : Entry F → Bool)
      → ((id : String) (opinion : F) (h : Resident F) (e : Entry F)
          → entry_for id opinion (some h) ≡ some e
          → p e ≡ (takes s opinion && test h))
      → (entries : List (Entry F)) → entries_of runtime topic ≡ some entries
      → length (keep_if p entries) ≡ households_with runtime topic s test
  unfolding entries_of
  entries_of-count runtime topic s test p reads entries h =
      length-all_some _ p (household_takes runtime topic s test) read runtime.opinions entries h
    where
      read :
          (o : String × Dict String F) (e : Entry F)
          → entry_for o.0 (value_or zero_f (get o.1 topic)) (get runtime.households o.0) ≡ some e
          → p e ≡ household_takes runtime topic s test o
      read (id, topics) e k = elim (Option-cases (get runtime.households id)) [
        | inl a ↦ absurd (none-ne-some e (rw a at k))
        | inr (r, a) ↦ rw (a, household_takes) (reads id _ r e (rw a at k))
      ]

  abbrev both : (Entry F → String) → Stance → String → Entry F → Bool
  both field s value e = same_stance (stance_of e) s && under field value e

  breakdown_count :
      (runtime : SocialReactionRuntime F) (topic : String) (s : Stance) (value : String)
      (entries : List (Entry F)) (field : Entry F → String) (of_household : Resident F → String)
      → ((id : String) (opinion : F) (h : Resident F) (e : Entry F)
          → entry_for id opinion (some h) ≡ some e
          → (field e ≡ of_household h) × (e.opinion ≡ opinion))
      → entries_of runtime topic ≡ some entries
      → count_in s
          (stance_breakdown field
            (with_stance supportive entries)
            (with_stance opposed entries)
            (with_stance neutral entries))
          value
        ≡ households_with runtime topic s (λ h. str_eq (of_household h) value)
  breakdown_count runtime topic s value entries field of_household reads h =
      count_in-stance_breakdown field s value entries
      ∙ ap length (
          keep_if-keep_if (under field value) (λ e. same_stance (stance_of e) s)
            (both field s value) entries (λ e. refl))
      ∙ entries_of-count runtime topic s (λ r. str_eq (of_household r) value) (both field s value)
          (λ id opinion r e k.
            let (a, b) = reads id opinion r e k in rw (same_stance-stance_of s e, a, b) refl)
          entries h

  narrative_from-CountsAll :
      (runtime : SocialReactionRuntime F) (topic : String) (s : Stance) (value : String)
      (entries : List (Entry F)) (all_opinions : List F)
      → entries_of runtime topic ≡ some entries
      → CountsAll runtime topic s value (narrative_from entries all_opinions)
  unfolding narrative_from
  narrative_from-CountsAll runtime topic s value entries all_opinions h = (
    of_stance s
        ∙ entries_of-count runtime topic s (λ r. true) (λ e. same_stance (stance_of e) s)
            (λ id opinion r e k.
              same_stance-stance_of s e
              ∙ ap (takes s) (sym (ap (λ x. x.opinion) (some-injective _ e k)))
              ∙ sym (and_true _))
            entries h,
    breakdown_count runtime topic s value entries (λ (e : Entry F). e.income_band)
        (λ r. or_unknown r.income_band)
        (λ id opinion r e k.
          let same = sym (some-injective _ e k) in
          (ap (λ x. x.income_band) same, ap (λ x. x.opinion) same))
        h,
    breakdown_count runtime topic s value entries (λ (e : Entry F). e.housing_type)
        (λ r. or_unknown r.housing_type)
        (λ id opinion r e k.
          let same = sym (some-injective _ e k) in
          (ap (λ x. x.housing_type) same, ap (λ x. x.opinion) same))
        h,
  )
    where
      of_stance :
          (s : Stance)
          → count_of s (record {
            supportive = length (with_stance supportive entries);
            opposed = length (with_stance opposed entries);
            neutral = length (with_stance neutral entries);
          })
            ≡ length (with_stance s entries)
      of_stance supportive = refl
      of_stance opposed = refl
      of_stance neutral = refl

  -- Where the narrative of a topic is detected, its counts are numbers of households with opinions:
  -- for each stance, those whose opinion is above 0.2, below -0.2, or neither; and in the breakdowns,
  -- for each value, those among them with that income band, or that type of housing.
  pub detect_narrative-CountsAll :
      (runtime : SocialReactionRuntime F) (topic : String) (s : Stance) (value : String)
      {n : TopicNarrative F}
      → detect_narrative runtime topic ≡ some n
      → CountsAll runtime topic s value n
  unfolding detect_narrative
  detect_narrative-CountsAll runtime topic s value {n} h =
      elim (Option-cases (entries_of runtime topic)) [
        | inl e ↦ absurd (none-ne-some n (rw e at h))
        | inr (entries, e) ↦ elim (Option-cases (opinions_on runtime topic)) [
          | inl o ↦ absurd (none-ne-some n (rw (e, o) at h))
          | inr (opinions, o) ↦
              subst (CountsAll runtime topic s value)
                (some-injective (narrative_from entries opinions) n (rw (e, o) at h))
                (narrative_from-CountsAll runtime topic s value entries opinions e)
        ]
      ]
