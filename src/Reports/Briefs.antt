-- ===== src/Reports/Briefs.antt =====
-- What the report builders guarantee.
use real_estate_agent.Reactions.Engine.{or_neutral}
use real_estate_agent.Common.Sort.{sum_by-sort_stable, sort_stable-All, sort_stable}
use real_estate_agent.Reactions.{ReactionVector}
use real_estate_agent.Outcomes.{MarketOutcomeSnapshot}
use real_estate_agent.Market.{MarketContextSnapshot}
use real_estate_agent.Float.Order.{clamp_unit-InUnit, ◌≼◌, InUnit, IsOrdered}
use real_estate_agent.Reactions.Narratives.{weaker, NarrativeCluster}
use real_estate_agent.Reports.{
  underwriting_verdict, risk_verdict, sort_stable, or_neutral, underwriting_score, policy_risk,
  is_policy_cluster, ReactionVector, MarketContextSnapshot, MarketOutcomeSnapshot, key_narratives,
  samples_of, build_underwriting_report, build_policy_risk_brief, UnderwritingReport,
}
use real_estate_agent.Float.{Float}
use real_estate_agent.Reactions.{Variable, resistance_to_development, displacement_concern}
use real_estate_agent.Common.Sort.{sum_by}
use real_estate_agent.Reactions.Narratives.{variable_index}
use real_estate_agent.Common.{
  ℕ, zero, suc, ◌+◌, ◌≤◌, ◌<◌, min, String, ◌≡◌, refl, sym, ap, ◌∙◌, ◌⊎◌, inl, inr, Bool, true,
  false, Option, List, [], ◌∷◌, arith, ◌==◌, Bool-cases, length, length-append, take, length-take,
  All, All-append, keep_if, keep_if-in, keep_if-out,
}

take-All {ℓ κ} : {A : Type ℓ} (P : A → Type κ) (n : ℕ) (xs : List A) → All P xs → All P (take n xs)
take-All P zero xs h = tt
take-All P (suc n) [] h = tt
take-All P (suc n) (x ∷ xs) (p, h) = (p, take-All P n xs h)

take-all {ℓ} : {A : Type ℓ} (n : ℕ) (xs : List A) → length xs ≤ n → take n xs ≡ xs
take-all zero [] h = refl
take-all zero (x ∷ xs) h = absurd (omega arith)
take-all (suc n) [] h = refl
take-all (suc n) (x ∷ xs) h = ap (λ l. x ∷ l) (take-all n xs (omega arith))

sum_by-one {ℓ} : {A : Type ℓ} (xs : List A) → sum_by (λ (x : A). 1) xs ≡ length xs
sum_by-one [] = refl
sum_by-one (x ∷ xs) = omega (arith, sum_by-one xs)

below_or : (limit n : ℕ) → (limit < n) ⊎ (n ≤ limit)
below_or limit n = omega arith

-- About the resistance to development or the displacement.
abbrev pub IsPolicyVariable : Variable → Type 0
IsPolicyVariable v = (v ≡ resistance_to_development) ⊎ (v ≡ displacement_concern)

module _ {ℓ} {F : Type ℓ} ⦃d : Float F⦄ where
  open d use {lit, le}

  -- A confidence in [0, 1] with the recommendation of its range: `buy` from 0.65 on, `pass` up to
  -- 0.35, and `hold` between them.
  abbrev pub IsSoundReport : UnderwritingReport F → Type 0
  IsSoundReport r =
      InUnit r.confidence
      × (((r.recommendation ≡ "buy") × (lit 65 2 ≼ r.confidence))
          ⊎ ((r.recommendation ≡ "pass")
              × (le (lit 65 2) r.confidence ≡ false)
              × (r.confidence ≼ lit 35 2))
          ⊎ ((r.recommendation ≡ "hold")
              × (le (lit 65 2) r.confidence ≡ false)
              × (le r.confidence (lit 35 2) ≡ false)))

  -- Whatever the outcome and the reactions hold, NaN included, an underwriting report has a
  -- confidence in [0, 1] and recommends `buy` from 0.65 on, `pass` up to 0.35 and `hold` between.
  pub build_underwriting_report-verdict :
      (laws : IsOrdered F) (listing_id : Option String) (asking_price : Option F)
      (outcome : MarketOutcomeSnapshot F) (reaction : Option (ReactionVector F))
      → IsSoundReport (build_underwriting_report listing_id asking_price outcome reaction)
  unfolding build_underwriting_report
  build_underwriting_report-verdict laws listing_id asking_price outcome reaction =
      (score-InUnit, verdict (underwriting_score outcome (or_neutral reaction)))
    where
      score-InUnit : InUnit (underwriting_score outcome (or_neutral reaction))
      score-InUnit = unfold underwriting_score in clamp_unit-InUnit laws _

      verdict :
          (x : F)
          → (((underwriting_verdict x).0 ≡ "buy") × (lit 65 2 ≼ x))
            ⊎ (((underwriting_verdict x).0 ≡ "pass") × (le (lit 65 2) x ≡ false) × (x ≼ lit 35 2))
            ⊎ (((underwriting_verdict x).0 ≡ "hold")
                × (le (lit 65 2) x ≡ false)
                × (le x (lit 35 2) ≡ false))
      verdict x = unfold underwriting_verdict in ground arith

  -- The recommendation of a risk: `expect_pushback` from 0.7 on, `proceed` below 0.45.
  abbrev pub IsRiskVerdict : F → String → Type 0
  IsRiskVerdict risk recommendation =
      ((recommendation ≡ "expect_pushback") × (lit 7 1 ≼ risk))
      ⊎ ((recommendation ≡ "engage_community") × (le (lit 7 1) risk ≡ false) × (lit 45 2 ≼ risk))
      ⊎ ((recommendation ≡ "proceed") × (le (lit 7 1) risk ≡ false) × (le (lit 45 2) risk ≡ false))

  -- A policy brief has its two scores in [0, 1], and recommends by the risk that these very scores
  -- weigh: a pushback from 0.7 on, outreach from 0.45 on, and to proceed below.
  pub build_policy_risk_brief-verdict :
      (laws : IsOrdered F) (market : MarketContextSnapshot F) (reaction : ReactionVector F)
      (outcome : Option (MarketOutcomeSnapshot F)) (narratives : List (NarrativeCluster F))
      (limit : ℕ)
      → let brief = build_policy_risk_brief market reaction outcome narratives limit in
        InUnit brief.resistance_score
        × InUnit brief.displacement_risk
        × IsRiskVerdict
            (policy_risk brief.resistance_score brief.displacement_risk)
            brief.recommendation
  unfolding build_policy_risk_brief
  build_policy_risk_brief-verdict laws market reaction outcome narratives limit =
      (clamp_unit-InUnit laws _, clamp_unit-InUnit laws _, verdict _)
    where
      verdict : (x : F) → IsRiskVerdict x (risk_verdict x).0
      verdict x = unfold risk_verdict in ground arith

  samples_of-All {κ} :
      (P : String → Type κ) (cs : List (NarrativeCluster F))
      → All (λ (c : NarrativeCluster F). All P c.sample_narratives) cs
      → All P (samples_of cs)
  samples_of-All P [] h = tt
  samples_of-All P (c ∷ cs) (p, h) =
      All-append P c.sample_narratives (samples_of cs) p (samples_of-All P cs h)

  policy_variable :
      (c : NarrativeCluster F) → is_policy_cluster c ≡ true → IsPolicyVariable c.variable
  unfolding is_policy_cluster
  policy_variable c h = ground arith

  policy_clusters-All {κ} :
      (P : String → Type κ) (cs : List (NarrativeCluster F))
      → All (λ (c : NarrativeCluster F). IsPolicyVariable c.variable → All P c.sample_narratives) cs
      → All (λ (c : NarrativeCluster F). All P c.sample_narratives) (keep_if is_policy_cluster cs)
  policy_clusters-All P [] h = tt
  policy_clusters-All P (c ∷ cs) (p, h) = elim (Bool-cases (is_policy_cluster c)) [
    | inl e ↦
        rw (keep_if-in is_policy_cluster c cs e)
          (p (policy_variable c e), policy_clusters-All P cs h)
    | inr e ↦ rw (keep_if-out is_policy_cluster c cs e) (policy_clusters-All P cs h)
  ]

  -- The clusters about a variable, and their samples.
  abbrev pub is_on : Variable → NarrativeCluster F → Bool
  is_on v c = variable_index c.variable == variable_index v

  abbrev pub clusters_on : Variable → List (NarrativeCluster F) → ℕ
  clusters_on v cs = length (keep_if (is_on v) cs)

  abbrev pub samples_on : Variable → List (NarrativeCluster F) → ℕ
  samples_on v cs =
      sum_by (λ (c : NarrativeCluster F). length c.sample_narratives) (keep_if (is_on v) cs)

  policy_clusters-length :
      (cs : List (NarrativeCluster F))
      → length (keep_if is_policy_cluster cs)
        ≡ clusters_on resistance_to_development cs + clusters_on displacement_concern cs
  unfolding is_policy_cluster variable_index
  policy_clusters-length [] = omega arith
  policy_clusters-length (c ∷ cs) = ground (arith, policy_clusters-length cs)

  policy_clusters-samples :
      (cs : List (NarrativeCluster F))
      → sum_by
          (λ (c : NarrativeCluster F). length c.sample_narratives)
          (keep_if is_policy_cluster cs)
        ≡ samples_on resistance_to_development cs + samples_on displacement_concern cs
  unfolding is_policy_cluster variable_index
  policy_clusters-samples [] = omega arith
  policy_clusters-samples (c ∷ cs) = ground (arith, policy_clusters-samples cs)

  length-samples_of :
      (cs : List (NarrativeCluster F))
      → length (samples_of cs) ≡ sum_by (λ (c : NarrativeCluster F). length c.sample_narratives) cs
  length-samples_of [] = refl
  length-samples_of (c ∷ cs) =
      omega (arith, length-append c.sample_narratives (samples_of cs), length-samples_of cs)

  length-sort_stable : (cs : List (NarrativeCluster F)) → length (sort_stable weaker cs) ≡ length cs
  length-sort_stable cs =
      sym (sum_by-one (sort_stable weaker cs))
      ∙ sum_by-sort_stable weaker (λ (c : NarrativeCluster F). 1) cs
      ∙ sum_by-one cs

  key_narratives-length :
      (limit : ℕ) (cs : List (NarrativeCluster F))
      → (limit < clusters_on resistance_to_development cs + clusters_on displacement_concern cs)
        ⊎ (length (key_narratives limit cs)
            ≡ min limit
                (samples_on resistance_to_development cs + samples_on displacement_concern cs))
  unfolding key_narratives
  key_narratives-length limit cs =
      let policy = keep_if is_policy_cluster cs in
      let sorted = sort_stable weaker policy in
      elim (below_or limit (length policy)) [
        | inl h ↦ inl (omega (arith, policy_clusters-length cs))
        | inr h ↦ inr (
            length-take limit (samples_of (take limit sorted))
            ∙ ap (λ c. min limit (length (samples_of c)))
                (take-all limit sorted (omega (arith, length-sort_stable policy)))
            ∙ ap (min limit) (
                length-samples_of sorted
                ∙ sum_by-sort_stable weaker (λ (c : NarrativeCluster F). length c.sample_narratives)
                    policy
                ∙ policy_clusters-samples cs))
      ]

  -- The key narratives of a policy brief are samples of the clusters about the resistance to
  -- development or the displacement: what holds of the samples of those clusters, holds of every key
  -- narrative. There are at most `limit`, and unless there are more than `limit` such clusters, there
  -- are as many as the samples of all of them, up to `limit`.
  pub build_policy_risk_brief-key_narratives {κ} :
      (P : String → Type κ) (market : MarketContextSnapshot F) (reaction : ReactionVector F)
      (outcome : Option (MarketOutcomeSnapshot F)) (narratives : List (NarrativeCluster F))
      (limit : ℕ)
      → All
          (λ (c : NarrativeCluster F). IsPolicyVariable c.variable → All P c.sample_narratives)
          narratives
      → (length (build_policy_risk_brief market reaction outcome narratives limit).key_narratives
          ≤ limit)
        × All P (build_policy_risk_brief market reaction outcome narratives limit).key_narratives
        × ((limit
              < clusters_on resistance_to_development narratives
                + clusters_on displacement_concern narratives)
            ⊎ (length
                  (build_policy_risk_brief market reaction outcome narratives limit).key_narratives
                ≡ min limit (
                    samples_on resistance_to_development narratives
                    + samples_on displacement_concern narratives)))
  unfolding build_policy_risk_brief key_narratives
  build_policy_risk_brief-key_narratives P market reaction outcome narratives limit h =
      let Q : NarrativeCluster F → Type κ = λ c. All P c.sample_narratives in
      let policy = keep_if is_policy_cluster narratives in
      let samples = samples_of (take limit (sort_stable weaker policy)) in
      (
        omega (arith, length-take limit samples),
        take-All P limit samples (
            samples_of-All P (take limit (sort_stable weaker policy)) (
              take-All Q limit (sort_stable weaker policy)
                (sort_stable-All weaker Q policy (policy_clusters-All P narratives h)))),
        key_narratives-length limit narratives,
      )
