-- ===== src/Holding/Candidates.antt =====
-- What the recommendation for a holding guarantees.
use mathlib.Core.Option.{none-ne-some, some-injective}
use real_estate_agent.Float.Order.{IsNum}
use real_estate_agent.Actors.{Profile}
use real_estate_agent.Market.{MarketContextSnapshot}
use real_estate_agent.Decisions.Runtime.{new_runtime, evaluate, DecisionRecommendation}
use real_estate_agent.Float.Ranking.{behind}
use real_estate_agent.Common.Sort.{sort_stable-All}
use real_estate_agent.Common.Dict.{get-All, string_key, values-assign-All, values, Dict, get}
use real_estate_agent.Holding.{
  holding_policies, holding_context, Profile, MarketContextSnapshot, or_fallback, optional_list,
  fallback, compute_holding_decision, policy_candidates, PortfolioHolding, HoldingFinancials,
  refi_at, policy_action_map, refi_candidate, candidate_score, DecisionRecommendation, Dict, get,
  investor_actions, map_policy_rec, rank_candidates, DecisionCandidate, keep_best,
}
use real_estate_agent.Float.{is_truthy, Float}
use real_estate_agent.Common.{
  ℕ, String, ◌≡◌, refl, sym, ap, ◌∙◌, ◌↔◌, ◌⊎◌, inl, inr, true, false, Option, none, some, List, [],
  ◌∷◌, ◌++◌, map, foldl, arith, str_eq, Bool-cases, Option-cases, All, All-append, All-every,
  any_of, OnSome, keep_some-All, All-map_of,
}

module _ {ℓ} {F : Type ℓ} ⦃d : Float F⦄ where
  -- One of the five investor actions.
  abbrev pub IsInvestorAction : DecisionCandidate F → Type 0
  IsInvestorAction c = any_of (str_eq c.action) investor_actions ≡ true

  abbrev pub HasNumber : DecisionCandidate F → Type 0
  HasNumber c = IsNum c.score

  pub keep_best-All {κ} :
      (P : DecisionCandidate F → Type κ) (best : Dict String (DecisionCandidate F))
      (cand : DecisionCandidate F)
      → All P (values best)
      → P cand
      → All P (values (keep_best best cand))
  unfolding keep_best
  keep_best-All P best cand h p = elim (Option-cases (get best cand.action)) [
    | inl e ↦ rw (e, keep_best) (values-assign-All P best cand.action cand h p)
    | inr (old, e) ↦ elim (Bool-cases (d.lt old.score cand.score)) [
      | inl b ↦ rw (e, keep_best) (rw b (values-assign-All P best cand.action cand h p))
      | inr b ↦ rw (e, keep_best) (rw b h)
    ]
  ]

  pub fold-All {κ} :
      (P : DecisionCandidate F → Type κ) (cands : List (DecisionCandidate F))
      (best : Dict String (DecisionCandidate F))
      → All P (values best)
      → All P cands
      → All P (values (foldl keep_best best cands))
  fold-All P [] best h q = h
  fold-All P (c ∷ cands) best h (p, q) =
      fold-All P cands (keep_best best c) (keep_best-All P best c h p) q

  -- What holds of every candidate holds of the ranked ones.
  pub rank_candidates-All {κ} :
      (P : DecisionCandidate F → Type κ) (cands : List (DecisionCandidate F))
      → All P cands
      → All P (rank_candidates cands)
  unfolding rank_candidates
  rank_candidates-All P cands h =
      sort_stable-All (behind candidate_score) P _ (fold-All P cands [] tt h)

  map_policy_rec-IsInvestorAction :
      (r : DecisionRecommendation F) → OnSome IsInvestorAction (map_policy_rec r)
  unfolding map_policy_rec
  map_policy_rec-IsInvestorAction r = elim (Option-cases (get policy_action_map r.action)) [
    | inl e ↦ rw (e, map_policy_rec) tt
    | inr (a, e) ↦
        rw (e, map_policy_rec)
          (get-All (λ x. any_of (str_eq x) investor_actions ≡ true) policy_action_map r.action
            (refl, (refl, (refl, (refl, (refl, (refl, (refl, tt))))))) e)
  ]

  -- What the heuristic proposes, with the finances that it is drawn from.
  refi_candidate_cases :
      (fin : Option (HoldingFinancials F))
      → (refi_candidate fin ≡ none)
        ⊎ ((f : HoldingFinancials F) × (rate : F) × (balance : F) × (refi_candidate fin
              ≡ some (refi_at rate balance))
            × (fin ≡ some f)
            × (f.interest_rate ≡ some rate)
            × (f.loan_balance ≡ some balance)
            × (d.le rate (d.lit 6 2) ≡ false)
            × (is_truthy (some balance) ≡ true))
  unfolding refi_candidate
  refi_candidate_cases none = inl refl
  refi_candidate_cases (some fin) = elim (Option-cases fin.interest_rate) [
    | inl e ↦ inl (rw (e, refi_candidate))
    | inr (rate, e) ↦ elim (Option-cases fin.loan_balance) [
      | inl f ↦ inl (rw (e, refi_candidate) (rw (f, refi_candidate)))
      | inr (balance, f) ↦ elim (Bool-cases (is_truthy (some balance))) [
        | inr b ↦ inl (rw (e, refi_candidate) (rw (f, refi_candidate) (ground (arith, b))))
        | inl a ↦ elim (Bool-cases (d.le rate (d.lit 6 2))) [
          | inl low ↦ inl (rw (e, refi_candidate) (rw (f, refi_candidate) (ground (arith, low))))
          | inr high ↦ inr (
            fin,
            rate,
            balance,
            rw (e, refi_candidate) (rw (f, refi_candidate) (ground (arith, a, high))),
            refl,
            e,
            f,
            high,
            a,
          )
        ]
      ]
    ]
  ]

  -- A refinancing is proposed exactly when the finances hold a note rate that is not within 6 % and
  -- a loan balance other than zero, and it is then the one for this rate and balance.
  pub refi_candidate_iff :
      (f : HoldingFinancials F) (c : DecisionCandidate F)
      → (refi_candidate (some f) ≡ some c) ↔ (
          (rate : F) × (balance : F) × (f.interest_rate ≡ some rate)
          × (f.loan_balance ≡ some balance)
          × (d.le rate (d.lit 6 2) ≡ false)
          × (is_truthy (some balance) ≡ true)
          × (refi_at rate balance ≡ c))
  unfolding refi_candidate
  refi_candidate_iff f c = (forth, back)
    where
      forth :
          refi_candidate (some f) ≡ some c
          → (rate : F) × (balance : F) × (f.interest_rate ≡ some rate)
            × (f.loan_balance ≡ some balance)
            × (d.le rate (d.lit 6 2) ≡ false)
            × (is_truthy (some balance) ≡ true)
            × (refi_at rate balance ≡ c)
      forth e = elim (refi_candidate_cases (some f)) [
        | inl n ↦ absurd (none-ne-some c (sym n ∙ e))
        | inr (g, rate, balance, found, same, r, b, high, truthy) ↦
            let eq_f = some-injective f g same in
            (
              rate,
              balance,
              ap (λ (x : HoldingFinancials F). x.interest_rate) eq_f ∙ r,
              ap (λ (x : HoldingFinancials F). x.loan_balance) eq_f ∙ b,
              high,
              truthy,
              some-injective _ c (sym found ∙ e),
            )
      ]

      back :
          ((rate : F) × (balance : F) × (f.interest_rate ≡ some rate)
            × (f.loan_balance ≡ some balance)
            × (d.le rate (d.lit 6 2) ≡ false)
            × (is_truthy (some balance) ≡ true)
            × (refi_at rate balance ≡ c))
          → refi_candidate (some f) ≡ some c
      back (rate, balance, r, b, high, truthy, e) =
          rw (r, refi_candidate) (rw (b, refi_candidate) (rw (truthy, high) (ap some e)))

  pub refi_candidate-OnSome {κ} :
      (P : DecisionCandidate F → Type κ) (fin : Option (HoldingFinancials F))
      → ((rate balance : F) → P (refi_at rate balance))
      → All P (optional_list (refi_candidate fin))
  refi_candidate-OnSome P fin h = elim (refi_candidate_cases fin) [
    | inl e ↦ rw e tt
    | inr (f, rate, balance, e, _, _, _, _, _) ↦ rw e (h rate balance, tt)
  ]

  -- Everything that is proposed for the holding, before the ranking.
  abbrev pub proposals :
      ℕ
      → PortfolioHolding
      → Option (HoldingFinancials F)
      → Option (MarketContextSnapshot F)
      → Option (Profile F)
      → List (DecisionCandidate F)
  proposals now holding fin snapshot owner =
      policy_candidates now holding fin snapshot owner ++ optional_list (refi_candidate fin)

  -- The recommendations of the policies for a holding with a snapshot.
  abbrev pub recommendations :
      ℕ
      → PortfolioHolding
      → Option (HoldingFinancials F)
      → MarketContextSnapshot F
      → Option (Profile F)
      → List (DecisionRecommendation F)
  recommendations now holding fin s owner =
      evaluate (new_runtime holding_policies) (holding_context now holding fin s owner)

  pub policy_candidates-All {κ ν} :
      (P : DecisionCandidate F → Type κ) (Q : DecisionRecommendation F → Type ν) (now : ℕ)
      (holding : PortfolioHolding) (fin : Option (HoldingFinancials F))
      (snapshot : Option (MarketContextSnapshot F)) (owner : Option (Profile F))
      → ((r : DecisionRecommendation F) → Q r → OnSome P (map_policy_rec r))
      → ((s : MarketContextSnapshot F) → All Q (recommendations now holding fin s owner))
      → All P (policy_candidates now holding fin snapshot owner)
  unfolding policy_candidates
  policy_candidates-All P Q now holding fin none owner h a = tt
  policy_candidates-All P Q now holding fin (some s) owner h a =
      let rs = recommendations now holding fin s owner in
      keep_some-All P (map map_policy_rec rs) (All-map_of (OnSome P) Q map_policy_rec rs h (a s))

  or_fallback-All {κ} :
      (P : DecisionCandidate F → Type κ) (cs : List (DecisionCandidate F))
      → P fallback
      → All P cs
      → All P (or_fallback cs).1
  or_fallback-All P [] p h = (p, tt)
  or_fallback-All P (c ∷ cs) p h = h

  or_fallback-top :
      (cs : List (DecisionCandidate F))
      → All IsInvestorAction cs
      → IsInvestorAction (or_fallback cs).0
  or_fallback-top [] h = refl
  or_fallback-top (c ∷ cs) (p, h) = p

  ranked-IsInvestorAction :
      (now : ℕ) (holding : PortfolioHolding) (fin : Option (HoldingFinancials F))
      (snapshot : Option (MarketContextSnapshot F)) (owner : Option (Profile F))
      → All IsInvestorAction (rank_candidates (proposals now holding fin snapshot owner))
  ranked-IsInvestorAction now holding fin snapshot owner =
      rank_candidates-All IsInvestorAction (proposals now holding fin snapshot owner) (
        All-append IsInvestorAction _ _
          (policy_candidates-All IsInvestorAction (λ _. Unit {0}) now holding fin snapshot owner
            (λ r _. map_policy_rec-IsInvestorAction r) (λ s. All-every (λ _. Unit {0}) (λ _. tt) _))
          (refi_candidate-OnSome IsInvestorAction fin (λ rate balance. refi_action rate balance)))
    where
      refi_action : (rate balance : F) → IsInvestorAction (refi_at rate balance)
      refi_action rate balance = unfold refi_at in refl

  -- The recommendation of a response is one of the five investor actions, and so is the action of
  -- every candidate in it.
  pub compute_holding_decision-IsInvestorAction :
      (now : ℕ) (holding : PortfolioHolding) (fin : Option (HoldingFinancials F))
      (snapshot : Option (MarketContextSnapshot F)) (owner : Option (Profile F))
      → let response = compute_holding_decision now holding fin snapshot owner in
        (any_of (str_eq response.recommendation) investor_actions ≡ true)
        × All IsInvestorAction response.candidates
  unfolding compute_holding_decision
  compute_holding_decision-IsInvestorAction now holding fin snapshot owner =
      let ranked = ranked-IsInvestorAction now holding fin snapshot owner in
      (or_fallback-top _ ranked, or_fallback-All IsInvestorAction _ refl ranked)
