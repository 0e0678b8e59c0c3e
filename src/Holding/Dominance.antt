-- ===== src/Holding/Dominance.antt =====
-- The recommendation for a holding against everything that was proposed for it.
use real_estate_agent.Holding.Numbers.{proposals-HasNumber}
use mathlib.Core.Path.{subst}
use real_estate_agent.Actors.{Profile}
use real_estate_agent.Market.{MarketContextSnapshot}
use real_estate_agent.Common.Sort.{All-sort_stable}
use real_estate_agent.Float.Ranking.{behind, sort_descending-Descends, Descends}
use real_estate_agent.Holding.Candidates.{
  rank_candidates-All, proposals, fold-All, keep_best-All, HasNumber,
}
use real_estate_agent.Common.Dict.{get-All, get-assign, string_key, values, assign, get, Dict}
use real_estate_agent.Holding.{
  Profile, fallback, or_fallback, MarketContextSnapshot, candidate_score, HoldingFinancials,
  best_by_action, PortfolioHolding, compute_holding_decision, rank_candidates, keep_best,
  DecisionCandidate,
}
use real_estate_agent.Float.Order.{le_of_not_lt, ◌≼◌, IsNum, IsOrdered}
use real_estate_agent.Float.{Float}
use real_estate_agent.Common.{
  ℕ, String, ◌≡◌, refl, sym, ap, ◌∙◌, ◌⊎◌, inl, inr, Option, some, List, [], ◌∷◌, foldl, arith,
  str_eq, eq_iff, Bool-cases, Option-cases, All, OnSome,
}

module _ {ℓ} {F : Type ℓ} ⦃d : Float F⦄ (laws : IsOrdered F) where
  -- The dictionary holds, for the action of `c`, a candidate that scores at least as high.
  abbrev Covers : Dict String (DecisionCandidate F) → DecisionCandidate F → Type ℓ
  Covers best c = (e : DecisionCandidate F) × (get best c.action ≡ some e) × (c.score ≼ e.score)

  assign-Covers :
      (best : Dict String (DecisionCandidate F)) (new c : DecisionCandidate F)
      → OnSome (λ (e : DecisionCandidate F). e.score ≼ new.score) (get best new.action)
      → Covers best c
      → Covers (assign best new.action new) c
  assign-Covers best new c h (e, found, le) = elim (Bool-cases (str_eq new.action c.action)) [
    | inl same ↦ (
      new,
      rw (get-assign best new.action c.action new, same),
      laws.le_trans c.score e.score new.score le (
          subst (OnSome (λ (o : DecisionCandidate F). o.score ≼ new.score))
            (ap (get best) ((eq_iff new.action c.action).0 same) ∙ found) h),
    )
    | inr other ↦ (e, rw (get-assign best new.action c.action new, other) found, le)
  ]

  assign-Covers_self :
      (best : Dict String (DecisionCandidate F)) (new : DecisionCandidate F)
      → IsNum new.score
      → Covers (assign best new.action new) new
  assign-Covers_self best new p = (new, read, p)
    where
      read : get (assign best new.action new) new.action ≡ some new
      read = ground (arith, get-assign best new.action new.action new, eq_iff new.action new.action)

  keep_best-Covers :
      (best : Dict String (DecisionCandidate F)) (new c : DecisionCandidate F)
      → All HasNumber (values best)
      → IsNum new.score
      → Covers best c ⊎ (c ≡ new)
      → Covers (keep_best best new) c
  unfolding keep_best
  keep_best-Covers best new c nums p covered = elim (Option-cases (get best new.action)) [
    | inl e ↦ rw (e, keep_best) (written (rw e tt) covered)
    | inr (old, e) ↦ elim (Bool-cases (d.lt old.score new.score)) [
      | inl b ↦ rw (e, keep_best) (rw b (written (rw e (laws.le_of_lt _ _ b)) covered))
      | inr b ↦
          rw (e, keep_best)
            (rw b (
              kept covered old e (
                le_of_not_lt laws old.score new.score (get-All HasNumber best new.action nums e) p
                  b)))
    ]
  ]
    where
      written :
          OnSome (λ (e : DecisionCandidate F). e.score ≼ new.score) (get best new.action)
          → Covers best c ⊎ (c ≡ new)
          → Covers (assign best new.action new) c
      written h (inl v) = assign-Covers best new c h v
      written h (inr s) = rw s (assign-Covers_self best new p)

      kept :
          Covers best c ⊎ (c ≡ new)
          → (old : DecisionCandidate F) → get best new.action ≡ some old
          → new.score ≼ old.score
          → Covers best c
      kept (inl v) old e le = v
      kept (inr s) old e le = rw s (old, e, le)

  fold-Covers :
      (cands : List (DecisionCandidate F)) (best : Dict String (DecisionCandidate F))
      (c : DecisionCandidate F)
      → All HasNumber (values best)
      → All HasNumber cands
      → Covers best c
      → Covers (foldl keep_best best cands) c
  fold-Covers [] best c nums ps v = v
  fold-Covers (x ∷ cands) best c nums (p, ps) v =
      fold-Covers cands (keep_best best x) c (keep_best-All HasNumber best x nums p) ps
        (keep_best-Covers best x c nums p (inl v))

  fold-Covers_each :
      (cands : List (DecisionCandidate F)) (best : Dict String (DecisionCandidate F))
      → All HasNumber (values best)
      → All HasNumber cands
      → All (Covers (foldl keep_best best cands)) cands
  fold-Covers_each [] best nums ps = tt
  fold-Covers_each (x ∷ cands) best nums (p, ps) =
      let kept = keep_best-All HasNumber best x nums p in
      (
        fold-Covers cands (keep_best best x) x kept ps
            (keep_best-Covers best x x nums p (inr refl)),
        fold-Covers_each cands (keep_best best x) kept ps,
      )

  All-values :
      (cands : List (DecisionCandidate F)) (best : Dict String (DecisionCandidate F)) (bound : F)
      → All (λ (e : DecisionCandidate F). e.score ≼ bound) (values best)
      → All (Covers best) cands
      → All (λ (c : DecisionCandidate F). c.score ≼ bound) cands
  All-values [] best bound h vs = tt
  All-values (c ∷ cands) best bound h ((e, found, le), vs) = (
    laws.le_trans c.score e.score bound le
        (get-All (λ (x : DecisionCandidate F). x.score ≼ bound) best c.action h found),
    All-values cands best bound h vs,
  )

  -- The ranked candidates are the best ones of their action.
  rank_candidates-Descends :
      (cands : List (DecisionCandidate F))
      → All HasNumber cands
      → Descends candidate_score (rank_candidates cands)
  unfolding rank_candidates best_by_action
  rank_candidates-Descends cands ps =
      sort_descending-Descends candidate_score laws (values (foldl keep_best [] cands))
        (fold-All HasNumber cands [] tt ps)

  rank_candidates-Bounds :
      (cands : List (DecisionCandidate F)) (bound : F)
      → All HasNumber cands
      → All (λ (e : DecisionCandidate F). e.score ≼ bound) (rank_candidates cands)
      → All (λ (c : DecisionCandidate F). c.score ≼ bound) cands
  unfolding rank_candidates best_by_action
  rank_candidates-Bounds cands bound ps h =
      let best = foldl keep_best [] cands in
      All-values cands best bound
        (All-sort_stable (behind candidate_score) (λ (e : DecisionCandidate F). e.score ≼ bound)
          (values best) h)
        (fold-Covers_each cands [] tt ps)

  or_fallback-Dominates :
      (cands ranked : List (DecisionCandidate F))
      → rank_candidates cands ≡ ranked
      → All HasNumber cands
      → Descends candidate_score (or_fallback ranked).1
        × All (λ (c : DecisionCandidate F). c.score ≼ (or_fallback ranked).0.score) cands
  or_fallback-Dominates cands [] e ps = (
    (tt, tt),
    rank_candidates-Bounds cands fallback.score ps
        (subst (All (λ (c : DecisionCandidate F). c.score ≼ fallback.score)) (sym e) tt),
  )
  or_fallback-Dominates cands (r ∷ ranked) e ps =
      let down = subst (Descends candidate_score) e (rank_candidates-Descends cands ps) in
      let self = (subst (All HasNumber) e (rank_candidates-All HasNumber cands ps)).0 in
      (
        down,
        rank_candidates-Bounds cands r.score ps
            (subst (All (λ (c : DecisionCandidate F). c.score ≼ r.score)) (sym e) (self, down.0)),
      )

  -- With ordered floats, the candidates of the response stand by descending score, and nothing that
  -- was proposed for the holding scores higher than the recommendation.
  pub compute_holding_decision-Dominates :
      (now : ℕ) (holding : PortfolioHolding) (fin : Option (HoldingFinancials F))
      (snapshot : Option (MarketContextSnapshot F)) (owner : Option (Profile F))
      → Descends candidate_score
          (compute_holding_decision now holding fin snapshot owner).candidates
        × All
            (λ (c : DecisionCandidate F).
              c.score ≼ (compute_holding_decision now holding fin snapshot owner).score)
            (proposals now holding fin snapshot owner)
  unfolding compute_holding_decision
  compute_holding_decision-Dominates now holding fin snapshot owner =
      or_fallback-Dominates (proposals now holding fin snapshot owner) _ refl
        (proposals-HasNumber laws now holding fin snapshot owner)
