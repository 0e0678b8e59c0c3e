-- ===== src/Decisions/Runtime/Ranking.antt =====
-- What the decision runtime returns.
use real_estate_agent.Float.Ranking.{sort_descending-Descends, behind, sort_descending, Descends}
use real_estate_agent.Float.Order.{◌≼◌, IsNum, IsOrdered}
use real_estate_agent.Float.{Float}
use real_estate_agent.Common.{
  ◌≡◌, refl, sym, ap, ◌∙◌, ◌⊎◌, inl, inr, Option, none, some, [], ◌∷◌, ◌++◌, map, arith, All,
  keep_some, head?, OnSome, keep_some-All,
}
use real_estate_agent.Decisions.Runtime.{
  raised, declined, score_of, sort_descending, top, evaluate, Float, Evaluation, recommended,
  DecisionContext, DecisionPolicy, DecisionRecommendation, collect, new_runtime, register,
}
use mathlib.Core.Option.{some-injective}
use mathlib.Core.Path.{subst}
use mathlib.Core.List.{append_assoc, append-nil, foldl, List, Perm}
use real_estate_agent.Common.Sort.{sort_stable-perm, sort_stable-All}

module _ {ℓ} {F : Type ℓ} where
  new_runtime-append :
      (policies more : List (DecisionPolicy F)) → foldl register policies more ≡ policies ++ more
  unfolding register
  new_runtime-append policies [] = sym (append-nil policies)
  new_runtime-append policies (p ∷ more) =
      new_runtime-append (policies ++ (p ∷ [])) more ∙ append_assoc policies (p ∷ []) more

  -- The runtime keeps its policies in the order of registration, two of one kind included.
  pub new_runtime_lem : (policies : List (DecisionPolicy F)) → new_runtime policies ≡ policies
  unfolding new_runtime
  new_runtime_lem policies = new_runtime-append [] policies

  -- Whatever a policy recommends in this context satisfies `P`.
  abbrev pub Recommends {κ} :
      (DecisionRecommendation F → Type κ) → DecisionContext F → DecisionPolicy F → Type (ℓ ⊔ κ)
  Recommends P context p = (r : DecisionRecommendation F) → p.evaluate context ≡ recommended r → P r

  -- What a policy contributes to the ranking: nothing if it raises or declines.
  abbrev pub contribution : Evaluation F → Option (DecisionRecommendation F)
  contribution raised = none
  contribution declined = none
  contribution (recommended r) = some r

  collect-contribution :
      (policies : List (DecisionPolicy F)) (context : DecisionContext F)
      → collect policies context
        ≡ keep_some (map (λ (p : DecisionPolicy F). contribution (p.evaluate context)) policies)
  unfolding collect
  collect-contribution [] context = refl
  collect-contribution (p ∷ policies) context =
      ground (arith, collect-contribution policies context)

  contribution-OnSome {κ} :
      (P : DecisionRecommendation F → Type κ) (e : Evaluation F)
      → ((r : DecisionRecommendation F) → e ≡ recommended r → P r)
      → OnSome P (contribution e)
  contribution-OnSome P raised h = tt
  contribution-OnSome P declined h = tt
  contribution-OnSome P (recommended r) h = h r refl

  pub collect-All {κ} :
      (P : DecisionRecommendation F → Type κ) (policies : List (DecisionPolicy F))
      (context : DecisionContext F)
      → All (Recommends P context) policies
      → All P (collect policies context)
  collect-All P policies context h = rw (collect-contribution policies context) (
      keep_some-All P (map (λ (p : DecisionPolicy F). contribution (p.evaluate context)) policies)
        (each policies h))
    where
      each :
          (ps : List (DecisionPolicy F))
          → All (Recommends P context) ps
          → All (OnSome P) (map (λ (p : DecisionPolicy F). contribution (p.evaluate context)) ps)
      each [] h = tt
      each (p ∷ ps) (q, h) = (contribution-OnSome P (p.evaluate context) q, each ps h)

abbrev pub HasScore {ℓ} : {F : Type ℓ} ⦃d : Float F⦄ → DecisionRecommendation F → Type 0
HasScore r = IsNum r.score

module _ {ℓ} {F : Type ℓ} ⦃d : Float F⦄ (laws : IsOrdered F) where
  -- If no policy recommends with a NaN score, the runtime returns the recommendations of all the
  -- policies that neither raise nor decline, each as often as it is made, by descending score.
  pub evaluate_lem :
      (policies : List (DecisionPolicy F)) (context : DecisionContext F)
      → All (Recommends HasScore context) policies
      → Perm
          (evaluate policies context)
          (keep_some (map (λ (p : DecisionPolicy F). contribution (p.evaluate context)) policies))
        × Descends score_of (evaluate policies context)
  unfolding evaluate sort_descending
  evaluate_lem policies context h = (
    rw (← collect-contribution policies context)
        (sort_stable-perm (behind score_of) (collect policies context)),
    sort_descending-Descends score_of laws (collect policies context)
        (collect-All HasScore policies context h),
  )

  Descends-head :
      (rs : List (DecisionRecommendation F)) {t : DecisionRecommendation F}
      → All HasScore rs
      → Descends score_of rs
      → head? rs ≡ some t
      → All (λ (r : DecisionRecommendation F). r.score ≼ t.score) rs
  Descends-head [] h s e = tt
  Descends-head (r ∷ rs) {t} (p, h) (a, s) e =
      subst
        (λ (x : DecisionRecommendation F).
          All (λ (y : DecisionRecommendation F). y.score ≼ x.score) (r ∷ rs))
        (some-injective _ _ e) (p, a)

  -- No recommendation scores higher than `top`, and without a `top` there is none.
  pub top-Descends :
      (policies : List (DecisionPolicy F)) (context : DecisionContext F)
      → All (Recommends HasScore context) policies
      → ((top policies context ≡ none) × (evaluate policies context ≡ []))
        ⊎ ((t : DecisionRecommendation F) × (top policies context ≡ some t)
            × All (λ (r : DecisionRecommendation F). r.score ≼ t.score) (evaluate policies context))
  unfolding top
  top-Descends policies context h = go (evaluate policies context) refl
    where
      ranked : All HasScore (evaluate policies context)
      ranked =
          unfold evaluate sort_descending in
          sort_stable-All (behind score_of) HasScore (collect policies context)
            (collect-All HasScore policies context h)

      go :
          (rs : List (DecisionRecommendation F))
          → evaluate policies context ≡ rs
          → ((top policies context ≡ none) × (evaluate policies context ≡ []))
            ⊎ ((t : DecisionRecommendation F) × (top policies context ≡ some t)
                × All
                    (λ (r : DecisionRecommendation F). r.score ≼ t.score)
                    (evaluate policies context))
      go [] e = inl (ap head? e, e)
      go (r ∷ rs) e = inr (
        r,
        ap head? e,
        Descends-head (evaluate policies context) ranked (evaluate_lem policies context h).1
            (ap head? e),
      )
