-- ===== src/Portfolio/Attention.antt =====
-- The attention list and the rows of a portfolio summary.
use real_estate_agent.Common.Sort.{sort_stable-perm, sort_stable}
use real_estate_agent.Float.Ranking.{sort_descending-Descends, behind, Descends, sort_descending}
use real_estate_agent.Holding.Numbers.{proposals-HasNumber}
use real_estate_agent.Common.Dict.{string_key, get}
use real_estate_agent.Float.Order.{IsNum, IsOrdered}
use real_estate_agent.Portfolio.Metrics.{HoldingMetrics}
use mathlib.Core.Path.{subst}
use real_estate_agent.Holding.Candidates.{
  rank_candidates-All, HasNumber, compute_holding_decision-IsInvestorAction,
}
use real_estate_agent.Store.MarketState.Latest.{includes}
use real_estate_agent.Portfolio.Summary.{
  start_state, item_score, report_of, summarize, AttentionItem, add_entry, add_financials,
  attention_actions, attention_item, summary_entry, SummaryState, decide, HoldingSummaryEntry,
  add_holding,
}
use real_estate_agent.Float.{Float}
use real_estate_agent.Common.{
  ℕ, ◌+◌, String, ◌≡◌, refl, sym, ap, ◌∙◌, inl, inr, Bool, true, not, Option, none, some, List, [],
  ◌∷◌, ◌++◌, map, foldl, arith, str_eq, eq_iff, Bool-cases, length, length-append, All, keep_if,
  any_of, All-map, All-map_of, keep_if-append, keep_if-All,
}
use mathlib.Core.List.{map-append, append_assoc, append-nil, Perm}
use real_estate_agent.Holding.{
  HoldingFinancials, compute_holding_decision, PortfolioHolding, investor_actions, or_fallback,
  DecisionCandidate,
}
use real_estate_agent.Portfolio.Tables.{Loaded}

-- Of the five actions only the one to hold needs no attention.
flagged_action :
    (action : String)
    → any_of (str_eq action) investor_actions ≡ true
    → includes attention_actions action ≡ not (str_eq action "HOLD")
flagged_action action h = elim (Bool-cases (str_eq action "HOLD")) [
  | inl e ↦ at "HOLD" e refl
  | inr no_hold ↦ elim (Bool-cases (str_eq action "RAISE_RENT")) [
    | inl e ↦ at "RAISE_RENT" e refl
    | inr no_raise ↦ elim (Bool-cases (str_eq action "REFI")) [
      | inl e ↦ at "REFI" e refl
      | inr no_refi ↦ elim (Bool-cases (str_eq action "SELL")) [
        | inl e ↦ at "SELL" e refl
        | inr no_sell ↦ elim (Bool-cases (str_eq action "IMPROVE")) [
          | inl e ↦ at "IMPROVE" e refl
          | inr no_improve ↦
              absurd (ground (arith, h, no_hold, no_raise, no_refi, no_sell, no_improve))
        ]
      ]
    ]
  ]
]
  where
    at :
        (a : String)
        → str_eq action a ≡ true
        → includes attention_actions a ≡ not (str_eq a "HOLD")
        → includes attention_actions action ≡ not (str_eq action "HOLD")
    at a e r =
        subst (λ b. includes attention_actions b ≡ not (str_eq b "HOLD"))
          (sym ((eq_iff action a).0 e)) r

module _ {ℓ} {F : Type ℓ} ⦃d : Float F⦄ where
  abbrev pub is_flagged : HoldingSummaryEntry F → Bool
  is_flagged e = includes attention_actions e.recommendation

  -- The recommendation is any action but to hold.
  abbrev pub needs_action : HoldingSummaryEntry F → Bool
  needs_action e = not (str_eq e.recommendation "HOLD")

  abbrev has_context : HoldingSummaryEntry F → Bool
  has_context e = e.market_context_available

  or_fallback-top {κ} :
      (P : DecisionCandidate F → Type κ) (cs : List (DecisionCandidate F))
      → All P (or_fallback cs).1
      → P (or_fallback cs).0
  or_fallback-top P [] (p, _) = p
  or_fallback-top P (c ∷ cs) (p, _) = p

  -- What the loop collects, as functions of the rows.
  abbrev Collects : SummaryState F → SummaryState F → List (HoldingSummaryEntry F) → Type ℓ
  Collects before after es =
      (after.per_holding ≡ before.per_holding ++ es)
      × (after.attention ≡ before.attention ++ map attention_item (keep_if is_flagged es))
      × (after.coverage_with_signals
          ≡ before.coverage_with_signals + length (keep_if has_context es))

  add_entry-Collects :
      (e : HoldingSummaryEntry F) (s : SummaryState F) → Collects s (add_entry e s) (e ∷ [])
  unfolding add_entry
  add_entry-Collects e s = (refl, flagged, covered)
    where
      flagged :
          (add_entry e s).attention
          ≡ s.attention ++ map attention_item (keep_if is_flagged (e ∷ []))
      flagged = ground (arith, append-nil s.attention)

      covered :
          (add_entry e s).coverage_with_signals
          ≡ s.coverage_with_signals + length (keep_if has_context (e ∷ []))
      covered = ground arith

  add_financials-Collects :
      (fin : Option (HoldingFinancials F)) (m : HoldingMetrics F) (before s : SummaryState F)
      (es : List (HoldingSummaryEntry F))
      → Collects before s es
      → Collects before (add_financials fin m s) es
  unfolding add_financials
  add_financials-Collects none m before s es h = h
  add_financials-Collects (some fin) m before s es h = h

  Collects-trans :
      (a b c : SummaryState F) (es fs : List (HoldingSummaryEntry F))
      → Collects a b es
      → Collects b c fs
      → Collects a c (es ++ fs)
  Collects-trans a b c es fs (p, q, r) (x, y, z) = (
    x ∙ ap (λ l. l ++ fs) p ∙ append_assoc a.per_holding es fs,
    y
        ∙ ap (λ l. l ++ map attention_item (keep_if is_flagged fs)) q
        ∙ append_assoc a.attention _ _
        ∙ ap (λ l. a.attention ++ l)
            (sym (
              ap (map attention_item) (keep_if-append is_flagged es fs)
              ∙ map-append attention_item (keep_if is_flagged es) (keep_if is_flagged fs))),
    rw (keep_if-append has_context es fs)
        (omega (arith, z, r, length-append (keep_if has_context es) (keep_if has_context fs))),
  )

  module _ (now as_of_year : ℕ) (loaded : Loaded F) where
    abbrev pub entries : List PortfolioHolding → List (HoldingSummaryEntry F)
    entries = map (summary_entry now as_of_year loaded)

    decide-IsInvestorAction :
        (h : PortfolioHolding)
        → any_of (str_eq (decide now loaded h).recommendation) investor_actions ≡ true
    unfolding decide
    decide-IsInvestorAction h = (compute_holding_decision-IsInvestorAction {F = F} now h _ _ _).0

    loop-Collects :
        (s : SummaryState F) (hs : List PortfolioHolding)
        → Collects s (foldl (add_holding now as_of_year loaded) s hs) (entries hs)
    unfolding add_holding
    loop-Collects s [] = (sym (append-nil _), sym (append-nil _), omega arith)
    loop-Collects s (h ∷ hs) =
        Collects-trans s (add_holding now as_of_year loaded s h)
          (foldl (add_holding now as_of_year loaded) (add_holding now as_of_year loaded s h) hs)
          (entry ∷ []) (entries hs)
          (add_financials-Collects (get loaded.fin_by_holding h.id) entry.metrics s
            (add_entry entry s) (entry ∷ []) (add_entry-Collects entry s))
          (loop-Collects (add_holding now as_of_year loaded s h) hs)
      where
        entry : HoldingSummaryEntry F
        entry = summary_entry now as_of_year loaded h

    pub summarize-entries :
        (portfolio_id : String) (hs : List PortfolioHolding)
        → (summarize now as_of_year loaded portfolio_id hs).per_holding ≡ entries hs
    unfolding summarize report_of
    summarize-entries portfolio_id hs = (loop-Collects start_state hs).0

    entries-flagged :
        (hs : List PortfolioHolding)
        → keep_if is_flagged (entries hs) ≡ keep_if needs_action (entries hs)
    entries-flagged [] = refl
    entries-flagged (h ∷ hs) = ground (
      arith,
      flagged_action (summary_entry now as_of_year loaded h).recommendation (entry_action h),
      entries-flagged hs,
    )
      where
        entry_action :
            (g : PortfolioHolding)
            → any_of
                (str_eq (summary_entry now as_of_year loaded g).recommendation)
                investor_actions
              ≡ true
        entry_action g = unfold summary_entry in decide-IsInvestorAction g

    module _ (laws : IsOrdered F) where
      or_fallback-IsNum :
          (cs : List (DecisionCandidate F)) → All HasNumber cs → IsNum (or_fallback cs).0.score
      or_fallback-IsNum [] h = laws.lit_le 3 1 3 1 (omega arith)
      or_fallback-IsNum (c ∷ cs) (p, _) = p

      entry_score-IsNum :
          (h : PortfolioHolding)
          → IsNum (summary_entry now as_of_year loaded h).recommendation_score
      unfolding summary_entry decide compute_holding_decision
      entry_score-IsNum h =
          or_fallback-IsNum _
            (rank_candidates-All HasNumber _ (proposals-HasNumber laws now h _ _ _))

      items-IsNum :
          (hs : List PortfolioHolding)
          → All
              (λ (i : AttentionItem F). IsNum (item_score i))
              (map attention_item (keep_if needs_action (entries hs)))
      items-IsNum hs =
          All-map_of (λ (i : AttentionItem F). IsNum (item_score i))
            (λ (e : HoldingSummaryEntry F). IsNum e.recommendation_score) attention_item
            (keep_if needs_action (entries hs)) (λ e q. unfold attention_item in q)
            (keep_if-All needs_action _ (entries hs) (
              All-map (λ (e : HoldingSummaryEntry F). IsNum e.recommendation_score)
                (summary_entry now as_of_year loaded) hs entry_score-IsNum))

      -- Every row of the summary is the analysis of one holding, in the order of the holdings. The
      -- attention list holds exactly the items of the rows that recommend anything but to hold, by
      -- descending score, and the coverage counts the rows with market context.
      pub summarize-Descends :
          (portfolio_id : String) (hs : List PortfolioHolding)
          → ((summarize now as_of_year loaded portfolio_id hs).per_holding ≡ entries hs)
            × Perm
                (summarize now as_of_year loaded portfolio_id hs).attention
                (map attention_item (keep_if needs_action (entries hs)))
            × Descends item_score (summarize now as_of_year loaded portfolio_id hs).attention
            × ((summarize now as_of_year loaded portfolio_id hs).coverage_with_signals
                ≡ length (keep_if (λ e. e.market_context_available) (entries hs)))
      unfolding summarize report_of sort_descending
      summarize-Descends portfolio_id hs =
          let (rows, flagged, covered) = loop-Collects start_state hs in
          let same = flagged ∙ ap (map attention_item) (entries-flagged hs) in
          (
            rows,
            subst
                (λ l.
                  Perm (sort_stable (behind item_score) l)
                    (map attention_item (keep_if needs_action (entries hs))))
                (sym same) (sort_stable-perm (behind item_score) _),
            subst (λ l. Descends item_score (sort_stable (behind item_score) l)) (sym same)
                (sort_descending-Descends item_score laws _ (items-IsNum hs)),
            omega (arith, covered),
          )
