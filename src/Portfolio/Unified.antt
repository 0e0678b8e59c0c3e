-- ===== src/Portfolio/Unified.antt =====
-- services/unified_report.py: the recommendations of today against those of the projection.
use real_estate_agent.Portfolio.Simulation.{SimulationReport}
use real_estate_agent.Portfolio.Projection.{StrategyProfile, HoldingProjection}
use real_estate_agent.Common.Show.{show_nat}
use real_estate_agent.Float.{or_default, one_f, zero_f, Float}
use real_estate_agent.Common.Dict.{string_key, dict_of, get, Dict}
use real_estate_agent.Common.{
  ℕ, ◌+◌, ◌-◌, ◌/◌, max, String, Bool, not, ◌&&◌, Option, none, some, List, [], ◌∷◌, ◌++◌, map,
  foldl, str_eq, leb, ◌==◌, if◌then◌else◌, length, any_of,
}
use real_estate_agent.Portfolio.Summary.{SummaryReport, HoldingSummaryEntry}
use Prim.Native.String.{◌++◌ as ◌⊕◌}

pub record HoldingReconciliation : Type 0 where
  pub holding_id : String
  pub address : String
  pub today_action : String
  pub projected_action : String
  pub flipped : Bool
  pub note : Option String

pub record UnifiedReport {ℓ} (F : Type ℓ) : Type ℓ where
  pub portfolio_id : String
  pub horizon_years : ℕ
  pub survives : Bool
  pub confidence : F
  pub agreements : List String
  pub divergences : List String
  pub reconciliations : List HoldingReconciliation
  pub summary : String

-- The dictionary `pairs`, a key being today's and the projected action.
abbrev pub flip_notes : List (String × String × String)
flip_notes =
    ("HOLD", "SELL", "projection turns this holding into a sell candidate")
    ∷ ("HOLD", "REFI", "projection makes refinancing the dominant move")
    ∷ ("HOLD", "RAISE_RENT", "rent growth assumption now favors pushing rent")
    ∷ ("HOLD", "IMPROVE", "tenant protection thesis flips this to reinvest")
    ∷ ("REFI", "HOLD", "loan-rate outlook removes the refi case")
    ∷ ("RAISE_RENT", "IMPROVE", "tenant protection overrides the rent push")
    ∷ ("RAISE_RENT", "HOLD", "projection no longer supports raising rent")
    ∷ ("SELL", "HOLD", "projection stabilizes the holding")
    ∷ ("IMPROVE", "HOLD", "projection no longer requires reinvestment")
    ∷ []

abbrev pub note_for : List (String × String × String) → String → String → String
note_for [] today projected = "recommendation flips: " ⊕ (today ⊕ (" → " ⊕ projected))
note_for ((t, p, note) ∷ pairs) today projected =
    let rest = note_for pairs today projected in
    if str_eq t today && str_eq p projected then note else rest

-- `_flip_note`
unfoldable pub flip_note : String → String → Option String
flip_note today projected =
    if str_eq today projected then none else some (note_for flip_notes today projected)

-- `_summary_text`
unfoldable pub summary_text : Bool → ℕ → ℕ → ℕ → String
unfolding show_nat
summary_text survives flips total hold_period_years =
    if total == 0
    then "Strategy run produced no per-holding projections — portfolio is empty."
    else if survives
    then "Strategy survives "
      ⊕ (show_nat hold_period_years
          ⊕ ("-year projection: "
              ⊕ (show_nat (total - flips)
                  ⊕ (" of "
                      ⊕ (show_nat total ⊕ (" holdings stable, " ⊕ (show_nat flips ⊕ " flip.")))))))
    else "Strategy does not survive cleanly: "
      ⊕ (show_nat flips
          ⊕ (" of "
              ⊕ (show_nat total
                  ⊕ " holdings flip recommendation under projection — review attention items.")))

abbrev pub is_new_sell : HoldingReconciliation → Bool
is_new_sell r = str_eq r.projected_action "SELL" && not (str_eq r.today_action "SELL")

abbrev pub add_reconciliation :
    HoldingReconciliation → List HoldingReconciliation × ℕ → List HoldingReconciliation × ℕ
add_reconciliation r (rows, flips) = (rows ++ r ∷ [], if r.flipped then flips + 1 else flips)

-- How many holdings keep their recommendation, and how many flip.
unfoldable pub count_notes : ℕ → ℕ → List String × List String
unfolding show_nat
count_notes total flips = if total == 0 then ("no holdings to reconcile" ∷ [], []) else (
  (show_nat (total - flips)
        ⊕ (" of " ⊕ (show_nat total ⊕ " holdings keep the same recommendation under projection")))
      ∷ [],
  if flips == 0
      then []
      else (show_nat flips
          ⊕ (" of " ⊕ (show_nat total ⊕ " holdings flip recommendation under projection")))
        ∷ [],
)

module _ {ℓ} {F : Type ℓ} where
  abbrev pub projection_by_id : List (HoldingProjection F) → Dict String (HoldingProjection F)
  projection_by_id rows = dict_of (map (λ (p : HoldingProjection F). (p.holding_id, p)) rows)

  abbrev pub today_by_id : List (HoldingSummaryEntry F) → Dict String (HoldingSummaryEntry F)
  today_by_id rows = dict_of (map (λ (e : HoldingSummaryEntry F). (e.holding_id, e)) rows)

  unfoldable pub reconciliation_of :
      String → HoldingSummaryEntry F → HoldingProjection F → HoldingReconciliation
  unfolding flip_note
  reconciliation_of holding_id today proj = record {
    holding_id = holding_id;
    address = today.address;
    today_action = today.recommendation;
    projected_action = proj.projected_recommendation;
    flipped = not (str_eq today.recommendation proj.projected_recommendation);
    note = flip_note today.recommendation proj.projected_recommendation;
  }

  -- A holding without a projection is passed over.
  unfoldable pub reconcile_with :
      String
      → HoldingSummaryEntry F
      → List HoldingReconciliation × ℕ
      → Option (HoldingProjection F)
      → List HoldingReconciliation × ℕ
  unfolding reconciliation_of
  reconcile_with holding_id today state none = state
  reconcile_with holding_id today state (some proj) =
      add_reconciliation (reconciliation_of holding_id today proj) state

  -- One round of the loop, on the reconciliations and the number of flips.
  unfoldable pub reconcile_row :
      Dict String (HoldingProjection F)
      → List HoldingReconciliation × ℕ
      → String × HoldingSummaryEntry F
      → List HoldingReconciliation × ℕ
  unfolding reconcile_with get
  reconcile_row projections state (holding_id, today) =
      reconcile_with holding_id today state (get projections holding_id)

module _ {ℓ} {F : Type ℓ} ⦃d : Float F⦄ where
  open d use {lit, sub, mul, div, lt, of_nat, round_to, show_fixed}

  abbrev pub cap_text : String → F → F → String
  cap_text prefix today projected =
      prefix ⊕ (" (" ⊕ (show_fixed 3 today ⊕ (" → " ⊕ (show_fixed 3 projected ⊕ ")"))))

  -- The comparison of the cap rates: an agreement, a divergence or neither.
  unfoldable pub cap_rate_notes : F → F → List String × List String
  cap_rate_notes today projected =
      if lt zero_f today
      then if lt today projected
        then (cap_text "blended cap rate projects upward" today projected ∷ [], [])
        else if lt projected (mul today (lit 85 2))
        then ([], cap_text "blended cap rate compresses under projection" today projected ∷ [])
        else ([], [])
      else ([], [])

  unfoldable pub confidence_of : ℕ → ℕ → F
  confidence_of total flips =
      round_to 3 (sub one_f (if total == 0 then zero_f else div (of_nat flips) (of_nat total)))

  unfoldable pub reconcile_unified_report :
      SummaryReport F → SimulationReport F → StrategyProfile F → UnifiedReport F
  unfolding reconcile_row cap_rate_notes count_notes summary_text or_default dict_of confidence_of
  reconcile_unified_report analysis simulation profile =
      let (reconciliations, flips) =
        foldl (reconcile_row (projection_by_id simulation.per_holding)) ([], 0)
          (today_by_id analysis.per_holding) in
      let total = length reconciliations in
      let counts = count_notes total flips in
      let caps =
        cap_rate_notes analysis.blended_cap_rate
          (or_default zero_f simulation.aggregate_cap_rate_projection) in
      let survives = leb flips (max 1 (total / 3)) && not (any_of is_new_sell reconciliations) in
      record {
        portfolio_id = analysis.portfolio_id;
        horizon_years = simulation.horizon_years;
        survives = survives;
        confidence = confidence_of total flips;
        agreements =
            counts.0
            ++ (caps.0
                ++ (if profile.tenant_protection
                    then "tenant protection honored — RAISE_RENT actions suppressed" ∷ []
                    else []));
        divergences = counts.1 ++ caps.1;
        reconciliations = reconciliations;
        summary = summary_text survives flips total profile.hold_period_years;
      }
