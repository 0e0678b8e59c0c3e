-- ===== src/Portfolio/Survival.antt =====
-- When a strategy survives its projection.
use real_estate_agent.Portfolio.Simulation.{SimulationReport}
use real_estate_agent.Portfolio.Projection.{StrategyProfile, HoldingProjection}
use mathlib.Core.Path.{subst}
use real_estate_agent.Common.Dict.{string_key, get, Dict}
use real_estate_agent.Float.{Float}
use real_estate_agent.Common.{
  ℕ, ◌/◌, ◌≤◌, max, String, ◌≡◌, refl, ◌↔◌, Bool, true, false, not, ◌&&◌, Option, none, some, List,
  [], ◌∷◌, foldl, arith, str_eq, eq_iff, leb, length, length-append, All, All-append, keep_if,
  any_of, keep_if-append,
}
use real_estate_agent.Portfolio.Summary.{SummaryReport, HoldingSummaryEntry}
use real_estate_agent.Portfolio.Unified.{
  today_by_id, projection_by_id, reconcile_unified_report, reconcile_row, reconcile_with, flip_note,
  reconciliation_of, is_new_sell, add_reconciliation, HoldingReconciliation,
}

abbrev pub is_flipped : HoldingReconciliation → Bool
is_flipped r = r.flipped

-- A row is flipped, and has a note, exactly when the two recommendations differ.
abbrev pub IsConsistent : HoldingReconciliation → Type 0
IsConsistent r =
    ((r.flipped ≡ false) ↔ (r.today_action ≡ r.projected_action))
    × ((r.note ≡ none) ↔ (r.today_action ≡ r.projected_action))

-- A sale is projected only where one is recommended today.
abbrev pub KeepsSales : HoldingReconciliation → Type 0
KeepsSales r = r.projected_action ≡ "SELL" → r.today_action ≡ "SELL"

any_of-KeepsSales :
    (rows : List HoldingReconciliation) → (any_of is_new_sell rows ≡ false) ↔ All KeepsSales rows
any_of-KeepsSales [] = (λ _. tt, λ _. refl)
any_of-KeepsSales (r ∷ rows) =
    let (forth, back) = any_of-KeepsSales rows in
    ground (arith, forth, back, eq_iff r.projected_action "SELL", eq_iff r.today_action "SELL")

flip_note-IsConsistent :
    (a b : String) → ((not (str_eq a b) ≡ false) ↔ (a ≡ b)) × ((flip_note a b ≡ none) ↔ (a ≡ b))
unfolding flip_note
flip_note-IsConsistent a b = ground (arith, eq_iff a b)

-- The count of the loop and its rows agree.
abbrev IsTally : List HoldingReconciliation × ℕ → Type 0
IsTally (rows, flips) = (flips ≡ length (keep_if is_flipped rows)) × All IsConsistent rows

add_reconciliation-IsTally :
    (r : HoldingReconciliation) (s : List HoldingReconciliation × ℕ)
    → IsConsistent r
    → IsTally s
    → IsTally (add_reconciliation r s)
add_reconciliation-IsTally r (rows, flips) c (e, h) = (
  rw (keep_if-append is_flipped rows (r ∷ []))
      (ground (arith, e, length-append (keep_if is_flipped rows) (keep_if is_flipped (r ∷ [])))),
  All-append IsConsistent rows (r ∷ []) h (c, tt),
)

module _ {ℓ} {F : Type ℓ} where
  reconcile_with-IsTally :
      (id : String) (today : HoldingSummaryEntry F) (s : List HoldingReconciliation × ℕ)
      (proj : Option (HoldingProjection F))
      → IsTally s
      → IsTally (reconcile_with id today s proj)
  unfolding reconcile_with
  reconcile_with-IsTally id today s none h = h
  reconcile_with-IsTally id today s (some proj) h =
      add_reconciliation-IsTally (reconciliation_of id today proj) s
        (unfold reconciliation_of in
          flip_note-IsConsistent today.recommendation proj.projected_recommendation)
        h

  loop-IsTally :
      (projections : Dict String (HoldingProjection F)) (rows : Dict String (HoldingSummaryEntry F))
      (s : List HoldingReconciliation × ℕ)
      → IsTally s
      → IsTally (foldl (reconcile_row projections) s rows)
  unfolding reconcile_row
  loop-IsTally projections [] s h = h
  loop-IsTally projections ((id, today) ∷ rows) s h =
      loop-IsTally projections rows (reconcile_with id today s (get projections id))
        (reconcile_with-IsTally id today s (get projections id) h)

survival :
    (rows : List HoldingReconciliation) (flips : ℕ)
    → IsTally (rows, flips)
    → ((leb flips (max 1 (length rows / 3)) && not (any_of is_new_sell rows)) ≡ true)
      ↔ ((length (keep_if is_flipped rows) ≤ max 1 (length rows / 3)) × All KeepsSales rows)
survival rows flips (e, h) =
    let (forth, back) = any_of-KeepsSales rows in
    (
      λ s.
          let bound : flips ≤ max 1 (length rows / 3) = ground arith in
          (subst (λ n. n ≤ max 1 (length rows / 3)) e bound, forth (ground arith)),
      λ k.
          let bound : flips ≤ max 1 (length rows / 3) = omega (arith, e, k.0) in
          let sales = back k.1 in ground arith,
    )

module _ {ℓ} {F : Type ℓ} ⦃d : Float F⦄ where
  -- Every reconciliation is flipped, and has a note, exactly when the two recommendations of the
  -- holding differ. The strategy survives exactly when at most one holding, or a third of them, is
  -- flipped and no sale is projected for a holding that is not for sale today.
  pub reconcile_unified_report-survives :
      (analysis : SummaryReport F) (simulation : SimulationReport F) (profile : StrategyProfile F)
      → All IsConsistent (reconcile_unified_report analysis simulation profile).reconciliations
        × (((reconcile_unified_report analysis simulation profile).survives ≡ true) ↔ (
            (length (
                keep_if is_flipped
                  (reconcile_unified_report analysis simulation profile).reconciliations)
              ≤ max 1 (
                  length (reconcile_unified_report analysis simulation profile).reconciliations
                  / 3))
            × All KeepsSales
                (reconcile_unified_report analysis simulation profile).reconciliations))
  unfolding reconcile_unified_report
  reconcile_unified_report-survives analysis simulation profile =
      let tally =
        loop-IsTally (projection_by_id simulation.per_holding) (today_by_id analysis.per_holding)
          ([], 0) (refl, tt) in
      (tally.1, survival _ _ tally)
