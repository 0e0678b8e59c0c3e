-- ===== src/Store/SignalWriter/Upsert.antt =====
-- The rows of a key and a day before and after a write.
use mathlib.Core.List.{append-nil}
use real_estate_agent.Store.Rows.{change_if-other, change_if_self, change_if}
use real_estate_agent.Store.SignalWriter.{
  write_row, change_if, written, updated, inserted, upsert_signal, as_naive_utc, day_length,
  is_match, day_end, MarketSignal, day_start, in_day, SignalInput,
}
use real_estate_agent.Common.{
  ℕ, suc, ◌/◌, ◌≤◌, String, ◌≡◌, refl, sym, ap, ◌∙◌, inl, inr, Bool, true, ◌&&◌, List, [], ◌∷◌,
  ◌++◌, map, arith, str_eq, eq_iff, eq_refl, leb, ◌==◌, if◌then◌else◌, Bool-cases, length, keep_if,
  keep_if-in, keep_if-out, keep_if-append, keep_if-ext,
}

-- The window of the query is the calendar day.
same_day :
    (o t : ℕ) → (leb (day_start t) o && leb o (day_end t)) ≡ (o / day_length == t / day_length)
unfolding day_start day_end
same_day o t = ground arith

four_parts :
    (s t u : String) (m : ℕ) (x y z : String) (n : ℕ)
    → (str_eq s x && (str_eq t y && (str_eq u z && m == n))) ≡ true
    → (s ≡ x) × (t ≡ y) × (u ≡ z) × (m ≡ n)
four_parts s t u m x y z n h = ground (arith, eq_iff s x, eq_iff t y, eq_iff u z)

two_rows : {a b n : ℕ} → a ≤ 1 → b ≡ a → b ≡ suc (suc n) → ⊥
two_rows h e k = omega arith

module _ {ℓ} {F : Type ℓ} where
  -- A row of a signal type, a subject and a day.
  abbrev pub on_day : String → String → String → ℕ → MarketSignal F → Bool
  on_day type subject id day row =
      str_eq row.signal_type type
      && (str_eq row.subject_type subject
          && (str_eq row.subject_id id && row.observed_at / day_length == day))

  -- The input is for this signal type, subject and day.
  abbrev pub targets : SignalInput F → String → String → String → ℕ → Bool
  targets new type subject id day =
      str_eq new.signal_type type
      && (str_eq new.subject_type subject
          && (str_eq new.subject_id id && as_naive_utc new.observed_at / day_length == day))

  -- At most one row a day for a signal type and a subject.
  abbrev pub IsDaily : List (MarketSignal F) → Type 0
  IsDaily table =
      (type subject id : String) (day : ℕ) → length (keep_if (on_day type subject id day) table) ≤ 1

  is_match_day :
      (new : SignalInput F) (row : MarketSignal F)
      → is_match new row
        ≡ on_day new.signal_type new.subject_type new.subject_id
            (as_naive_utc new.observed_at / day_length)
            row
  unfolding in_day
  is_match_day new row = ground (arith, same_day row.observed_at (as_naive_utc new.observed_at))

  on_day_parts :
      (type subject id : String) (day : ℕ) (row : MarketSignal F)
      → on_day type subject id day row ≡ true
      → (row.signal_type ≡ type)
        × (row.subject_type ≡ subject)
        × (row.subject_id ≡ id)
        × (row.observed_at / day_length ≡ day)
  on_day_parts type subject id day row h =
      four_parts row.signal_type row.subject_type row.subject_id _ type subject id day h

  targets_parts :
      (new : SignalInput F) (type subject id : String) (day : ℕ)
      → targets new type subject id day ≡ true
      → (new.signal_type ≡ type)
        × (new.subject_type ≡ subject)
        × (new.subject_id ≡ id)
        × (as_naive_utc new.observed_at / day_length ≡ day)
  targets_parts new type subject id day h =
      four_parts new.signal_type new.subject_type new.subject_id _ type subject id day h

  on_day-match :
      (new : SignalInput F) (type subject id : String) (day : ℕ) (row : MarketSignal F)
      → is_match new row ≡ true
      → on_day type subject id day row ≡ targets new type subject id day
  on_day-match new type subject id day row h =
      let (a, b, c, e) = on_day_parts _ _ _ _ row (sym (is_match_day new row) ∙ h) in
      rw (a, b, c, e) refl

  on_day-targets :
      (new : SignalInput F) (type subject id : String) (day : ℕ) (row : MarketSignal F)
      → targets new type subject id day ≡ true
      → on_day type subject id day row ≡ is_match new row
  on_day-targets new type subject id day row h =
      let (a, b, c, e) = targets_parts new type subject id day h in
      rw (sym a, sym b, sym c, sym e) (sym (is_match_day new row))

  is_match-row :
      (new : SignalInput F) (row : MarketSignal F)
      → row.signal_type ≡ new.signal_type
      → row.subject_type ≡ new.subject_type
      → row.subject_id ≡ new.subject_id
      → row.observed_at ≡ as_naive_utc new.observed_at
      → is_match new row ≡ true
  is_match-row new row a b c e =
      is_match_day new row
      ∙ rw (a, b, c, e)
          (ground
            (arith, eq_refl new.signal_type, eq_refl new.subject_type, eq_refl new.subject_id))

  -- The write puts `row` in the place of the rows of its key and day, and leaves the others.
  abbrev pub Replaces :
      SignalInput F → MarketSignal F → List (MarketSignal F) → List (MarketSignal F) → Type ℓ
  Replaces new row before after =
      (type subject id : String) (day : ℕ)
      → keep_if (on_day type subject id day) after ≡ (
          if targets new type subject id day
          then row ∷ []
          else keep_if (on_day type subject id day) before)

  Replaces-IsDaily :
      (new : SignalInput F) (row : MarketSignal F) (before after : List (MarketSignal F))
      → IsDaily before
      → Replaces new row before after
      → IsDaily after
  Replaces-IsDaily new row before after h r type subject id day =
      rw (r type subject id day) (elim (Bool-cases (targets new type subject id day)) [
        | inl e ↦ rw e (omega arith)
        | inr e ↦ rw e (h type subject id day)
      ])

  inserted-Replaces :
      (table : List (MarketSignal F)) (new : SignalInput F)
      → keep_if (is_match new) table ≡ []
      → Replaces new (inserted new) table (table ++ inserted new ∷ [])
  unfolding inserted
  inserted-Replaces table new e type subject id day =
      elim (Bool-cases (targets new type subject id day)) [
        | inl t ↦ rw t (
            keep_if-ext _ (is_match new) _ (λ x. on_day-targets new type subject id day x t)
            ∙ keep_if-append (is_match new) table (inserted new ∷ [])
            ∙ rw (e) (
                keep_if-in (is_match new) (inserted new) []
                  (is_match-row new (inserted new) refl refl refl refl)))
        | inr t ↦ rw t (
            keep_if-append _ table (inserted new ∷ [])
            ∙ ap (λ ys. keep_if (on_day type subject id day) table ++ ys)
                (keep_if-out (on_day type subject id day) (inserted new) [] t)
            ∙ append-nil _)
      ]

  updated-Replaces :
      (table : List (MarketSignal F)) (new : SignalInput F) (row : MarketSignal F)
      → keep_if (is_match new) table ≡ row ∷ []
      → Replaces new (updated new row) table (change_if (is_match new) (updated new) table)
  unfolding updated
  updated-Replaces table new row e type subject id day =
      elim (Bool-cases (targets new type subject id day)) [
        | inl t ↦ rw t (
            keep_if-ext _ (is_match new) _ (λ x. on_day-targets new type subject id day x t)
            ∙ change_if_self (is_match new) (updated new) table stays
            ∙ ap (map (updated new)) e)
        | inr t ↦ rw t (
            change_if-other (is_match new) (updated new) (on_day type subject id day) table (λ x m.
              (
                on_day-match new type subject id day x m ∙ t,
                on_day-match new type subject id day (updated new x) (stays x m) ∙ t,
              )))
      ]
    where
      stays : (x : MarketSignal F) → is_match new x ≡ true → is_match new (updated new x) ≡ true
      stays x m =
          let (a, b, c, _) = on_day_parts _ _ _ _ x (sym (is_match_day new x) ∙ m) in
          is_match-row new (updated new x) a b c refl

  -- With at most one row a day for every signal type and subject, a write never raises. It returns
  -- the row that then stands alone for its key and day, the rows of all other keys and days are the
  -- ones from before, and there is still at most one row a day.
  pub upsert_signal-Replaces :
      (table : List (MarketSignal F)) (new : SignalInput F)
      → IsDaily table
      → (row : MarketSignal F) × (after : List (MarketSignal F)) × (upsert_signal table new
          ≡ written row after)
        × IsDaily after
        × Replaces new row table after
  unfolding upsert_signal
  upsert_signal-Replaces table new h = go (keep_if (is_match new) table) refl
    where
      go :
          (rows : List (MarketSignal F))
          → keep_if (is_match new) table ≡ rows
          → (row : MarketSignal F) × (after : List (MarketSignal F)) × (upsert_signal table new
              ≡ written row after)
            × IsDaily after
            × Replaces new row table after
      go [] e =
          let r = inserted-Replaces table new e in
          (
            inserted new,
            table ++ inserted new ∷ [],
            ap (write_row table new) e,
            Replaces-IsDaily new _ table _ h r,
            r,
          )
      go (row ∷ []) e =
          let r = updated-Replaces table new row e in
          (
            updated new row,
            change_if (is_match new) (updated new) table,
            ap (write_row table new) e,
            Replaces-IsDaily new _ table _ h r,
            r,
          )
      go (row ∷ other ∷ rows) e = absurd (
          two_rows (h _ _ _ _) (ap length (keep_if-ext (is_match new) _ table (is_match_day new)))
            (ap length e))
