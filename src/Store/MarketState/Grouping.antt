-- ===== src/Store/MarketState/Grouping.antt =====
-- The signals of one subject in the result of the query for many subjects.
use real_estate_agent.Common.Sort.{sort_stable, IsStrict, keep_if-sort_stable}
use real_estate_agent.Store.MarketState.Latest.{
  or_no_signals, older, signals_of, distinct_ids, latest_signals_for, is_about, latest_signals_bulk,
  is_about_any, or_none_yet, add_first, includes, group_row, first_per_type,
}
use real_estate_agent.Common.Dict.{string_key, values, keys, assign, get-assign, get, Dict}
use real_estate_agent.Common.{
  String, ◌≡◌, refl, sym, ap, ◌∙◌, inl, inr, Bool, true, false, Option, none, some, List, [], ◌∷◌,
  ◌++◌, map, foldl, arith, str_eq, eq_iff, Bool-cases, Option-cases, keep_if, keep_if-in,
  keep_if-out, keep_if-keep_if,
}
use mathlib.Core.List.{append-nil, append_assoc}
use real_estate_agent.Store.SignalWriter.{MarketSignal}

module _ {κ} {V : Type κ} where
  assign-new :
      (per : Dict String V) (k : String) (v : V)
      → get per k ≡ none
      → assign per k v ≡ per ++ (k, v) ∷ []
  unfolding get assign
  assign-new [] k v h = refl
  assign-new ((j, w) ∷ per) k v h = ground (arith, h, assign-new per k v)

  pub includes-keys-none :
      (per : Dict String V) (k : String) → get per k ≡ none → includes (keys per) k ≡ false
  unfolding get
  includes-keys-none [] k h = refl
  includes-keys-none ((j, w) ∷ per) k h = ground (arith, h, includes-keys-none per k)

  includes-keys-some :
      (per : Dict String V) (k : String) {v : V} → get per k ≡ some v → includes (keys per) k ≡ true
  unfolding get
  includes-keys-some [] k h = absurd (ground (arith, h))
  includes-keys-some ((j, w) ∷ per) k {v} h = ground (arith, h, includes-keys-some per k {v = v})

  values-append : (d e : Dict String V) → values (d ++ e) ≡ values d ++ values e
  values-append [] e = refl
  values-append ((k, v) ∷ d) e = ap (λ vs. v ∷ vs) (values-append d e)

  keys-append : (d e : Dict String V) → keys (d ++ e) ≡ keys d ++ keys e
  keys-append [] e = refl
  keys-append ((k, v) ∷ d) e = ap (λ ks. k ∷ ks) (keys-append d e)

module _ {ℓ} {F : Type ℓ} where
  of_subject : String → MarketSignal F → Bool
  of_subject s row = str_eq row.subject_id s

  abbrev extend :
      Option (Dict String (MarketSignal F))
      → List (MarketSignal F)
      → Option (Dict String (MarketSignal F))
  extend o [] = o
  extend o (row ∷ rows) = extend (some (add_first (or_none_yet o) row)) rows

  or_none_yet-extend :
      (o : Option (Dict String (MarketSignal F))) (rows : List (MarketSignal F))
      → or_none_yet (extend o rows) ≡ foldl add_first (or_none_yet o) rows
  or_none_yet-extend o [] = refl
  or_none_yet-extend o (row ∷ rows) = or_none_yet-extend (some (add_first (or_none_yet o) row)) rows

  get-group_row :
      (by : Dict String (Dict String (MarketSignal F))) (rows : List (MarketSignal F)) (s : String)
      → get (foldl group_row by rows) s ≡ extend (get by s) (keep_if (of_subject s) rows)
  unfolding group_row of_subject
  get-group_row by [] s = refl
  get-group_row by (row ∷ rows) s = elim (Bool-cases (str_eq row.subject_id s)) [
    | inl e ↦
        get-group_row (group_row by row) rows s
        ∙ ap (λ o. extend o (keep_if (of_subject s) rows))
            (get-assign by row.subject_id s _
              ∙ rw e (
                  ap (λ t. some (add_first (or_none_yet (get by t)) row))
                    ((eq_iff row.subject_id s).0 e)))
        ∙ sym (ap (extend (get by s)) (keep_if-in (of_subject s) row rows e))
    | inr e ↦
        get-group_row (group_row by row) rows s
        ∙ ap (λ o. extend o (keep_if (of_subject s) rows))
            (get-assign by row.subject_id s _ ∙ rw e refl)
        ∙ sym (ap (extend (get by s)) (keep_if-out (of_subject s) row rows e))
  ]

  values-add_first :
      (per : Dict String (MarketSignal F)) (rows : List (MarketSignal F))
      → values (foldl add_first per rows) ≡ values per ++ first_per_type (keys per) rows
  unfolding first_per_type add_first
  values-add_first per [] = sym (append-nil _)
  values-add_first per (row ∷ rows) = elim (Option-cases (get per row.signal_type)) [
    | inl e ↦
        ap (λ q. values (foldl add_first q rows))
          (rw (e, add_first) (assign-new per row.signal_type row e))
        ∙ values-add_first (per ++ (row.signal_type, row) ∷ []) rows
        ∙ rw
            (
              values-append per ((row.signal_type, row) ∷ []),
              keys-append per ((row.signal_type, row) ∷ []),
              includes-keys-none per row.signal_type e,
            )
            (append_assoc (values per) (row ∷ []) _)
    | inr (old, e) ↦
        ap (λ q. values (foldl add_first q rows)) (rw (e, add_first) refl)
        ∙ values-add_first per rows
        ∙ rw (includes-keys-some per row.signal_type e) refl
  ]

  get-values :
      (by : Dict String (Dict String (MarketSignal F))) (s : String)
      → or_no_signals
          (get (map (λ (e : String × Dict String (MarketSignal F)). (e.0, values e.1)) by) s)
        ≡ values (or_none_yet (get by s))
  unfolding get
  get-values [] s = refl
  get-values ((t, per) ∷ by) s = ground (arith, get-values by s)

  of_subject-is_about :
      (table : List (MarketSignal F)) (t s : String) (ids : List String)
      → includes ids s ≡ true
      → keep_if (of_subject s) (keep_if (is_about_any t ids) table) ≡ keep_if (is_about t s) table
  unfolding of_subject
  of_subject-is_about table t s ids h =
      keep_if-keep_if (of_subject s) (is_about_any t ids) (is_about t s) table (λ x.
        elim (Bool-cases (str_eq x.subject_id s)) [
          | inl e ↦ rw (e, (eq_iff x.subject_id s).0 e, h) (ground arith)
          | inr e ↦ rw e (ground arith)
        ])

  signals_of-subject :
      (ids : List String) (rows : List (MarketSignal F)) (s : String)
      → includes ids s ≡ true
      → or_no_signals (get (signals_of ids rows) s)
        ≡ first_per_type [] (keep_if (of_subject s) rows)
  unfolding signals_of get
  signals_of-subject [] rows s h = absurd (ground (arith, h))
  signals_of-subject (i ∷ ids) rows s h =
      get-values (foldl group_row [] rows) s
      ∙ ap (λ o. values (or_none_yet o)) (get-group_row [] rows s)
      ∙ ap values (or_none_yet-extend none (keep_if (of_subject s) rows))
      ∙ values-add_first [] (keep_if (of_subject s) rows)

  older-IsStrict : IsStrict older (λ (r : MarketSignal F). Unit {0})
  older-IsStrict = record {
    after_asym = λ x y _ _ h. ground arith;
    after_cotrans = λ x y z _ _ _ h k. ground arith;
  }

  -- For a subject that was asked for, the query for many gives the signals of the query for one.
  pub bulk-latest :
      (table : List (MarketSignal F)) (t s : String) (subject_ids : List String)
      → includes (distinct_ids subject_ids) s ≡ true
      → or_no_signals (get (latest_signals_bulk table t subject_ids) s)
        ≡ latest_signals_for table t s
  unfolding latest_signals_bulk latest_signals_for
  bulk-latest table t s subject_ids h =
      signals_of-subject (distinct_ids subject_ids) _ s h
      ∙ ap (first_per_type []) (
          keep_if-sort_stable older older-IsStrict (of_subject s)
            (keep_if (is_about_any t (distinct_ids subject_ids)) table)
          ∙ ap (sort_stable older) (of_subject-is_about table t s (distinct_ids subject_ids) h))
