-- ===== src/Store/MarketState/Latest.antt =====
-- services/market_state.py: the queries for the latest signals of one subject and of many. Rows of
-- one time come in the order of the table, which the database leaves open.
use real_estate_agent.Common.Sort.{sort_stable}
use real_estate_agent.Common.Dict.{string_key, values, get, assign, Dict}
use real_estate_agent.Common.{
  String, Bool, not, ◌&&◌, Option, none, some, List, [], ◌∷◌, ◌++◌, map, foldl, str_eq, ltb,
  if◌then◌else◌, keep_if, any_of,
}
use real_estate_agent.Store.SignalWriter.{MarketSignal}

abbrev pub includes : List String → String → Bool
includes names s = any_of (λ x. str_eq x s) names

-- The first of each name, after the names `seen`.
unfoldable pub unique_from : List String → List String → List String
unique_from seen [] = []
unique_from seen (s ∷ names) =
    let old = unique_from seen names in
    let new = unique_from (seen ++ s ∷ []) names in if includes seen s then old else s ∷ new

-- `[x for x in dict.fromkeys(names) if x]`
unfoldable pub distinct_ids : List String → List String
unfolding unique_from
distinct_ids names = keep_if (λ s. not (str_eq s "")) (unique_from [] names)

module _ {ℓ} {F : Type ℓ} where
  abbrev pub older : MarketSignal F → MarketSignal F → Bool
  older a b = ltb a.observed_at b.observed_at

  abbrev pub is_about : String → String → MarketSignal F → Bool
  is_about subject_type subject_id row =
      str_eq row.subject_type subject_type && str_eq row.subject_id subject_id

  abbrev pub is_about_any : String → List String → MarketSignal F → Bool
  is_about_any subject_type ids row =
      str_eq row.subject_type subject_type && includes ids row.subject_id

  -- The first row of each signal type, after the types `seen`.
  unfoldable pub first_per_type : List String → List (MarketSignal F) → List (MarketSignal F)
  first_per_type seen [] = []
  first_per_type seen (row ∷ rows) =
      let old = first_per_type seen rows in
      let new = first_per_type (seen ++ row.signal_type ∷ []) rows in
      if includes seen row.signal_type then old else row ∷ new

  unfoldable pub latest_signals_for :
      List (MarketSignal F) → String → String → List (MarketSignal F)
  unfolding first_per_type
  latest_signals_for table subject_type subject_id =
      first_per_type [] (sort_stable older (keep_if (is_about subject_type subject_id) table))

  abbrev pub or_none_yet : Option (Dict String (MarketSignal F)) → Dict String (MarketSignal F)
  or_none_yet none = []
  or_none_yet (some per_type) = per_type

  -- `if row.signal_type not in per_type: per_type[row.signal_type] = row`
  unfoldable pub add_first :
      Dict String (MarketSignal F) → MarketSignal F → Dict String (MarketSignal F)
  add_first per_type row = elim (get per_type row.signal_type) [
    | none ↦ assign per_type row.signal_type row
    | some _ ↦ per_type
  ]

  -- One round of the loop: `by_subject.setdefault(row.subject_id, {})` and the row in it.
  unfoldable pub group_row :
      Dict String (Dict String (MarketSignal F))
      → MarketSignal F
      → Dict String (Dict String (MarketSignal F))
  unfolding add_first
  group_row by_subject row =
      assign by_subject row.subject_id (add_first (or_none_yet (get by_subject row.subject_id)) row)

  -- `signals.get(key, [])`
  abbrev pub or_no_signals : Option (List (MarketSignal F)) → List (MarketSignal F)
  or_no_signals none = []
  or_no_signals (some signals) = signals

  -- Without ids there is no query.
  unfoldable pub signals_of :
      List String → List (MarketSignal F) → Dict String (List (MarketSignal F))
  unfolding group_row
  signals_of [] rows = []
  signals_of (_ ∷ _) rows =
      map (λ (e : String × Dict String (MarketSignal F)). (e.0, values e.1))
        (foldl group_row [] rows)

  unfoldable pub latest_signals_bulk :
      List (MarketSignal F) → String → List String → Dict String (List (MarketSignal F))
  unfolding distinct_ids signals_of
  latest_signals_bulk table subject_type subject_ids =
      let ids = distinct_ids subject_ids in
      signals_of ids (sort_stable older (keep_if (is_about_any subject_type ids) table))
