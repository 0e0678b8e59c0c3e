-- ===== src/Store/MarketState/Build.antt =====
-- services/market_state.py: the snapshot of one property, of many, and of a neighborhood.
use real_estate_agent.Store.MarketState.Compose.{
  hazard_signal_kinds, scalar_signal_fields, read_field, write_field, put_hazard, update_dict,
  Property,
}
use real_estate_agent.Common.Dict.{string_key, dict_of, get, Dict}
use real_estate_agent.Market.{blank_snapshot, MarketContextSnapshot}
use real_estate_agent.Common.Json.{null, dict_or_empty, is_truthy_json, Json}
use real_estate_agent.Float.{Float}
use real_estate_agent.Common.{
  String, Bool, false, Option, none, some, List, [], ◌∷◌, ◌++◌, map, foldl, str_eq, if◌then◌else◌,
}
use real_estate_agent.Store.SignalWriter.{MarketSignal}
use real_estate_agent.Store.MarketState.Latest.{
  or_no_signals, unique_from, distinct_ids, latest_signals_for, latest_signals_bulk, includes,
}

abbrev pub add_key : Option String → List String → List String
add_key none keys = keys
add_key (some key) keys = if includes keys key then keys else keys ++ key ∷ []

-- `value if value else None` of a text.
abbrev pub truthy_text : Option String → Option String
truthy_text none = none
truthy_text (some s) = if str_eq s "" then none else some s

module _ {ℓ} {F : Type ℓ} ⦃d : Float F⦄ (str : Json F → String) where
  abbrev pub truthy_value : Option (Json F) → Bool
  truthy_value none = false
  truthy_value (some v) = is_truthy_json v

  -- `a or b`
  abbrev pub first_truthy : Option (Json F) → Option (Json F) → Option (Json F)
  first_truthy a b = if truthy_value a then a else b

  abbrev pub text_if_truthy : Option (Json F) → Option String
  text_if_truthy none = none
  text_if_truthy (some v) = if is_truthy_json v then some (str v) else none

  -- `str(value)` when the value is not `None`.
  abbrev pub text_unless_none : Option (Json F) → Option String → Option String
  text_unless_none none old = old
  text_unless_none (some null) old = old
  text_unless_none (some v) old = some (str v)

  -- What `_aggregate` does with a signal that is no scalar.
  unfoldable pub aggregate_other :
      MarketContextSnapshot F → MarketSignal F → MarketContextSnapshot F
  unfolding update_dict put_hazard dict_or_empty is_truthy_json
  aggregate_other snapshot signal =
      let payload = dict_or_empty signal.payload in
      if str_eq signal.signal_type "zoning"
      then record snapshot {
        zoning_code =
            text_unless_none (first_truthy (get payload "code") (get payload "zoning_code"))
              snapshot.zoning_code;
      }
      else if str_eq signal.signal_type "hazard"
      then record snapshot { hazard_flags = update_dict snapshot.hazard_flags payload }
      else elim (get hazard_signal_kinds signal.signal_type) [
        | none ↦ snapshot
        | some kind ↦ record snapshot {
          hazard_flags = put_hazard kind signal snapshot.hazard_flags;
        }
      ]

  -- One round of `_aggregate`.
  unfoldable pub aggregate_one : MarketContextSnapshot F → MarketSignal F → MarketContextSnapshot F
  unfolding aggregate_other write_field
  aggregate_one snapshot signal = elim (get scalar_signal_fields signal.signal_type) [
    | none ↦ aggregate_other snapshot signal
    | some field ↦ elim signal.value [
      | none ↦ aggregate_other snapshot signal
      | some x ↦ write_field field snapshot x
    ]
  ]

  unfoldable pub aggregate :
      MarketContextSnapshot F → List (MarketSignal F) → MarketContextSnapshot F
  unfolding aggregate_one
  aggregate = foldl aggregate_one

  abbrev pub neighborhood_id_of : Property F → Option String
  neighborhood_id_of prop =
      let columns = dict_or_empty prop.neighborhood_data in
      text_if_truthy (first_truthy (get columns "neighborhood_id") (get columns "id"))

  abbrev pub zip_code_of : Property F → Option String
  zip_code_of prop =
      let columns = dict_or_empty prop.neighborhood_data in
      text_if_truthy (first_truthy (get columns "zip_code") (get columns "zip"))

  -- The keys that `_neighborhood_keys` returns.
  unfoldable pub neighborhood_keys : Property F → List String
  unfolding dict_or_empty is_truthy_json
  neighborhood_keys prop =
      add_key (truthy_text prop.ward_code)
        (add_key (zip_code_of prop) (add_key (neighborhood_id_of prop) []))

  -- A municipal hazard fills a gap only.
  unfoldable pub fill_hazard : MarketContextSnapshot F → MarketSignal F → MarketContextSnapshot F
  unfolding put_hazard
  fill_hazard snapshot signal = elim (get hazard_signal_kinds signal.signal_type) [
    | none ↦ snapshot
    | some kind ↦ elim (get snapshot.hazard_flags kind) [
      | some _ ↦ snapshot
      | none ↦ record snapshot { hazard_flags = put_hazard kind signal snapshot.hazard_flags }
    ]
  ]

  -- One round of the inner loop of `_compose_snapshot`.
  unfoldable pub fill_one : MarketContextSnapshot F → MarketSignal F → MarketContextSnapshot F
  unfolding fill_hazard read_field write_field
  fill_one snapshot signal = elim (get scalar_signal_fields signal.signal_type) [
    | none ↦ fill_hazard snapshot signal
    | some field ↦ elim (read_field field snapshot) [
      | some _ ↦ fill_hazard snapshot signal
      | none ↦ elim signal.value [
        | none ↦ fill_hazard snapshot signal
        | some x ↦ write_field field snapshot x
      ]
    ]
  ]

  abbrev pub fill_from :
      Dict String (List (MarketSignal F))
      → MarketContextSnapshot F
      → String
      → MarketContextSnapshot F
  fill_from by_key snapshot key = foldl fill_one snapshot (or_no_signals (get by_key key))

  unfoldable pub base_snapshot : Property F → MarketContextSnapshot F
  unfolding blank_snapshot dict_or_empty is_truthy_json
  base_snapshot prop = record blank_snapshot {
    property_id = some prop.id;
    neighborhood_id = neighborhood_id_of prop;
    zip_code = zip_code_of prop;
    jurisdiction = prop.jurisdiction;
    zoning_code = prop.youto_chiiki;
    hazard_flags = dict_or_empty prop.hazard_flags;
  }

  unfoldable pub compose_snapshot :
      Property F
      → List (MarketSignal F)
      → Dict String (List (MarketSignal F))
      → MarketContextSnapshot F
  unfolding neighborhood_keys aggregate fill_one base_snapshot
  compose_snapshot prop property_signals by_key =
      foldl (fill_from by_key) (aggregate (base_snapshot prop) property_signals)
        (neighborhood_keys prop)

  -- What `build_snapshot` does with the property that it has loaded.
  unfoldable pub snapshot_of : List (MarketSignal F) → Property F → MarketContextSnapshot F
  unfolding compose_snapshot latest_signals_for dict_of
  snapshot_of table prop = compose_snapshot prop (latest_signals_for table "property" prop.id) (
      dict_of
        (map (λ key. (key, latest_signals_for table "neighborhood" key)) (neighborhood_keys prop)))

  -- `none` for a property that does not exist; ids are unique.
  unfoldable pub build_snapshot :
      List (Property F) → List (MarketSignal F) → String → Option (MarketContextSnapshot F)
  unfolding snapshot_of
  build_snapshot [] table property_id = none
  build_snapshot (p ∷ properties) table property_id =
      let rest = build_snapshot properties table property_id in
      if str_eq p.id property_id then some (snapshot_of table p) else rest

  abbrev pub all_keys : List (Property F) → List String
  all_keys [] = []
  all_keys (p ∷ props) = neighborhood_keys p ++ all_keys props

  unfoldable pub build_snapshots :
      List (MarketSignal F) → List (Property F) → Dict String (MarketContextSnapshot F)
  unfolding compose_snapshot latest_signals_bulk dict_of unique_from
  build_snapshots table props =
      let by_property =
        latest_signals_bulk table "property" (map (λ (p : Property F). p.id) props) in
      let by_key = latest_signals_bulk table "neighborhood" (unique_from [] (all_keys props)) in
      dict_of (
        map
          (λ (p : Property F).
            (p.id, compose_snapshot p (or_no_signals (get by_property p.id)) by_key))
          props)

module _ {ℓ} {F : Type ℓ} where
  abbrev pub zip_field : MarketContextSnapshot F → MarketSignal F → MarketContextSnapshot F
  zip_field snapshot signal = elim (get scalar_signal_fields signal.signal_type) [
    | none ↦ snapshot
    | some field ↦ elim signal.value [ none ↦ snapshot | some x ↦ write_field field snapshot x ]
  ]

  unfoldable pub neighborhood_snapshots :
      List (MarketSignal F) → List String → Dict String (MarketContextSnapshot F)
  unfolding latest_signals_bulk distinct_ids write_field blank_snapshot dict_of
  neighborhood_snapshots table zip_codes =
      let zips = distinct_ids zip_codes in
      let signals_by_zip = latest_signals_bulk table "neighborhood" zips in
      dict_of (
        map
          (λ zip. (
            zip,
            foldl zip_field (record blank_snapshot { zip_code = some zip })
                (or_no_signals (get signals_by_zip zip)),
          ))
          zips)
