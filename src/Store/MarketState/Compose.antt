-- ===== src/Store/MarketState/Compose.antt =====
-- services/market_state.py: the fold of the signals into a snapshot. `str` is Python's `str` of a
-- JSON value.
use real_estate_agent.Common.Json.{number, object, Json, dict_or_empty, fields_of}
use real_estate_agent.Common.Dict.{string_key, assign, Dict}
use real_estate_agent.Market.{MarketContextSnapshot}
use real_estate_agent.Common.{String, Option, none, some, [], ◌∷◌}
use real_estate_agent.Store.SignalWriter.{MarketSignal}
use Prim.Native.String.{◌++◌ as ◌⊕◌}

-- The columns of `Property` that are read.
pub record Property {ℓ} (F : Type ℓ) : Type ℓ where
  pub id : String
  pub jurisdiction : Option String
  pub youto_chiiki : Option String
  pub ward_code : Option String
  pub neighborhood_data : Option (Dict String (Json F))
  pub hazard_flags : Option (Dict String (Json F))

pub data ScalarField : Type 0 where
  transit_score : ScalarField
  school_score : ScalarField
  safety_score : ScalarField
  median_rent : ScalarField
  median_sale_price : ScalarField
  inventory_pressure : ScalarField
  median_unit_price : ScalarField
  land_price_psm : ScalarField
  appraised_value_psm : ScalarField

-- `_SCALAR_SIGNAL_FIELDS`
abbrev pub scalar_signal_fields : Dict String ScalarField
scalar_signal_fields =
    ("transit_score", transit_score)
    ∷ ("school_score", school_score)
    ∷ ("safety_score", safety_score)
    ∷ ("median_rent", median_rent)
    ∷ ("median_sale_price", median_sale_price)
    ∷ ("inventory_pressure", inventory_pressure)
    ∷ ("median_unit_price", median_unit_price)
    ∷ ("land_price_psm", land_price_psm)
    ∷ ("appraised_value_psm", appraised_value_psm)
    ∷ []

-- `_HAZARD_SIGNAL_KINDS`
abbrev pub hazard_signal_kinds : Dict String String
hazard_signal_kinds =
    ("hazard_flood", "flood")
    ∷ ("hazard_landslide", "landslide")
    ∷ ("hazard_liquefaction", "liquefaction")
    ∷ []

module _ {ℓ} {F : Type ℓ} where
  unfoldable pub read_field : ScalarField → MarketContextSnapshot F → Option F
  read_field transit_score s = s.transit_score
  read_field school_score s = s.school_score
  read_field safety_score s = s.safety_score
  read_field median_rent s = s.median_rent
  read_field median_sale_price s = s.median_sale_price
  read_field inventory_pressure s = s.inventory_pressure
  read_field median_unit_price s = s.median_unit_price
  read_field land_price_psm s = s.land_price_psm
  read_field appraised_value_psm s = s.appraised_value_psm

  unfoldable pub write_field : ScalarField → MarketContextSnapshot F → F → MarketContextSnapshot F
  write_field transit_score s x = record s { transit_score = some x }
  write_field school_score s x = record s { school_score = some x }
  write_field safety_score s x = record s { safety_score = some x }
  write_field median_rent s x = record s { median_rent = some x }
  write_field median_sale_price s x = record s { median_sale_price = some x }
  write_field inventory_pressure s x = record s { inventory_pressure = some x }
  write_field median_unit_price s x = record s { median_unit_price = some x }
  write_field land_price_psm s x = record s { land_price_psm = some x }
  write_field appraised_value_psm s x = record s { appraised_value_psm = some x }

  -- `hazard_flags.update(payload)`
  unfoldable pub update_dict : Dict String (Json F) → Dict String (Json F) → Dict String (Json F)
  update_dict flags [] = flags
  update_dict flags ((k, v) ∷ payload) = update_dict (assign flags k v) payload

  abbrev pub put_value : String → Option F → Dict String (Json F) → Dict String (Json F)
  put_value kind none flags = flags
  put_value kind (some x) flags = assign flags kind (number x)

  abbrev pub put_detail :
      String → Dict String (Json F) → Dict String (Json F) → Dict String (Json F)
  put_detail kind [] flags = flags
  put_detail kind (e ∷ payload) flags =
      assign flags (kind ⊕ "_detail") (object (fields_of (e ∷ payload)))

  -- The headline value of a hazard, then the payload as its detail.
  unfoldable pub put_hazard : String → MarketSignal F → Dict String (Json F) → Dict String (Json F)
  unfolding fields_of dict_or_empty
  put_hazard kind signal flags =
      put_detail kind (dict_or_empty signal.payload) (put_value kind signal.value flags)
