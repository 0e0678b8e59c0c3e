-- ===== src/Market.antt =====
-- domain/market: the snapshot of the market that the other layers read, and the names of its events.
use real_estate_agent.Common.{String, Option, none, []}
use Prim.Native.String.{◌++◌}
use real_estate_agent.Common.Dict.{Dict}
use real_estate_agent.Common.Json.{Json}

-- `MarketContextSnapshot`; an absent reading is `none`.
pub record MarketContextSnapshot {ℓ} (F : Type ℓ) : Type ℓ where
  pub property_id : Option String
  pub neighborhood_id : Option String
  pub zip_code : Option String
  pub jurisdiction : Option String
  pub zoning_code : Option String
  pub transit_score : Option F
  pub school_score : Option F
  pub safety_score : Option F
  pub median_rent : Option F
  pub median_sale_price : Option F
  pub inventory_pressure : Option F
  pub median_unit_price : Option F
  pub land_price_psm : Option F
  pub appraised_value_psm : Option F
  pub hazard_flags : Dict String (Json F)

-- `MarketContextSnapshot()`
unfoldable pub blank_snapshot {ℓ} : {F : Type ℓ} → MarketContextSnapshot F
blank_snapshot = record {
  property_id = none;
  neighborhood_id = none;
  zip_code = none;
  jurisdiction = none;
  zoning_code = none;
  transit_score = none;
  school_score = none;
  safety_score = none;
  median_rent = none;
  median_sale_price = none;
  inventory_pressure = none;
  median_unit_price = none;
  land_price_psm = none;
  appraised_value_psm = none;
  hazard_flags = [];
}

unfoldable pub market_event : String → String
market_event name = "market." ++ name
