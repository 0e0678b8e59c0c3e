-- ===== src/Portfolio/Tables.antt =====
-- services/portfolio_summary.py: the tables that a summary reads and what is loaded of them.
use real_estate_agent.Common.Json.{Json}
use real_estate_agent.Store.MarketState.Latest.{includes, distinct_ids}
use real_estate_agent.Market.{MarketContextSnapshot}
use real_estate_agent.Store.MarketState.Build.{neighborhood_snapshots, truthy_text, build_snapshots}
use real_estate_agent.Common.Sort.{sort_stable}
use real_estate_agent.Holding.{PortfolioHolding, HoldingFinancials}
use real_estate_agent.Float.{Float}
use real_estate_agent.Common.Dict.{values, string_key, dict_of, get, Dict}
use real_estate_agent.Actors.{Profile}
use real_estate_agent.Common.{
  ℕ, String, Option, none, some, List, [], ◌∷◌, map, str_eq, ltb, if◌then◌else◌, keep_if, keep_some,
}
use real_estate_agent.Portfolio.Metrics.{Building}
use real_estate_agent.Store.SignalWriter.{MarketSignal}

pub record InvestorPortfolio : Type 0 where
  pub id : String
  pub user_id : Option String

pub record HoldingRow : Type 0 where
  pub holding : PortfolioHolding
  pub portfolio_id : String
  pub created_at : ℕ

pub record FinancialsRow {ℓ} (F : Type ℓ) : Type ℓ where
  pub holding_id : String
  pub financials : HoldingFinancials F

-- The tables that are read; users are kept by id.
pub record Database {ℓ} (F : Type ℓ) : Type ℓ where
  pub portfolios : List InvestorPortfolio
  pub holdings : List HoldingRow
  pub financials : List (FinancialsRow F)
  pub properties : List (Building F)
  pub users : Dict String (Profile F)
  pub signals : List (MarketSignal F)

-- What is loaded before the loop.
pub record Loaded {ℓ} (F : Type ℓ) : Type ℓ where
  pub fin_by_holding : Dict String (HoldingFinancials F)
  pub prop_by_id : Dict String (Building F)
  pub owner : Option (Profile F)
  pub prop_snapshots : Dict String (MarketContextSnapshot F)
  pub zip_snapshots : Dict String (MarketContextSnapshot F)

abbrev pub find_portfolio : List InvestorPortfolio → String → Option InvestorPortfolio
find_portfolio [] id = none
find_portfolio (p ∷ ps) id = if str_eq p.id id then some p else find_portfolio ps id

abbrev pub get_optional {κ} : {V : Type κ} → Dict String V → Option String → Option V
get_optional dict none = none
get_optional dict (some key) = get dict key

abbrev pub first_found {κ} : {V : Type κ} → Option V → Option V → Option V
first_found none o = o
first_found (some x) o = some x

module _ {ℓ} {F : Type ℓ} where
  abbrev pub owner_if {κ} : {V : Type κ} → Option V → Option (Profile F) → Option (Profile F)
  owner_if none owner = none
  owner_if (some _) owner = owner

module _ {ℓ} {F : Type ℓ} ⦃d : Float F⦄ where
  -- `_load_financials_by_holding`
  unfoldable pub load_financials_by_holding :
      Database F → List String → Dict String (HoldingFinancials F)
  unfolding dict_of
  load_financials_by_holding db ids = dict_of (
      map (λ (r : FinancialsRow F). (r.holding_id, r.financials))
        (keep_if (λ (r : FinancialsRow F). includes ids r.holding_id) db.financials))

  -- `_load_properties_by_id`
  unfoldable pub load_properties_by_id : Database F → List String → Dict String (Building F)
  unfolding dict_of distinct_ids
  load_properties_by_id db property_ids = dict_of (
      map (λ (b : Building F). (b.row.id, b))
        (keep_if (λ (b : Building F). includes (distinct_ids property_ids) b.row.id) db.properties))

  -- `_load_owner`
  unfoldable pub load_owner : Database F → Option String → Option (Profile F)
  load_owner db user_id = elim (truthy_text user_id) [ none ↦ none | some id ↦ get db.users id ]

  -- `_resolve_snapshot`
  unfoldable pub resolve_snapshot :
      Dict String (MarketContextSnapshot F)
      → Dict String (MarketContextSnapshot F)
      → PortfolioHolding
      → Option (MarketContextSnapshot F)
  unfolding get
  resolve_snapshot prop_snapshots zip_snapshots h =
      first_found (get_optional prop_snapshots (truthy_text h.property_id))
        (get_optional zip_snapshots (truthy_text h.zip_code))

  -- The zips of the holdings that have no snapshot of a property.
  unfoldable pub fallback_zips :
      Dict String (MarketContextSnapshot F) → List PortfolioHolding → List String
  unfolding get
  fallback_zips prop_snapshots holdings = keep_some (map zip_if_needed holdings)
    where
      zip_if_needed : PortfolioHolding → Option String
      zip_if_needed h = elim (get_optional prop_snapshots (truthy_text h.property_id)) [
        | none ↦ truthy_text h.zip_code
        | some _ ↦ none
      ]

  -- The holdings of a portfolio in the order of their creation.
  unfoldable pub holdings_of : Database F → String → List PortfolioHolding
  unfolding sort_stable
  holdings_of db portfolio_id =
      map (λ (r : HoldingRow). r.holding)
        (sort_stable (λ (a b : HoldingRow). ltb b.created_at a.created_at)
          (keep_if (λ (r : HoldingRow). str_eq r.portfolio_id portfolio_id) db.holdings))

  unfoldable pub load :
      (Json F → String) → Database F → InvestorPortfolio → List PortfolioHolding → Loaded F
  unfolding load_financials_by_holding load_properties_by_id load_owner build_snapshots
      fallback_zips neighborhood_snapshots
  load str db portfolio holdings =
      let prop_by_id =
        load_properties_by_id db
          (keep_some (map (λ (h : PortfolioHolding). truthy_text h.property_id) holdings)) in
      let prop_snapshots =
        build_snapshots str db.signals (map (λ (b : Building F). b.row) (values prop_by_id)) in
      record {
        fin_by_holding =
            load_financials_by_holding db (map (λ (h : PortfolioHolding). h.id) holdings);
        prop_by_id = prop_by_id;
        owner = load_owner db portfolio.user_id;
        prop_snapshots = prop_snapshots;
        zip_snapshots = neighborhood_snapshots db.signals (fallback_zips prop_snapshots holdings);
      }
