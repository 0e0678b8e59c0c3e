-- ===== src/Portfolio/Summary.antt =====
-- services/portfolio_summary.py: `build_portfolio_summary` over the tables of the database.
use real_estate_agent.Portfolio.Tables.{
  find_portfolio, Database, owner_if, holdings_of, get_optional, load, resolve_snapshot, Loaded,
}
use real_estate_agent.Common.Json.{Json}
use real_estate_agent.Float.Ranking.{sort_descending}
use real_estate_agent.Store.MarketState.Build.{truthy_text}
use real_estate_agent.Store.MarketState.Latest.{includes}
use real_estate_agent.Common.Dict.{string_key, get}
use real_estate_agent.Float.{sum_f, zero_f, or_default, Float}
use real_estate_agent.Holding.{
  HoldingDecisionResponse, compute_holding_decision, HoldingFinancials, PortfolioHolding,
}
use real_estate_agent.Common.{
  ℕ, ◌+◌, String, Bool, Option, none, some, List, [], ◌∷◌, ◌++◌, map, foldl, if◌then◌else◌, length,
}
use real_estate_agent.Portfolio.Metrics.{
  divided_if_positive, derive_depreciation_inputs, per_holding_metrics, HoldingMetrics,
}

pub record HoldingSummaryEntry {ℓ} (F : Type ℓ) : Type ℓ where
  pub holding_id : String
  pub address : String
  pub zip_code : Option String
  pub asset_class : String
  pub metrics : HoldingMetrics F
  pub recommendation : String
  pub recommendation_score : F
  pub recommendation_rationale : String
  pub market_context_available : Bool
  pub construction_type : Option String
  pub building_age_years : Option ℕ
  pub building_basis_yen : Option F

pub record AttentionItem {ℓ} (F : Type ℓ) : Type ℓ where
  pub holding_id : String
  pub address : String
  pub action : String
  pub score : F
  pub rationale : String

-- The variables of the loop.
pub record SummaryState {ℓ} (F : Type ℓ) : Type ℓ where
  pub per_holding : List (HoldingSummaryEntry F)
  pub attention : List (AttentionItem F)
  pub total_value : F
  pub total_loan : F
  pub monthly_gross_rent : F
  pub monthly_noi_total : F
  pub monthly_cf_total : F
  pub dscr_components : List (F × F)
  pub coverage_with_signals : ℕ

pub record SummaryReport {ℓ} (F : Type ℓ) : Type ℓ where
  pub portfolio_id : String
  pub holding_count : ℕ
  pub total_value : F
  pub total_loan_balance : F
  pub total_equity : F
  pub monthly_gross_rent : F
  pub monthly_net_operating_income : F
  pub monthly_cash_flow : F
  pub annual_noi : F
  pub blended_cap_rate : F
  pub weighted_dscr : Option F
  pub per_holding : List (HoldingSummaryEntry F)
  pub attention : List (AttentionItem F)
  pub coverage_total : ℕ
  pub coverage_with_signals : ℕ

abbrev pub attention_actions : List String
attention_actions = "SELL" ∷ "REFI" ∷ "IMPROVE" ∷ "RAISE_RENT" ∷ []

module _ {ℓ} {F : Type ℓ} ⦃d : Float F⦄ where
  open d use {lit, add, sub, mul, div, lt}

  -- The decision that the loop takes for a holding.
  unfoldable pub decide : ℕ → Loaded F → PortfolioHolding → HoldingDecisionResponse F
  unfolding resolve_snapshot compute_holding_decision get
  decide now loaded h =
      let snapshot = resolve_snapshot loaded.prop_snapshots loaded.zip_snapshots h in
      compute_holding_decision now h (get loaded.fin_by_holding h.id) snapshot
        (owner_if snapshot loaded.owner)

  unfoldable pub summary_entry : ℕ → ℕ → Loaded F → PortfolioHolding → HoldingSummaryEntry F
  unfolding decide per_holding_metrics derive_depreciation_inputs get
  summary_entry now as_of_year loaded h =
      let decision = decide now loaded h in
      let fin = get loaded.fin_by_holding h.id in
      let inputs =
        derive_depreciation_inputs (get_optional loaded.prop_by_id (truthy_text h.property_id)) fin
          as_of_year in
      record {
        holding_id = h.id;
        address = h.address;
        zip_code = h.zip_code;
        asset_class = h.asset_class;
        metrics = per_holding_metrics fin;
        recommendation = decision.recommendation;
        recommendation_score = decision.score;
        recommendation_rationale = decision.rationale;
        market_context_available = decision.market_context_available;
        construction_type = inputs.0;
        building_age_years = inputs.1;
        building_basis_yen = inputs.2;
      }

  unfoldable pub attention_item : HoldingSummaryEntry F → AttentionItem F
  attention_item e = record {
    holding_id = e.holding_id;
    address = e.address;
    action = e.recommendation;
    score = e.recommendation_score;
    rationale = e.recommendation_rationale;
  }

  -- The sums over the finances of a holding.
  unfoldable pub add_financials :
      Option (HoldingFinancials F) → HoldingMetrics F → SummaryState F → SummaryState F
  unfolding or_default
  add_financials none metrics s = s
  add_financials (some fin) metrics s =
      let noi = or_default zero_f metrics.monthly_noi in
      let piti = or_default zero_f fin.monthly_piti in
      record s {
        total_value = add s.total_value (or_default zero_f fin.current_value_estimate);
        total_loan = add s.total_loan (or_default zero_f fin.loan_balance);
        monthly_gross_rent = add s.monthly_gross_rent (or_default zero_f fin.monthly_rent);
        monthly_noi_total = add s.monthly_noi_total noi;
        monthly_cf_total = add s.monthly_cf_total (or_default zero_f metrics.monthly_cash_flow);
        dscr_components =
            if lt zero_f piti
            then s.dscr_components ++ (mul noi (lit 12 0), mul piti (lit 12 0)) ∷ []
            else s.dscr_components;
      }

  -- The row of a holding, its item when it needs attention, and the coverage.
  unfoldable pub add_entry : HoldingSummaryEntry F → SummaryState F → SummaryState F
  unfolding attention_item
  add_entry entry s = record s {
    per_holding = s.per_holding ++ entry ∷ [];
    attention =
        if includes attention_actions entry.recommendation
        then s.attention ++ attention_item entry ∷ []
        else s.attention;
    coverage_with_signals =
        if entry.market_context_available
        then s.coverage_with_signals + 1
        else s.coverage_with_signals;
  }

  -- One round of the loop.
  unfoldable pub add_holding : ℕ → ℕ → Loaded F → SummaryState F → PortfolioHolding → SummaryState F
  unfolding summary_entry add_entry add_financials get
  add_holding now as_of_year loaded s h =
      let entry = summary_entry now as_of_year loaded h in
      add_financials (get loaded.fin_by_holding h.id) entry.metrics (add_entry entry s)

  abbrev pub start_state : SummaryState F
  start_state = record {
    per_holding = [];
    attention = [];
    total_value = zero_f;
    total_loan = zero_f;
    monthly_gross_rent = zero_f;
    monthly_noi_total = zero_f;
    monthly_cf_total = zero_f;
    dscr_components = [];
    coverage_with_signals = 0;
  }

  unfoldable pub weighted_dscr_of : List (F × F) → Option F
  unfolding sum_f
  weighted_dscr_of [] = none
  weighted_dscr_of (c ∷ cs) =
      divided_if_positive (sum_f (map (λ (p : F × F). p.0) (c ∷ cs)))
        (sum_f (map (λ (p : F × F). p.1) (c ∷ cs)))

  abbrev pub item_score : AttentionItem F → F
  item_score i = i.score

  -- The report of the variables after the loop.
  unfoldable pub report_of : String → ℕ → SummaryState F → SummaryReport F
  unfolding weighted_dscr_of sort_descending
  report_of portfolio_id count s =
      let annual_noi = mul s.monthly_noi_total (lit 12 0) in
      record {
        portfolio_id = portfolio_id;
        holding_count = count;
        total_value = s.total_value;
        total_loan_balance = s.total_loan;
        total_equity = sub s.total_value s.total_loan;
        monthly_gross_rent = s.monthly_gross_rent;
        monthly_net_operating_income = s.monthly_noi_total;
        monthly_cash_flow = s.monthly_cf_total;
        annual_noi = annual_noi;
        blended_cap_rate = if lt zero_f s.total_value then div annual_noi s.total_value else zero_f;
        weighted_dscr = weighted_dscr_of s.dscr_components;
        per_holding = s.per_holding;
        attention = sort_descending item_score s.attention;
        coverage_total = count;
        coverage_with_signals = s.coverage_with_signals;
      }

  unfoldable pub summarize : ℕ → ℕ → Loaded F → String → List PortfolioHolding → SummaryReport F
  unfolding add_holding report_of
  summarize now as_of_year loaded portfolio_id holdings =
      report_of portfolio_id (length holdings)
        (foldl (add_holding now as_of_year loaded) start_state holdings)

  -- `build_portfolio_summary`; `none` for a portfolio that is missing. `now` and `as_of_year` are
  -- what the clock gives.
  unfoldable pub build_portfolio_summary :
      (Json F → String) → ℕ → ℕ → Database F → String → Option (SummaryReport F)
  unfolding load summarize holdings_of
  build_portfolio_summary str now as_of_year db portfolio_id =
      elim (find_portfolio db.portfolios portfolio_id) [
        | none ↦ none
        | some portfolio ↦
            let holdings = holdings_of db portfolio_id in
            some (summarize now as_of_year (load str db portfolio holdings) portfolio_id holdings)
      ]
