-- ===== src/Decisions/Negotiation/Analysis.antt =====
-- domain/decisions/negotiation.py: `build_negotiation_analysis`. A key that the code leaves out is
-- `none`.
use real_estate_agent.Common.Int.{ℤ}
use real_estate_agent.Common.{
  ℕ, ◌-◌, ◌≤◌, ◌<◌, String, ◌≡◌, ◌≢◌, ◌⊎◌, Bool, true, false, ◌&&◌, Option, none, some, List, [],
  ◌∷◌, arith, leb, if◌then◌else◌, length, take, drop,
}
use real_estate_agent.Float.{Float, zero_f, sum_f, max_of, min_of}
use real_estate_agent.Float.Order.{◌≼◌, IsOrdered}

pub record NegotiationAnalysis {ℓ} (F : Type ℓ) : Type ℓ where
  pub round : ℕ
  pub spread_percent : F
  pub offer_history : List F
  pub zopa_detected : Option Bool
  pub suggested_price : Option ℤ
  pub broker_mediation_recommended : Bool
  pub recommendation : Option String

-- The dictionary {"status": "insufficient_data"}, what `round` raises on a price that is a NaN or
-- infinite, or the analysis.
pub data AnalysisResult {ℓ} (F : Type ℓ) : Type ℓ where
  insufficient_data : AnalysisResult F
  round_error : AnalysisResult F
  complete : NegotiationAnalysis F → AnalysisResult F

-- The keyword arguments with defaults.
pub record AnalysisOptions {ℓ} (F : Type ℓ) : Type ℓ where
  pub history_limit : ℕ
  pub zopa_threshold_rounds : ℕ
  pub zopa_spread_percent : F
  pub broker_mediation_spread : F

module _ {ℓ} {F : Type ℓ} ⦃d : Float F⦄ where
  open d use {lit, add, sub, mul, div, abs, eq, le, lt, round_to, of_nat, nearest}

  abbrev pub default_options : AnalysisOptions F
  default_options = record {
    history_limit = 10;
    zopa_threshold_rounds = 5;
    zopa_spread_percent = lit 3 0;
    broker_mediation_spread = lit 10 0;
  }

  -- The spread of the prices as a percentage of the highest; 0 if that is 0.
  unfoldable pub spread_of : F → List F → F
  unfolding max_of min_of
  spread_of price prices =
      let max_price = max_of price prices in
      let min_price = min_of price prices in
      if eq max_price zero_f
      then zero_f
      else mul (div (abs (sub max_price min_price)) max_price) (lit 100 0)

  -- `sum(offer_prices[-2:]) / 2`
  unfoldable pub midpoint_of : List F → F
  unfolding sum_f
  midpoint_of prices =
      let trailing = drop (length prices - 2) prices in
      div (sum_f trailing) (of_nat (length trailing))

  -- The part that the zone of possible agreement adds.
  unfoldable pub with_zopa :
      AnalysisOptions F → F → List F → NegotiationAnalysis F → Option (NegotiationAnalysis F)
  unfolding midpoint_of
  with_zopa o spread prices a =
      if leb o.zopa_threshold_rounds a.round
      then (if le spread o.zopa_spread_percent
          then split (nearest (midpoint_of prices))
          else some (record a { zopa_detected = some false }))
      else some a
    where
      split : Option ℤ → Option (NegotiationAnalysis F)
      split none = none
      split (some price) = some (record a {
        zopa_detected = some true;
        suggested_price = some price;
        recommendation = some "suggest_split";
      })

  -- The part that the broker adds.
  unfoldable pub with_broker : AnalysisOptions F → F → NegotiationAnalysis F → NegotiationAnalysis F
  with_broker o spread a =
      if leb o.zopa_threshold_rounds a.round && lt o.broker_mediation_spread spread
      then record a {
        broker_mediation_recommended = true;
        recommendation = some "escalate_to_broker";
      }
      else a

  abbrev pub brokered : AnalysisOptions F → F → Option (NegotiationAnalysis F) → AnalysisResult F
  brokered o spread none = round_error
  brokered o spread (some a) = complete (with_broker o spread a)

  unfoldable pub build_negotiation_analysis : AnalysisOptions F → ℕ → List F → AnalysisResult F
  unfolding spread_of with_zopa with_broker
  build_negotiation_analysis o round_count [] = insufficient_data
  build_negotiation_analysis o round_count (price ∷ []) = insufficient_data
  build_negotiation_analysis o round_count (price ∷ next ∷ prices) =
      let offer_prices = price ∷ next ∷ prices in
      let spread = spread_of price (next ∷ prices) in
      brokered o spread (
        with_zopa o spread offer_prices (record {
          round = round_count;
          spread_percent = round_to 1 spread;
          offer_history = take o.history_limit offer_prices;
          zopa_detected = none;
          suggested_price = none;
          broker_mediation_recommended = false;
          recommendation = none;
        }))

  -- The four verdicts of an analysis with the default options. Before round five there is none;
  -- from then on there is a split with its price, or the broker without a price, or neither.
  abbrev pub Verdict : NegotiationAnalysis F → Type 0
  Verdict a =
      ((a.round < 5)
        × (a.recommendation ≡ none)
        × (a.zopa_detected ≡ none)
        × (a.suggested_price ≡ none)
        × (a.broker_mediation_recommended ≡ false))
      ⊎ ((5 ≤ a.round)
          × (a.recommendation ≡ some "suggest_split")
          × (a.zopa_detected ≡ some true)
          × (a.suggested_price ≢ none)
          × (a.broker_mediation_recommended ≡ false))
      ⊎ ((5 ≤ a.round)
          × (a.recommendation ≡ some "escalate_to_broker")
          × (a.zopa_detected ≡ some false)
          × (a.suggested_price ≡ none)
          × (a.broker_mediation_recommended ≡ true))
      ⊎ ((5 ≤ a.round)
          × (a.recommendation ≡ none)
          × (a.zopa_detected ≡ some false)
          × (a.suggested_price ≡ none)
          × (a.broker_mediation_recommended ≡ false))

  module _ (laws : IsOrdered F) where
    open laws use {lit_le, num_of_le, le_trans, lt-eq-not-le}

    -- A spread within 3 % is not past 10 %.
    narrow_not_wide : (x : F) → x ≼ lit 3 0 → lt (lit 10 0) x ≡ false
    narrow_not_wide x h =
        let below : x ≼ lit 10 0 =
          le_trans x (lit 3 0) (lit 10 0) h (lit_le 3 0 10 0 (omega arith)) in
        let (num, ten) = num_of_le x (lit 10 0) below in
        ground (arith, lt-eq-not-le (lit 10 0) x ten num)

    -- With the default options and ordered floats an analysis gives one of four verdicts: before
    -- round five none; from round five on a split with its price and no broker where the zone of
    -- agreement is found, and where it is not, the broker without a price or no recommendation.
    pub build_negotiation_analysis-Verdict :
        (n : ℕ) (prices : List F) {a : NegotiationAnalysis F}
        → build_negotiation_analysis default_options n prices ≡ complete a
        → Verdict a
    unfolding build_negotiation_analysis
    build_negotiation_analysis-Verdict n [] h = ground arith
    build_negotiation_analysis-Verdict n (p ∷ []) h = ground arith
    build_negotiation_analysis-Verdict n (p ∷ q ∷ prices) h =
        ground (arith, narrow_not_wide (spread_of p (q ∷ prices)))
