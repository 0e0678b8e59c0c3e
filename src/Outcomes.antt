-- ===== src/Outcomes.antt =====
-- domain/outcomes: the observable metrics that are projected from offers, dates and reaction vectors.
-- An instant counts microseconds; a `datetime` without a zone is read as UTC.
pub mod Metrics
mod Tests
use real_estate_agent.Reactions.Engine.{or_neutral}
use real_estate_agent.Decisions.Policies.{is_text}
use real_estate_agent.Reactions.{ReactionVector}
use real_estate_agent.Float.{to_unit, sum_f, clamp_unit, zero_f, Float}
use real_estate_agent.Common.{
  ℕ, ◌+◌, ◌-◌, String, Bool, ◌&&◌, Option, none, some, List, [], ◌∷◌, map, ltb, ◌==◌, if◌then◌else◌,
  length, keep_some, last?,
}
use Prim.Native.Nat.{◌/◌}

-- What the builders read of `NegotiationOfferSnapshot`; the price can be missing, as they test.
pub record NegotiationOfferSnapshot {ℓ} (F : Type ℓ) : Type ℓ where
  pub offer_id : String
  pub property_id : String
  pub buyer_id : Option String
  pub offer_price : Option F
  pub actor_role : Option String
  pub actor_user_id : Option String
  pub status : Option String
  pub parent_offer_id : Option String
  pub correlation_id : Option String
  pub message : Option String
  pub created_at : Option ℕ

pub record MarketOutcomeSnapshot {ℓ} (F : Type ℓ) : Type ℓ where
  pub listing_id : Option String
  pub price_change_pct : Option F
  pub time_on_market_days : Option ℕ
  pub offer_volume : ℕ
  pub concession_rate : Option F
  pub turnover_rate : Option F
  pub permit_friction : Option F
  pub neighborhood_sentiment : Option F

pub record OfferBehavior {ℓ} (F : Type ℓ) : Type ℓ where
  pub offer_volume : ℕ
  pub acceptance_rate : F
  pub rejection_rate : F
  pub withdrawal_rate : F

-- `datetime`, with and without a time zone.
pub data Datetime : Type 0 where
  naive : ℕ → Datetime
  aware : ℕ → Datetime

-- `_ensure_aware`, as the instant in UTC.
unfoldable pub ensure_aware : Datetime → ℕ
ensure_aware (naive t) = t
ensure_aware (aware t) = t

-- `timedelta.days` of a difference, with the negative ones at 0.
unfoldable pub days_between : ℕ → ℕ → ℕ
days_between listed_at end = (end - listed_at) / 86_400_000_000

-- What `project_time_on_market` gives: `type_error` is the `TypeError` of a difference between a
-- `datetime` with a zone and one without.
pub data Elapsed : Type 0 where
  no_listing : Elapsed
  days : ℕ → Elapsed
  type_error : Elapsed

-- The end without a close: `now or _now_utc()`, the clock being in UTC.
unfoldable pub until_now : ℕ → Option Datetime → ℕ → Elapsed
unfolding days_between
until_now listed none clock = days (days_between listed clock)
until_now listed (some (aware t)) clock = days (days_between listed t)
until_now listed (some (naive t)) clock = type_error

unfoldable pub project_time_on_market :
    Option Datetime → Option Datetime → Option Datetime → ℕ → Elapsed
unfolding until_now days_between ensure_aware
project_time_on_market none closed_at now clock = no_listing
project_time_on_market (some listed_at) (some closed_at) now clock =
    days (days_between (ensure_aware listed_at) (ensure_aware closed_at))
project_time_on_market (some listed_at) none now clock =
    until_now (ensure_aware listed_at) now clock

-- The result as the optional number of the snapshot.
abbrev pub elapsed_days : Elapsed → Option ℕ
elapsed_days (days n) = some n
elapsed_days _ = none

module _ {ℓ} {F : Type ℓ} ⦃d : Float F⦄ where
  open d use {lit, add, sub, mul, div, neg, le, eq, of_nat}

  -- The offers that have a price.
  abbrev pub priced : List (NegotiationOfferSnapshot F) → List F
  priced offers = keep_some (map (λ (o : NegotiationOfferSnapshot F). o.offer_price) offers)

  -- The last element of a list that starts with `x`.
  abbrev pub last_of : F → List F → F
  last_of x [] = x
  last_of x (y ∷ ys) = last_of y ys

  unfoldable pub movement : F → F → Option F
  movement first last =
      if eq first zero_f then none else some (mul (div (sub last first) first) (lit 100 0))

  abbrev pub movement_of : List F → Option F
  movement_of [] = none
  movement_of (first ∷ []) = none
  movement_of (first ∷ second ∷ rest) = movement first (last_of second rest)

  unfoldable pub project_price_movement : List (NegotiationOfferSnapshot F) → Option F
  unfolding movement
  project_price_movement offers =
      if ltb (length offers) 2 then none else movement_of (priced offers)

  abbrev pub has_status : String → NegotiationOfferSnapshot F → Bool
  has_status expected o = is_text o.status expected

  -- `sum(1 for offer in offers if offer.status == expected)`
  unfoldable pub count_status : String → List (NegotiationOfferSnapshot F) → ℕ
  count_status expected [] = 0
  count_status expected (o ∷ offers) =
      (if has_status expected o then 1 else 0) + count_status expected offers

  unfoldable pub project_offer_behavior : List (NegotiationOfferSnapshot F) → OfferBehavior F
  unfolding count_status
  project_offer_behavior offers =
      let volume = length offers in
      let rate : String → F =
        λ expected. div (of_nat (count_status expected offers)) (of_nat volume) in
      if volume == 0
      then record {
        offer_volume = 0;
        acceptance_rate = zero_f;
        rejection_rate = zero_f;
        withdrawal_rate = zero_f;
      }
      else record {
        offer_volume = volume;
        acceptance_rate = rate "accepted";
        rejection_rate = rate "rejected";
        withdrawal_rate = rate "withdrawn";
      }

  unfoldable pub concession : F → F → F
  concession asking_price latest = mul (div (sub asking_price latest) asking_price) (lit 100 0)

  abbrev pub concession_from : F → Option F → Option F
  concession_from asking_price none = none
  concession_from asking_price (some latest) = some (concession asking_price latest)

  unfoldable pub project_concession_rate : Option F → List (NegotiationOfferSnapshot F) → Option F
  unfolding concession
  project_concession_rate none offers = none
  project_concession_rate (some asking_price) offers =
      if le asking_price zero_f then none else concession_from asking_price (last? (priced offers))

  -- The resistance and displacement of a vector, weighted.
  unfoldable pub friction_base : ReactionVector F → F
  unfolding to_unit
  friction_base reaction =
      add (mul (lit 6 1) (to_unit reaction.resistance_to_development))
        (mul (lit 4 1) (to_unit reaction.displacement_concern))

  unfoldable pub project_permit_friction : ReactionVector F → Option F → Option F
  unfolding friction_base clamp_unit
  project_permit_friction reaction none =
      if eq reaction.resistance_to_development zero_f && eq reaction.displacement_concern zero_f
      then none
      else some (clamp_unit (friction_base reaction))
  project_permit_friction reaction (some permit_signal) = some (
      clamp_unit
        (add (mul (lit 5 1) (friction_base reaction)) (mul (lit 5 1) (clamp_unit permit_signal))))

  -- One sample of the sentiment.
  unfoldable pub sentiment_sample : ReactionVector F → F
  unfolding clamp_unit sum_f to_unit
  sentiment_sample reaction =
      let components =
        reaction.trust_in_trajectory
        ∷ reaction.perceived_safety
        ∷ neg reaction.displacement_concern
        ∷ reaction.willingness_to_transact
        ∷ [] in
      clamp_unit (div (sum_f (map to_unit components)) (of_nat (length components)))

  unfoldable pub project_neighborhood_sentiment : List (ReactionVector F) → Option F
  unfolding sentiment_sample sum_f
  project_neighborhood_sentiment [] = none
  project_neighborhood_sentiment (r ∷ rs) =
      let samples = map sentiment_sample (r ∷ rs) in
      some (div (sum_f samples) (of_nat (length samples)))

  unfoldable pub build_outcome_snapshot :
      Option String
      → Option F
      → List (NegotiationOfferSnapshot F)
      → Option Datetime
      → Option Datetime
      → List (ReactionVector F)
      → Option F
      → Option F
      → ℕ
      → MarketOutcomeSnapshot F
  build_outcome_snapshot listing_id asking_price offers listed_at closed_at reactions permit_signal
        turnover_rate clock =
      record {
        listing_id = listing_id;
        price_change_pct = project_price_movement offers;
        time_on_market_days = elapsed_days (project_time_on_market listed_at closed_at none clock);
        offer_volume = (project_offer_behavior offers).offer_volume;
        concession_rate = project_concession_rate asking_price offers;
        turnover_rate = turnover_rate;
        permit_friction = project_permit_friction (or_neutral (last? reactions)) permit_signal;
        neighborhood_sentiment = project_neighborhood_sentiment reactions;
      }
