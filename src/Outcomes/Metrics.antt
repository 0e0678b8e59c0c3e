-- ===== src/Outcomes/Metrics.antt =====
-- What the outcome metrics measure.
use mathlib.Core.Option.{none-ne-some}
use real_estate_agent.Decisions.Policies.{is_text}
use real_estate_agent.Reactions.{ReactionVector}
use real_estate_agent.Float.Order.{clamp_unit-InUnit, InUnit, IsOrdered}
use real_estate_agent.Float.{clamp_unit, zero_f, Float}
use real_estate_agent.Common.{
  ℕ, ◌+◌, ◌-◌, ◌*◌, ◌/◌, ◌≤◌, ◌<◌, String, ◌≡◌, refl, sym, ap, ◌≢◌, ◌↔◌, ◌⊎◌, inl, inr, Bool, true,
  false, ◌&&◌, Option, none, some, List, [], ◌∷◌, ◌++◌, map, arith, str_eq, eq_iff, ltb,
  if◌then◌else◌, Bool-cases, length, length-map, keep_some, last?,
}
use real_estate_agent.Outcomes.{
  aware, friction_base, is_text, concession_from, movement, concession, ReactionVector,
  ensure_aware, Elapsed, priced, NegotiationOfferSnapshot, Datetime, until_now, days_between,
  project_price_movement, last_of, project_concession_rate, project_permit_friction, count_status,
  project_time_on_market, Float, days, naive,
}

abbrev microseconds_per_day : ℕ
microseconds_per_day = 86_400_000_000

-- For a listing and a close, with or without zones, the days on the market are the whole days
-- between them, and zero for a close that is not after the listing.
pub project_time_on_market_cases :
    (listed closed : Datetime) (now : Option Datetime) (clock : ℕ)
    → (n : ℕ) × (project_time_on_market (some listed) (some closed) now clock ≡ days n)
      × (((ensure_aware closed ≤ ensure_aware listed) × (n ≡ 0))
          ⊎ ((ensure_aware listed + n * 86_400_000_000 ≤ ensure_aware closed)
              × (ensure_aware closed < ensure_aware listed + (n + 1) * 86_400_000_000)))
unfolding project_time_on_market days_between
project_time_on_market_cases listed closed now clock =
    let n = (ensure_aware closed - ensure_aware listed) / 86_400_000_000 in (n, refl, grind arith)

-- Without a close, a `now` that has no time zone raises a `TypeError`, and nothing else does.
pub project_time_on_market-type_error_iff :
    (listed : Datetime) (closed now : Option Datetime) (clock : ℕ)
    → (project_time_on_market (some listed) closed now clock ≡ Elapsed.type_error)
      ↔ ((closed ≡ none) × ((t : ℕ) × (now ≡ some (naive t))))
unfolding project_time_on_market until_now
project_time_on_market-type_error_iff listed none none clock =
    (λ e. ground arith, λ e. ground arith)
project_time_on_market-type_error_iff listed none (some (naive t)) clock =
    (λ e. (refl, (t, refl)), λ e. refl)
project_time_on_market-type_error_iff listed none (some (aware t)) clock =
    (λ e. ground arith, λ e. ground arith)
project_time_on_market-type_error_iff listed (some c) now clock =
    (λ e. ground arith, λ e. ground arith)

abbrev bit : Bool → ℕ
bit b = if b then 1 else 0

-- A text is at most one of the three statuses.
one_status :
    (o : Option String)
    → bit (is_text o "accepted") + bit (is_text o "rejected") + bit (is_text o "withdrawn") ≤ 1
one_status none = omega arith
one_status (some s) = elim (Bool-cases (str_eq s "accepted")) [
  | inl a ↦ rw ((eq_iff s "accepted").0 a) (omega arith)
  | inr a ↦ elim (Bool-cases (str_eq s "rejected")) [
    | inl b ↦ rw ((eq_iff s "rejected").0 b) (omega arith)
    | inr b ↦ elim (Bool-cases (str_eq s "withdrawn")) [
      | inl c ↦ rw ((eq_iff s "withdrawn").0 c) (omega arith)
      | inr c ↦ rw (a, b, c) (omega arith)
    ]
  ]
]

module _ {ℓ} {F : Type ℓ} ⦃d : Float F⦄ where
  -- The offers with one of three different statuses are at most all offers.
  pub count_status-length :
      (offers : List (NegotiationOfferSnapshot F))
      → count_status "accepted" offers
          + count_status "rejected" offers
          + count_status "withdrawn" offers
        ≤ length offers
  unfolding count_status
  count_status-length [] = omega arith
  count_status-length (o ∷ offers) = omega (arith, one_status o.status, count_status-length offers)

  last_of-append : (x q : F) (mid : List F) → last_of x (mid ++ (q ∷ [])) ≡ q
  last_of-append x q [] = refl
  last_of-append x q (y ∷ mid) = last_of-append y q mid

  keep_some-length : (os : List (Option F)) → length (keep_some os) ≤ length os
  keep_some-length [] = omega arith
  keep_some-length (none ∷ os) = omega (arith, keep_some-length os)
  keep_some-length (some x ∷ os) = omega (arith, keep_some-length os)

  -- The price movement compares the first and the last priced offer and nothing between them: offers
  -- without a price and all the other prices have no effect.
  pub project_price_movement-ends :
      (offers : List (NegotiationOfferSnapshot F)) (first last : F) (mid : List F)
      → priced offers ≡ first ∷ (mid ++ (last ∷ []))
      → project_price_movement offers ≡ movement first last
  unfolding project_price_movement
  project_price_movement-ends offers first last mid e = go mid e
    where
      enough :
          (xs : List F) → priced offers ≡ first ∷ xs → 1 ≤ length xs → ltb (length offers) 2 ≡ false
      enough xs h n = ground (
        arith,
        keep_some-length (map (λ (o : NegotiationOfferSnapshot F). o.offer_price) offers),
        length-map offers (λ (o : NegotiationOfferSnapshot F). o.offer_price),
        ap length h,
      )

      go :
          (xs : List F)
          → priced offers ≡ first ∷ (xs ++ (last ∷ []))
          → project_price_movement offers ≡ movement first last
      go [] h = rw (enough (last ∷ []) h (omega arith)) (rw h refl)
      go (y ∷ ys) h =
          rw (enough (y ∷ (ys ++ (last ∷ []))) h (omega arith))
            (rw h (ap (movement first) (last_of-append y last ys)))

  last?-append : (x : F) (xs : List F) → last? (xs ++ (x ∷ [])) ≡ some x
  last?-append x [] = refl
  last?-append x (y ∷ []) = refl
  last?-append x (y ∷ z ∷ xs) = last?-append x (z ∷ xs)

  -- The concession is measured against the last offer that has a price, for an asking price above
  -- zero, whatever the earlier offers are.
  pub project_concession_rate-latest :
      (asking latest : F) (earlier : List F) (offers : List (NegotiationOfferSnapshot F))
      → d.le asking zero_f ≡ false
      → priced offers ≡ earlier ++ (latest ∷ [])
      → project_concession_rate (some asking) offers ≡ some (concession asking latest)
  unfolding project_concession_rate
  project_concession_rate-latest asking latest earlier offers h e =
      rw h (rw e (ap (concession_from asking) (last?-append latest earlier)))

  -- A permit friction is given exactly if there is an external signal or one of the two variables is
  -- not zero, and it lies in [0, 1], whatever the vector and the signal are, NaN included.
  pub project_permit_friction-InUnit :
      (laws : IsOrdered F) (reaction : ReactionVector F) (signal : Option F)
      → ((project_permit_friction reaction signal ≡ none)
          × (signal ≡ none)
          × (d.eq reaction.resistance_to_development zero_f ≡ true)
          × (d.eq reaction.displacement_concern zero_f ≡ true))
        ⊎ ((x : F) × (project_permit_friction reaction signal ≡ some x)
            × InUnit x
            × ((signal ≢ none)
                ⊎ (d.eq reaction.resistance_to_development zero_f ≡ false)
                ⊎ (d.eq reaction.displacement_concern zero_f ≡ false)))
  unfolding project_permit_friction
  project_permit_friction-InUnit laws reaction none =
      elim (Bool-cases (
        d.eq reaction.resistance_to_development zero_f
        && d.eq reaction.displacement_concern zero_f)) [
          | inl e ↦ inl (rw e refl, refl, ground (arith, e), ground (arith, e))
          | inr e ↦ inr (
            clamp_unit (friction_base reaction),
            rw e refl,
            clamp_unit-InUnit laws (friction_base reaction),
            ground (arith, e),
          )
        ]
  project_permit_friction-InUnit laws reaction (some signal) =
      inr (_, refl, clamp_unit-InUnit laws _, inl (λ e. none-ne-some signal (sym e)))
