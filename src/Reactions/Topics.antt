-- ===== src/Reactions/Topics.antt =====
-- domain/reactions/social_dynamics.py: the topics, the weights of the communication styles and the
-- initial opinions. The text of the error of `validate_topics` is left out.
use real_estate_agent.Common.Dict.{values, Dict, keys}
use real_estate_agent.Float.Order.{clamp_signed-InSigned, InSigned, IsOrdered}
use real_estate_agent.Float.{zero_f, clamp_signed, one_f, or_default, Float}
use real_estate_agent.Common.{
  String, ◌≡◌, refl, sym, ◌∙◌, ◌⊎◌, inl, inr, Bool, true, false, not, Option, none, some, List, [],
  ◌∷◌, arith, str_eq, if◌then◌else◌, Bool-cases, All, any_of,
}
use mathlib.Core.Bool.{true≢false}

-- The attributes of a household that the social layer reads, `none` where one is missing.
pub record Resident {ℓ} (F : Type ℓ) : Type ℓ where
  pub id : String
  pub influence_weight : Option F
  pub communication_style : Option String
  pub income_band : Option String
  pub housing_type : Option String
  pub opinion_stability : Option F
  pub housing_market_sentiment : Option F
  pub policy_support_score : Option F
  pub neighborhood_satisfaction : Option F

abbrev pub social_reaction_topics : List String
social_reaction_topics =
    "market_prices" ∷ "eviction_policy" ∷ "voucher_program" ∷ "neighborhood_safety" ∷ []

-- `topic in ALLOWED_REACTION_TOPICS`
unfoldable pub is_allowed : String → Bool
is_allowed topic = any_of (str_eq topic) social_reaction_topics

-- `none` is the `ValueError`; a missing list is an empty one.
unfoldable pub validate_topics : List String → Option (List String)
unfolding is_allowed
validate_topics [] = some social_reaction_topics
validate_topics (t ∷ ts) =
    if any_of (λ topic. not (is_allowed topic)) (t ∷ ts) then none else some (t ∷ ts)

any_of-none :
    (ts : List String)
    → any_of (λ topic. not (is_allowed topic)) ts ≡ false
    → All (λ topic. is_allowed topic ≡ true) ts
any_of-none [] h = tt
any_of-none (t ∷ ts) h = (ground arith, any_of-none ts (ground arith))

any_of-some :
    (ts : List String)
    → All (λ topic. is_allowed topic ≡ true) ts
    → any_of (λ topic. not (is_allowed topic)) ts ≡ false
any_of-some [] h = refl
any_of-some (t ∷ ts) (p, h) = ground (arith, any_of-some ts h)

-- A list of topics that is not empty is accepted, unchanged, exactly if every topic is allowed; the
-- empty list stands for all the topics, which are allowed.
pub validate_topics_cases :
    (ts : List String)
    → ((ts ≡ [])
        × (validate_topics ts ≡ some social_reaction_topics)
        × All (λ topic. is_allowed topic ≡ true) social_reaction_topics)
      ⊎ ((validate_topics ts ≡ some ts) × All (λ topic. is_allowed topic ≡ true) ts)
      ⊎ ((validate_topics ts ≡ none) × (¬ All (λ topic. is_allowed topic ≡ true) ts))
unfolding validate_topics
validate_topics_cases [] = inl (refl, refl, unfold is_allowed in (refl, (refl, (refl, (refl, tt)))))
validate_topics_cases (t ∷ ts) =
    elim (Bool-cases (any_of (λ topic. not (is_allowed topic)) (t ∷ ts))) [
      | inl a ↦ inr (inr (rw a refl, λ h. true≢false (sym a ∙ any_of-some (t ∷ ts) h)))
      | inr b ↦ inr (inl (rw b refl, any_of-none (t ∷ ts) b))
    ]

module _ {ℓ} {F : Type ℓ} ⦃d : Float F⦄ where
  open d use {lit, sub, mul}

  unfoldable pub communication_style_multiplier : Option String → F
  communication_style_multiplier none = one_f
  communication_style_multiplier (some style) =
      if str_eq style "vocal"
      then lit 15 1
      else if str_eq style "passive"
      then lit 5 1
      else if str_eq style "analytical"
      then lit 11 1
      else if str_eq style "emotional"
      then lit 12 1
      else one_f

  unfoldable pub build_initial_opinions : Resident F → Dict String F
  unfolding or_default clamp_signed
  build_initial_opinions household =
      let market_sentiment = or_default zero_f household.housing_market_sentiment in
      let policy_support = or_default zero_f household.policy_support_score in
      let neighborhood_satisfaction = or_default (lit 5 1) household.neighborhood_satisfaction in
      ("market_prices", clamp_signed market_sentiment)
      ∷ ("eviction_policy", clamp_signed policy_support)
      ∷ ("voucher_program", clamp_signed policy_support)
      ∷ ("neighborhood_safety", clamp_signed (sub (mul neighborhood_satisfaction (lit 2 0)) one_f))
      ∷ []

  -- The initial opinions cover exactly the topics, in their order, and each lies in [-1, 1].
  pub build_initial_opinions-InSigned :
      (laws : IsOrdered F) (household : Resident F)
      → (keys (build_initial_opinions household) ≡ social_reaction_topics)
        × All InSigned (values (build_initial_opinions household))
  unfolding build_initial_opinions
  build_initial_opinions-InSigned laws household = (
    refl,
    (
      clamp_signed-InSigned laws _,
      (
        clamp_signed-InSigned laws _,
        (clamp_signed-InSigned laws _, (clamp_signed-InSigned laws _, tt)),
      ),
    ),
  )
