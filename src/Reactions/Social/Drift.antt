-- ===== src/Reactions/Social/Drift.antt =====
-- The opinions that a household gathers and how its own opinion drifts.
use real_estate_agent.Common.Dict.{string_key, get, Dict}
use real_estate_agent.Reactions.Topics.{Resident}
use real_estate_agent.Float.Order.{clamp_signed-InSigned, InSigned, IsOrdered}
use real_estate_agent.Reactions.Social.{
  value_or, Dict, Resident, opinion_of, Link, NeighborOpinion, neighbors_of, apply_opinion_drift,
  gather_neighbor_opinions, SocialReactionRuntime,
}
use real_estate_agent.Float.{zero_f, Float}
use real_estate_agent.Common.{
  String, ◌≡◌, refl, Option, none, some, List, arith, All, OnSome, keep_some-All, All-map,
}

module _ {ℓ} {F : Type ℓ} ⦃d : Float F⦄ where
  -- A gathered opinion is the one that its household holds, and that household is known.
  abbrev pub IsHeld : SocialReactionRuntime F → String → NeighborOpinion F → Type ℓ
  IsHeld runtime topic o =
      (topics : Dict String F) × (resident : Resident F) × (get runtime.opinions o.id ≡ some topics)
      × (get runtime.households o.id ≡ some resident)
      × (o.opinion ≡ value_or zero_f (get topics topic))

  opinion_of-IsHeld :
      (runtime : SocialReactionRuntime F) (topic : String) (link : Link F)
      → OnSome (IsHeld runtime topic) (
          opinion_of topic link
            (get runtime.opinions link.neighbor_id)
            (get runtime.households link.neighbor_id))
  opinion_of-IsHeld runtime topic link =
      go (get runtime.opinions link.neighbor_id) (get runtime.households link.neighbor_id) refl refl
    where
      go :
          (o : Option (Dict String F)) (h : Option (Resident F))
          → get runtime.opinions link.neighbor_id ≡ o
          → get runtime.households link.neighbor_id ≡ h
          → OnSome (IsHeld runtime topic) (opinion_of topic link o h)
      go none h p q = unfold opinion_of in tt
      go (some topics) none p q = unfold opinion_of in tt
      go (some topics) (some resident) p q = unfold opinion_of in (topics, resident, p, q, refl)

  -- Every opinion that a household gathers on a topic is the one that a known household holds on it,
  -- or 0 where that household has opinions but none on this topic.
  pub gather_neighbor_opinions-IsHeld :
      (runtime : SocialReactionRuntime F) (household_id topic : String)
      → All (IsHeld runtime topic) (gather_neighbor_opinions runtime household_id topic)
  unfolding gather_neighbor_opinions
  gather_neighbor_opinions-IsHeld runtime household_id topic =
      keep_some-All (IsHeld runtime topic) _ (
        All-map (OnSome (IsHeld runtime topic)) _ (neighbors_of runtime household_id)
          (opinion_of-IsHeld runtime topic))

  -- Whatever the stability, the neighbors and the delta are, NaN included, the new opinion lies in
  -- [-1, 1].
  pub apply_opinion_drift-InSigned :
      (laws : IsOrdered F) (household : Resident F) (current : F)
      (neighbor_opinions : List (NeighborOpinion F)) (llm_delta : F)
      → InSigned (apply_opinion_drift household current neighbor_opinions llm_delta)
  unfolding apply_opinion_drift
  apply_opinion_drift-InSigned laws household current neighbor_opinions llm_delta =
      laws.round_signed 4 _ (omega arith) (clamp_signed-InSigned laws _)
