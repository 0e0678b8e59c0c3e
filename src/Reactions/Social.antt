-- ===== src/Reactions/Social.antt =====
-- domain/reactions/runtime.py: the social graph of households, the drift of opinions and their
-- changes. The random selection of active households is left out.
pub mod Graph
pub mod Stances
pub mod Sentiment
pub mod Drift
mod Tests
use real_estate_agent.Actors.{or_unknown}
use real_estate_agent.Common.Dict.{string_key, Key, assign, get, Dict}
use real_estate_agent.Float.{zero_f, one_f, clamp_signed, or_default, sum_f, Float}
use real_estate_agent.Decisions.Policies.{or_nil}
use real_estate_agent.Reactions.Topics.{Resident}
use real_estate_agent.Common.{
  String, Option, none, some, List, [], ◌∷◌, ◌++◌, map, foldl, str_eq, ltb, if◌then◌else◌, length,
  keep_some,
}

pub record Edge {ℓ} (F : Type ℓ) : Type ℓ where
  pub source_id : String
  pub target_id : String
  pub edge_weight : F
  pub edge_type : String

-- The tuple of a neighbor's id, the weight and the type of the edge.
pub record Link {ℓ} (F : Type ℓ) : Type ℓ where
  pub neighbor_id : String
  pub weight : F
  pub edge_type : String

-- The opinions of every household by topic.
abbrev pub Opinions {ℓ} : Type ℓ → Type ℓ
Opinions F = Dict String (Dict String F)

pub record SocialReactionRuntime {ℓ} (F : Type ℓ) : Type ℓ where
  pub households : Dict String (Resident F)
  pub neighbors : Dict String (List (Link F))
  pub opinions : Opinions F

pub record NeighborOpinion {ℓ} (F : Type ℓ) : Type ℓ where
  pub id : String
  pub opinion : F
  pub weight : F
  pub edge_type : String
  pub income_band : String
  pub communication_style : String

-- `style or "passive"`
abbrev pub or_passive : Option String → String
or_passive none = "passive"
or_passive (some s) = if str_eq s "" then "passive" else s

module _ {ℓ} {F : Type ℓ} where
  -- `neighbors[id].append(link)` on a `defaultdict(list)`
  unfoldable pub add_link :
      Dict String (List (Link F)) → String → Link F → Dict String (List (Link F))
  add_link neighbors id link = assign neighbors id (or_nil (get neighbors id) ++ (link ∷ []))

  abbrev pub to_target : Edge F → Link F
  to_target e = record {
    neighbor_id = e.target_id;
    weight = e.edge_weight;
    edge_type = e.edge_type;
  }

  abbrev pub to_source : Edge F → Link F
  to_source e = record {
    neighbor_id = e.source_id;
    weight = e.edge_weight;
    edge_type = e.edge_type;
  }

  unfoldable pub add_edge : Dict String (List (Link F)) → Edge F → Dict String (List (Link F))
  unfolding add_link
  add_edge neighbors e =
      add_link (add_link neighbors e.source_id (to_target e)) e.target_id (to_source e)

  -- `SocialReactionRuntime(households=..., edges=..., opinions=...)`
  unfoldable pub new_social :
      List (Resident F) → List (Edge F) → Opinions F → SocialReactionRuntime F
  unfolding add_edge
  new_social households edges opinions = record {
    households = foldl (λ known (h : Resident F). assign known h.id h) [] households;
    neighbors = foldl add_edge [] edges;
    opinions = opinions;
  }

  -- `self.neighbors.get(household_id, [])`
  unfoldable pub neighbors_of : SocialReactionRuntime F → String → List (Link F)
  neighbors_of runtime id = or_nil (get runtime.neighbors id)

module _ {ℓ} {F : Type ℓ} ⦃d : Float F⦄ where
  open d use {lit, add, sub, mul, div, abs, lt, of_nat, round_to}

  -- `opinions.get(topic, default)`
  abbrev pub value_or : F → Option F → F
  value_or default none = default
  value_or default (some x) = x

  unfoldable pub opinion_of :
      String → Link F → Option (Dict String F) → Option (Resident F) → Option (NeighborOpinion F)
  unfolding get
  opinion_of topic link (some topics) (some neighbor) = some (record {
    id = link.neighbor_id;
    opinion = value_or zero_f (get topics topic);
    weight = link.weight;
    edge_type = link.edge_type;
    income_band = or_unknown neighbor.income_band;
    communication_style = or_passive neighbor.communication_style;
  })
  opinion_of topic link _ _ = none

  unfoldable pub gather_neighbor_opinions :
      SocialReactionRuntime F → String → String → List (NeighborOpinion F)
  unfolding opinion_of neighbors_of
  gather_neighbor_opinions runtime household_id topic = keep_some (
      map
        (λ (link : Link F).
          opinion_of topic link (get runtime.opinions link.neighbor_id)
            (get runtime.households link.neighbor_id))
        (neighbors_of runtime household_id))

  unfoldable pub peer_average : F → List (NeighborOpinion F) → F
  unfolding sum_f
  peer_average current [] = current
  peer_average current (n ∷ ns) =
      let total_weight = sum_f (map (λ (o : NeighborOpinion F). o.weight) (n ∷ ns)) in
      if lt zero_f total_weight
      then div (sum_f (map (λ (o : NeighborOpinion F). mul o.opinion o.weight) (n ∷ ns)))
          total_weight
      else current

  unfoldable pub apply_opinion_drift : Resident F → F → List (NeighborOpinion F) → F → F
  unfolding peer_average or_default clamp_signed
  apply_opinion_drift household current neighbor_opinions llm_delta =
      let stability = or_default (lit 5 1) household.opinion_stability in
      let peer_avg = peer_average current neighbor_opinions in
      let new_opinion =
        add (add (mul stability current) (mul (sub one_f stability) peer_avg))
          (mul (lit 1 1) llm_delta) in
      round_to 4 (clamp_signed new_opinion)

  abbrev pub topics_or_empty : Option (Dict String F) → Dict String F
  topics_or_empty none = []
  topics_or_empty (some topics) = topics

  -- The changes of one household, topic by topic.
  unfoldable pub household_changes : Dict String F → Dict String F → List F
  unfolding get
  household_changes current previous =
      map (λ (e : String × F). abs (sub (value_or e.1 (get current e.0)) e.1)) previous

  unfoldable pub opinion_changes : Opinions F → Opinions F → List F
  unfolding household_changes
  opinion_changes opinions [] = []
  opinion_changes opinions ((id, previous) ∷ rest) =
      household_changes (topics_or_empty (get opinions id)) previous
      ++ opinion_changes opinions rest

  unfoldable pub compute_round_delta : SocialReactionRuntime F → Opinions F → F
  unfolding opinion_changes sum_f
  compute_round_delta runtime [] = one_f
  compute_round_delta runtime (p ∷ previous) =
      let changes = opinion_changes runtime.opinions (p ∷ previous) in
      if ltb 0 (length changes) then div (sum_f changes) (of_nat (length changes)) else zero_f
