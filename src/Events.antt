-- ===== src/Events.antt =====
-- domain/events.py: the catalog of event names by namespace.
pub mod Catalog
mod Tests
use real_estate_agent.Common.{
  String, Bool, true, false, not, Option, none, some, List, [], ◌∷◌, str_eq, if◌then◌else◌, any_of,
}
use real_estate_agent.Common.Enum.{Input, member_of, text, member}

pub data EventNamespace : Type 0 where
  market : EventNamespace
  actor : EventNamespace
  reaction : EventNamespace
  decision : EventNamespace
  outcome : EventNamespace

unfoldable pub namespace_value : EventNamespace → String
namespace_value market = "market"
namespace_value actor = "actor"
namespace_value reaction = "reaction"
namespace_value decision = "decision"
namespace_value outcome = "outcome"

abbrev pub all_namespaces : List EventNamespace
all_namespaces = market ∷ actor ∷ reaction ∷ decision ∷ outcome ∷ []

abbrev pub market_events : List String
market_events =
    "property.listed" ∷ "property.price_updated" ∷ "property.delisted" ∷ "zoning.changed"
    ∷ "transit.changed" ∷ "permit.filed" ∷ "permit.approved" ∷ "permit.denied" ∷ "comp.recorded"
    ∷ "shock.occurred" ∷ []

abbrev pub actor_events : List String
actor_events =
    "household.created" ∷ "household.profile_updated" ∷ "household.affordability_changed"
    ∷ "buyer.registered" ∷ "seller.registered" ∷ "broker.registered" ∷ "investor.registered"
    ∷ "cohort.memory_updated" ∷ []

abbrev pub reaction_events : List String
reaction_events =
    "round.started" ∷ "round.completed" ∷ "opinion.updated" ∷ "narrative.emerged"
    ∷ "narrative.converged" ∷ "narrative.diverged" ∷ "sentiment.shifted" ∷ []

abbrev pub decision_events : List String
decision_events =
    "negotiation.started" ∷ "negotiation.mediated" ∷ "negotiation.escalated" ∷ "offer.created"
    ∷ "offer.accepted" ∷ "offer.rejected" ∷ "offer.withdrawn" ∷ "counter.proposed"
    ∷ "contract.generated" ∷ "inspection.scheduled" ∷ "lease.signed" ∷ "listing.held"
    ∷ "listing.priced" ∷ []

abbrev pub outcome_events : List String
outcome_events =
    "deal.closed" ∷ "deal.fell_through" ∷ "time_on_market.recorded" ∷ "concession.recorded"
    ∷ "turnover.recorded" ∷ "permit_friction.recorded" ∷ "neighborhood_sentiment.snapshot"
    ∷ "price_movement.recorded" ∷ []

-- `_REGISTRY`
abbrev pub registry : EventNamespace → List String
registry market = market_events
registry actor = actor_events
registry reaction = reaction_events
registry decision = decision_events
registry outcome = outcome_events

-- `event_type in events`
unfoldable pub has_event : List String → String → Bool
has_event events event_type = any_of (λ e. str_eq e event_type) events

-- The name, and whether a warning is logged; `none` is the `ValueError` of an unknown namespace.
unfoldable pub canonical_event : Input EventNamespace → String → Option (String × Bool)
unfolding has_event member_of namespace_value
canonical_event (member ns) name = some (name, not (has_event (registry ns) name))
canonical_event (text s) name = elim (member_of namespace_value all_namespaces s) [
  | none ↦ none
  | some ns ↦ some (name, not (has_event (registry ns) name))
]

-- The two loops over the registry.
unfoldable pub is_known_from : List EventNamespace → String → Bool
unfolding has_event
is_known_from [] event_type = false
is_known_from (ns ∷ rest) event_type =
    if has_event (registry ns) event_type then true else is_known_from rest event_type

unfoldable pub is_known_event : String → Bool
unfolding is_known_from
is_known_event = is_known_from all_namespaces

unfoldable pub namespace_from : List EventNamespace → String → Option EventNamespace
unfolding has_event
namespace_from [] event_type = none
namespace_from (ns ∷ rest) event_type =
    if has_event (registry ns) event_type then some ns else namespace_from rest event_type

unfoldable pub namespace_of : String → Option EventNamespace
unfolding namespace_from
namespace_of = namespace_from all_namespaces
