-- ===== src/Events/Tests.antt =====
-- The catalog of events at concrete names.
use real_estate_agent.Events.Catalog.{namespace_of_iff}
use real_estate_agent.Common.{◌≡◌, ◌↔◌, true, some}
use real_estate_agent.Events.{registry, has_event, namespace_of, decision}

namespace_of_iff_example :
    (namespace_of "offer.created" ≡ some decision)
    ↔ (has_event (registry decision) "offer.created" ≡ true)
namespace_of_iff_example = namespace_of_iff "offer.created" decision
