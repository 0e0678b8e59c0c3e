-- ===== src/Decisions.antt =====
-- domain/decisions: the negotiation state machine, the policies and the runtime that ranks them.
pub mod Negotiation
pub mod Runtime
pub mod Policies
mod Tests
