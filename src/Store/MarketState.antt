-- ===== src/Store/MarketState.antt =====
-- services/market_state.py: the market snapshot of a property from its signals.
pub mod Latest
pub mod Compose
pub mod Build
pub mod Grouping
pub mod Keys
pub mod Batch
