-- ===== src/Store.antt =====
-- The services that keep their state in the database: a table is the list of its rows in the order
-- of insertion, and a service takes the table and returns the new one.
pub mod EventStore
pub mod MarketState
pub mod Rows
pub mod SignalWriter
pub mod UserResolve
mod Tests
