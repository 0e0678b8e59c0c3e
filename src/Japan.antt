-- ===== src/Japan.antt =====
-- Japanese addresses and amounts of money: services/address_jp.py and services/money_jp.py.
mod Tests
pub mod Ordinals
pub mod Money
pub mod Address
