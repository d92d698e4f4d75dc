-- ===== src/AccessManager/Stores.antt =====
-- services/access-manager/src/stores: the store in memory and the store in Postgres.
pub mod Memory
pub mod Ledger
pub mod Postgres
pub mod Agree
