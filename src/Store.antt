-- ===== src/Store.antt =====
-- The production store (server/infrastructure/inMemoryProductionStore.ts).
pub mod State
pub mod Lookup
pub mod Contact
pub mod FollowUps
pub mod Money
pub mod Ledger
pub mod Recovery
pub mod Access
pub mod Webhooks
pub mod Journey
