-- ===== src/Domain.antt =====
-- The data model of the server (server/domain/opportunity.ts and server/domain/model.ts).
pub mod Texts
pub mod Values
pub mod Opportunity
pub mod Model
pub mod Transitions
