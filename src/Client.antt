-- ===== src/Client.antt =====
-- The application in the browser (src/): its entities, rules and services.
pub mod Kinds
pub mod Entities
pub mod Rules
pub mod Repository
pub mod Database
pub mod Stage
pub mod Journey
pub mod Text
pub mod Attribution
pub mod FollowUps
pub mod Reactivation
pub mod Timeline
pub mod Leads
pub mod NextActions
pub mod Reconcile
