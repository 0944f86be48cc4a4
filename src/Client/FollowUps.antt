-- ===== src/Client/FollowUps.antt =====
-- `FollowUpService` of src/application/conversation/FollowUpService.ts.
pub mod Scenario
pub mod Schedule
pub mod Progress
pub mod Single
pub mod Kept
pub mod Attempts
pub mod Silence
