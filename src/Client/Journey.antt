-- ===== src/Client/Journey.antt =====
-- `CommercialJourneyService` of src/application/commercial/CommercialJourneyService.ts: where the work of a
-- lead stands, and what to do next.
pub mod View
pub mod Stages
pub mod Actions
pub mod Evaluate
pub mod Agreement
pub mod Closing
