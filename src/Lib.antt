-- ===== src/Lib.antt =====
-- CLOSER: the commercial record of a home-service business (customers, leads, conversations,
-- opportunities, bookings, payments, a revenue ledger and follow-ups). On the server a rule-based
-- engine decides how an opportunity at risk is recovered: requests arrive with an identity and an
-- idempotency key, the authorisation checks the membership of the tenant, and a method of the store
-- does the work. The store asks the recovery engine, and the engine the scoring, for decisions on what
-- it observes; a worker claims the follow-ups that are due. The application in the browser keeps a
-- database of its own, a collection of entities per type, on which its services work: the stage and the
-- next action of a lead, its follow-ups, the activities, the attribution of revenue and the offers for a
-- reactivation.
--
-- The files, and what they model:
--   Domain: server/domain/opportunity.ts and server/domain/model.ts. Domain/Values has the
--     enumerations, Domain/Opportunity and Domain/Model the records, Domain/Transitions the table of
--     status changes with assertOpportunityTransition and assertOpportunityState.
--   Scoring: OpportunityScoringService of server/application/opportunityScoring.ts.
--   Recovery: RecoveryEngine and the functions on decisions of server/application/recoveryEngine.ts.
--   Store: InMemoryProductionStore of server/infrastructure/inMemoryProductionStore.ts, with
--     AuthorizationService of server/application/authorization.ts. Store/State has its fields and
--     the actions, Store/Lookup the tests of its calls of find, and the methods stand in
--     Store/Recovery (evaluateOpportunityRecovery, approveRecoveryAction), Store/Contact
--     (recordCustomerOptOut, recordCustomerResponse, startHumanTakeover, resumeAssistant),
--     Store/Journey (createJourney, createOpportunity), Store/Money (createBooking, createPayment),
--     Store/Ledger (appendRevenueEntry, getRevenueSummary), Store/FollowUps (createFollowUp,
--     cancelFollowUp, claimDueFollowUp, completeFollowUp, failFollowUp), Store/Access (getMembership,
--     createInvitation, acceptInvitation, revokeInvitation, requireMembership) and Store/Webhooks.
--   Idempotency: IdempotencyService of server/application/idempotency.ts, and the three methods of
--     the in-memory store under it.
--   RateLimit: InMemoryRateLimiter of server/security/rateLimiter.ts.
--   Worker: FollowUpWorker and the mock dispatcher of server/jobs/followUpWorker.ts, and the loop of
--     server/worker.ts.
--   Client: the application in the browser, under src/. Client/Kinds and Client/Entities have the
--     enumerations and records of src/domain/entities.ts, Client/Rules the functions of
--     src/domain/rules.ts, Client/Repository LocalTenantRepository of
--     src/infrastructure/persistence.ts, Client/Database the collections of
--     src/repositories/contracts.ts. Client/Stage has ConversationStageService, Client/Journey
--     CommercialJourneyService, Client/Timeline ActivityTimelineService, Client/FollowUps
--     FollowUpService, Client/Attribution RevenueAttributionService, Client/Reactivation
--     ReactivationService; Client/Leads, Client/NextActions and Client/Reconcile have of CloserService
--     the closing of a lead, its next action, reconcileOpportunity and reopenOpportunity. All these
--     stand in src/application.
--   Prelude: shared names, the array operations of the source, integers and lemmas.
--   Examples: the theorems at concrete inputs.
-- A function or a field keeps the name of the source, in snake case. Child modules hold proofs.
--
-- How the code is represented:
--   A method of the store is an action: it takes the store, and returns or throws, with the store
--   as it then is; what is written before a throw stays written. An ApiError keeps its status and
--   code. Every randomUUID() is an argument. A write to the object that find returned is a write
--   to the first element that the test selects, or that has its id, as randomUUID makes ids only
--   once. structuredClone needs no counterpart: values are not shared.
--   Ids are numbers, which are only compared; booking_key takes the text of an id as a parameter.
--   A time that the code itself reads and writes by toISOString, as those of the browser
--   application are taken to be, is a number of milliseconds: the order of those texts is that of
--   the instants. The startAt and endAt of a booking and the dueAt, retryAt and leaseExpiresAt of
--   a follow-up are texts, since the request schemas admit them in several forms and the store
--   compares them as they stand; `iso`, a parameter of the worker, writes a time as text.
--   Keys, hashes and texts are native strings. Maps and sets with a key `a:b` are lists with the
--   parts of the key. Addresses are lists of characters, and lower case is taken of ASCII
--   letters.
--   Amounts are natural numbers, as the request schemas admit them, below 2^53, where the numbers
--   of the source are exact; the totals of a quote, whose sum the code does not check, are stated
--   where that sum with the tax rate is a safe integer, and are the code's there. Scores are
--   integers until they are clamped.
--   A service of the browser application works on the database: it returns or throws a code, with
--   the database as it then is. A collection is the list of its rows. Its amounts are integers
--   where the code checks them, and natural numbers after that. What writes an id or an amount as
--   text, for the keys that are put together, is a parameter, and so is the order of two ids in
--   the timeline.
--   A dispatcher of the worker is a function on a world of its own, which says whether it
--   returned. A cycle of the worker has its own readings of the clock, before the claim and after
--   the dispatch.
--   Every loop is a structural recursion on a list; that of the worker is over the readings of
--   its cycles, and as many cycles as follow-ups come due are enough to have none left that was
--   due at first.
--
-- Not modelled: the Postgres store and its migrations (SQL), the HTTP routes, schemas and token
-- checks (third-party libraries), the views, provisionTenant and executeCopilot of the in-memory
-- store, the delays and signals of the worker's process, and of the browser application the rest of
-- CloserService, the conversation engine with its decision policy, memory and knowledge, the read
-- models, the migrations of its stored database, and the user interface.
pub mod Prelude
pub mod Domain
pub mod Scoring
pub mod Recovery
pub mod Store
pub mod RateLimit
pub mod Idempotency
pub mod Client
pub mod Worker
pub mod Examples
