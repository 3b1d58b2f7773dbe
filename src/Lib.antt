-- ===== src/Lib.antt =====
-- Sharing consent of beepa: what a user's hub may mirror, who a contact is, and how both are stored.
--
-- The program keeps a sharing level for every conversation, contact overrides, an account policy and
-- contact profiles in the account data of a Matrix homeserver. The readers normalize whatever is
-- stored, the resolvers decide from the normalized values, and the writers put values back, either
-- directly or as a command in a control room whose result is awaited. The decision on
-- a suggested message is recorded in its room, and a claim there says which session's decision counts.
-- A manager's contacts, lists and batches of messages are a replayed log of operations on a state, and
-- the notifications about them are routed to channels over tables that survive a restart.
--
-- Files, by the code they model:
--   Prelude     Tests, lists and maps that everything shares.
--   Js          JavaScript values: JSON, undefined and numbers (as multiples of 2^-1074, with the
--               infinities and NaN), property reads, and the patterns that the code tests texts with.
--               An object is a list of its own properties in order, first binding first.
--   Matrix      shared/matrix/client.js: `api` over a parameter for fetch, the session and the 401
--               hook; what is assumed of account data (KeepsAccountData), and a homeserver in memory
--               at which it holds.
--   Consent     shared/model/consent.js: Level (resolve, resolveAll), Policy (normalizePolicy,
--               normalizeContactPolicy), Keys and ContactKey (contactOverrideKey), ContactShare
--               (contactOverrideEntries, resolveContactShare), Sync (overridesFromSync), Storage (the
--               account data reads and writes).
--   Contacts    shared/model/contacts.js: Profile (normalizeProfiles), Rooms (lookups, upsertProfile,
--               linkRoom), Handles (linkHandle, handleOwner), Merge (autoMergeByNumber), Storage
--               (readProfiles, writeProfiles).
--   OrderedConsent
--               apps/user/ordered-consent.js: Checks (the tests on what the homeserver answers) and
--               Writer (createOrderedConsentWriter). An await is a call of the page that may change
--               the session and the closure's variables; a throw is the outcome `failed`. The number
--               of polls is the code's own parameter, and the loop over them is structural recursion
--               on it, so nothing runs out of fuel.
--
--   Proposals   shared/model/proposal-lifecycle.js: Lifecycle (proposalDecision, proposalHistory, whose
--               bound of 100 pages is the code's own); apps/user/proposal-decisions.js: Decide
--               (createProposalDecisions), again with the code's own number of polls.
--
--   Crm         shared/model/crm.js: Canonical (canonicalCRMJSON), Format (the tests on one value),
--               Monitoring (reminders, routing, monitoring options), State (createCRMState, current,
--               fresh, setEntity), Manifest (validateManifest), People, Lists, Timers and Members (the
--               cases of the switch) and Apply (applyCRMOperation). A thrown error is `refused` with its
--               code. A JSON copy is an equal value: the order in which it leaves the keys of an object is not
--               modelled, so theorems compare what was copied by its canonical text or by its fields.
--               History is the sequences of operations. Verified is applyVerifiedCRMOperation, over a
--               parameter for SHA-256. Batches is createReviewedBatch and createCRMChildEnvelope, Deliveries
--               monitoringAllows and monitoringDeliveryPlan, and Responses attributeResponses.
--
--   CrmStore    apps/master/crm-store.js: Tasks (the closure's variables, await and throw), Entries
--               (events and pages), CrmStore itself (bind, readPages, refresh) and Append (append, close).
--               Timeline is what a list of events makes of the CRM state. The bounds of 200 pages and 3
--               rebuilds are the code's own. A read that is under way is a parameter, and the queue of appends is
--               their order; a room whose state `createCRMState` refused is not read further.
--
--   Routing     master/notification-routing.mjs: Identity (notificationIdentity), Tables (the four
--               tables as lists of rows), Observe, Plan (reconcile, plan, claim) and Drain. Life is the
--               sequences of observations, restarts and drains. The adapters and the validation may
--               answer anything or throw, and all loops are over lists. That the
--               process stops within a drain, or that a source is observed meanwhile, is not modelled.
--
--   Receipts    shared/model/message_receipts.js: mergeReceipts, with its cap of 2000 messages, and in
--               Room parseMessageReceipts and receiptPresentation.
--
--   Messages    shared/model/message_timestamps.js (Timestamps) and shared/model/native_read.js
--               (NativeRead).
--
--   SourceRooms shared/model/source_rooms.js. The loop has a bound on its turns: the rooms on its
--               stack and the children of the listed rooms that it has not seen, which each turn makes
--               smaller.
--
-- Outside Crm, CrmStore and Routing, null and undefined results are `none`, and a thrown error carries
-- its status only. A Set or Map is the list of what it holds. `fetch`, `encodeURIComponent`, the clock,
-- the random source, SHA-256, the printing of numbers and the time zones of the engine are parameters.
--
-- Not modelled: `suggestions` of the contact profiles, `proposalLabel`, error texts, and the rest of
-- the repository (the check of the CRM account, the feed of rooms, the master's other services, and all
-- rendering).
pub mod Prelude
pub mod Js
pub mod Matrix
pub mod Consent
pub mod Contacts
pub mod OrderedConsent
pub mod Proposals
pub mod Receipts
pub mod Crm
pub mod CrmStore
pub mod Messages
pub mod Routing
pub mod SourceRooms
