-- ===== src/Crm.antt =====
-- The CRM model of shared/model/crm.js.
pub mod Checked
pub mod Canonical
pub mod Format
pub mod Monitoring
pub mod State
pub mod Manifest
pub mod People
pub mod Lists
pub mod Timers
pub mod Members
pub mod Apply
pub mod Ensures
pub mod Edits
pub mod Frame
pub mod Replay
pub mod History
pub mod Slots
pub mod Seen
pub mod Recipients
pub mod Verified
pub mod Links
pub mod Batches
pub mod Deliveries
pub mod Responses
pub mod Tests
