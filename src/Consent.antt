-- ===== src/Consent.antt =====
-- shared/model/consent.js: who may see a conversation or a contact, and how that is stored.
pub mod Level
pub mod Keys
pub mod Policy
pub mod ContactKey
pub mod ContactShare
pub mod Sync
pub mod Storage
mod Tests
