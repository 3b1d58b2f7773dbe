-- ===== src/Contacts.antt =====
-- shared/model/contacts.js: the profiles that link conversations and handles to one person.
pub mod Profile
pub mod Rooms
pub mod Merge
pub mod Handles
pub mod Storage
mod Tests
