-- ===== src/Routing.antt =====
-- The routing of notifications, master/notification-routing.mjs.
pub mod Identity
pub mod Tables
pub mod Observe
pub mod Plan
pub mod Drain
pub mod Evidence
pub mod Planned
pub mod Calls
pub mod Drained
pub mod Life
pub mod Tests
