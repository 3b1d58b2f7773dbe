-- ===== src/Matrix.antt =====
-- The Matrix client-server transport shared by both apps.
pub mod Client
pub mod Actions
