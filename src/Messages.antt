-- ===== src/Messages.antt =====
-- The models of a message's time and of the native read state.
pub mod Timestamps
pub mod NativeRead
pub mod Tests
