-- ===== src/OrderedConsent.antt =====
-- apps/user/ordered-consent.js: manual sharing changes as commands in a control room.
pub mod Checks
pub mod Writer
