-- ===== src/Grant.antt =====
-- packages/beckn-schemas/src/grant.ts: the Access Grant, its schema, its issue and its offline
-- verification.
pub mod Types
pub mod Parse
pub mod Issue
pub mod Verify
