-- ===== src/Auth.antt =====
-- packages/crypto-utils/src/beckn-auth.ts: who sent a message, and that it is fresh.
pub mod ReplayCache
pub mod Header
pub mod Registry
pub mod Message
pub mod Participant
