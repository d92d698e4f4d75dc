-- ===== src/Bap.antt =====
-- services/bap: the consumer platform.
pub mod Orchestrator
pub mod Config
pub mod Transport
pub mod App
pub mod Client
