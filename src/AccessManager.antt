-- ===== src/AccessManager.antt =====
-- services/access-manager: the consent authority, which issues, lists, revokes and expires grants.
pub mod Types
pub mod Stores
pub mod Service
pub mod App
