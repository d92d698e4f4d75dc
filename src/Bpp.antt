-- ===== src/Bpp.antt =====
-- services/bpp: a provider platform, which serves files for grants.
pub mod Stores
pub mod Download
pub mod Catalog
pub mod Intent
pub mod Builders
pub mod App
