-- ===== src/Tests.antt =====
-- Concrete parameters, and the theorems at concrete inputs.
mod Noble
mod Data
mod Grants
mod Auth
mod Texts
mod Manager
mod Provider
mod Requests
mod Collectors
mod Routes
mod Session
mod Tools
mod Revocation
mod Confirmation
mod Web
mod Callbacks
