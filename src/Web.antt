-- ===== src/Web.antt =====
-- apps/web/src: the routes of the web application, and the grants that a browser holds.
pub mod Client
pub mod Offers
pub mod Routes
pub mod Held
