-- ===== src/Mcp.antt =====
-- services/mcp-server: the server that a language model's client drives.
pub mod Session
pub mod Gateway
pub mod Replies
pub mod Tools
