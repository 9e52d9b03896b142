-- ===== src/Server.antt =====
-- smtp-server and smtp-server-types.
pub mod Types
pub mod Replies
pub mod Config
pub mod Session
mod Tests
