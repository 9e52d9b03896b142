-- ===== src/Message.antt =====
-- smtp-message.
pub mod Io
pub mod Data
pub mod Text
pub mod Reply
pub mod Address
pub mod Command
pub mod Crlf
mod Tests
