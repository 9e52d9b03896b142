-- ===== src/Message/Data.antt =====
-- smtp-message/src/data.rs: the `DATA` stream.
pub mod Spec
pub mod Writer
pub mod Reader
pub mod Unescaper
mod Tests
