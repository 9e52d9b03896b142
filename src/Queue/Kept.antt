-- ===== src/Queue/Kept.antt =====
-- The queue loses no mail.
pub mod Places
pub mod Steps
pub mod Attempt
pub mod Send
pub mod Recover
