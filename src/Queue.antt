-- ===== src/Queue.antt =====
-- smtp-queue and smtp-queue-types.
pub mod Types
pub mod Storage
pub mod Tasks
pub mod Runs
pub mod Scan
pub mod Kept
pub mod Ends
pub mod Delays
pub mod One
pub mod Tests
