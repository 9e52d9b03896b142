-- ===== src/Fs/Refines.antt =====
-- smtp-queue-fs/src/lib.rs keeps the promises of smtp-queue's `Storage`.
pub mod Steps
pub mod Cleanup
pub mod Storage
pub mod Commit
pub mod Dest
pub mod Leaves
