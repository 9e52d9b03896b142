-- ===== src/Fs.antt =====
-- smtp-queue-fs/src/lib.rs: the storage of a queue in folders of links.
pub mod System
pub mod Types
pub mod Moves
pub mod Cleanup
pub mod Enqueue
pub mod Scan
pub mod Storage
pub mod Laws
pub mod Refines
pub mod Memory
pub mod Tests
pub mod Queue
