-- ===== src/Fs/Refines/Leaves.antt =====
-- smtp-queue-fs/src/lib.rs: the links that `commit` leaves in `queue` when it fails.
