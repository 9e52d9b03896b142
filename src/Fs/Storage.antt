-- ===== src/Fs/Storage.antt =====
-- smtp-queue-fs/src/lib.rs: `FsStorage` is a `Storage`.
use kannader.Queue.Storage.{Storage}
use kannader.Fs.System.{FileSystem}
use kannader.Fs.Types.{
  FsStorage, FsQueuedMail, FsInflightMail, FsPendingCleanupMail, FsEnqueuer, Error,
}
use kannader.Fs.Moves
use kannader.Fs.Cleanup
use kannader.Fs.Enqueue
use kannader.Fs.Scan

abbrev pub fs_storage :
    {World U : Type 0} (fs : FileSystem World U) → FsStorage fs → Storage World U
fs_storage fs stor = record {
  Error = Error fs;
  QueuedMail = FsQueuedMail;
  InflightMail = FsInflightMail;
  PendingCleanupMail = FsPendingCleanupMail;
  Enqueuer = FsEnqueuer fs;
  Reader = fs.File;
  queued_id = λ m. m.id;
  schedule = λ m. m.schedule;
  inflight_id = λ m. m.id;
  pending_id = λ m. m.id;
  list_queue = Scan.list_queue fs stor;
  find_inflight = Scan.find_inflight fs stor;
  find_pending_cleanup = Scan.find_pending_cleanup fs stor;
  enqueue = Enqueue.enqueue fs stor;
  commit = λ w e ds. Enqueue.commit fs e w ds;
  read_inflight = Moves.read_inflight fs stor;
  reschedule = Moves.reschedule fs stor;
  send_start = Moves.send_start fs stor;
  send_done = Moves.send_done fs stor;
  send_cancel = Moves.send_cancel fs stor;
  drop = Moves.drop fs stor;
  cleanup = Cleanup.cleanup fs stor;
}
