-- ===== src/Fs/Queue.antt =====
-- smtp-queue/src/lib.rs over smtp-queue-fs/src/lib.rs: a queue whose mails are links in folders.
use kannader.Queue.Storage.{Config, Transport, Clock, QueueImpl}
use kannader.Queue.Kept.Steps.{Kept}
use kannader.Fs.System.{FileSystem}
use kannader.Fs.Types.{FsStorage, Error}
use kannader.Fs.Storage.{fs_storage}

module _ {World U : Type 0} (fs : FileSystem World U) (stor : FsStorage fs)
    (config : Config World (Error fs)) (transport : Transport World U fs.File)
    (clock : Clock World) where
  abbrev pub fs_queue : QueueImpl U
  fs_queue = record {
    World = World;
    storage = fs_storage fs stor;
    config = config;
    transport = transport;
    clock = clock;
  }
