-- ===== src/Fs/Refines/Storage.antt =====
-- smtp-queue-fs/src/lib.rs: every operation on one mail does what smtp-queue's `Storage` promises.
use kannader.Prelude.{Bool, Bytes}
use kannader.Fs.System.{FileSystem}
use kannader.Fs.Types.{FsStorage}
use kannader.Fs.Moves
use kannader.Fs.Laws.{IsFileSystem, IsApart}
use kannader.Fs.Refines.Steps.{Still}

module _ {World U : Type 0} (fs : FileSystem World U) (stor : FsStorage fs)
    (linked : World → fs.Dir → Bytes → Bool) (law : IsFileSystem fs linked)
    (apart : IsApart fs linked stor) where
  open fs use {Dir, PathBuf, IoError}

  module _ (w0 : World) where
    abbrev InPlace : World → Type 0
    InPlace w = Still fs stor linked law apart w0 w
