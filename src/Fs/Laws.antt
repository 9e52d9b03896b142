-- ===== src/Fs/Laws.antt =====
-- What smtp-queue-fs/src/lib.rs relies on of the file system, for a view of the world that says which
-- links are in which folder, while no one else changes the folders.
use kannader.Prelude.{Bool, true, false, some, Bytes, ◌≡◌, ◌≢◌}
use kannader.Queue.Types.{QueueId, ScheduleInfo, MailMetadata, Result, ok, err}
use kannader.Queue.Storage.{Place, queue, inflight}
use kannader.Fs.System.{FileSystem}
use kannader.Fs.Types.{FsStorage, data_dir_from_other_queue}

-- The folder of the storage for each place.
unfoldable pub folder : {World U : Type 0} (fs : FileSystem World U) → FsStorage fs → Place → fs.Dir
folder fs stor queue = stor.queue_folder
folder fs stor inflight = stor.inflight_folder
folder fs stor Place.cleanup = stor.cleanup_folder

module _ {World U : Type 0} (fs : FileSystem World U) (linked : World → fs.Dir → Bytes → Bool) where
  open fs use {Dir, File, PathBuf, IoError}

  abbrev pub SameLinks : World → World → Type 0
  SameLinks w w' = (d : Dir) (n : Bytes) → linked w' d n ≡ linked w d n

  pub record Renamed (w w' : World) (d d' : Dir) (n : Bytes) : Type 0 where
    pub was : linked w d n ≡ true
    pub left : d' ≢ d → linked w' d n ≡ false
    pub arrived : linked w' d' n ≡ true
    pub other_folders : (e : Dir) → e ≢ d → e ≢ d' → linked w' e n ≡ linked w e n
    pub other_names : (e : Dir) (m : Bytes) → m ≢ n → linked w' e m ≡ linked w e m

  pub record Unlinked (w w' : World) (d : Dir) (n : Bytes) : Type 0 where
    pub was : linked w d n ≡ true
    pub gone : linked w' d n ≡ false
    pub other_folders : (e : Dir) (m : Bytes) → e ≢ d → linked w' e m ≡ linked w e m
    pub other_names : (e : Dir) (m : Bytes) → m ≢ n → linked w' e m ≡ linked w e m

  unfoldable pub RenameLaw : World → Dir → Dir → Bytes → World × Result (Unit {0}) IoError → Type 0
  RenameLaw w d d' n (w', ok u) = Renamed w w' d d' n
  RenameLaw w d d' n (w', err e) =
      SameLinks w w' × (fs.is_not_found e ≡ true → linked w d n ≡ false)

  unfoldable pub RemoveLaw : World → Dir → Bytes → World × Result (Unit {0}) IoError → Type 0
  RemoveLaw w d n (w', ok u) = Unlinked w w' d n
  RemoveLaw w d n (w', err e) = SameLinks w w' × (fs.is_not_found e ≡ true → linked w d n ≡ false)

  unfoldable pub ReadLinkLaw : World → Dir → Bytes → World × Result PathBuf IoError → Type 0
  ReadLinkLaw w d n (w', ok p) = SameLinks w w'
  ReadLinkLaw w d n (w', err e) = SameLinks w w' × (fs.is_not_found e ≡ true → linked w d n ≡ false)

  -- A link is only made where its name is free.
  pub record Linked (w w' : World) (d : Dir) (n : Bytes) : Type 0 where
    pub was_free : linked w d n ≡ false
    pub there : linked w' d n ≡ true
    pub other_folders : (e : Dir) (m : Bytes) → e ≢ d → linked w' e m ≡ linked w e m
    pub keeps : (e : Dir) (m : Bytes) → linked w e m ≡ true → linked w' e m ≡ true

  unfoldable pub SymlinkLaw : World → Dir → Bytes → World × Result (Unit {0}) IoError → Type 0
  SymlinkLaw w d n (w', ok u) = Linked w w' d n
  SymlinkLaw w d n (w', err e) = SameLinks w w'

  pub record IsFileSystem : Type 0 where
    pub symlink_law :
        (w : World) (d : Dir) (n : Bytes) (to : PathBuf) → SymlinkLaw w d n (fs.symlink w d n to)
    pub create_dir_keeps : (w : World) (d : Dir) (n : Bytes) → SameLinks w (fs.create_dir w d n).0
    pub flush_keeps : (w : World) (f : File) → SameLinks w (fs.flush w f).0
    pub write_metadata_keeps :
        (w : World) (f : File) (m : MailMetadata U) → SameLinks w (fs.write_metadata w f m).0
    pub rename_law :
        (w : World) (d d' : Dir) (n : Bytes) → RenameLaw w d d' n (fs.rename w d n d' n)
    pub remove_file_law : (w : World) (d : Dir) (n : Bytes) → RemoveLaw w d n (fs.remove_file w d n)
    pub read_link_law : (w : World) (d : Dir) (n : Bytes) → ReadLinkLaw w d n (fs.read_link w d n)
    pub sub_dir_keeps : (w : World) (d : Dir) (p : PathBuf) → SameLinks w (fs.sub_dir w d p).0
    pub open_file_keeps : (w : World) (d : Dir) (p : PathBuf) → SameLinks w (fs.open_file w d p).0
    pub new_file_keeps : (w : World) (d : Dir) (n : Bytes) → SameLinks w (fs.new_file w d n).0
    pub remove_dir_keeps : (w : World) (d : Dir) (p : PathBuf) → SameLinks w (fs.remove_dir w d p).0
    pub local_rename_keeps :
        (w : World) (d : Dir) (n n' : Bytes) → SameLinks w (fs.local_rename w d n n').0
    pub list_dir_keeps : (w : World) (d : Dir) → SameLinks w (fs.list_dir w d).0
    pub read_metadata_keeps : (w : World) (f : File) → SameLinks w (fs.read_metadata w f).0
    pub write_schedule_keeps :
        (w : World) (f : File) (s : ScheduleInfo) → SameLinks w (fs.write_schedule w f s).0
    pub new_uuid_keeps : (w : World) → SameLinks w (fs.new_uuid w).0

  -- A link in `cleanup` to `dest` leads to the folder of a destination, and the name of a mail that
  -- is read off `dest` to the folder of this mail in `data`: neither is a folder of links.
  pub record LeadsAway (stor : FsStorage fs) (dest : PathBuf) : Type 0 where
    pub to_destination :
        (w w' : World) (sub : Dir)
        → fs.sub_dir w stor.cleanup_folder dest ≡ (w', ok sub)
        → (p : Place) → folder fs stor p ≢ sub
    pub to_mail :
        (path mail_name : PathBuf)
        → fs.strip_prefix dest data_dir_from_other_queue ≡ some path
        → fs.parent path ≡ some mail_name
        → (w w' : World) (sub : Dir) → fs.sub_dir w stor.data_folder mail_name ≡ (w', ok sub)
        → (p : Place) → folder fs stor p ≢ sub

  -- The three folders of links differ, and the links in `cleanup` lead to folders of destinations.
  pub record IsApart (stor : FsStorage fs) : Type 0 where
    pub folders : (p r : Place) → r ≢ p → folder fs stor r ≢ folder fs stor p
    pub links :
        (w : World) (id : QueueId) (w' : World) (dest : PathBuf)
        → fs.read_link w stor.cleanup_folder id ≡ (w', ok dest)
        → LeadsAway stor dest

  -- The mails that a place holds are the links of its folder.
  abbrev pub holds : FsStorage fs → World → Place → QueueId → Bool
  holds stor w p id = linked w (folder fs stor p) id
