-- ===== src/Fs/Types.antt =====
-- smtp-queue-fs/src/lib.rs: the names of files, the errors, the mails and the storage.
use kannader.Prelude.{Bytes, codes}
use kannader.Queue.Types.{QueueId, ScheduleInfo}
use kannader.Fs.System.{FileSystem}

abbrev pub data_dir : Bytes
data_dir = codes "data"

abbrev pub queue_dir : Bytes
queue_dir = codes "queue"

abbrev pub inflight_dir : Bytes
inflight_dir = codes "inflight"

abbrev pub cleanup_dir : Bytes
cleanup_dir = codes "cleanup"

abbrev pub data_dir_from_other_queue : Bytes
data_dir_from_other_queue = codes "../data"

abbrev pub contents_file : Bytes
contents_file = codes "contents"

abbrev pub metadata_file : Bytes
metadata_file = codes "metadata"

abbrev pub schedule_file : Bytes
schedule_file = codes "schedule"

abbrev pub tmp_schedule_file_prefix : Bytes
tmp_schedule_file_prefix = codes "schedule."

pub data QueueType : Type 0 where
  data_queue queue_queue inflight_queue cleanup_queue : QueueType

pub record FoundMail : Type 0 where
  pub id : QueueId
  pub schedule : ScheduleInfo

pub record FsQueuedMail : Type 0 where
  pub id : QueueId
  pub schedule : ScheduleInfo

pub record FsInflightMail : Type 0 where
  pub id : QueueId
  pub schedule : ScheduleInfo

pub record FsPendingCleanupMail : Type 0 where
  pub id : QueueId

-- `FsQueuedMail::{found, into_inflight, into_pending_cleanup}`
abbrev pub queued_found : FoundMail → FsQueuedMail
queued_found f = record { id = f.id; schedule = f.schedule }

abbrev pub into_inflight : FsQueuedMail → FsInflightMail
into_inflight m = record { id = m.id; schedule = m.schedule }

abbrev pub queued_into_pending_cleanup : FsQueuedMail → FsPendingCleanupMail
queued_into_pending_cleanup m = record { id = m.id }

-- `FsInflightMail::{found, into_queued, into_pending_cleanup}`
abbrev pub inflight_found : FoundMail → FsInflightMail
inflight_found f = record { id = f.id; schedule = f.schedule }

abbrev pub into_queued : FsInflightMail → FsQueuedMail
into_queued m = record { id = m.id; schedule = m.schedule }

abbrev pub inflight_into_pending_cleanup : FsInflightMail → FsPendingCleanupMail
inflight_into_pending_cleanup m = record { id = m.id }

-- `FsPendingCleanupMail::found`
abbrev pub pending_cleanup_found : QueueId → FsPendingCleanupMail
pending_cleanup_found i = record { id = i }

module _ {World U : Type 0} (fs : FileSystem World U) where
  open fs use {Dir, File, PathBuf, IoError, JsonError, WalkError}

  pub data Error : Type 0 where
    opening_folder creating_folder : PathBuf → IoError → Error
    opening_sub_folder creating_sub_folder : PathBuf → Bytes → IoError → Error
    walking_directory : PathBuf → WalkError → Error
    non_utf8_path : PathBuf → Error
    opening_file_in_folder : PathBuf → PathBuf → IoError → Error
    parsing_json : PathBuf → JsonError → Error
    opening_folder_in_queue : PathBuf → QueueType → IoError → Error
    opening_file_in_mail : Bytes → Bytes → QueueType → IoError → Error
    parsing_json_file_in_mail : Bytes → Bytes → QueueType → JsonError → Error
    opening_parent_from_mail : Bytes → IoError → Error
    opening_file_in_mail_parent : Bytes → IoError → Error
    creating_folder_in_queue : Bytes → QueueType → IoError → Error
    creating_file_in_mail : Bytes → PathBuf → QueueType → IoError → Error
    writing_json_file_in_mail : Bytes → PathBuf → QueueType → JsonError → Error
    renaming_file_in_mail : Bytes → Bytes → Bytes → QueueType → IoError → Error
    moving_mail_between_queues : Bytes → QueueType → QueueType → IoError → Error
    reading_link_in_queue : Bytes → QueueType → IoError → Error
    removing_file_from_mail : Bytes → PathBuf → QueueType → IoError → Error
    symlink_points_to_non_destination_subfolder : Bytes → QueueType → PathBuf → Error
    symlink_does_not_point_to_data_queue : Bytes → QueueType → PathBuf → Error
    removing_folder_from_queue : PathBuf → QueueType → IoError → Error
    removing_folder_from_mail : PathBuf → PathBuf → QueueType → IoError → Error
    listing_folder_in_queue : PathBuf → QueueType → IoError → Error
    removing_file_from_queue : Bytes → QueueType → IoError → Error
    flushing_mail_contents : Bytes → Bytes → QueueType → IoError → Error
    creating_folder_in_mail : Bytes → Bytes → QueueType → IoError → Error
    opening_folder_in_mail : Bytes → Bytes → QueueType → IoError → Error
    symlinking_into_queue : Bytes → QueueType → PathBuf → IoError → Error

  pub record FsStorage : Type 0 where
    pub path : PathBuf
    pub data_folder : Dir
    pub queue_folder : Dir
    pub inflight_folder : Dir
    pub cleanup_folder : Dir

  pub record FsEnqueuer : Type 0 where
    pub mail_uuid : Bytes
    pub mail_dir : Dir
    pub queue_folder : Dir
    pub writer : File
