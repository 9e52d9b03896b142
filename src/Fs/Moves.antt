-- ===== src/Fs/Moves.antt =====
-- smtp-queue-fs/src/lib.rs: the operations of `FsStorage` on one mail, without `cleanup`.
use kannader.Prelude.{Option, none, some, Bytes, codes, ◌++◌}
use kannader.Queue.Types.{QueueId, ScheduleInfo, MailMetadata, Result, ok, err}
use kannader.Queue.Storage.{got, failed, Moved}
use kannader.Fs.System.{FileSystem, on_io, ◌or_fail◌and◌}
use kannader.Fs.Types.{
  metadata_file, contents_file, schedule_file, tmp_schedule_file_prefix, queue_queue,
  inflight_queue, cleanup_queue, FsQueuedMail, FsInflightMail, FsPendingCleanupMail, into_inflight,
  queued_into_pending_cleanup, into_queued, inflight_into_pending_cleanup, Error,
  moving_mail_between_queues, reading_link_in_queue, opening_folder_in_queue, creating_file_in_mail,
  writing_json_file_in_mail, renaming_file_in_mail, opening_file_in_mail, parsing_json_file_in_mail,
  opening_parent_from_mail, opening_file_in_mail_parent, FsStorage,
}

module _ {World U : Type 0} (fs : FileSystem World U) (stor : FsStorage fs) where
  open fs use {Dir, File, PathBuf, IoError}

  unfoldable pub send_start :
      World → FsQueuedMail → World × Moved FsInflightMail FsQueuedMail (Error fs)
  unfolding on_io
  send_start w mail =
      on_io fs.is_not_found (fs.rename w stor.queue_folder mail.id stor.inflight_folder mail.id)
        (λ w' u. (w', got (some (into_inflight mail)))) (λ w'. (w', got none))
        (λ w' e.
          (w', failed mail (moving_mail_between_queues mail.id queue_queue inflight_queue e)))

  unfoldable pub send_done :
      World → FsInflightMail → World × Moved FsPendingCleanupMail FsInflightMail (Error fs)
  unfolding on_io
  send_done w mail =
      on_io fs.is_not_found (fs.rename w stor.inflight_folder mail.id stor.cleanup_folder mail.id)
        (λ w' u. (w', got (some (inflight_into_pending_cleanup mail)))) (λ w'. (w', got none))
        (λ w' e.
          (w', failed mail (moving_mail_between_queues mail.id inflight_queue cleanup_queue e)))

  unfoldable pub send_cancel :
      World → FsInflightMail → World × Moved FsQueuedMail FsInflightMail (Error fs)
  unfolding on_io
  send_cancel w mail =
      on_io fs.is_not_found (fs.rename w stor.inflight_folder mail.id stor.queue_folder mail.id)
        (λ w' u. (w', got (some (into_queued mail)))) (λ w'. (w', got none))
        (λ w' e.
          (w', failed mail (moving_mail_between_queues mail.id inflight_queue queue_queue e)))

  unfoldable pub drop :
      World → FsQueuedMail → World × Moved FsPendingCleanupMail FsQueuedMail (Error fs)
  unfolding on_io
  drop w mail =
      on_io fs.is_not_found (fs.rename w stor.queue_folder mail.id stor.cleanup_folder mail.id)
        (λ w' u. (w', got (some (queued_into_pending_cleanup mail)))) (λ w'. (w', got none))
        (λ w' e. (w', failed mail (moving_mail_between_queues mail.id queue_queue cleanup_queue e)))

  -- The last part of `reschedule`, in the folder of the destination.
  unfoldable pub replace_schedule :
      QueueId → ScheduleInfo → Dir → World × Bytes → World × Result (Unit {0}) (Error fs)
  unfolding ◌or_fail◌and◌
  replace_schedule id schedule dest_dir (w, uuid) =
      let tmp_sched_file = tmp_schedule_file_prefix ++ uuid in
      fs.new_file w dest_dir tmp_sched_file
      or_fail creating_file_in_mail tmp_sched_file (fs.from id) queue_queue and (λ w1 tmp_file.
        fs.write_schedule w1 tmp_file schedule
        or_fail writing_json_file_in_mail tmp_sched_file (fs.from id) queue_queue and (λ w2 u.
          fs.local_rename w2 dest_dir tmp_sched_file schedule_file
          or_fail renaming_file_in_mail tmp_sched_file schedule_file id queue_queue and
            (λ w3 v. (w3, ok tt))))

  unfoldable pub write_new_schedule :
      World → QueueId → ScheduleInfo → World × Result (Unit {0}) (Error fs)
  unfolding ◌or_fail◌and◌ replace_schedule
  write_new_schedule w id schedule =
      fs.read_link w stor.queue_folder id
      or_fail reading_link_in_queue id queue_queue and (λ w1 dest_path.
        fs.sub_dir w1 stor.queue_folder dest_path
        or_fail opening_folder_in_queue (fs.from id) queue_queue and
          (λ w2 dest_dir. replace_schedule id schedule dest_dir (fs.new_uuid w2)))

  abbrev pub with_error :
      FsQueuedMail → World × Result (Unit {0}) (Error fs) → World × FsQueuedMail × Option (Error fs)
  with_error mail (w, ok u) = (w, mail, none)
  with_error mail (w, err e) = (w, mail, some e)

  -- The schedule in memory is the new one even if the file could not be written.
  unfoldable pub reschedule :
      World → FsQueuedMail → ScheduleInfo → World × FsQueuedMail × Option (Error fs)
  unfolding write_new_schedule
  reschedule w mail schedule =
      with_error (record { id = mail.id; schedule = schedule })
        (write_new_schedule w mail.id schedule)

  unfoldable pub read_contents :
      QueueId → Dir → MailMetadata U → World → World × Result (MailMetadata U × File) (Error fs)
  unfolding ◌or_fail◌and◌
  read_contents id dest_dir metadata w =
      fs.sub_dir w dest_dir (fs.from (codes ".."))
      or_fail opening_parent_from_mail id and (λ w1 parent.
        fs.open_file w1 parent (fs.from contents_file)
        or_fail opening_file_in_mail_parent id and (λ w2 reader. (w2, ok (metadata, reader))))

  unfoldable pub read_inflight :
      World → FsInflightMail → World × Result (MailMetadata U × File) (Error fs)
  unfolding ◌or_fail◌and◌ read_contents
  read_inflight w mail =
      fs.read_link w stor.inflight_folder mail.id
      or_fail reading_link_in_queue mail.id inflight_queue and (λ w1 dest_path.
        fs.sub_dir w1 stor.inflight_folder dest_path
        or_fail opening_folder_in_queue (fs.from mail.id) inflight_queue and (λ w2 dest_dir.
          fs.open_file w2 dest_dir (fs.from metadata_file)
          or_fail opening_file_in_mail metadata_file mail.id inflight_queue and (λ w3 file.
            fs.read_metadata w3 file
            or_fail parsing_json_file_in_mail metadata_file mail.id inflight_queue and
              (λ w4 metadata. read_contents mail.id dest_dir metadata w4))))
