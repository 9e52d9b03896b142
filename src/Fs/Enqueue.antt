-- ===== src/Fs/Enqueue.antt =====
-- smtp-queue-fs/src/lib.rs: `FsStorage::enqueue` and `FsEnqueuer::commit`.
use kannader.Prelude.{List, [], ◌∷◌, ◌++◌, Bytes}
use kannader.Queue.Types.{ScheduleInfo, MailMetadata, Result, ok, err}
use kannader.Fs.System.{FileSystem, ◌or_fail◌and◌}
use kannader.Fs.Types.{
  metadata_file, contents_file, schedule_file, data_dir_from_other_queue, data_queue, queue_queue,
  FsQueuedMail, queued_found, Error, creating_folder_in_queue, opening_folder_in_queue,
  creating_file_in_mail, writing_json_file_in_mail, flushing_mail_contents, creating_folder_in_mail,
  opening_folder_in_mail, symlinking_into_queue, FsStorage, FsEnqueuer,
}

module _ {World U : Type 0} (fs : FileSystem World U) where
  open fs use {Dir, File, PathBuf, IoError}

  unfoldable pub create_mail :
      FsStorage fs → World × Bytes → World × Result (FsEnqueuer fs) (Error fs)
  unfolding ◌or_fail◌and◌
  create_mail stor (w, mail_uuid) =
      fs.create_dir w stor.data_folder mail_uuid
      or_fail creating_folder_in_queue mail_uuid data_queue and (λ w1 u.
        fs.sub_dir w1 stor.data_folder (fs.from mail_uuid)
        or_fail opening_folder_in_queue (fs.from mail_uuid) data_queue and (λ w2 mail_dir.
          fs.new_file w2 mail_dir contents_file
          or_fail creating_file_in_mail contents_file (fs.from mail_uuid) data_queue and (λ w3 file.
            (
              w3,
              ok (record {
                mail_uuid = mail_uuid;
                mail_dir = mail_dir;
                queue_folder = stor.queue_folder;
                writer = file;
              }),
            ))))

  -- `FsStorage::enqueue`
  abbrev pub enqueue : FsStorage fs → World → World × Result (FsEnqueuer fs) (Error fs)
  enqueue stor w = create_mail stor (fs.new_uuid w)

  -- The link of a destination, and the mail that is answered.
  unfoldable pub link_mail :
      Dir → Bytes → Bytes → ScheduleInfo → World × Bytes → World × Result FsQueuedMail (Error fs)
  unfolding ◌or_fail◌and◌
  link_mail queue mail_uuid dest_id schedule (w, dest_uuid) =
      let symlink_value =
        fs.join (fs.join (fs.from data_dir_from_other_queue) (fs.from mail_uuid))
          (fs.from dest_id) in
      fs.symlink w queue dest_uuid symlink_value
      or_fail symlinking_into_queue dest_uuid queue_queue symlink_value and
        (λ w1 u. (w1, ok (queued_found (record { id = dest_uuid; schedule = schedule }))))

  unfoldable pub write_files :
      Dir → PathBuf → MailMetadata U → ScheduleInfo → World → World × Result (Unit {0}) (Error fs)
  unfolding ◌or_fail◌and◌
  write_files dest_dir dest_path metadata schedule w =
      fs.new_file w dest_dir schedule_file
      or_fail creating_file_in_mail schedule_file dest_path data_queue and (λ w1 file.
        fs.write_schedule w1 file schedule
        or_fail writing_json_file_in_mail schedule_file dest_path data_queue and (λ w2 u.
          fs.new_file w2 dest_dir metadata_file
          or_fail creating_file_in_mail metadata_file dest_path data_queue and (λ w3 file'.
            fs.write_metadata w3 file' metadata
            or_fail writing_json_file_in_mail metadata_file dest_path data_queue and
              (λ w4 v. (w4, ok tt)))))

  unfoldable pub make_dest_dir :
      World
      → Dir
      → Bytes
      → Dir
      → Bytes
      → MailMetadata U
      → ScheduleInfo
      → World × Result FsQueuedMail (Error fs)
  unfolding ◌or_fail◌and◌ write_files link_mail
  make_dest_dir w queue mail_uuid mail_dir dest_id metadata schedule =
      fs.create_dir w mail_dir dest_id
      or_fail creating_folder_in_mail dest_id mail_uuid data_queue and (λ w1 u.
        fs.sub_dir w1 mail_dir (fs.from dest_id)
        or_fail opening_folder_in_mail dest_id mail_uuid data_queue and (λ w2 dest_dir.
          write_files dest_dir (fs.join (fs.from mail_uuid) (fs.from dest_id)) metadata schedule w2
          or_fail (λ e. e) and
            (λ w3 v. link_mail queue mail_uuid dest_id schedule (fs.new_uuid w3))))

  unfoldable pub after_sub_dir : Dir → Bytes → World × Result Dir IoError → World
  after_sub_dir mail_dir dest_id (w, err e) = w
  after_sub_dir mail_dir dest_id (w, ok dest_dir) =
      (fs.remove_dir
        (fs.remove_file (fs.remove_file w dest_dir metadata_file).0 dest_dir schedule_file).0
        mail_dir (fs.from dest_id)).0

  unfoldable pub cleanup_dest_dir : World → Dir → Bytes → World
  unfolding after_sub_dir
  cleanup_dest_dir w mail_dir dest_id =
      after_sub_dir mail_dir dest_id (fs.sub_dir w mail_dir (fs.from dest_id))

  unfoldable pub cleanup_contents_dir : World → Dir → Bytes → Dir → World
  cleanup_contents_dir w queue mail_uuid mail_dir =
      (fs.remove_dir (fs.remove_file w mail_dir contents_file).0 queue (fs.from mail_uuid)).0

  unfoldable pub cleanup_dest_dirs : World → Dir → List Bytes → World
  unfolding cleanup_dest_dir
  cleanup_dest_dirs w mail_dir [] = w
  cleanup_dest_dirs w mail_dir (d ∷ ds) =
      cleanup_dest_dirs (cleanup_dest_dir w mail_dir d) mail_dir ds

  abbrev pub Destination : Type 0
  Destination = Bytes × MailMetadata U × ScheduleInfo

  -- A fresh name for each destination.
  unfoldable pub name_destinations :
      World → List (MailMetadata U × ScheduleInfo) → World × List Destination
  name_destinations w [] = (w, [])
  name_destinations w ((meta, sched) ∷ ds) =
      let uuid = fs.new_uuid w in
      let rest = name_destinations uuid.0 ds in (rest.0, (uuid.1, meta, sched) ∷ rest.1)

  module _ (self : FsEnqueuer fs) where
    -- `made` are the destinations before the one that is being made.
    unfoldable pub give_up :
        List Bytes → World → Error fs → World × Result (List FsQueuedMail) (Error fs)
    unfolding cleanup_dest_dirs cleanup_contents_dir
    give_up made w e = (
      cleanup_contents_dir (cleanup_dest_dirs w self.mail_dir made) self.queue_folder self.mail_uuid
          self.mail_dir,
      err e,
    )

    unfoldable pub with_mail :
        FsQueuedMail
        → World × Result (List FsQueuedMail) (Error fs)
        → World × Result (List FsQueuedMail) (Error fs)
    with_mail m (w, ok ms) = (w, ok (m ∷ ms))
    with_mail m (w, err e) = (w, err e)

    unfoldable pub after_make :
        (World → World × Result (List FsQueuedMail) (Error fs))
        → List Bytes
        → World × Result FsQueuedMail (Error fs)
        → World × Result (List FsQueuedMail) (Error fs)
    unfolding give_up with_mail
    after_make go_on made (w, err e) = give_up made w e
    after_make go_on made (w, ok queued_mail) = with_mail queued_mail (go_on w)

    unfoldable pub make_dest_dirs :
        List Bytes → List Destination → World → World × Result (List FsQueuedMail) (Error fs)
    unfolding after_make make_dest_dir
    make_dest_dirs made [] w = (w, ok [])
    make_dest_dirs made ((dest_id, meta, sched) ∷ ds) w =
        let rest = make_dest_dirs (made ++ (dest_id ∷ [])) ds in
        after_make rest made
          (make_dest_dir w self.queue_folder self.mail_uuid self.mail_dir dest_id meta sched)

    abbrev pub make_named : World × List Destination → World × Result (List FsQueuedMail) (Error fs)
    make_named (w, ds) = make_dest_dirs [] ds w

    unfoldable pub after_flush :
        List (MailMetadata U × ScheduleInfo)
        → World × Result (Unit {0}) IoError
        → World × Result (List FsQueuedMail) (Error fs)
    unfolding cleanup_contents_dir name_destinations make_dest_dirs
    after_flush destinations (w, err e) = (
      cleanup_contents_dir w self.queue_folder self.mail_uuid self.mail_dir,
      err (flushing_mail_contents contents_file self.mail_uuid data_queue e),
    )
    after_flush destinations (w, ok u) = make_named (name_destinations w destinations)

    -- `FsEnqueuer::commit`
    abbrev pub commit :
        World → List (MailMetadata U × ScheduleInfo) → World × Result (List FsQueuedMail) (Error fs)
    commit w destinations = after_flush destinations (fs.flush w self.writer)
