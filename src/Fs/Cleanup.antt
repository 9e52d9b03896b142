-- ===== src/Fs/Cleanup.antt =====
-- smtp-queue-fs/src/lib.rs: `FsStorage::cleanup`, its parts from the last to the first.
use kannader.Prelude.{
  Bool, true, false, not, ◌&&◌, Option, none, some, List, [], ◌∷◌, Bytes, codes, if◌then◌else◌,
  bytes_eq,
}
use kannader.Queue.Types.{Result, ok, err}
use kannader.Queue.Storage.{Tried, got, failed}
use kannader.Fs.System.{FileSystem, on_io}
use kannader.Fs.Types.{
  metadata_file, contents_file, schedule_file, data_dir_from_other_queue, data_queue, cleanup_queue,
  FsPendingCleanupMail, Error, reading_link_in_queue, opening_folder_in_queue,
  removing_file_from_mail, removing_folder_from_mail, removing_folder_from_queue,
  removing_file_from_queue, listing_folder_in_queue, symlink_points_to_non_destination_subfolder,
  symlink_does_not_point_to_data_queue, FsStorage,
}

module _ {World U : Type 0} (fs : FileSystem World U) (stor : FsStorage fs) where
  open fs use {Dir, PathBuf, IoError}

  abbrev pub Cleaned : Type 0
  Cleaned = World × Tried Bool FsPendingCleanupMail (Error fs)

  -- The link itself goes last; the answer is `!mail_vanished`.
  unfoldable pub remove_link : Bool → FsPendingCleanupMail → World → Cleaned
  unfolding on_io
  remove_link mail_vanished mail w =
      on_io fs.is_not_found (fs.remove_file w stor.cleanup_folder mail.id)
        (λ w' u. (w', got (not mail_vanished))) (λ w'. (w', got false))
        (λ w' e. (w', failed mail (removing_file_from_queue mail.id cleanup_queue e)))

  -- `dest.parent().map(PathBuf::from).unwrap_or_else(|| dest.join(".."))`
  abbrev pub parent_or_join : PathBuf → Option PathBuf → PathBuf
  parent_or_join dest none = fs.join dest (fs.from (codes ".."))
  parent_or_join dest (some p) = p

  unfoldable pub remove_mail_dir :
      Bool → FsPendingCleanupMail → PathBuf → PathBuf → Dir → World → Cleaned
  unfolding on_io remove_link
  remove_mail_dir mail_vanished mail dest mail_name mail_dir w =
      let remove_data_dir = λ (w1 : World).
        on_io fs.is_not_found (fs.remove_dir w1 stor.data_folder mail_name)
          (λ w2 u. remove_link mail_vanished mail w2) (remove_link mail_vanished mail)
          (λ w2 e. (w2, failed mail (removing_folder_from_queue mail_name data_queue e))) in
      on_io fs.is_not_found (fs.remove_file w mail_dir contents_file) (λ w1 u. remove_data_dir w1)
        remove_data_dir
        (λ w1 e. (
          w1,
          failed mail (
              removing_file_from_mail contents_file (parent_or_join dest (fs.parent dest))
                cleanup_queue e),
        ))

  -- `mail_dir_list.all(|e| matches!(e, Ok(e) if e.file_name() == CONTENTS_FILE))`
  unfoldable pub only_contents : List (Result Bytes IoError) → Bool
  only_contents [] = true
  only_contents (ok name ∷ es) = bytes_eq name contents_file && only_contents es
  only_contents (err e ∷ es) = false

  unfoldable pub after_remove_dest_dir :
      FsPendingCleanupMail → PathBuf → PathBuf → Dir → Bool → World → Cleaned
  unfolding on_io remove_mail_dir remove_link
  after_remove_dest_dir mail dest mail_name mail_dir mail_vanished w =
      on_io fs.is_not_found (fs.list_dir w mail_dir)
        (λ w1 mail_dir_list.
          if only_contents mail_dir_list
          then remove_mail_dir mail_vanished mail dest mail_name mail_dir w1
          else remove_link mail_vanished mail w1)
        (remove_link true mail)
        (λ w1 e. (w1, failed mail (listing_folder_in_queue mail_name data_queue e)))

  unfoldable pub remove_dest_dir :
      FsPendingCleanupMail → PathBuf → PathBuf → Bytes → Bool → World → Cleaned
  unfolding on_io after_remove_dest_dir remove_link
  remove_dest_dir mail dest mail_name dest_name mail_vanished w =
      on_io fs.is_not_found (fs.sub_dir w stor.data_folder mail_name)
        (λ w1 mail_dir.
          on_io fs.is_not_found (fs.remove_dir w1 mail_dir (fs.from dest_name))
            (λ w2 u. after_remove_dest_dir mail dest mail_name mail_dir mail_vanished w2)
            (after_remove_dest_dir mail dest mail_name mail_dir true)
            (λ w2 e. (
              w2,
              failed mail (removing_folder_from_mail (fs.from dest_name) mail_name cleanup_queue e),
            )))
        (remove_link true mail)
        (λ w1 e. (w1, failed mail (opening_folder_in_queue mail_name data_queue e)))

  -- The names of the mail and of the destination are read off the link.
  unfoldable pub with_names :
      FsPendingCleanupMail → PathBuf → Bool → World → Option PathBuf → Option Bytes → Cleaned
  unfolding remove_dest_dir
  with_names mail dest mail_vanished w none dest_name =
      (w, failed mail (symlink_points_to_non_destination_subfolder mail.id cleanup_queue dest))
  with_names mail dest mail_vanished w (some mail_name) none =
      (w, failed mail (symlink_points_to_non_destination_subfolder mail.id cleanup_queue dest))
  with_names mail dest mail_vanished w (some mail_name) (some dest_name) =
      remove_dest_dir mail dest mail_name dest_name mail_vanished w

  unfoldable pub with_data_path :
      FsPendingCleanupMail → PathBuf → Bool → World → Option PathBuf → Cleaned
  unfolding with_names
  with_data_path mail dest mail_vanished w none =
      (w, failed mail (symlink_does_not_point_to_data_queue mail.id cleanup_queue dest))
  with_data_path mail dest mail_vanished w (some m) =
      with_names mail dest mail_vanished w (fs.parent m) (fs.file_name dest)

  abbrev pub after_dest_dir : FsPendingCleanupMail → PathBuf → Bool → World → Cleaned
  after_dest_dir mail dest mail_vanished w =
      with_data_path mail dest mail_vanished w (fs.strip_prefix dest data_dir_from_other_queue)

  unfoldable pub empty_dest_dir : FsPendingCleanupMail → PathBuf → Dir → World → Cleaned
  unfolding on_io with_data_path
  empty_dest_dir mail dest dest_dir w =
      let remove_schedule = λ (w1 : World).
        on_io fs.is_not_found (fs.remove_file w1 dest_dir schedule_file)
          (λ w2 u. after_dest_dir mail dest false w2) (after_dest_dir mail dest false)
          (λ w2 e. (
            w2,
            failed mail (removing_file_from_mail schedule_file (fs.from mail.id) cleanup_queue e),
          )) in
      on_io fs.is_not_found (fs.remove_file w dest_dir metadata_file) (λ w1 u. remove_schedule w1)
        remove_schedule
        (λ w1 e. (
          w1,
          failed mail (removing_file_from_mail metadata_file (fs.from mail.id) cleanup_queue e),
        ))

  -- `FsStorage::cleanup`
  unfoldable pub cleanup : World → FsPendingCleanupMail → Cleaned
  unfolding on_io empty_dest_dir with_data_path
  cleanup w mail =
      on_io fs.is_not_found (fs.read_link w stor.cleanup_folder mail.id)
        (λ w1 dest.
          on_io fs.is_not_found (fs.sub_dir w1 stor.cleanup_folder dest)
            (λ w2 dest_dir. empty_dest_dir mail dest dest_dir w2) (after_dest_dir mail dest true)
            (λ w2 e. (w2, failed mail (opening_folder_in_queue (fs.from mail.id) cleanup_queue e))))
        (λ w1. (w1, got false))
        (λ w1 e. (w1, failed mail (reading_link_in_queue mail.id cleanup_queue e)))
