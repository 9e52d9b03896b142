-- ===== src/Fs/Scan.antt =====
-- smtp-queue-fs/src/lib.rs: `FsStorage::new`, and the streams of mails, as lists.
use kannader.Prelude.{Bool, true, false, Option, none, some, List, [], ◌∷◌, Bytes}
use kannader.Queue.Types.{QueueId, ScheduleInfo, Result, ok, err}
use kannader.Queue.Storage.{Tried, got, failed}
use kannader.Fs.System.{FileSystem, on_io, ◌or_fail◌and◌}
use kannader.Fs.Types.{
  data_dir, queue_dir, inflight_dir, cleanup_dir, schedule_file, FoundMail, FsQueuedMail,
  FsInflightMail, FsPendingCleanupMail, queued_found, inflight_found, pending_cleanup_found, Error,
  opening_folder, creating_folder, opening_sub_folder, creating_sub_folder, walking_directory,
  non_utf8_path, opening_file_in_folder, parsing_json, FsStorage,
}

module _ {World U : Type 0} (fs : FileSystem World U) where
  open fs use {Dir, File, PathBuf, IoError, WalkError}

  -- `maybe_create_and_open_generic!`
  unfoldable pub maybe_create_and_open_generic :
      (World → World × Result Dir IoError)
      → (IoError → Error fs)
      → (World → World × Result (Unit {0}) IoError)
      → (IoError → Error fs)
      → World
      → World × Result Dir (Error fs)
  unfolding on_io ◌or_fail◌and◌
  maybe_create_and_open_generic open_it open_err create create_err w =
      on_io fs.is_not_found (open_it w) (λ w1 res. (w1, ok res))
        (λ w1.
          create w1
          or_fail create_err and (λ w2 u. open_it w2 or_fail open_err and (λ w3 res. (w3, ok res))))
        (λ w1 e. (w1, err (open_err e)))

  -- `maybe_create_and_open!`
  unfoldable pub maybe_create_and_open :
      PathBuf → Dir → Bytes → World → World × Result Dir (Error fs)
  unfolding maybe_create_and_open_generic
  maybe_create_and_open path main_dir sub_path =
      maybe_create_and_open_generic (λ w. fs.sub_dir w main_dir (fs.from sub_path))
        (opening_sub_folder path sub_path) (λ w. fs.create_dir w main_dir sub_path)
        (creating_sub_folder path sub_path)

  -- `FsStorage::new`
  unfoldable pub new : World → PathBuf → World × Result (FsStorage fs) (Error fs)
  unfolding maybe_create_and_open ◌or_fail◌and◌
  new w path =
      maybe_create_and_open_generic (λ w'. fs.open_dir w' path) (opening_folder path)
        (λ w'. fs.create_main_dir w' path) (creating_folder path) w
      or_fail (λ e. e) and (λ w1 main_dir.
          maybe_create_and_open path main_dir data_dir w1 or_fail (λ e. e) and (λ w2 data_folder.
            maybe_create_and_open path main_dir queue_dir w2
            or_fail (λ e. e) and (λ w3 queue_folder.
                maybe_create_and_open path main_dir inflight_dir w3
                or_fail (λ e. e) and (λ w4 inflight_folder.
                    maybe_create_and_open path main_dir cleanup_dir w4
                    or_fail (λ e. e) and (λ w5 cleanup_folder. (
                      w5,
                      ok (record {
                        path = path;
                        data_folder = data_folder;
                        queue_folder = queue_folder;
                        inflight_folder = inflight_folder;
                        cleanup_folder = cleanup_folder;
                      }),
                    ))))))

  abbrev pub Found : Type 0 → Type 0
  Found A = Tried A (Option QueueId) (Error fs)

  -- `scan_folder`: what is no link is passed over.
  unfoldable pub links :
      PathBuf → List (Result (Bool × Option Bytes) WalkError) → List (Found QueueId)
  links root_path [] = []
  links root_path (err e ∷ es) = failed none (walking_directory root_path e) ∷ links root_path es
  links root_path (ok (false, p) ∷ es) = links root_path es
  links root_path (ok (true, none) ∷ es) =
      failed none (non_utf8_path root_path) ∷ links root_path es
  links root_path (ok (true, some path_str) ∷ es) = got path_str ∷ links root_path es

  abbrev pub links_of :
      PathBuf → World × List (Result (Bool × Option Bytes) WalkError) → World × List (Found QueueId)
  links_of root_path (w, es) = (w, links root_path es)

  unfoldable pub scan_folder : World → PathBuf → World × List (Found QueueId)
  unfolding links
  scan_folder w path = links_of path (fs.walk w path)

  abbrev pub tried : QueueId → World × Result ScheduleInfo (Error fs) → World × Found FoundMail
  tried id (w, ok schedule) = (w, got (record { id = id; schedule = schedule }))
  tried id (w, err e) = (w, failed (some id) e)

  unfoldable pub read_found : PathBuf → Dir → World → Found QueueId → World × Found FoundMail
  unfolding ◌or_fail◌and◌
  read_found root_path folder w (failed i e) = (w, failed i e)
  read_found root_path folder w (got id) =
      let schedule_path = fs.join (fs.from id) (fs.from schedule_file) in
      tried id (
        fs.open_file w folder schedule_path
        or_fail opening_file_in_folder schedule_path root_path and (λ w1 file.
          fs.read_schedule w1 file
          or_fail parsing_json (fs.join root_path schedule_path) and
            (λ w2 schedule. (w2, ok schedule))))

  unfoldable pub read_each :
      PathBuf → Dir → World → List (Found QueueId) → World × List (Found FoundMail)
  unfolding read_found
  read_each root_path folder w [] = (w, [])
  read_each root_path folder w (i ∷ ids) =
      let first = read_found root_path folder w i in
      let rest = read_each root_path folder first.0 ids in (rest.0, first.1 ∷ rest.1)

  abbrev pub read_all :
      PathBuf → Dir → World × List (Found QueueId) → World × List (Found FoundMail)
  read_all path folder (w, ids) = read_each path folder w ids

  unfoldable pub scan_queue : World → PathBuf → Dir → World × List (Found FoundMail)
  unfolding scan_folder read_each
  scan_queue w path folder = read_all path folder (scan_folder w path)

  unfoldable pub map_found : {A B : Type 0} → (A → B) → List (Found A) → List (Found B)
  map_found f [] = []
  map_found f (got a ∷ rest) = got (f a) ∷ map_found f rest
  map_found f (failed i e ∷ rest) = failed i e ∷ map_found f rest

  abbrev pub mapped : {A B : Type 0} → (A → B) → World × List (Found A) → World × List (Found B)
  mapped f (w, rest) = (w, map_found f rest)

  module _ (stor : FsStorage fs) where
    unfoldable pub list_queue : World → World × List (Found FsQueuedMail)
    unfolding map_found scan_queue
    list_queue w =
        mapped queued_found (scan_queue w (fs.join stor.path (fs.from queue_dir)) stor.queue_folder)

    unfoldable pub find_inflight : World → World × List (Found FsInflightMail)
    unfolding map_found scan_queue
    find_inflight w =
        mapped inflight_found
          (scan_queue w (fs.join stor.path (fs.from inflight_dir)) stor.inflight_folder)

    unfoldable pub find_pending_cleanup : World → World × List (Found FsPendingCleanupMail)
    unfolding map_found scan_folder
    find_pending_cleanup w =
        mapped pending_cleanup_found (scan_folder w (fs.join stor.path (fs.from cleanup_dir)))
