-- ===== src/Queue/Scan.antt =====
-- smtp-queue/src/lib.rs: what a queue finds in its storage when it starts, and `Enqueuer`. The tasks
-- that are spawned are values; `spawned` is what the executor runs.
use kannader.Prelude.{ℕ, Option, none, some, List, [], ◌∷◌, ◌++◌}
use kannader.Queue.Types.{QueueId, ScheduleInfo, MailMetadata, Result, ok, err}
use kannader.Queue.Storage.{
  Tried, got, failed, storage_error, found_inflight, found_pending_cleanup, QueueImpl,
}
use kannader.Queue.Tasks.{Ran, done, ◌and_then◌, retry, send}

module _ {U : Type 0} (q : QueueImpl U) where
  open q use {World, storage, config, clock}
  open storage use {Error, QueuedMail, InflightMail, PendingCleanupMail, Enqueuer}

  pub data Task : Type 0 where
    scan_the_queue : Task
    send_queued : QueuedMail → Task
    check_inflight : InflightMail → Task
    clean_up : PendingCleanupMail → Task

  abbrev pub Found : Type 0 → Type 0
  Found A = Tried A (Option QueueId) Error

  -- `scan_inflight`, from the list that the storage gives
  unfoldable pub spawn_inflight : World → List (Found InflightMail) → World × List Task
  spawn_inflight w [] = (w, [])
  spawn_inflight w (failed id e ∷ found) = spawn_inflight (config.log w (storage_error e id)) found
  spawn_inflight w (got i ∷ found) =
      let rest = spawn_inflight (config.log w (found_inflight (storage.inflight_id i))) found in
      (rest.0, check_inflight i ∷ rest.1)

  unfoldable pub scan_inflight : World → World × List Task
  unfolding spawn_inflight
  scan_inflight w = let found = storage.find_inflight w in spawn_inflight found.0 found.1

  -- `scan_queue`
  unfoldable pub spawn_queued : World → List (Found QueuedMail) → World × List Task
  spawn_queued w [] = (w, [])
  spawn_queued w (failed id e ∷ found) = spawn_queued (config.log w (storage_error e id)) found
  spawn_queued w (got m ∷ found) =
      let rest = spawn_queued w found in (rest.0, send_queued m ∷ rest.1)

  unfoldable pub scan_queue : World → World × List Task
  unfolding spawn_queued
  scan_queue w = let found = storage.list_queue w in spawn_queued found.0 found.1

  -- `scan_pending_cleanup`
  unfoldable pub spawn_pending_cleanup : World → List (Found PendingCleanupMail) → World × List Task
  spawn_pending_cleanup w [] = (w, [])
  spawn_pending_cleanup w (failed id e ∷ found) =
      spawn_pending_cleanup (config.log w (storage_error e id)) found
  spawn_pending_cleanup w (got pcm ∷ found) =
      let rest =
        spawn_pending_cleanup (config.log w (found_pending_cleanup (storage.pending_id pcm)))
          found in
      (rest.0, clean_up pcm ∷ rest.1)

  unfoldable pub scan_pending_cleanup : World → World × List Task
  unfolding spawn_pending_cleanup
  scan_pending_cleanup w =
      let found = storage.find_pending_cleanup w in spawn_pending_cleanup found.0 found.1

  -- `Queue::new`, where the first of the two joined scans runs first
  unfoldable pub new : World → World × List Task
  unfolding scan_inflight scan_pending_cleanup
  new w =
      let first = scan_inflight w in
      let second = scan_pending_cleanup first.0 in
      (second.0, first.1 ++ (second.1 ++ (scan_the_queue ∷ [])))

  -- The task that `scan_inflight` spawns
  unfoldable pub after_check : ℕ → ℕ → World → Option QueuedMail → Ran World (Unit {0})
  unfolding send
  after_check tries fuel w none = done w tt
  after_check tries fuel w (some queued) = send q tries fuel w queued

  unfoldable pub recover : ℕ → ℕ → World → InflightMail → Ran World (Unit {0})
  unfolding retry after_check
  recover tries fuel w inflight =
      retry q storage.send_cancel storage.inflight_id tries 0
        (clock.sleep w config.found_inflight_check_delay) inflight
      and_then after_check tries fuel

  pub record QueueEnqueuer : Type 0 where
    pub enqueuer : Option Enqueuer

  abbrev pub with_enqueuer : World × Result Enqueuer Error → World × Result QueueEnqueuer Error
  with_enqueuer (w, ok e) = (w, ok (record { enqueuer = some e }))
  with_enqueuer (w, err e) = (w, err e)

  -- `Queue::enqueue`
  unfoldable pub enqueue : World → World × Result QueueEnqueuer Error
  enqueue w = with_enqueuer (storage.enqueue w)

  abbrev pub sends : List QueuedMail → List Task
  sends [] = []
  sends (m ∷ ms) = send_queued m ∷ sends ms

  abbrev pub after_commit :
      World × Result (List QueuedMail) Error → World × Result (List Task) Error
  after_commit (w, ok mails) = (w, ok (sends mails))
  after_commit (w, err e) = (w, err e)

  -- `Enqueuer::commit`; `none` is the panic of `unwrap`.
  unfoldable pub commit_to :
      Option Enqueuer
      → World
      → List (MailMetadata U × ScheduleInfo)
      → Option (World × Result (List Task) Error)
  commit_to none w destinations = none
  commit_to (some e) w destinations = some (after_commit (storage.commit w e destinations))

  abbrev pub commit :
      QueueEnqueuer
      → World
      → List (MailMetadata U × ScheduleInfo)
      → Option (World × Result (List Task) Error)
  commit self w destinations = commit_to self.enqueuer w destinations
