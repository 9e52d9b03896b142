-- ===== src/Queue/Storage.antt =====
-- smtp-queue/src/lib.rs: the traits `Storage`, `Config` and `Transport`, and `QueueImpl`. `World` is
-- all that the calls change; a call gives the new world first.
use kannader.Prelude.{ℕ, Bool, true, false, Option, none, some, List, ◌≡◌, ◌≢◌}
use kannader.Queue.Types.{QueueId, ScheduleInfo, MailMetadata, TransportFailure, Result}

-- The answer of an operation that takes the mail `B` and gives it back with an error.
pub data Tried (V B E : Type 0) : Type 0 where
  got : V → Tried V B E
  failed : B → E → Tried V B E

-- An operation that moves a mail gives it at its new place, or nothing when it had vanished.
abbrev pub Moved : Type 0 → Type 0 → Type 0 → Type 0
Moved A B E = Tried (Option A) B E

-- What a queue tells its configuration.
pub data Event (E : Type 0) : Type 0 where
  storage_error : E → Option QueueId → Event E
  found_inflight found_pending_cleanup queued_mail_vanished inflight_mail_vanished
        pending_cleanup_mail_vanished :
      QueueId → Event E
  too_big_duration : QueueId → ℕ → ℕ → Event E

pub record Storage (World U : Type 0) : Type 1 where
  pub Error : Type 0
  pub QueuedMail : Type 0
  pub InflightMail : Type 0
  pub PendingCleanupMail : Type 0
  pub Enqueuer : Type 0
  pub Reader : Type 0
  pub queued_id : QueuedMail → QueueId
  pub schedule : QueuedMail → ScheduleInfo
  pub inflight_id : InflightMail → QueueId
  pub pending_id : PendingCleanupMail → QueueId
  pub list_queue : World → World × List (Tried QueuedMail (Option QueueId) Error)
  pub find_inflight : World → World × List (Tried InflightMail (Option QueueId) Error)
  pub find_pending_cleanup : World → World × List (Tried PendingCleanupMail (Option QueueId) Error)
  pub enqueue : World → World × Result Enqueuer Error
  pub commit :
      World
      → Enqueuer
      → List (MailMetadata U × ScheduleInfo)
      → World × Result (List QueuedMail) Error
  pub read_inflight : World → InflightMail → World × Result (MailMetadata U × Reader) Error
  pub reschedule : World → QueuedMail → ScheduleInfo → World × QueuedMail × Option Error
  pub send_start : World → QueuedMail → World × Moved InflightMail QueuedMail Error
  pub send_done : World → InflightMail → World × Moved PendingCleanupMail InflightMail Error
  pub send_cancel : World → InflightMail → World × Moved QueuedMail InflightMail Error
  pub drop : World → QueuedMail → World × Moved PendingCleanupMail QueuedMail Error
  pub cleanup : World → PendingCleanupMail → World × Tried Bool PendingCleanupMail Error

pub record Config (World E : Type 0) : Type 1 where
  pub next_interval : World → ScheduleInfo → World × Option ℕ
  pub log : World → Event E → World
  pub found_inflight_check_delay : ℕ
  pub io_error_next_retry_delay : ℕ → ℕ

pub record Transport (World U R : Type 0) : Type 1 where
  pub Destination : Type 0
  pub Sender : Type 0
  pub destination : World → MailMetadata U → World × Result Destination TransportFailure
  pub connect : World → Destination → World × Result Sender TransportFailure
  pub send : World → Sender → MailMetadata U → R → World × Result (Unit {0}) TransportFailure

-- The clock and the timers. `longest` is the longest duration that the calendar can add.
pub record Clock (World : Type 0) : Type 1 where
  pub now : World → World × ℕ
  pub sleep : World → ℕ → World
  pub longest : ℕ

pub record QueueImpl (U : Type 0) : Type 1 where
  pub World : Type 0
  pub storage : Storage World U
  pub config : Config World storage.Error
  pub transport : Transport World U storage.Reader
  pub clock : Clock World

-- Where a storage can keep a mail.
pub data Place : Type 0 where
  queue inflight cleanup : Place

-- What the documentation of `Storage` promises, for a view of the world that says which mails are
-- where, while no one else moves mails.
module _ {World : Type 0} (holds : World → Place → QueueId → Bool) where
  abbrev pub Same : World → World → Type 0
  Same w w' = (p : Place) (id : QueueId) → holds w' p id ≡ holds w p id

  -- The mail `id` goes from `p` to `q`, and nothing else changes.
  pub record Moves (w w' : World) (p q : Place) (id : QueueId) : Type 0 where
    pub was : holds w p id ≡ true
    pub left : holds w' p id ≡ false
    pub arrived : holds w' q id ≡ true
    pub other_places : (r : Place) → r ≢ p → r ≢ q → holds w' r id ≡ holds w r id
    pub other_mails : (r : Place) (j : QueueId) → j ≢ id → holds w' r j ≡ holds w r j

  -- The mail `id` is no longer in `cleanup`, and nothing else changes.
  pub record Removes (w w' : World) (id : QueueId) : Type 0 where
    pub gone : holds w' cleanup id ≡ false
    pub other_places : (r : Place) → r ≢ cleanup → holds w' r id ≡ holds w r id
    pub other_mails : (r : Place) (j : QueueId) → j ≢ id → holds w' r j ≡ holds w r j

  unfoldable pub MoveLaw :
      {A B E : Type 0}
      → (A → QueueId)
      → (B → QueueId)
      → Place
      → Place
      → World
      → B
      → World × Moved A B E
      → Type 0
  MoveLaw a_id b_id p q w b (w', got (some a)) = Moves w w' p q (b_id b) × (a_id a ≡ b_id b)
  MoveLaw a_id b_id p q w b (w', got none) = Same w w' × (holds w p (b_id b) ≡ false)
  MoveLaw a_id b_id p q w b (w', failed b' e) = Same w w' × (b' ≡ b)

  unfoldable pub CleanupLaw :
      {B E : Type 0} → (B → QueueId) → World → B → World × Tried Bool B E → Type 0
  CleanupLaw b_id w b (w', got done) =
      Removes w w' (b_id b) × (done ≡ true → holds w cleanup (b_id b) ≡ true)
  CleanupLaw b_id w b (w', failed b' e) = Same w w' × (b' ≡ b)

  pub record IsStorage {U : Type 0} (s : Storage World U) : Type 0 where
    pub read_inflight_keeps : (w : World) (m : s.InflightMail) → Same w (s.read_inflight w m).0
    pub reschedule_keeps :
        (w : World) (m : s.QueuedMail) (i : ScheduleInfo)
        → Same w (s.reschedule w m i).0 × (s.queued_id (s.reschedule w m i).1 ≡ s.queued_id m)
    pub send_start_moves :
        (w : World) (m : s.QueuedMail)
        → MoveLaw s.inflight_id s.queued_id queue inflight w m (s.send_start w m)
    pub send_done_moves :
        (w : World) (m : s.InflightMail)
        → MoveLaw s.pending_id s.inflight_id inflight cleanup w m (s.send_done w m)
    pub send_cancel_moves :
        (w : World) (m : s.InflightMail)
        → MoveLaw s.queued_id s.inflight_id inflight queue w m (s.send_cancel w m)
    pub drop_moves :
        (w : World) (m : s.QueuedMail)
        → MoveLaw s.pending_id s.queued_id queue cleanup w m (s.drop w m)
    pub cleanup_removes :
        (w : World) (m : s.PendingCleanupMail) → CleanupLaw s.pending_id w m (s.cleanup w m)
