-- ===== src/Queue/Types.antt =====
-- smtp-queue-types/src/lib.rs and smtp-queue/src/lib.rs: names, schedules and metadata of queued mail.
-- Points in time and durations count one unit; a duration is never negative.
use kannader.Prelude.{ℕ, ◌-◌, Option, none, some, Bytes, ltb, if◌then◌else◌}
use kannader.Message.Address.{Email}

abbrev pub QueueId : Type 0
QueueId = Bytes

pub record ScheduleInfo : Type 0 where
  pub at : ℕ
  pub last_attempt : Option ℕ

-- `OutOfRangeError` is the error of a negative duration.
pub data Interval : Type 0 where
  interval : Option ℕ → Interval
  out_of_range : Interval

-- `(from - to).to_std()`
unfoldable pub to_std : ℕ → ℕ → Option ℕ
to_std from to = if ltb from to then none else some (from - to)

abbrev pub transpose : Option ℕ → Interval
transpose none = out_of_range
transpose (some d) = interval (some d)

-- `ScheduleInfo::last_interval`
unfoldable pub last_interval_of : ℕ → Option ℕ → Interval
last_interval_of at none = interval none
last_interval_of at (some last) = transpose (to_std last at)

abbrev pub last_interval : ScheduleInfo → Interval
last_interval s = last_interval_of s.at s.last_attempt

pub record MailMetadata (U : Type 0) : Type 0 where
  pub from : Option Email
  pub to : Email
  pub metadata : U

pub data TransportFailure : Type 0 where
  local network_transient mail_transient mailbox_transient mail_system_transient : TransportFailure
  mail_permanent mailbox_permanent mail_system_permanent : TransportFailure

pub data Result {ℓ} (A : Type ℓ) (E : Type ℓ) : Type ℓ where
  ok : A → Result A E
  err : E → Result A E
