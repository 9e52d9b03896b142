-- ===== src/Queue/Tasks.antt =====
-- smtp-queue/src/lib.rs: the tasks of `Queue`. Each loop is on fuel.
use kannader.Prelude.{ℕ, zero, suc, ◌+◌, ◌*◌, ◌^◌, Bool, Option, none, some, ltb, if◌then◌else◌}
use kannader.Queue.Types.{
  QueueId, ScheduleInfo, MailMetadata, TransportFailure, Result, ok, err, to_std,
}
use kannader.Queue.Storage.{
  Tried, got, failed, storage_error, queued_mail_vanished, inflight_mail_vanished,
  pending_cleanup_mail_vanished, too_big_duration, QueueImpl,
}

-- A part of a task has ended with a value, or has used up its fuel.
pub data Ran {ℓ} (W A : Type ℓ) : Type ℓ where
  done : W → A → Ran W A
  running : W → Ran W A

infix 30 ◌and_then◌
unfoldable pub ◌and_then◌ {ℓ} : {W A B : Type ℓ} → Ran W A → (W → A → Ran W B) → Ran W B
done w a and_then f = f w a
running w and_then f = running w

-- `Config::io_error_next_retry_delay` as it is by default, on whole seconds; `none` is the panic of
-- `mul_f64` where the seconds do not fit in 64 bits.
unfoldable pub io_error_next_retry_delay : ℕ → Option ℕ
io_error_next_retry_delay d =
    if ltb d 30 then some 60 else if ltb (d * 2) (2 ^ 64) then some (d * 2) else none

abbrev pub interval_on_too_big_duration : ℕ
interval_on_too_big_duration = 4 * 3600

abbrev pub or_zero : Option ℕ → ℕ
or_zero none = 0
or_zero (some d) = d

module _ {U : Type 0} (q : QueueImpl U) where
  open q use {World, storage, config, transport, clock}
  open storage use {Error, QueuedMail, InflightMail, PendingCleanupMail, Enqueuer, Reader}

  -- `io_retry_loop!` and `io_retry_loop_raw!`
  unfoldable pub after_try :
      {V B : Type 0}
      → (B → QueueId)
      → (ℕ → World → B → Ran World V)
      → ℕ
      → World × Tried V B Error
      → Ran World V
  after_try id again delay (w, got v) = done w v
  after_try id again delay (w, failed mail e) =
      again (config.io_error_next_retry_delay delay)
        (clock.sleep (config.log w (storage_error e (some (id mail)))) delay) mail

  unfoldable pub retry :
      {V B : Type 0}
      → (World → B → World × Tried V B Error)
      → (B → QueueId)
      → ℕ
      → ℕ
      → World
      → B
      → Ran World V
  unfolding after_try
  retry call id zero delay w mail = running w
  retry call id (suc fuel) delay w mail = after_try id (retry call id fuel) delay (call w mail)

  unfoldable pub after_cleanup : QueueId → World → Bool → Ran World (Unit {0})
  after_cleanup id w cleanup_successful =
      done (if cleanup_successful then w else config.log w (pending_cleanup_mail_vanished id)) tt

  -- `Queue::cleanup`
  unfoldable pub cleanup : ℕ → World → PendingCleanupMail → Ran World (Unit {0})
  unfolding retry after_cleanup
  cleanup fuel w pcm =
      retry storage.cleanup storage.pending_id fuel 0 w pcm
      and_then after_cleanup (storage.pending_id pcm)

  -- The three calls of the transport, each where the one before succeeded.
  unfoldable pub after_connect :
      MailMetadata U
      → Reader
      → World × Result transport.Sender TransportFailure
      → World × Result (Unit {0}) TransportFailure
  after_connect meta reader (w, err e) = (w, err e)
  after_connect meta reader (w, ok sender) = transport.send w sender meta reader

  unfoldable pub after_destination :
      MailMetadata U
      → Reader
      → World × Result transport.Destination TransportFailure
      → World × Result (Unit {0}) TransportFailure
  unfolding after_connect
  after_destination meta reader (w, err e) = (w, err e)
  after_destination meta reader (w, ok dest) = after_connect meta reader (transport.connect w dest)

  unfoldable pub send_attempt :
      World → MailMetadata U → Reader → World × Result (Unit {0}) TransportFailure
  unfolding after_destination
  send_attempt w meta reader = after_destination meta reader (transport.destination w meta)

  abbrev pub Read : Type 0
  Read = InflightMail × MailMetadata U × Reader

  abbrev pub with_mail :
      InflightMail
      → World × Result (MailMetadata U × Reader) Error
      → World × Tried Read InflightMail Error
  with_mail i (w, ok (meta, reader)) = (w, got (i, meta, reader))
  with_mail i (w, err e) = (w, failed i e)

  abbrev pub read_inflight : World → InflightMail → World × Tried Read InflightMail Error
  read_inflight w i = with_mail i (storage.read_inflight w i)

  -- `none` is `Ok(())`, and `some` is the `Err` that hands the mail back.
  unfoldable pub after_done :
      ℕ → QueueId → World → Option PendingCleanupMail → Ran World (Option QueuedMail)
  unfolding cleanup ◌and_then◌
  after_done fuel id w none = done (config.log w (queued_mail_vanished id)) none
  after_done fuel id w (some pcm) = cleanup fuel w pcm and_then (λ w' u. done w' none)

  unfoldable pub after_cancel : QueueId → World → Option QueuedMail → Ran World (Option QueuedMail)
  after_cancel id w none = done (config.log w (inflight_mail_vanished id)) none
  after_cancel id w (some queued) = done w (some queued)

  unfoldable pub after_attempt :
      ℕ
      → QueueId
      → InflightMail
      → World × Result (Unit {0}) TransportFailure
      → Ran World (Option QueuedMail)
  unfolding retry after_done after_cancel
  after_attempt fuel id i (w, ok u) =
      retry storage.send_done storage.inflight_id fuel 0 w i and_then after_done fuel id
  after_attempt fuel id i (w, err e) =
      retry storage.send_cancel storage.inflight_id fuel 0 w i
      and_then after_cancel (storage.inflight_id i)

  unfoldable pub after_read : ℕ → QueueId → World → Read → Ran World (Option QueuedMail)
  unfolding after_attempt send_attempt
  after_read fuel id w (i, meta, reader) = after_attempt fuel id i (send_attempt w meta reader)

  unfoldable pub after_start :
      ℕ → QueueId → World → Option InflightMail → Ran World (Option QueuedMail)
  unfolding retry after_read
  after_start fuel id w none = done (config.log w (queued_mail_vanished id)) none
  after_start fuel id w (some i) =
      retry read_inflight storage.inflight_id fuel 0 w i and_then after_read fuel id

  unfoldable pub try_send : ℕ → World → QueuedMail → Ran World (Option QueuedMail)
  unfolding retry after_start
  try_send fuel w mail =
      retry storage.send_start storage.queued_id fuel 0 w mail
      and_then after_start fuel (storage.queued_id mail)

  abbrev pub rescheduled :
      World × QueuedMail × Option Error → World × Tried QueuedMail QueuedMail Error
  rescheduled (w, mail, none) = (w, got mail)
  rescheduled (w, mail, some e) = (w, failed mail e)

  abbrev pub reschedule :
      ScheduleInfo → World → QueuedMail → World × Tried QueuedMail QueuedMail Error
  reschedule s w mail = rescheduled (storage.reschedule w mail s)

  -- The interval that the calendar can add.
  unfoldable pub possible_interval : World → QueueId → ℕ → World × ℕ
  possible_interval w id i =
      if ltb clock.longest i
      then (
        config.log w (too_big_duration id i interval_on_too_big_duration),
        interval_on_too_big_duration,
      )
      else (w, i)

  unfoldable pub next_schedule : ℕ → ℕ → ScheduleInfo
  next_schedule this_attempt i = record { at = this_attempt + i; last_attempt = some this_attempt }

  unfoldable pub send_later :
      (World → QueuedMail → Ran World (Unit {0}))
      → ℕ
      → QueuedMail
      → ℕ
      → World × ℕ
      → Ran World (Unit {0})
  unfolding retry next_schedule
  send_later again fuel mail this_attempt (w, i) =
      retry (reschedule (next_schedule this_attempt i)) storage.queued_id fuel 0 w mail
      and_then again

  unfoldable pub after_drop : ℕ → QueueId → World → Option PendingCleanupMail → Ran World (Unit {0})
  unfolding cleanup
  after_drop fuel id w none = done (config.log w (queued_mail_vanished id)) tt
  after_drop fuel id w (some pcm) = cleanup fuel w pcm

  unfoldable pub send_or_drop :
      (World → QueuedMail → Ran World (Unit {0}))
      → ℕ
      → QueuedMail
      → ℕ
      → World × Option ℕ
      → Ran World (Unit {0})
  unfolding send_later after_drop possible_interval
  send_or_drop again fuel mail this_attempt (w, some i) =
      send_later again fuel mail this_attempt (possible_interval w (storage.queued_id mail) i)
  send_or_drop again fuel mail this_attempt (w, none) =
      retry storage.drop storage.queued_id fuel 0 w mail
      and_then after_drop fuel (storage.queued_id mail)

  unfoldable pub schedule_again :
      (World → QueuedMail → Ran World (Unit {0}))
      → ℕ
      → QueuedMail
      → World × ℕ
      → Ran World (Unit {0})
  unfolding send_or_drop
  schedule_again again fuel mail (w, this_attempt) =
      send_or_drop again fuel mail this_attempt (config.next_interval w (storage.schedule mail))

  unfoldable pub after_try_send :
      (World → QueuedMail → Ran World (Unit {0}))
      → ℕ
      → World
      → Option QueuedMail
      → Ran World (Unit {0})
  unfolding schedule_again
  after_try_send again fuel w none = done w tt
  after_try_send again fuel w (some mail) = schedule_again again fuel mail (clock.now w)

  unfoldable pub wait_until : World × ℕ → ℕ → World
  wait_until (w, now) at = clock.sleep w (or_zero (to_std at now))

  -- `Queue::send`; each storage call in it may be tried `tries` times.
  unfoldable pub send : ℕ → ℕ → World → QueuedMail → Ran World (Unit {0})
  unfolding try_send after_try_send
  send tries zero w mail = running w
  send tries (suc fuel) w mail =
      try_send tries (wait_until (clock.now w) (storage.schedule mail).at) mail
      and_then after_try_send (send tries fuel) tries
