-- ===== src/Queue/Kept/Attempt.antt =====
-- smtp-queue/src/lib.rs: what one attempt to send does to the place of a mail.
use mathlib.Core.Path.{subst}
use kannader.Prelude.{ℕ, Bool, Option, none, ◌≡◌, refl, sym, ap, ◌∙◌, inl, inr}
use kannader.Queue.Types.{QueueId, MailMetadata, TransportFailure, Result, ok, err}
use kannader.Queue.Storage.{QueueImpl, Place, queue, inflight, Same, IsStorage}
use kannader.Queue.Tasks
use kannader.Queue.Tasks.{
  done, retry, send_attempt, after_destination, after_connect, Read, with_mail, read_inflight,
  after_done, after_cancel, after_attempt, after_read, after_start, try_send, send,
}
use kannader.Queue.Runs.{RunsTo, and_then-RunsTo, CallGives, retry-RunsTo}
use kannader.Queue.Kept.Places.{Held, Same-Held, Arrives, Waits}
use kannader.Queue.Kept.Steps.{
  Finished, Kept, Ended, IsQuiet, TrySent, Waits-quiet, moves-RunsTo, cleanup-RunsTo, IsHistory,
  Finished-Stays, Finished-moves-RunsTo,
}

module _ {U : Type 0} (q : QueueImpl U) (holds : q.World → Place → QueueId → Bool) where
  open q use {World, storage, config, transport, clock}
  open storage use {Error, QueuedMail, InflightMail, PendingCleanupMail, Reader}

  module _ (delivered given_up : World → QueueId → Type 0) (storage_law : IsStorage holds storage)
      (quiet : IsQuiet q holds) (history : IsHistory q holds delivered given_up) where
    abbrev Safe : QueueId → World → Type 0
    Safe = Kept q holds delivered given_up

    abbrev Over : QueueId → World → Unit {0} → Type 0
    Over = Ended q holds delivered given_up

    abbrev Attempted : QueueId → World → Option QueuedMail → Type 0
    Attempted = TrySent q holds delivered given_up

    abbrev IsFinished : QueueId → World → Type 0
    IsFinished = Finished q holds delivered given_up

    after_done-RunsTo :
        (fuel : ℕ) (id : QueueId) (w : World) (v : Option PendingCleanupMail)
        → IsFinished id w
        → Arrives holds storage.pending_id id Place.cleanup w v
        → RunsTo (Safe id) (Attempted id) (after_done q fuel id w v)
    unfolding Arrives after_done RunsTo
    after_done-RunsTo fuel id w v finished (pcm, e, names, h) =
        subst (λ v'. RunsTo (Safe id) (Attempted id) (after_done q fuel id w v')) (sym e)
          (and_then-RunsTo (Safe id) (Over id) (Attempted id) (λ w' u. done w' none)
            (λ w' u ended. ended) (Tasks.cleanup q fuel w pcm)
            (cleanup-RunsTo q holds delivered given_up storage_law quiet history fuel w pcm id names
              h finished))

    after_cancel-RunsTo :
        (id name : QueueId) (w : World) (v : Option QueuedMail)
        → Arrives holds storage.queued_id id queue w v
        → RunsTo (Safe id) (Attempted id) (after_cancel q name w v)
    unfolding Arrives after_cancel RunsTo
    after_cancel-RunsTo id name w v (m, e, names, h) =
        subst (λ v'. RunsTo (Safe id) (Attempted id) (after_cancel q name w v')) (sym e) (names, h)

    after_attempt-RunsTo :
        (fuel : ℕ) (name id : QueueId) (i : InflightMail)
        (res : World × Result (Unit {0}) TransportFailure)
        → name ≡ id
        → storage.inflight_id i ≡ id
        → Held holds res.0 id inflight
        → (res.1 ≡ ok tt → IsFinished id res.0)
        → RunsTo (Safe id) (Attempted id) (after_attempt q fuel name i res)
    unfolding after_attempt
    after_attempt-RunsTo fuel name id i (w, ok u) same names h finished =
        and_then-RunsTo (Safe id)
          (λ w' v. Arrives holds storage.pending_id id Place.cleanup w' v × IsFinished id w')
          (Attempted id) (after_done q fuel name)
          (λ w' v (arrives, f).
            subst (λ j. RunsTo (Safe id) (Attempted id) (after_done q fuel j w' v)) (sym same)
              (after_done-RunsTo fuel id w' v f arrives))
          (retry q storage.send_done storage.inflight_id fuel 0 w i)
          (Finished-moves-RunsTo q holds delivered given_up storage_law quiet history
            storage.inflight_id inflight id storage.send_done storage_law.send_done_moves
            (λ w' h'. inr (inl h')) (Finished-Stays q holds delivered given_up id history).send_done
            fuel w i names h (finished refl))
    after_attempt-RunsTo fuel name id i (w, err e) same names h finished =
        and_then-RunsTo (Safe id) (Arrives holds storage.queued_id id queue) (Attempted id)
          (after_cancel q (storage.inflight_id i)) (after_cancel-RunsTo id (storage.inflight_id i))
          (retry q storage.send_cancel storage.inflight_id fuel 0 w i)
          (moves-RunsTo q holds delivered given_up storage_law quiet history storage.queued_id
            storage.inflight_id inflight queue id storage.send_cancel storage_law.send_cancel_moves
            (λ w' h'. inr (inl h')) fuel w i names h)

    after_connect_quiet :
        (w : World) (meta : MailMetadata U) (reader : Reader)
        (res : World × Result transport.Sender TransportFailure)
        → Same holds w res.0
        → Same holds w (after_connect q meta reader res).0
    unfolding after_connect
    after_connect_quiet w meta reader (w', err e) s = s
    after_connect_quiet w meta reader (w', ok sender) s =
        λ p id. quiet.send w' sender meta reader p id ∙ s p id

    after_destination_quiet :
        (w : World) (meta : MailMetadata U) (reader : Reader)
        (res : World × Result transport.Destination TransportFailure)
        → Same holds w res.0
        → Same holds w (after_destination q meta reader res).0
    unfolding after_destination
    after_destination_quiet w meta reader (w', err e) s = s
    after_destination_quiet w meta reader (w', ok dest) s =
        after_connect_quiet w meta reader (transport.connect w' dest)
          (λ p id. quiet.connect w' dest p id ∙ s p id)

    send_attempt_quiet :
        (w : World) (meta : MailMetadata U) (reader : Reader)
        → Same holds w (send_attempt q w meta reader).0
    unfolding send_attempt
    send_attempt_quiet w meta reader =
        after_destination_quiet w meta reader (transport.destination w meta)
          (quiet.destination w meta)

    -- The mail that is in flight was read.
    abbrev WasRead : QueueId → World → Read q → Type 0
    WasRead id w (i, meta, reader) =
        (storage.inflight_id i ≡ id)
        × Held holds w id inflight
        × (before : World) × (storage.read_inflight before i ≡ (w, ok (meta, reader)))

    read-Gives :
        (id : QueueId) (w : World) (i : InflightMail)
        (res : World × Result (MailMetadata U × Reader) Error)
        → storage.read_inflight w i ≡ res
        → Waits holds storage.inflight_id id inflight w i
        → CallGives (Waits holds storage.inflight_id id inflight) (WasRead id) (with_mail q i res)
    read-Gives id w i (w', ok (meta, reader)) e (names, h) = (
      names,
      subst (λ r. Held holds r.0 id inflight) e
          (Same-Held holds w (storage.read_inflight w i).0 id inflight
            (storage_law.read_inflight_keeps w i) h),
      w,
      e,
    )
    read-Gives id w i (w', err x) e (names, h) = (
      names,
      subst (λ r. Held holds r.0 id inflight) e
          (Same-Held holds w (storage.read_inflight w i).0 id inflight
            (storage_law.read_inflight_keeps w i) h),
    )

    after_read-RunsTo :
        (fuel : ℕ) (name id : QueueId) (w : World) (r : Read q)
        → name ≡ id
        → WasRead id w r
        → RunsTo (Safe id) (Attempted id) (after_read q fuel name w r)
    unfolding after_read
    after_read-RunsTo fuel name id w (i, meta, reader) same (names, h, before, e) =
        after_attempt-RunsTo fuel name id i (send_attempt q w meta reader) same names
          (Same-Held holds w (send_attempt q w meta reader).0 id inflight
            (send_attempt_quiet w meta reader) h)
          (λ is_ok. inl (
            subst (delivered (send_attempt q w meta reader).0) names (
              history.accepted before w (send_attempt q w meta reader).0 i meta reader e
                (ap (λ r. ((send_attempt q w meta reader).0, r)) is_ok))))

    after_start-RunsTo :
        (fuel : ℕ) (name id : QueueId) (w : World) (v : Option InflightMail)
        → name ≡ id
        → Arrives holds storage.inflight_id id inflight w v
        → RunsTo (Safe id) (Attempted id) (after_start q fuel name w v)
    unfolding after_start Arrives
    after_start-RunsTo fuel name id w v same (i, e, names, h) =
        subst (λ v'. RunsTo (Safe id) (Attempted id) (after_start q fuel name w v')) (sym e)
          (and_then-RunsTo (Safe id) (WasRead id) (Attempted id) (after_read q fuel name)
            (λ w' r read. after_read-RunsTo fuel name id w' r same read)
            (retry q (read_inflight q) storage.inflight_id fuel 0 w i)
            (retry-RunsTo q (read_inflight q) storage.inflight_id (Safe id)
              (Waits holds storage.inflight_id id inflight) (WasRead id)
              (λ w' b' wait. read-Gives id w' b' (storage.read_inflight w' b') refl wait)
              (Waits-quiet q holds delivered given_up storage_law quiet history storage.inflight_id
                id inflight)
              (λ w' b' wait. inr (inl wait.1)) fuel 0 w i (names, h)))

    pub try_send-RunsTo :
        (fuel : ℕ) (id : QueueId) (w : World) (mail : QueuedMail)
        → Waits holds storage.queued_id id queue w mail
        → RunsTo (Safe id) (Attempted id) (try_send q fuel w mail)
    unfolding try_send
    try_send-RunsTo fuel id w mail (names, h) =
        and_then-RunsTo (Safe id) (Arrives holds storage.inflight_id id inflight) (Attempted id)
          (after_start q fuel (storage.queued_id mail))
          (λ w' v arrives. after_start-RunsTo fuel (storage.queued_id mail) id w' v names arrives)
          (retry q storage.send_start storage.queued_id fuel 0 w mail)
          (moves-RunsTo q holds delivered given_up storage_law quiet history storage.inflight_id
            storage.queued_id queue inflight id storage.send_start storage_law.send_start_moves
            (λ w' h'. inl h') fuel w mail names h)
