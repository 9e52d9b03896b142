-- ===== src/Queue/Kept/Send.antt =====
-- No mail is lost: it leaves the queue only when it was delivered or given up.
use mathlib.Core.Path.{subst}
use kannader.Prelude.{
  ap, ℕ, zero, suc, Bool, Option, none, some, ◌≡◌, refl, sym, ◌∙◌, inl, inr, Bool-cases, ltb,
}
use kannader.Queue.Types.{QueueId}
use kannader.Queue.Storage.{QueueImpl, Place, queue, Same, IsStorage}
use kannader.Queue.Tasks.{
  Ran, retry, try_send, rescheduled, reschedule, possible_interval, next_schedule, send_later,
  after_drop, send_or_drop, schedule_again, after_try_send, wait_until, send,
}
use kannader.Queue.Runs.{RunsTo, and_then-RunsTo, CallGives, retry-RunsTo}
use kannader.Queue.Kept.Places.{Held, Same-Held, Arrives, Waits}
use kannader.Queue.Kept.Steps.{
  Finished, Kept, Ended, IsQuiet, TrySent, Waits-quiet, cleanup-RunsTo, IsHistory, Finished-Stays,
  Finished-moves-RunsTo,
}
use kannader.Queue.Kept.Attempt.{try_send-RunsTo}

module _ {U : Type 0} (q : QueueImpl U) (holds : q.World → Place → QueueId → Bool) where
  open q use {World, storage, config, transport, clock}
  open storage use {Error, QueuedMail, InflightMail, PendingCleanupMail, Reader}

  module _ (delivered given_up : World → QueueId → Type 0) (storage_law : IsStorage holds storage)
      (quiet : IsQuiet q holds) (history : IsHistory q holds delivered given_up) where
    abbrev Safe : QueueId → World → Type 0
    Safe = Kept q holds delivered given_up

    abbrev Over : QueueId → World → Unit {0} → Type 0
    Over = Ended q holds delivered given_up

    abbrev Attempted : QueueId → World → Option QueuedMail → Type 0
    Attempted = TrySent q holds delivered given_up

    abbrev IsFinished : QueueId → World → Type 0
    IsFinished = Finished q holds delivered given_up

    possible_interval_quiet :
        (w : World) (id : QueueId) (i : ℕ) → Same holds w (possible_interval q w id i).0
    unfolding possible_interval
    possible_interval_quiet w id i p j = elim (Bool-cases (ltb clock.longest i)) [
      | inl e ↦ rw e (quiet.log w _ p j)
      | inr e ↦ rw e refl
    ]

    reschedule-Gives :
        (id : QueueId) (w : World) (b : QueuedMail) (res : World × QueuedMail × Option Error)
        → Same holds w res.0
        → storage.queued_id res.1 ≡ storage.queued_id b
        → Waits holds storage.queued_id id queue w b
        → CallGives
            (Waits holds storage.queued_id id queue)
            (Waits holds storage.queued_id id queue)
            (rescheduled q res)
    reschedule-Gives id w b (w', b', none) same back (names, h) =
        (back ∙ names, Same-Held holds w w' id queue same h)
    reschedule-Gives id w b (w', b', some e) same back (names, h) =
        (back ∙ names, Same-Held holds w w' id queue same h)

    after_drop-RunsTo :
        (fuel : ℕ) (name id : QueueId) (w : World) (v : Option PendingCleanupMail)
        → IsFinished id w
        → Arrives holds storage.pending_id id Place.cleanup w v
        → RunsTo (Safe id) (Over id) (after_drop q fuel name w v)
    unfolding Arrives after_drop RunsTo
    after_drop-RunsTo fuel name id w v finished (pcm, e, names, h) =
        subst (λ v'. RunsTo (Safe id) (Over id) (after_drop q fuel name w v')) (sym e)
          (cleanup-RunsTo q holds delivered given_up storage_law quiet history fuel w pcm id names h
            finished)

    module _ (id : QueueId) (again : World → QueuedMail → Ran World (Unit {0}))
        (goes_on : (w : World) (m : QueuedMail)
          → Waits holds storage.queued_id id queue w m
          → RunsTo (Safe id) (Over id) (again w m)) where
      send_later-RunsTo :
          (fuel : ℕ) (mail : QueuedMail) (this_attempt : ℕ) (r : World × ℕ)
          → Waits holds storage.queued_id id queue r.0 mail
          → RunsTo (Safe id) (Over id) (send_later q again fuel mail this_attempt r)
      unfolding send_later
      send_later-RunsTo fuel mail this_attempt (w, i) wait =
          and_then-RunsTo (Safe id) (Waits holds storage.queued_id id queue) (Over id) again goes_on
            (retry q (reschedule q (next_schedule q this_attempt i)) storage.queued_id fuel 0 w
              mail)
            (retry-RunsTo q (reschedule q (next_schedule q this_attempt i)) storage.queued_id
              (Safe id) (Waits holds storage.queued_id id queue)
              (Waits holds storage.queued_id id queue)
              (λ w' b' wait'.
                reschedule-Gives id w' b'
                  (storage.reschedule w' b' (next_schedule q this_attempt i))
                  (storage_law.reschedule_keeps w' b' _).0 (storage_law.reschedule_keeps w' b' _).1
                  wait')
              (Waits-quiet q holds delivered given_up storage_law quiet history storage.queued_id id
                queue)
              (λ w' b' wait'. inl wait'.1) fuel 0 w mail wait)

      send_or_drop-RunsTo :
          (fuel : ℕ) (mail : QueuedMail) (this_attempt : ℕ) (r : World × Option ℕ)
          → (r.1 ≡ none → IsFinished id r.0)
          → Waits holds storage.queued_id id queue r.0 mail
          → RunsTo (Safe id) (Over id) (send_or_drop q again fuel mail this_attempt r)
      unfolding send_or_drop
      send_or_drop-RunsTo fuel mail this_attempt (w, some i) finished (names, h) =
          send_later-RunsTo fuel mail this_attempt
            (possible_interval q w (storage.queued_id mail) i)
            (
              names,
              Same-Held holds w (possible_interval q w (storage.queued_id mail) i).0 id queue
                  (possible_interval_quiet w (storage.queued_id mail) i) h,
            )
      send_or_drop-RunsTo fuel mail this_attempt (w, none) finished (names, h) =
          and_then-RunsTo (Safe id)
            (λ w' v. Arrives holds storage.pending_id id Place.cleanup w' v × IsFinished id w')
            (Over id) (after_drop q fuel (storage.queued_id mail))
            (λ w' v (arrives, f). after_drop-RunsTo fuel (storage.queued_id mail) id w' v f arrives)
            (retry q storage.drop storage.queued_id fuel 0 w mail)
            (Finished-moves-RunsTo q holds delivered given_up storage_law quiet history
              storage.queued_id queue id storage.drop storage_law.drop_moves (λ w' h'. inl h')
              (Finished-Stays q holds delivered given_up id history).drop fuel w mail names h
              (finished refl))

      after_try_send-RunsTo :
          (fuel : ℕ) (w : World) (v : Option QueuedMail)
          → Attempted id w v
          → RunsTo (Safe id) (Over id) (after_try_send q again fuel w v)
      unfolding after_try_send schedule_again RunsTo
      after_try_send-RunsTo fuel w none ended = ended
      after_try_send-RunsTo fuel w (some m) (names, h) =
          send_or_drop-RunsTo fuel m (clock.now w).1
            (config.next_interval (clock.now w).0 (storage.schedule m))
            (λ e.
              let next = config.next_interval (clock.now w).0 (storage.schedule m) in
              inr (
                subst (given_up next.0) names
                  (history.no_more (clock.now w).0 next.0 m (ap (λ r. (next.0, r)) e))))
            (
              names,
              Same-Held holds (clock.now w).0 _ id queue
                  (quiet.next_interval (clock.now w).0 (storage.schedule m))
                  (Same-Held holds w (clock.now w).0 id queue (quiet.now w) h),
            )

    wait_until_quiet : (w : World) (at : ℕ) → Same holds w (wait_until q (clock.now w) at)
    unfolding wait_until
    wait_until_quiet w at p id = quiet.sleep (clock.now w).0 _ p id ∙ quiet.now w p id

    -- A mail that is in the queue, in no other place, and that `send` takes, is at every moment
    -- waiting in the queue, in flight, or in cleanup; and when `send` has ended, no place holds
    -- it, and in the run the transport has accepted the message that the storage keeps for it, or the
    -- configuration has said that there is to be no other attempt: the history knows so, whatever
    -- history is kept of these answers. The storage does what its documentation says, and nothing
    -- but the storage moves mails.
    pub send-RunsTo :
        (tries fuel : ℕ) (id : QueueId) (w : World) (mail : QueuedMail)
        → storage.queued_id mail ≡ id
        → Held holds w id queue
        → RunsTo (Safe id) (Over id) (send q tries fuel w mail)
    unfolding send RunsTo
    send-RunsTo tries zero id w mail names h = inl h
    send-RunsTo tries (suc fuel) id w mail names h =
        and_then-RunsTo (Safe id) (Attempted id) (Over id)
          (after_try_send q (send q tries fuel) tries)
          (after_try_send-RunsTo id (send q tries fuel)
            (λ w' m wait. send-RunsTo tries fuel id w' m wait.0 wait.1) tries)
          (try_send q tries (wait_until q (clock.now w) (storage.schedule mail).at) mail)
          (try_send-RunsTo q holds delivered given_up storage_law quiet history tries id
            (wait_until q (clock.now w) (storage.schedule mail).at) mail
            (
              names,
              Same-Held holds w (wait_until q (clock.now w) (storage.schedule mail).at) id queue
                  (wait_until_quiet w (storage.schedule mail).at) h,
            ))
