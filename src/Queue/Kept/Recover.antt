-- ===== src/Queue/Kept/Recover.antt =====
-- smtp-queue/src/lib.rs: a mail that a crash has left in flight is not lost.
use mathlib.Core.Path.{subst}
use kannader.Prelude.{ℕ, Bool, Option, ◌≡◌, sym, inl, inr}
use kannader.Queue.Types.{QueueId}
use kannader.Queue.Storage.{QueueImpl, Place, queue, inflight, IsStorage}
use kannader.Queue.Tasks.{retry}
use kannader.Queue.Scan.{after_check, recover}
use kannader.Queue.Runs.{RunsTo, and_then-RunsTo}
use kannader.Queue.Kept.Places.{Held, Same-Held, Arrives}
use kannader.Queue.Kept.Steps.{IsHistory, Kept, Ended, IsQuiet, moves-RunsTo}
use kannader.Queue.Kept.Send.{send-RunsTo}

module _ {U : Type 0} (q : QueueImpl U) (holds : q.World → Place → QueueId → Bool)
    (storage_law : IsStorage holds q.storage) (quiet : IsQuiet q holds)
    (delivered given_up : q.World → QueueId → Type 0)
    (history : IsHistory q holds delivered given_up) where
  open q use {World, storage, config, clock}
  open storage use {QueuedMail, InflightMail}

  after_check-RunsTo :
      (tries fuel : ℕ) (id : QueueId) (w : World) (v : Option QueuedMail)
      → Arrives holds storage.queued_id id queue w v
      → RunsTo
          (Kept q holds delivered given_up id)
          (Ended q holds delivered given_up id)
          (after_check q tries fuel w v)
  unfolding Arrives after_check
  after_check-RunsTo tries fuel id w v (m, e, names, h) =
      subst
        (λ v'.
          RunsTo (Kept q holds delivered given_up id) (Ended q holds delivered given_up id)
            (after_check q tries fuel w v'))
        (sym e)
        (send-RunsTo q holds delivered given_up storage_law quiet history tries fuel id w m names h)

  -- A mail that is in flight and in no other place when the queue starts, and that the task of
  -- `scan_inflight` takes, is at every moment in flight, waiting, or in cleanup; and when the task
  -- has ended, no place holds it, and in the run the transport has accepted the message that the
  -- storage keeps for it, or the configuration has said that there is to be no other attempt: the
  -- history knows so, whatever history is kept of these answers. The storage does what its
  -- documentation says, and nothing but the storage moves mails.
  pub recover-RunsTo :
      (tries fuel : ℕ) (id : QueueId) (w : World) (mail : InflightMail)
      → storage.inflight_id mail ≡ id
      → Held holds w id inflight
      → RunsTo
          (Kept q holds delivered given_up id)
          (Ended q holds delivered given_up id)
          (recover q tries fuel w mail)
  unfolding recover
  recover-RunsTo tries fuel id w mail names h =
      let w' = clock.sleep w config.found_inflight_check_delay in
      and_then-RunsTo (Kept q holds delivered given_up id)
        (Arrives holds storage.queued_id id queue) (Ended q holds delivered given_up id)
        (after_check q tries fuel) (after_check-RunsTo tries fuel id)
        (retry q storage.send_cancel storage.inflight_id tries 0 w' mail)
        (moves-RunsTo q holds delivered given_up storage_law quiet history storage.queued_id
          storage.inflight_id inflight queue id storage.send_cancel storage_law.send_cancel_moves
          (λ w1 h1. inr (inl h1)) tries w' mail names
          (Same-Held holds w w' id inflight (quiet.sleep w _) h))
