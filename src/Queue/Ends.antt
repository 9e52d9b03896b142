-- ===== src/Queue/Ends.antt =====
-- smtp-queue/src/lib.rs: the task of a mail ends.
use mathlib.Core.Path.{subst}
use kannader.Prelude.{ℕ, zero, suc, ◌<◌, Option, none, some, ◌≡◌, refl, sym, ap, ◌∙◌, arith}
use kannader.Queue.Types.{QueueId, ScheduleInfo, TransportFailure, Result, ok, err}
use kannader.Queue.Storage.{Tried, got, failed, QueueImpl}
use kannader.Queue.Tasks
use kannader.Queue.Tasks.{
  Ran, after_try, retry, send_attempt, Read, read_inflight, after_done, after_cancel, after_attempt,
  after_read, after_start, try_send, reschedule, possible_interval, next_schedule, send_later,
  after_drop, send_or_drop, schedule_again, after_try_send, wait_until, send,
}
use kannader.Queue.Runs.{RunsTo, and_then-RunsTo, CallGives}

-- A call that does not fail.
abbrev pub Succeeds : {W V B E : Type 0} → (W → V → Type 0) → W × Tried V B E → Type 0
Succeeds Q r = CallGives (λ w b. ⊥) Q r

abbrev pub Ends : {W A : Type 0} → (W → A → Type 0) → Ran W A → Type 0
Ends Q r = RunsTo (λ w. ⊥) Q r

module _ {U : Type 0} (q : QueueImpl U) where
  open q use {World, storage, config, transport, clock}
  open storage use {Error, QueuedMail, InflightMail, PendingCleanupMail, Reader}

  -- The storage does not fail, and keeps the schedule of a mail: `inflight_schedule` is what it keeps
  -- while the mail is in flight.
  pub record IsReliable (inflight_schedule : InflightMail → ScheduleInfo) : Type 0 where
    pub send_start :
        (w : World) (m : QueuedMail)
        → Succeeds
            (λ w' v. (i : InflightMail) → v ≡ some i → inflight_schedule i ≡ storage.schedule m)
            (storage.send_start w m)
    pub send_cancel :
        (w : World) (i : InflightMail)
        → Succeeds
            (λ w' v. (m : QueuedMail) → v ≡ some m → storage.schedule m ≡ inflight_schedule i)
            (storage.send_cancel w i)
    pub send_done :
        (w : World) (i : InflightMail) → Succeeds (λ w' v. Unit {0}) (storage.send_done w i)
    pub drop : (w : World) (m : QueuedMail) → Succeeds (λ w' v. Unit {0}) (storage.drop w m)
    pub cleanup :
        (w : World) (m : PendingCleanupMail) → Succeeds (λ w' v. Unit {0}) (storage.cleanup w m)
    pub read_inflight :
        (w : World) (i : InflightMail)
        → Succeeds (λ w' (j, meta, reader). j ≡ i) (read_inflight q w i)
    pub reschedule :
        (w : World) (m : QueuedMail) (s : ScheduleInfo)
        → Succeeds (λ w' m'. storage.schedule m' ≡ s) (reschedule q s w m)

  module _ {V B : Type 0} (call : World → B → World × Tried V B Error) (id : B → QueueId)
      (Q : World → V → Type 0) where
    after_try-Ends :
        (again : ℕ → World → B → Ran World V) (d : ℕ) (r : World × Tried V B Error)
        → Succeeds Q r
        → Ends Q (after_try q id again d r)
    unfolding after_try RunsTo
    after_try-Ends again d (w, got v) s = s
    after_try-Ends again d (w, failed b e) s = absurd s

    retry-Ends :
        (tries d : ℕ) (w : World) (b : B)
        → Succeeds Q (call w b)
        → Ends Q (retry q call id (suc tries) d w b)
    unfolding retry
    retry-Ends tries d w b s = after_try-Ends (retry q call id tries) d (call w b) s

  module _ (inflight_schedule : InflightMail → ScheduleInfo)
      (reliable : IsReliable inflight_schedule) where
    cleanup-Ends :
        (tries : ℕ) (w : World) (m : PendingCleanupMail)
        → Ends (λ w' u. Unit {0}) (Tasks.cleanup q (suc tries) w m)
    unfolding Tasks.cleanup Tasks.after_cleanup RunsTo
    cleanup-Ends tries w m =
        and_then-RunsTo (λ w'. ⊥) (λ w' v. Unit {0}) (λ w' u. Unit {0}) _ (λ w' v t. tt)
          (retry q storage.cleanup storage.pending_id (suc tries) 0 w m)
          (retry-Ends storage.cleanup storage.pending_id (λ w' v. Unit {0}) tries 0 w m
            (reliable.cleanup w m))

    -- The mail that is to be sent again has its schedule.
    abbrev Waits : ScheduleInfo → World → Option QueuedMail → Type 0
    Waits s w v = (m : QueuedMail) → v ≡ some m → storage.schedule m ≡ s

    after_done-Ends :
        (tries : ℕ) (id : QueueId) (s : ScheduleInfo) (w : World) (v : Option PendingCleanupMail)
        → Ends (Waits s) (after_done q (suc tries) id w v)
    unfolding after_done RunsTo
    after_done-Ends tries id s w none = λ m e. absurd (ground arith)
    after_done-Ends tries id s w (some pcm) =
        and_then-RunsTo (λ w'. ⊥) (λ w' u. Unit {0}) (Waits s) _
          (λ w' u t m e. absurd (ground arith)) (Tasks.cleanup q (suc tries) w pcm)
          (cleanup-Ends tries w pcm)

    after_cancel-Ends :
        (id : QueueId) (s : ScheduleInfo) (w : World) (v : Option QueuedMail)
        → Waits s w v
        → Ends (Waits s) (after_cancel q id w v)
    unfolding after_cancel RunsTo
    after_cancel-Ends id s w none h = λ m e. absurd (ground arith)
    after_cancel-Ends id s w (some m) h = h

    after_attempt-Ends :
        (tries : ℕ) (id : QueueId) (s : ScheduleInfo) (i : InflightMail)
        (res : World × Result (Unit {0}) TransportFailure)
        → inflight_schedule i ≡ s
        → Ends (Waits s) (after_attempt q (suc tries) id i res)
    unfolding after_attempt
    after_attempt-Ends tries id s i (w, ok u) same =
        and_then-RunsTo (λ w'. ⊥) (λ w' v. Unit {0}) (Waits s) (after_done q (suc tries) id)
          (λ w' v t. after_done-Ends tries id s w' v)
          (retry q storage.send_done storage.inflight_id (suc tries) 0 w i)
          (retry-Ends storage.send_done storage.inflight_id (λ w' v. Unit {0}) tries 0 w i
            (reliable.send_done w i))
    after_attempt-Ends tries id s i (w, err e) same =
        and_then-RunsTo (λ w'. ⊥) (Waits (inflight_schedule i)) (Waits s) _
          (λ w' v h. after_cancel-Ends _ s w' v (λ m e'. h m e' ∙ same))
          (retry q storage.send_cancel storage.inflight_id (suc tries) 0 w i)
          (retry-Ends storage.send_cancel storage.inflight_id (Waits (inflight_schedule i)) tries 0
            w i (reliable.send_cancel w i))

    abbrev IsOf : InflightMail → World → Read q → Type 0
    IsOf i w (j, meta, reader) = j ≡ i

    after_read-Ends :
        (tries : ℕ) (id : QueueId) (s : ScheduleInfo) (i : InflightMail) (w : World) (r : Read q)
        → inflight_schedule i ≡ s
        → IsOf i w r
        → Ends (Waits s) (after_read q (suc tries) id w r)
    unfolding after_read
    after_read-Ends tries id s i w (j, meta, reader) same e =
        after_attempt-Ends tries id s j (send_attempt q w meta reader)
          (ap inflight_schedule e ∙ same)

    after_start-Ends :
        (tries : ℕ) (id : QueueId) (s : ScheduleInfo) (w : World) (v : Option InflightMail)
        → ((i : InflightMail) → v ≡ some i → inflight_schedule i ≡ s)
        → Ends (Waits s) (after_start q (suc tries) id w v)
    unfolding after_start RunsTo
    after_start-Ends tries id s w none h = λ m e. absurd (ground arith)
    after_start-Ends tries id s w (some i) h =
        and_then-RunsTo (λ w'. ⊥) (IsOf i) (Waits s) (after_read q (suc tries) id)
          (λ w' r is_of. after_read-Ends tries id s i w' r (h i refl) is_of)
          (retry q (read_inflight q) storage.inflight_id (suc tries) 0 w i)
          (retry-Ends (read_inflight q) storage.inflight_id (IsOf i) tries 0 w i
            (reliable.read_inflight w i))

    try_send-Ends :
        (tries : ℕ) (w : World) (mail : QueuedMail)
        → Ends (Waits (storage.schedule mail)) (try_send q (suc tries) w mail)
    unfolding try_send
    try_send-Ends tries w mail =
        and_then-RunsTo (λ w'. ⊥)
          (λ w' v. (i : InflightMail) → v ≡ some i → inflight_schedule i ≡ storage.schedule mail)
          (Waits (storage.schedule mail)) _
          (λ w' v h. after_start-Ends tries _ (storage.schedule mail) w' v h)
          (retry q storage.send_start storage.queued_id (suc tries) 0 w mail)
          (retry-Ends storage.send_start storage.queued_id _ tries 0 w mail
            (reliable.send_start w mail))

    abbrev pub Over : World → Unit {0} → Type 0
    Over w u = Unit {0}

    after_drop-Ends :
        (tries : ℕ) (id : QueueId) (w : World) (v : Option PendingCleanupMail)
        → Ends Over (after_drop q (suc tries) id w v)
    unfolding after_drop RunsTo
    after_drop-Ends tries id w none = tt
    after_drop-Ends tries id w (some pcm) = cleanup-Ends tries w pcm

    module _ (again : World → QueuedMail → Ran World (Unit {0})) where
      send_later-Ends :
          (tries : ℕ) (mail : QueuedMail) (t : ℕ) (r : World × ℕ)
          → ((w : World) (m : QueuedMail)
              → storage.schedule m ≡ next_schedule q t r.1
              → Ends Over (again w m))
          → Ends Over (send_later q again (suc tries) mail t r)
      unfolding send_later
      send_later-Ends tries mail t (w, i) goes_on =
          and_then-RunsTo (λ w'. ⊥) (λ w' m. storage.schedule m ≡ next_schedule q t i) Over again
            goes_on
            (retry q (reschedule q (next_schedule q t i)) storage.queued_id (suc tries) 0 w mail)
            (retry-Ends (reschedule q (next_schedule q t i)) storage.queued_id _ tries 0 w mail
              (reliable.reschedule w mail (next_schedule q t i)))

      send_or_drop-Ends :
          (tries : ℕ) (mail : QueuedMail) (t : ℕ) (r : World × Option ℕ)
          → ((i : ℕ)
              → r.1 ≡ some i
              → (w : World) (m : QueuedMail)
              → storage.schedule m
                ≡ next_schedule q t (possible_interval q r.0 (storage.queued_id mail) i).1
              → Ends Over (again w m))
          → Ends Over (send_or_drop q again (suc tries) mail t r)
      unfolding send_or_drop
      send_or_drop-Ends tries mail t (w, some i) goes_on =
          send_later-Ends tries mail t (possible_interval q w (storage.queued_id mail) i)
            (goes_on i refl)
      send_or_drop-Ends tries mail t (w, none) goes_on =
          and_then-RunsTo (λ w'. ⊥) (λ w' v. Unit {0}) Over _
            (λ w' v h. after_drop-Ends tries _ w' v)
            (retry q storage.drop storage.queued_id (suc tries) 0 w mail)
            (retry-Ends storage.drop storage.queued_id (λ w' v. Unit {0}) tries 0 w mail
              (reliable.drop w mail))

    -- The configuration puts off a mail only so often: `left` says how often from a schedule on.
    module _ (left : ScheduleInfo → ℕ)
        (counts : (w : World) (id : QueueId) (s : ScheduleInfo) (i t : ℕ)
          → (config.next_interval w s).1 ≡ some i
          → left (next_schedule q t (possible_interval q (config.next_interval w s).0 id i).1)
            < left s) where
      after_try_send-Ends :
          (again : World → QueuedMail → Ran World (Unit {0})) (tries : ℕ) (s : ScheduleInfo)
          (w : World) (v : Option QueuedMail)
          → Waits s w v
          → ((w' : World) (m : QueuedMail)
              → left (storage.schedule m) < left s
              → Ends Over (again w' m))
          → Ends Over (after_try_send q again (suc tries) w v)
      unfolding after_try_send schedule_again RunsTo
      after_try_send-Ends again tries s w none waits goes_on = tt
      after_try_send-Ends again tries s w (some m) waits goes_on =
          send_or_drop-Ends again tries m (clock.now w).1
            (config.next_interval (clock.now w).0 (storage.schedule m))
            (λ i e w' m' same. goes_on w' m' (
              subst (λ x. left (storage.schedule m') < left x) (waits m refl)
                (subst (λ x. left x < left (storage.schedule m)) (sym same)
                  (counts (clock.now w).0 (storage.queued_id m) (storage.schedule m) i
                    (clock.now w).1 e))))

      -- The task of a mail ends, after as many rounds as the mail can be put off and one more, if the
      -- storage does not fail and keeps the schedules, and the configuration puts off a mail only so
      -- often, whatever the transport answers.
      pub send-Ends :
          (tries fuel : ℕ) (w : World) (mail : QueuedMail)
          → left (storage.schedule mail) < fuel
          → Ends Over (send q (suc tries) fuel w mail)
      unfolding send
      send-Ends tries zero w mail h = absurd (omega arith)
      send-Ends tries (suc fuel) w mail h =
          and_then-RunsTo (λ w'. ⊥) (Waits (storage.schedule mail)) Over _
            (λ w' v waits.
              after_try_send-Ends (send q (suc tries) fuel) tries (storage.schedule mail) w' v waits
                (λ w'' m less. send-Ends tries fuel w'' m (omega arith)))
            (try_send q (suc tries) (wait_until q (clock.now w) (storage.schedule mail).at) mail)
            (try_send-Ends tries (wait_until q (clock.now w) (storage.schedule mail).at) mail)
