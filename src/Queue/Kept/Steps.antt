-- ===== src/Queue/Kept/Steps.antt =====
-- smtp-queue/src/lib.rs: what one storage call, tried until it succeeds, does to the place of a mail.
use mathlib.Core.Path.{subst}
use kannader.Prelude.{
  Option, ℕ, Bool, true, false, none, some, ◌≡◌, refl, sym, ap, ◌∙◌, ◌⊎◌, inl, inr, if◌then◌else◌,
}
use kannader.Queue.Types.{QueueId, ScheduleInfo, MailMetadata, ok}
use kannader.Queue.Storage.{
  Tried, got, failed, Moved, Event, QueueImpl, Place, queue, inflight, Same, Moves, Removes,
  MoveLaw, CleanupLaw, IsStorage,
}
use kannader.Queue.Tasks
use kannader.Queue.Tasks.{retry, after_cleanup, send_attempt, read_inflight, send}
use kannader.Queue.Runs.{
  RunsTo, and_then-RunsTo, RunsTo-map, RunsTo-and, CallGives, retry-RunsTo, retry-keeps,
}
use kannader.Queue.Kept.Places.{
  Held, Gone, Same-Held, Moves-Held, Removes-Gone, not_vanished, Arrives, Waits,
}

module _ {U : Type 0} (q : QueueImpl U) (holds : q.World → Place → QueueId → Bool) where
  open q use {World, storage, config, transport, clock}
  open storage use {Error, QueuedMail, InflightMail, PendingCleanupMail, Reader}

  -- The calls that are not the storage's move no mail.
  pub record IsQuiet : Type 0 where
    pub log : (w : World) (e : Event Error) → Same holds w (config.log w e)
    pub sleep : (w : World) (d : ℕ) → Same holds w (clock.sleep w d)
    pub now : (w : World) → Same holds w (clock.now w).0
    pub next_interval : (w : World) (s : ScheduleInfo) → Same holds w (config.next_interval w s).0
    pub destination : (w : World) (m : MailMetadata U) → Same holds w (transport.destination w m).0
    pub connect : (w : World) (d : transport.Destination) → Same holds w (transport.connect w d).0
    pub send :
        (w : World) (s : transport.Sender) (m : MailMetadata U) (r : Reader)
        → Same holds w (transport.send w s m r).0

  -- What stays true of the world once a mail is finished.
  pub record Stays (F : World → Type 0) : Type 0 where
    pub log : (w : World) (e : Event Error) → F w → F (config.log w e)
    pub sleep : (w : World) (d : ℕ) → F w → F (clock.sleep w d)
    pub send_done : (w : World) (i : InflightMail) → F w → F (storage.send_done w i).0
    pub drop : (w : World) (m : QueuedMail) → F w → F (storage.drop w m).0
    pub cleanup : (w : World) (m : PendingCleanupMail) → F w → F (storage.cleanup w m).0

  module _ (delivered given_up : World → QueueId → Type 0) where
    -- The history of the mails, as far as it is known that the transport has just accepted the
    -- message that the storage keeps for a mail, or that the configuration has just said that there
    -- is to be no other attempt.
    pub record IsHistory : Type 0 where
      pub accepted :
          (w w1 w2 : World) (i : InflightMail) (meta : MailMetadata U) (reader : Reader)
          → storage.read_inflight w i ≡ (w1, ok (meta, reader))
          → send_attempt q w1 meta reader ≡ (w2, ok tt)
          → delivered w2 (storage.inflight_id i)
      pub no_more :
          (w w1 : World) (m : QueuedMail)
          → config.next_interval w (storage.schedule m) ≡ (w1, none)
          → given_up w1 (storage.queued_id m)
      pub delivered_stays : (id : QueueId) → Stays (λ w. delivered w id)
      pub given_up_stays : (id : QueueId) → Stays (λ w. given_up w id)

    abbrev pub Finished : QueueId → World → Type 0
    Finished id w = delivered w id ⊎ given_up w id

    pub Finished-Stays : (id : QueueId) → IsHistory → Stays (Finished id)
    Finished-Stays id h = record {
      log = λ w e f. elim f [
        | inl x ↦ inl ((h.delivered_stays id).log w e x)
        | inr x ↦ inr ((h.given_up_stays id).log w e x)
      ];
      sleep = λ w d f. elim f [
        | inl x ↦ inl ((h.delivered_stays id).sleep w d x)
        | inr x ↦ inr ((h.given_up_stays id).sleep w d x)
      ];
      send_done = λ w i f. elim f [
        | inl x ↦ inl ((h.delivered_stays id).send_done w i x)
        | inr x ↦ inr ((h.given_up_stays id).send_done w i x)
      ];
      drop = λ w m f. elim f [
        | inl x ↦ inl ((h.delivered_stays id).drop w m x)
        | inr x ↦ inr ((h.given_up_stays id).drop w m x)
      ];
      cleanup = λ w m f. elim f [
        | inl x ↦ inl ((h.delivered_stays id).cleanup w m x)
        | inr x ↦ inr ((h.given_up_stays id).cleanup w m x)
      ];
    }

    -- At every moment the mail is waiting, or being sent, or finished and about to be removed.
    abbrev pub Kept : QueueId → World → Type 0
    Kept id w =
        Held holds w id queue
        ⊎ (Held holds w id inflight ⊎ (Finished id w × Held holds w id Place.cleanup))

    -- The end of a mail.
    abbrev pub Ended : QueueId → World → Unit {0} → Type 0
    Ended id w u = Finished id w × Gone holds w id

    -- What one attempt gives: the mail has ended, or it waits again.
    abbrev pub TrySent : QueueId → World → Option QueuedMail → Type 0
    TrySent id w none = Ended id w tt
    TrySent id w (some m) = Waits holds storage.queued_id id queue w m

    module _ (storage_law : IsStorage holds storage) (quiet : IsQuiet) (history : IsHistory) where
      pub Waits-quiet :
          {B : Type 0} (b_id : B → QueueId) (id : QueueId) (p : Place) (w : World) (b : B)
          (e : Event Error) (d : ℕ)
          → Waits holds b_id id p w b
          → Waits holds b_id id p (clock.sleep (config.log w e) d) b
      Waits-quiet b_id id p w b e d (names, h) = (
        names,
        Same-Held holds (config.log w e) (clock.sleep (config.log w e) d) id p
            (quiet.sleep (config.log w e) d)
            (Same-Held holds w (config.log w e) id p (quiet.log w e) h),
      )

      module _ {A B : Type 0} (a_id : A → QueueId) (b_id : B → QueueId) (p r : Place)
          (id : QueueId) where
        move-Gives :
            (w : World) (b : B) (res : World × Moved A B Error)
            → MoveLaw holds a_id b_id p r w b res
            → Waits holds b_id id p w b
            → CallGives (Waits holds b_id id p) (Arrives holds a_id id r) res
        unfolding MoveLaw Arrives
        move-Gives w b (w', got (some a)) (moves, same) (names, h) = (
          a,
          refl,
          same ∙ names,
          Moves-Held holds w w' id p r (subst (λ j. Moves holds w w' p r j) names moves) h,
        )
        move-Gives w b (w', got none) (same, gone) (names, h) =
            not_vanished holds w id p h (ap (λ j. holds w p j) (sym names) ∙ gone)
        move-Gives w b (w', failed b' e) (same, back) (names, h) =
            (ap b_id back ∙ names, Same-Held holds w w' id p same h)

        -- A loop of tries of a move ends with the mail at its new place.
        pub moves-RunsTo :
            (call : World → B → World × Moved A B Error)
            → ((w : World) (b : B) → MoveLaw holds a_id b_id p r w b (call w b))
            → ((w : World) → Held holds w id p → Kept id w)
            → (fuel : ℕ) (w : World) (b : B) → b_id b ≡ id
            → Held holds w id p
            → RunsTo (Kept id) (Arrives holds a_id id r) (retry q call b_id fuel 0 w b)
        moves-RunsTo call law keep fuel w b names h =
            retry-RunsTo q call b_id (Kept id) (Waits holds b_id id p) (Arrives holds a_id id r)
              (λ w' b' wait. move-Gives w' b' (call w' b') (law w' b') wait) (Waits-quiet b_id id p)
              (λ w' b' wait. keep w' wait.1) fuel 0 w b (names, h)

      log_if :
          (b : Bool) (w : World) (e : Event Error) (id : QueueId)
          → Gone holds w id
          → Gone holds (if b then w else config.log w e) id
      unfolding Gone
      log_if true w e id g r = g r
      log_if false w e id g r = quiet.log w e r id ∙ g r

      cleanup-Gives :
          (id : QueueId) (w : World) (b : PendingCleanupMail)
          (res : World × Tried Bool PendingCleanupMail Error)
          → CleanupLaw holds storage.pending_id w b res
          → Waits holds storage.pending_id id Place.cleanup w b
          → CallGives
              (Waits holds storage.pending_id id Place.cleanup)
              (λ w' v. Gone holds w' id)
              res
      unfolding CleanupLaw
      cleanup-Gives id w b (w', got v) (removes, was) (names, h) =
          Removes-Gone holds w w' id (subst (λ j. Removes holds w w' j) names removes) h
      cleanup-Gives id w b (w', failed b' e) (same, back) (names, h) =
          (ap storage.pending_id back ∙ names, Same-Held holds w w' id Place.cleanup same h)

      log_if-Stays :
          (b : Bool) (w : World) (e : Event Error) (F : World → Type 0)
          → Stays F
          → F w
          → F (if b then w else config.log w e)
      log_if-Stays true w e F stays f = f
      log_if-Stays false w e F stays f = stays.log w e f

      pub cleanup-RunsTo :
          (fuel : ℕ) (w : World) (pcm : PendingCleanupMail) (id : QueueId)
          → storage.pending_id pcm ≡ id
          → Held holds w id Place.cleanup
          → Finished id w
          → RunsTo (Kept id) (Ended id) (Tasks.cleanup q fuel w pcm)
      unfolding Tasks.cleanup after_cleanup RunsTo
      cleanup-RunsTo fuel w pcm id names h finished =
          let stays = Finished-Stays id history in
          and_then-RunsTo (Kept id) (λ w' v. Gone holds w' id × Finished id w') (Ended id)
            (after_cleanup q (storage.pending_id pcm))
            (λ w' v (g, f). (log_if-Stays v w' _ (Finished id) stays f, log_if v w' _ id g))
            (retry q storage.cleanup storage.pending_id fuel 0 w pcm)
            (RunsTo-map (λ w'. Held holds w' id Place.cleanup × Finished id w') (Kept id)
              (λ w' v. Gone holds w' id × Finished id w')
              (λ w' v. Gone holds w' id × Finished id w') (λ w' (h', f). inr (inr (f, h')))
              (λ w' v x. x) (retry q storage.cleanup storage.pending_id fuel 0 w pcm)
              (RunsTo-and (λ w'. Held holds w' id Place.cleanup) (Finished id)
                (λ w' v. Gone holds w' id) (λ w' v. Finished id w')
                (retry q storage.cleanup storage.pending_id fuel 0 w pcm)
                (retry-RunsTo q storage.cleanup storage.pending_id
                  (λ w'. Held holds w' id Place.cleanup)
                  (Waits holds storage.pending_id id Place.cleanup) (λ w' v. Gone holds w' id)
                  (λ w' b' wait.
                    cleanup-Gives id w' b' (storage.cleanup w' b')
                      (storage_law.cleanup_removes w' b') wait)
                  (Waits-quiet storage.pending_id id Place.cleanup) (λ w' b' wait. wait.1) fuel 0 w
                  pcm (names, h))
                (retry-keeps q storage.cleanup storage.pending_id (Finished id) stays.cleanup
                  (λ w' e d f. stays.sleep _ d (stays.log w' e f)) fuel 0 w pcm finished)))

      -- A move whose mail is finished ends with the mail at its new place, finished.
      pub Finished-moves-RunsTo :
          {B : Type 0} (b_id : B → QueueId) (p : Place) (id : QueueId)
          (call : World → B → World × Moved PendingCleanupMail B Error)
          → ((w : World) (b : B)
              → MoveLaw holds storage.pending_id b_id p Place.cleanup w b (call w b))
          → ((w : World) → Held holds w id p → Kept id w)
          → ((w : World) (b : B) → Finished id w → Finished id (call w b).0)
          → (fuel : ℕ) (w : World) (b : B) → b_id b ≡ id
          → Held holds w id p
          → Finished id w
          → RunsTo
              (Kept id)
              (λ w' v. Arrives holds storage.pending_id id Place.cleanup w' v × Finished id w')
              (retry q call b_id fuel 0 w b)
      Finished-moves-RunsTo b_id p id call law keep step fuel w b names h finished =
          let stays = Finished-Stays id history in
          RunsTo-map (λ w'. Kept id w' × Finished id w') (Kept id)
            (λ w' v. Arrives holds storage.pending_id id Place.cleanup w' v × Finished id w')
            (λ w' v. Arrives holds storage.pending_id id Place.cleanup w' v × Finished id w')
            (λ w' (k, f). k) (λ w' v x. x) (retry q call b_id fuel 0 w b)
            (RunsTo-and (Kept id) (Finished id)
              (λ w' v. Arrives holds storage.pending_id id Place.cleanup w' v)
              (λ w' v. Finished id w') (retry q call b_id fuel 0 w b)
              (moves-RunsTo storage.pending_id b_id p Place.cleanup id call law keep fuel w b names
                h)
              (retry-keeps q call b_id (Finished id) step
                (λ w' e d f. stays.sleep _ d (stays.log w' e f)) fuel 0 w b finished))
