-- ===== src/Fs/Refines/Commit.antt =====
-- smtp-queue-fs/src/lib.rs: what `commit` does to the links.
use kannader.Prelude.{Bool, List, [], ◌∷◌, ◌++◌, Bytes, refl, ◌∙◌}
use kannader.Queue.Types.{ScheduleInfo, MailMetadata, Result, ok, err}
use kannader.Queue.Storage.{queue}
use kannader.Fs.System.{FileSystem}
use kannader.Fs.Types.{FsStorage, FsEnqueuer, FsQueuedMail, Error}
use kannader.Fs.Enqueue.{Destination, name_destinations, with_mail, after_make, make_dest_dirs}
use kannader.Fs.Laws.{folder, SameLinks, IsFileSystem, IsApart}
use kannader.Fs.Refines.Dest.{
  IsUuid, AreUuids, AreUuids-append, Outcome, KeepsLinks, IsCommitted, IsCommitted-IsOther,
  IsCommitted-KeepsLinks, IsEnqueuer, Made, make_dest_dir-Outcome, give_up-Keeps,
}

-- The schedules of the destinations.
abbrev pub schedules : {A : Type 0} → List (A × ScheduleInfo) → List ScheduleInfo
schedules [] = []
schedules ((a, s) ∷ ds) = s ∷ schedules ds

module _ {World U : Type 0} (fs : FileSystem World U) (stor : FsStorage fs)
    (linked : World → fs.Dir → Bytes → Bool) (law : IsFileSystem fs linked)
    (apart : IsApart fs linked stor) where
  open fs use {IoError}

  abbrev pub named_schedules : List (Destination fs) → List ScheduleInfo
  named_schedules [] = []
  named_schedules ((dest_id, m, s) ∷ ds) = s ∷ named_schedules ds

  -- The destinations have names that `Uuid::new_v4` can give.
  unfoldable pub AreNamed : List (Destination fs) → Type 0
  AreNamed [] = Unit {0}
  AreNamed ((dest_id, m, s) ∷ ds) = IsUuid fs stor linked law apart dest_id × AreNamed ds

  pub name_destinations-AreNamed :
      (ds : List (MailMetadata U × ScheduleInfo)) (w : World)
      → AreNamed (name_destinations fs w ds).1
  unfolding name_destinations AreNamed
  name_destinations-AreNamed [] w = tt
  name_destinations-AreNamed ((m, s) ∷ ds) w =
      ((w, refl), name_destinations-AreNamed ds (fs.new_uuid w).0)

  module _ (self : FsEnqueuer fs) (is_enqueuer : IsEnqueuer fs stor linked law apart self) where
    with_mail-Outcome :
        (w0 w : World) (s : ScheduleInfo) (ss : List ScheduleInfo) (m : FsQueuedMail)
        (r : World × Result (List FsQueuedMail) (Error fs))
        → Made fs stor linked law apart w0 s w m
        → Outcome
            (KeepsLinks fs stor linked law apart w)
            (λ w' ms.
              IsCommitted fs stor linked law apart w w' ss ms
              × KeepsLinks fs stor linked law apart w w')
            r
        → Outcome
            (KeepsLinks fs stor linked law apart w0)
            (λ w' ms.
              IsCommitted fs stor linked law apart w0 w' (s ∷ ss) ms
              × KeepsLinks fs stor linked law apart w0 w')
            (with_mail fs self m r)
    unfolding with_mail Outcome IsCommitted folder
    with_mail-Outcome w0 w s ss m (w', ok ms) (same, free, there, k) (c, k') = (
      (
        same,
        free,
        k' queue m.id there,
        IsCommitted-IsOther fs stor linked law apart w w' m.id ss ms there c,
        IsCommitted-KeepsLinks fs stor linked law apart w0 w w' ss ms k c,
      ),
      λ p id h. k' p id (k p id h),
    )
    with_mail-Outcome w0 w s ss m (w', err e) (same, free, there, k) k' =
        λ p id h. k' p id (k p id h)

    after_make-Outcome :
        (made : List Bytes) (ss : List ScheduleInfo) (s : ScheduleInfo) (w : World)
        (go_on : World → World × Result (List FsQueuedMail) (Error fs))
        (r : World × Result FsQueuedMail (Error fs))
        → AreUuids fs stor linked law apart made
        → ((w1 : World)
            → Outcome
                (KeepsLinks fs stor linked law apart w1)
                (λ w' ms.
                  IsCommitted fs stor linked law apart w1 w' ss ms
                  × KeepsLinks fs stor linked law apart w1 w')
                (go_on w1))
        → Outcome (KeepsLinks fs stor linked law apart w) (Made fs stor linked law apart w s) r
        → Outcome
            (KeepsLinks fs stor linked law apart w)
            (λ w' ms.
              IsCommitted fs stor linked law apart w w' (s ∷ ss) ms
              × KeepsLinks fs stor linked law apart w w')
            (after_make fs self go_on made r)
    unfolding after_make Outcome
    after_make-Outcome made ss s w go_on (w1, err e) us rest k =
        give_up-Keeps fs stor linked law apart w self is_enqueuer made w1 e us k
    after_make-Outcome made ss s w go_on (w1, ok m) us rest is_made =
        with_mail-Outcome w w1 s ss m (go_on w1) is_made (rest w1)

    pub make_dest_dirs-Outcome :
        (made : List Bytes) (ds : List (Destination fs)) (w : World)
        → AreUuids fs stor linked law apart made
        → AreNamed ds
        → Outcome
            (KeepsLinks fs stor linked law apart w)
            (λ w' ms.
              IsCommitted fs stor linked law apart w w' (named_schedules ds) ms
              × KeepsLinks fs stor linked law apart w w')
            (make_dest_dirs fs self made ds w)
    unfolding make_dest_dirs Outcome IsCommitted AreNamed
    make_dest_dirs-Outcome made [] w us ns = (tt, λ p id h. h)
    make_dest_dirs-Outcome made ((dest_id, m, s) ∷ ds) w us (n, ns) =
        after_make-Outcome made (named_schedules ds) s w _ _ us
          (λ w1.
            make_dest_dirs-Outcome (made ++ (dest_id ∷ [])) ds w1
              (AreUuids-append fs stor linked law apart made dest_id us n) ns)
          (make_dest_dir-Outcome fs stor linked law apart w self is_enqueuer w dest_id m s
            (λ p id h. h))

    pub name_destinations-SameLinks :
        (ds : List (MailMetadata U × ScheduleInfo)) (w : World)
        → SameLinks fs linked w (name_destinations fs w ds).0
    unfolding name_destinations
    name_destinations-SameLinks [] w d n = refl
    name_destinations-SameLinks ((m, s) ∷ ds) w d n =
        name_destinations-SameLinks ds (fs.new_uuid w).0 d n ∙ law.new_uuid_keeps w d n

    -- What `commit` promises of its answer.
    unfoldable pub CommitResult :
        World
        → List (MailMetadata U × ScheduleInfo)
        → World × Result (List FsQueuedMail) (Error fs)
        → Type 0
    CommitResult w ds (w', ok ms) =
        IsCommitted fs stor linked law apart w w' (schedules ds) ms
        × KeepsLinks fs stor linked law apart w w'
    CommitResult w ds (w', err e) = KeepsLinks fs stor linked law apart w w'
