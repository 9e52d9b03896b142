-- ===== src/Fs/Refines/Dest.antt =====
-- smtp-queue-fs/src/lib.rs: what the making of one destination, and the cleaning up, do to the links.
use kannader.Prelude.{
  Bool, true, false, Bool-cases, inl, inr, arith, List, [], ◌∷◌, ◌++◌, Bytes, ◌≡◌, ◌≢◌, refl, sym,
  ap, ◌∙◌,
}
use kannader.Queue.Types.{QueueId, ScheduleInfo, MailMetadata, Result, ok, err}
use kannader.Queue.Storage.{Place, queue}
use kannader.Fs.System.{FileSystem, ◌or_fail◌and◌}
use kannader.Fs.Types.{
  FsStorage, FsEnqueuer, FsQueuedMail, Error, metadata_file, schedule_file, contents_file,
}
use kannader.Fs.Enqueue.{
  link_mail, write_files, make_dest_dir, after_sub_dir, cleanup_dest_dir, cleanup_contents_dir,
  cleanup_dest_dirs, give_up,
}
use kannader.Fs.Laws.{folder, SameLinks, SymlinkLaw, RemoveLaw, IsFileSystem, IsApart}

-- `Q` holds of the world where a call fails, and `R` of the world and the value where it succeeds.
unfoldable pub Outcome :
    {W B E : Type 0} → (W → Type 0) → (W → B → Type 0) → W × Result B E → Type 0
Outcome Q R (w, ok b) = R w b
Outcome Q R (w, err e) = Q w

pub or_fail-Outcome :
    {W A B E E' : Type 0} (Q : W → Type 0) (R : W → B → Type 0) (r : W × Result A E) (f : E → E')
    (g : W → A → W × Result B E')
    → Q r.0
    → ((w : W) (a : A) → r ≡ (w, ok a) → Q w → Outcome Q R (g w a))
    → Outcome Q R (r or_fail f and g)
unfolding Outcome ◌or_fail◌and◌
or_fail-Outcome Q R (w, ok a) f g q h = h w a refl q
or_fail-Outcome Q R (w, err e) f g q h = q

module _ {World U : Type 0} (fs : FileSystem World U) (stor : FsStorage fs)
    (linked : World → fs.Dir → Bytes → Bool) (law : IsFileSystem fs linked)
    (apart : IsApart fs linked stor) where
  open fs use {Dir, File, PathBuf, IoError}

  -- A name that `Uuid::new_v4` can give.
  abbrev pub IsUuid : Bytes → Type 0
  IsUuid d = (w : World) × ((fs.new_uuid w).1 ≡ d)

  unfoldable pub AreUuids : List Bytes → Type 0
  AreUuids [] = Unit {0}
  AreUuids (d ∷ ds) = IsUuid d × AreUuids ds

  pub AreUuids-append :
      (ds : List Bytes) (d : Bytes) → AreUuids ds → IsUuid d → AreUuids (ds ++ (d ∷ []))
  unfolding AreUuids
  AreUuids-append [] d u v = (v, tt)
  AreUuids-append (e ∷ ds) d (u, us) v = (u, AreUuids-append ds d us v)

  -- An enqueuer of this storage, whose folder is not a folder of links, and has none in it under a name
  -- that the storage makes.
  pub record IsEnqueuer (self : FsEnqueuer fs) : Type 0 where
    pub at_queue : self.queue_folder ≡ stor.queue_folder
    pub away : (p : Place) → folder fs stor p ≢ self.mail_dir
    pub below :
        (w w' : World) (dest_id : Bytes) (sub : Dir)
        → IsUuid dest_id
        → fs.sub_dir w self.mail_dir (fs.from dest_id) ≡ (w', ok sub)
        → (p : Place) → folder fs stor p ≢ sub

  -- No link of the three folders has gone.
  abbrev pub KeepsLinks : World → World → Type 0
  KeepsLinks w w' =
      (p : Place) (id : QueueId)
      → linked w (folder fs stor p) id ≡ true
      → linked w' (folder fs stor p) id ≡ true

  -- No other mail has the name.
  unfoldable pub IsOther : QueueId → List FsQueuedMail → Type 0
  IsOther id [] = Unit {0}
  IsOther id (m ∷ ms) = (m.id ≢ id) × IsOther id ms

  -- There is one mail in `queue` for each of the destinations, with its schedule, in their order; its
  -- link was not there in `w0`, and no two of them share one.
  unfoldable pub IsCommitted : World → World → List ScheduleInfo → List FsQueuedMail → Type 0
  IsCommitted w0 w [] [] = Unit {0}
  IsCommitted w0 w [] (m ∷ ms) = ⊥
  IsCommitted w0 w (s ∷ ss) [] = ⊥
  IsCommitted w0 w (s ∷ ss) (m ∷ ms) =
      (m.schedule ≡ s)
      × (linked w0 stor.queue_folder m.id ≡ false)
      × (linked w stor.queue_folder m.id ≡ true)
      × IsOther m.id ms
      × IsCommitted w0 w ss ms

  was_free :
      (w0 w : World) (id : QueueId)
      → KeepsLinks w0 w
      → linked w stor.queue_folder id ≡ false
      → linked w0 stor.queue_folder id ≡ false
  unfolding folder
  was_free w0 w id k free = elim (Bool-cases (linked w0 stor.queue_folder id)) [
    | inl there ↦ let kept = k queue id there in absurd (ground arith)
    | inr e ↦ e
  ]

  pub IsCommitted-IsOther :
      (w1 w : World) (id : QueueId) (ss : List ScheduleInfo) (ms : List FsQueuedMail)
      → linked w1 stor.queue_folder id ≡ true
      → IsCommitted w1 w ss ms
      → IsOther id ms
  unfolding IsCommitted IsOther
  IsCommitted-IsOther w1 w id [] [] there c = tt
  IsCommitted-IsOther w1 w id [] (m ∷ ms) there c = absurd c
  IsCommitted-IsOther w1 w id (s ∷ ss) [] there c = absurd c
  IsCommitted-IsOther w1 w id (s ∷ ss) (m ∷ ms) there (same, free, here, other, c) = (
    λ e.
        let one : linked w1 stor.queue_folder m.id ≡ linked w1 stor.queue_folder id =
          ap (λ n. linked w1 stor.queue_folder n) e in
        let clash : true ≡ false = sym there ∙ (sym one ∙ free) in ground arith,
    IsCommitted-IsOther w1 w id ss ms there c,
  )

  pub IsCommitted-KeepsLinks :
      (w0 w1 w : World) (ss : List ScheduleInfo) (ms : List FsQueuedMail)
      → KeepsLinks w0 w1
      → IsCommitted w1 w ss ms
      → IsCommitted w0 w ss ms
  unfolding IsCommitted
  IsCommitted-KeepsLinks w0 w1 w [] [] k c = c
  IsCommitted-KeepsLinks w0 w1 w [] (m ∷ ms) k c = absurd c
  IsCommitted-KeepsLinks w0 w1 w (s ∷ ss) [] k c = absurd c
  IsCommitted-KeepsLinks w0 w1 w (s ∷ ss) (m ∷ ms) k (same, free, there, other, c) =
      (same, was_free w0 w1 m.id k free, there, other, IsCommitted-KeepsLinks w0 w1 w ss ms k c)

  module _ (w0 : World) where
    abbrev Keeps : World → Type 0
    Keeps w = KeepsLinks w0 w

    pub keeps : (w w' : World) → SameLinks fs linked w w' → Keeps w → Keeps w'
    keeps w w' s k p id h = s (folder fs stor p) id ∙ k p id h

    removes :
        (w : World) (d : Dir) (n : Bytes) (r : World × Result (Unit {0}) IoError)
        → RemoveLaw fs linked w d n r
        → ((p : Place) → folder fs stor p ≢ d)
        → Keeps w
        → Keeps r.0
    unfolding RemoveLaw
    removes w d n (w', ok u) m away k =
        λ p id h. m.other_folders (folder fs stor p) id (away p) ∙ k p id h
    removes w d n (w', err e) (s, gone) away k = keeps w w' s k

    -- No folder in this one is a folder of links.
    abbrev Below : Dir → Type 0
    Below mail_dir =
        (v v' : World) (dest_id : Bytes) (sub : Dir)
        → IsUuid dest_id
        → fs.sub_dir v mail_dir (fs.from dest_id) ≡ (v', ok sub)
        → (p : Place) → folder fs stor p ≢ sub

    after_sub_dir-Keeps :
        (w : World) (mail_dir : Dir) (d : Bytes) (r : World × Result Dir IoError)
        → fs.sub_dir w mail_dir (fs.from d) ≡ r
        → IsUuid d
        → Below mail_dir
        → Keeps r.0
        → Keeps (after_sub_dir fs mail_dir d r)
    unfolding after_sub_dir
    after_sub_dir-Keeps w mail_dir d (w', err e) eq u below k = k
    after_sub_dir-Keeps w mail_dir d (w', ok dest_dir) eq u below k =
        let away = below w w' d dest_dir u eq in
        let w1 = (fs.remove_file w' dest_dir metadata_file).0 in
        keeps _ _ (law.remove_dir_keeps _ mail_dir (fs.from d)) (
          removes w1 dest_dir schedule_file _ (law.remove_file_law w1 dest_dir schedule_file) away (
            removes w' dest_dir metadata_file _ (law.remove_file_law w' dest_dir metadata_file) away
              k))

    cleanup_dest_dirs-Keeps :
        (ds : List Bytes) (w : World) (mail_dir : Dir)
        → AreUuids ds
        → Below mail_dir
        → Keeps w
        → Keeps (cleanup_dest_dirs fs w mail_dir ds)
    unfolding cleanup_dest_dirs cleanup_dest_dir AreUuids
    cleanup_dest_dirs-Keeps [] w mail_dir us below k = k
    cleanup_dest_dirs-Keeps (d ∷ ds) w mail_dir (u, us) below k =
        cleanup_dest_dirs-Keeps ds _ mail_dir us below (
          after_sub_dir-Keeps w mail_dir d (fs.sub_dir w mail_dir (fs.from d)) refl u below
            (keeps w _ (law.sub_dir_keeps w mail_dir (fs.from d)) k))

    pub cleanup_contents_dir-Keeps :
        (self : FsEnqueuer fs) (w : World)
        → IsEnqueuer self
        → Keeps w
        → Keeps (cleanup_contents_dir fs w self.queue_folder self.mail_uuid self.mail_dir)
    unfolding cleanup_contents_dir
    cleanup_contents_dir-Keeps self w e k =
        keeps _ _ (law.remove_dir_keeps _ self.queue_folder (fs.from self.mail_uuid)) (
          removes w self.mail_dir contents_file _
            (law.remove_file_law w self.mail_dir contents_file) e.away k)

    -- The destination has its link.
    abbrev pub Made : ScheduleInfo → World → FsQueuedMail → Type 0
    Made s w m =
        (m.schedule ≡ s)
        × (linked w0 stor.queue_folder m.id ≡ false)
        × (linked w stor.queue_folder m.id ≡ true)
        × Keeps w

    symlink-Outcome :
        (d : Dir) (w : World) (s : ScheduleInfo) (id : Bytes) (f : IoError → Error fs)
        (r : World × Result (Unit {0}) IoError)
        → d ≡ stor.queue_folder
        → SymlinkLaw fs linked w d id r
        → Keeps w
        → Outcome Keeps
            (Made s)
            (r or_fail f and (λ w1 u. (w1, ok (record { id = id; schedule = s }))))
    unfolding Outcome ◌or_fail◌and◌ SymlinkLaw
    symlink-Outcome d w s id f (w', ok u) same m k = (
      refl,
      was_free w0 w id k (ap (λ q. linked w q id) (sym same) ∙ m.was_free),
      ap (λ q. linked w' q id) (sym same) ∙ m.there,
      λ p j h. m.keeps (folder fs stor p) j (k p j h),
    )
    symlink-Outcome d w s id f (w', err e) same m k = keeps w w' m k

    link_mail-Outcome :
        (d : Dir) (uuid dest_id : Bytes) (s : ScheduleInfo) (r : World × Bytes)
        → d ≡ stor.queue_folder
        → Keeps r.0
        → Outcome Keeps (Made s) (link_mail fs d uuid dest_id s r)
    unfolding link_mail
    link_mail-Outcome d uuid dest_id s (w, dest_uuid) same k =
        symlink-Outcome d w s dest_uuid _ (fs.symlink w d dest_uuid _) same
          (law.symlink_law w d dest_uuid _) k

    write_files-Outcome :
        (d : Dir) (path : PathBuf) (m : MailMetadata U) (s : ScheduleInfo) (w : World)
        → Keeps w
        → Outcome Keeps (λ w' u. Keeps w') (write_files fs d path m s w)
    unfolding write_files Outcome
    write_files-Outcome d path m s w k =
        or_fail-Outcome Keeps (λ w' u. Keeps w') (fs.new_file w d schedule_file) _ _
          (keeps w _ (law.new_file_keeps w d schedule_file) k)
          (λ w1 file e1 k1.
            or_fail-Outcome Keeps (λ w' u. Keeps w') (fs.write_schedule w1 file s) _ _
              (keeps w1 _ (law.write_schedule_keeps w1 file s) k1)
              (λ w2 u e2 k2.
                or_fail-Outcome Keeps (λ w' u. Keeps w') (fs.new_file w2 d metadata_file) _ _
                  (keeps w2 _ (law.new_file_keeps w2 d metadata_file) k2)
                  (λ w3 file' e3 k3.
                    or_fail-Outcome Keeps (λ w' u. Keeps w') (fs.write_metadata w3 file' m) _ _
                      (keeps w3 _ (law.write_metadata_keeps w3 file' m) k3) (λ w4 v e4 k4. k4))))

    Outcome-Keeps :
        {A : Type 0} (r : World × Result A (Error fs))
        → Outcome Keeps (λ w' u. Keeps w') r
        → Keeps r.0
    unfolding Outcome
    Outcome-Keeps (w, ok a) k = k
    Outcome-Keeps (w, err e) k = k

    module _ (self : FsEnqueuer fs) (is_enqueuer : IsEnqueuer self) where
      pub make_dest_dir-Outcome :
          (w : World) (dest_id : Bytes) (m : MailMetadata U) (s : ScheduleInfo)
          → Keeps w
          → Outcome Keeps
              (Made s)
              (make_dest_dir fs w self.queue_folder self.mail_uuid self.mail_dir dest_id m s)
      unfolding make_dest_dir
      make_dest_dir-Outcome w dest_id m s k =
          or_fail-Outcome Keeps (Made s) (fs.create_dir w self.mail_dir dest_id) _ _
            (keeps w _ (law.create_dir_keeps w self.mail_dir dest_id) k)
            (λ w1 u e1 k1.
              or_fail-Outcome Keeps (Made s) (fs.sub_dir w1 self.mail_dir (fs.from dest_id)) _ _
                (keeps w1 _ (law.sub_dir_keeps w1 self.mail_dir (fs.from dest_id)) k1)
                (λ w2 d e2 k2.
                  or_fail-Outcome Keeps (Made s) (write_files fs d _ m s w2) (λ e. e) _
                    (Outcome-Keeps _ (write_files-Outcome d _ m s w2 k2))
                    (λ w3 v e3 k3.
                      link_mail-Outcome self.queue_folder self.mail_uuid dest_id s (fs.new_uuid w3)
                        is_enqueuer.at_queue (keeps w3 _ (law.new_uuid_keeps w3) k3))))

      pub give_up-Keeps :
          (made : List Bytes) (w : World) (e : Error fs)
          → AreUuids made
          → Keeps w
          → Keeps (give_up fs self made w e).0
      unfolding give_up
      give_up-Keeps made w e us k =
          cleanup_contents_dir-Keeps self _ is_enqueuer
            (cleanup_dest_dirs-Keeps made w self.mail_dir us is_enqueuer.below k)
