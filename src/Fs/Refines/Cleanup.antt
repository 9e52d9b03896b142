-- ===== src/Fs/Refines/Cleanup.antt =====
-- smtp-queue-fs/src/lib.rs: `cleanup` removes the link of the mail, and no other, or fails and removes
-- no link.
use kannader.Prelude.{
  Bool, true, false, Option, none, some, Bytes, Bool-cases, ◌≡◌, ◌≢◌, refl, ◌∙◌, inl, inr,
  if◌then◌else◌, arith,
}
use kannader.Queue.Types.{Result, ok, err}
use kannader.Queue.Storage.{Tried, got, failed, Place, CleanupLaw}
use kannader.Fs.System.{FileSystem, on_io}
use kannader.Fs.Types.{
  FsStorage, FsPendingCleanupMail, Error, reading_link_in_queue, opening_folder_in_queue,
  cleanup_queue, metadata_file, schedule_file, contents_file, data_dir_from_other_queue,
}
use kannader.Fs.Cleanup.{
  remove_link, remove_mail_dir, only_contents, after_remove_dest_dir, remove_dest_dir, with_names,
  with_data_path, after_dest_dir, empty_dest_dir, cleanup,
}
use kannader.Fs.Laws.{folder, SameLinks, ReadLinkLaw, IsFileSystem, LeadsAway, IsApart}
use kannader.Fs.Refines.Steps.{
  Still, Law, Still-Same, Still-remove, on_io-Still, remove_link-Law, unlinked,
}

module _ {World U : Type 0} (fs : FileSystem World U) (stor : FsStorage fs)
    (linked : World → fs.Dir → Bytes → Bool) (law : IsFileSystem fs linked)
    (apart : IsApart fs linked stor) (w0 : World) (mail : FsPendingCleanupMail) where
  open fs use {Dir, PathBuf, IoError}

  abbrev InPlace : World → Type 0
  InPlace w = Still fs stor linked law apart w0 w

  abbrev Kept : World × Tried Bool FsPendingCleanupMail (Error fs) → Type 0
  Kept = Law fs stor linked law apart w0 mail

  -- The folder is none of the folders of links.
  abbrev Away : Dir → Type 0
  Away d = (p : Place) → folder fs stor p ≢ d

  -- So is the folder of a mail, whenever it is opened.
  abbrev MailAway : PathBuf → Type 0
  MailAway mail_name =
      (w w' : World) (d : Dir) → fs.sub_dir w stor.data_folder mail_name ≡ (w', ok d) → Away d

  stays : (w w' : World) → SameLinks fs linked w w' → InPlace w → InPlace w'
  stays = Still-Same fs stor linked law apart w0

  step :
      {A : Type 0} (r : World × Result A IoError)
      (found : World → A → World × Tried Bool FsPendingCleanupMail (Error fs))
      (gone : World → World × Tried Bool FsPendingCleanupMail (Error fs))
      (bad : World → IoError → World × Tried Bool FsPendingCleanupMail (Error fs))
      → InPlace r.0
      → ((w : World) (a : A) → r ≡ (w, ok a) → InPlace w → Kept (found w a))
      → ((w : World) → InPlace w → Kept (gone w))
      → ((w : World) (e : IoError) → InPlace w → Kept (bad w e))
      → Kept (on_io fs.is_not_found r found gone bad)
  step = on_io-Still fs stor linked law apart w0 Kept

  link_goes : (vanished : Bool) (w : World) → InPlace w → Kept (remove_link fs stor vanished mail w)
  link_goes = remove_link-Law fs stor linked law apart w0 mail

  removes :
      (w : World) (d : Dir) (n : Bytes) → Away d → InPlace w → InPlace (fs.remove_file w d n).0
  removes w d n away still =
      Still-remove fs stor linked law apart w0 w d n (fs.remove_file w d n)
        (law.remove_file_law w d n) away still

  remove_mail_dir-Law :
      (vanished : Bool) (dest mail_name : PathBuf) (mail_dir : Dir) (w : World)
      → Away mail_dir
      → InPlace w
      → Kept (remove_mail_dir fs stor vanished mail dest mail_name mail_dir w)
  unfolding remove_mail_dir CleanupLaw
  remove_mail_dir-Law vanished dest mail_name mail_dir w away still =
      let go_on : ((w1 : World) → InPlace w1 → Kept _) = λ w1 s1.
        step (fs.remove_dir w1 stor.data_folder mail_name) _ _ _
          (stays w1 _ (law.remove_dir_keeps w1 stor.data_folder mail_name) s1)
          (λ w2 u e s2. link_goes vanished w2 s2) (link_goes vanished) (λ w2 e s2. (s2, refl)) in
      step (fs.remove_file w mail_dir contents_file) _ _ _
        (removes w mail_dir contents_file away still) (λ w1 u e s1. go_on w1 s1) go_on
        (λ w1 e s1. (s1, refl))

  if_only_contents :
      (b : Bool) (x y : World × Tried Bool FsPendingCleanupMail (Error fs))
      → Kept x
      → Kept y
      → Kept (if b then x else y)
  if_only_contents true x y p q = p
  if_only_contents false x y p q = q

  after_remove_dest_dir-Law :
      (dest mail_name : PathBuf) (mail_dir : Dir) (vanished : Bool) (w : World)
      → Away mail_dir
      → InPlace w
      → Kept (after_remove_dest_dir fs stor mail dest mail_name mail_dir vanished w)
  unfolding after_remove_dest_dir CleanupLaw
  after_remove_dest_dir-Law dest mail_name mail_dir vanished w away still =
      step (fs.list_dir w mail_dir) _ _ _ (stays w _ (law.list_dir_keeps w mail_dir) still)
        (λ w1 l e s1.
          if_only_contents (only_contents fs stor l) _ _
            (remove_mail_dir-Law vanished dest mail_name mail_dir w1 away s1)
            (link_goes vanished w1 s1))
        (link_goes true) (λ w1 e s1. (s1, refl))

  remove_dest_dir-Law :
      (dest mail_name : PathBuf) (dest_name : Bytes) (vanished : Bool) (w : World)
      → MailAway mail_name
      → InPlace w
      → Kept (remove_dest_dir fs stor mail dest mail_name dest_name vanished w)
  unfolding remove_dest_dir CleanupLaw
  remove_dest_dir-Law dest mail_name dest_name vanished w leads still =
      step (fs.sub_dir w stor.data_folder mail_name) _ _ _
        (stays w _ (law.sub_dir_keeps w stor.data_folder mail_name) still)
        (λ w1 mail_dir e s1.
          let away = leads w w1 mail_dir e in
          step (fs.remove_dir w1 mail_dir (fs.from dest_name)) _ _ _
            (stays w1 _ (law.remove_dir_keeps w1 mail_dir (fs.from dest_name)) s1)
            (λ w2 u e2 s2. after_remove_dest_dir-Law dest mail_name mail_dir vanished w2 away s2)
            (λ w2 s2. after_remove_dest_dir-Law dest mail_name mail_dir true w2 away s2)
            (λ w2 e2 s2. (s2, refl)))
        (link_goes true) (λ w1 e s1. (s1, refl))

  with_names-Law :
      (dest : PathBuf) (vanished : Bool) (w : World) (m : Option PathBuf) (d : Option Bytes)
      → ((mail_name : PathBuf) → m ≡ some mail_name → MailAway mail_name)
      → InPlace w
      → Kept (with_names fs stor mail dest vanished w m d)
  unfolding with_names CleanupLaw
  with_names-Law dest vanished w none d leads still = (still, refl)
  with_names-Law dest vanished w (some m) none leads still = (still, refl)
  with_names-Law dest vanished w (some m) (some d) leads still =
      remove_dest_dir-Law dest m d vanished w (leads m refl) still

  with_data_path-Law :
      (dest : PathBuf) (vanished : Bool) (w : World) (m : Option PathBuf)
      → fs.strip_prefix dest data_dir_from_other_queue ≡ m
      → LeadsAway fs linked stor dest
      → InPlace w
      → Kept (with_data_path fs stor mail dest vanished w m)
  unfolding with_data_path CleanupLaw
  with_data_path-Law dest vanished w none eq leads still = (still, refl)
  with_data_path-Law dest vanished w (some m) eq leads still =
      with_names-Law dest vanished w (fs.parent m) (fs.file_name dest)
        (λ name e. leads.to_mail m name eq e) still

  after_dest_dir-Law :
      (dest : PathBuf) (vanished : Bool) (w : World)
      → LeadsAway fs linked stor dest
      → InPlace w
      → Kept (after_dest_dir fs stor mail dest vanished w)
  after_dest_dir-Law dest vanished w leads still =
      with_data_path-Law dest vanished w (fs.strip_prefix dest data_dir_from_other_queue) refl leads
        still

  empty_dest_dir-Law :
      (dest : PathBuf) (dest_dir : Dir) (w : World)
      → LeadsAway fs linked stor dest
      → Away dest_dir
      → InPlace w
      → Kept (empty_dest_dir fs stor mail dest dest_dir w)
  unfolding empty_dest_dir CleanupLaw
  empty_dest_dir-Law dest dest_dir w leads away still =
      let go_on : ((w1 : World) → InPlace w1 → Kept _) = λ w1 s1.
        step (fs.remove_file w1 dest_dir schedule_file) _ _ _
          (removes w1 dest_dir schedule_file away s1)
          (λ w2 u e s2. after_dest_dir-Law dest false w2 leads s2)
          (λ w2 s2. after_dest_dir-Law dest false w2 leads s2) (λ w2 e s2. (s2, refl)) in
      step (fs.remove_file w dest_dir metadata_file) _ _ _
        (removes w dest_dir metadata_file away still) (λ w1 u e s1. go_on w1 s1) go_on
        (λ w1 e s1. (s1, refl))

  after_read_link-Law :
      (r : World × Result PathBuf IoError)
      → fs.read_link w0 stor.cleanup_folder mail.id ≡ r
      → ReadLinkLaw fs linked w0 stor.cleanup_folder mail.id r
      → Kept (
          on_io fs.is_not_found r
            (λ w1 dest.
              on_io fs.is_not_found
                (fs.sub_dir w1 stor.cleanup_folder dest)
                (λ w2 dest_dir. empty_dest_dir fs stor mail dest dest_dir w2)
                (after_dest_dir fs stor mail dest true)
                (λ w2 e.
                  (w2, failed mail (opening_folder_in_queue (fs.from mail.id) cleanup_queue e))))
            (λ w1. (w1, got false))
            (λ w1 e. (w1, failed mail (reading_link_in_queue mail.id cleanup_queue e))))
  unfolding on_io ReadLinkLaw CleanupLaw folder
  after_read_link-Law (w1, ok dest) eq s =
      let leads = apart.links w0 mail.id w1 dest eq in
      step (fs.sub_dir w1 stor.cleanup_folder dest) _ _ _
        (stays w1 _ (law.sub_dir_keeps w1 stor.cleanup_folder dest) (stays w0 w1 s (λ p id. refl)))
        (λ w2 dest_dir e s2.
          empty_dest_dir-Law dest dest_dir w2 leads (leads.to_destination w1 w2 dest_dir e) s2)
        (λ w2 s2. after_dest_dir-Law dest true w2 leads s2) (λ w2 e s2. (s2, refl))
  after_read_link-Law (w1, err e) eq (s, gone) = elim (Bool-cases (fs.is_not_found e)) [
    | inl yes_it_is ↦ rw yes_it_is (
      unlinked fs stor linked law apart w0 mail w1 (stays w0 w1 s (λ p id. refl))
          (s _ _ ∙ gone yes_it_is),
      λ t. absurd (ground arith),
    )
    | inr no_it_is_not ↦ rw no_it_is_not (stays w0 w1 s (λ p id. refl), refl)
  ]

  pub cleanup-Law : Kept (cleanup fs stor w0 mail)
  unfolding cleanup
  cleanup-Law =
      after_read_link-Law (fs.read_link w0 stor.cleanup_folder mail.id) refl
        (law.read_link_law w0 stor.cleanup_folder mail.id)
