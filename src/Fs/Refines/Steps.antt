-- ===== src/Fs/Refines/Steps.antt =====
-- smtp-queue-fs/src/lib.rs: what one call of the file system does to the places of the mails.
use mathlib.Core.Path.{subst}
use kannader.Prelude.{
  Bool, true, false, not, none, some, Bytes, Bool-cases, ◌≡◌, ◌≢◌, refl, sym, ◌∙◌, inl, inr, arith,
}
use kannader.Queue.Types.{QueueId, Result, ok, err}
use kannader.Queue.Storage.{Tried, got, failed, Place, Same, Moves, Removes, MoveLaw, CleanupLaw}
use kannader.Fs.System.{FileSystem, on_io, ◌or_fail◌and◌}
use kannader.Fs.Types.{FsStorage, FsPendingCleanupMail, Error}
use kannader.Fs.Cleanup
use kannader.Fs.Laws.{
  folder, SameLinks, Renamed, Unlinked, RenameLaw, RemoveLaw, IsFileSystem, IsApart, holds,
}

-- What holds on the three ways on holds of `on_io`.
on_io-elim :
    {W A E X : Type 0} (P : X → Type 0) (is_not_found : E → Bool) (r : W × Result A E)
    (found : W → A → X) (gone : W → X) (bad : W → E → X)
    → ((w : W) (a : A) → r ≡ (w, ok a) → P (found w a))
    → ((w : W) (e : E) → r ≡ (w, err e) → is_not_found e ≡ true → P (gone w))
    → ((w : W) (e : E) → r ≡ (w, err e) → P (bad w e))
    → P (on_io is_not_found r found gone bad)
unfolding on_io
on_io-elim P is_not_found (w, ok a) found gone bad f g b = f w a refl
on_io-elim P is_not_found (w, err e) found gone bad f g b = elim (Bool-cases (is_not_found e)) [
  | inl yes_it_is ↦ rw yes_it_is (g w e refl yes_it_is)
  | inr no_it_is_not ↦ rw no_it_is_not (b w e refl)
]

-- What a fallible chain keeps of the world.
pub or_fail-keeps :
    {W A B E E' : Type 0} (P : W → Type 0) (r : W × Result A E) (f : E → E')
    (g : W → A → W × Result B E')
    → P r.0
    → ((w : W) (a : A) → r ≡ (w, ok a) → P w → P (g w a).0)
    → P (r or_fail f and g).0
unfolding ◌or_fail◌and◌
or_fail-keeps P (w, ok a) f g p h = h w a refl p
or_fail-keeps P (w, err e) f g p h = p

module _ {World U : Type 0} (fs : FileSystem World U) (stor : FsStorage fs)
    (linked : World → fs.Dir → Bytes → Bool) (law : IsFileSystem fs linked)
    (apart : IsApart fs linked stor) where
  abbrev pub held : World → Place → QueueId → Bool
  held = holds fs linked stor

  Renamed-Moves :
      (w w' : World) (p r : Place) (id : QueueId)
      → r ≢ p
      → Renamed fs linked w w' (folder fs stor p) (folder fs stor r) id
      → Moves held w w' p r id
  Renamed-Moves w w' p r id other m = record {
    was = m.was;
    left = m.left (apart.folders p r other);
    arrived = m.arrived;
    other_places =
        λ s h h'. m.other_folders (folder fs stor s) (apart.folders p s h) (apart.folders r s h');
    other_mails = λ s j h. m.other_names (folder fs stor s) j h;
  }

  module _ {A B : Type 0} (a_id : A → QueueId) (b_id : B → QueueId) (p r : Place) (other : r ≢ p)
      (into : B → A) (same : (b : B) → a_id (into b) ≡ b_id b) where
    pub rename-MoveLaw :
        (w : World) (b : B) (bad : fs.IoError → Error fs)
        (res : World × Result (Unit {0}) fs.IoError)
        → RenameLaw fs linked w (folder fs stor p) (folder fs stor r) (b_id b) res
        → MoveLaw held a_id b_id p r w b (
            on_io fs.is_not_found res
              (λ w' u. (w', got (some (into b))))
              (λ w'. (w', got none))
              (λ w' e. (w', failed b (bad e))))
    unfolding MoveLaw RenameLaw on_io
    rename-MoveLaw w b bad (w', ok u) m = (Renamed-Moves w w' p r (b_id b) other m, same b)
    rename-MoveLaw w b bad (w', err e) (still, gone) = elim (Bool-cases (fs.is_not_found e)) [
      | inl yes_it_is ↦ rw yes_it_is ((λ s j. still (folder fs stor s) j), gone yes_it_is)
      | inr no_it_is_not ↦ rw no_it_is_not ((λ s j. still (folder fs stor s) j), refl)
    ]

  -- The places are as they were in `w0`.
  module _ (w0 : World) where
    abbrev pub Still : World → Type 0
    Still w = Same held w0 w

    pub Still-Same : (w w' : World) → SameLinks fs linked w w' → Still w → Still w'
    Still-Same w w' s still p id = s (folder fs stor p) id ∙ still p id

    pub Still-remove :
        (w : World) (d : fs.Dir) (n : Bytes) (res : World × Result (Unit {0}) fs.IoError)
        → RemoveLaw fs linked w d n res
        → ((p : Place) → folder fs stor p ≢ d)
        → Still w
        → Still res.0
    unfolding RemoveLaw
    Still-remove w d n (w', ok u) m away still =
        λ p id. m.other_folders (folder fs stor p) id (away p) ∙ still p id
    Still-remove w d n (w', err e) (s, gone) away still = Still-Same w w' s still

    pub on_io-Still :
        {A X : Type 0} (P : X → Type 0) (r : World × Result A fs.IoError) (found : World → A → X)
        (gone : World → X) (bad : World → fs.IoError → X)
        → Still r.0
        → ((w : World) (a : A) → r ≡ (w, ok a) → Still w → P (found w a))
        → ((w : World) → Still w → P (gone w))
        → ((w : World) (e : fs.IoError) → Still w → P (bad w e))
        → P (on_io fs.is_not_found r found gone bad)
    on_io-Still P r found gone bad still f g b =
        on_io-elim P fs.is_not_found r found gone bad
          (λ w a e. f w a e (subst (λ r'. Still r'.0) e still))
          (λ w x e nf. g w (subst (λ r'. Still r'.0) e still))
          (λ w x e. b w x (subst (λ r'. Still r'.0) e still))

    module _ (mail : FsPendingCleanupMail) where
      abbrev pub Law : World × Tried Bool FsPendingCleanupMail (Error fs) → Type 0
      Law = CleanupLaw held (λ m. m.id) w0 mail

      pub unlinked :
          (w : World) → Still w → held w Place.cleanup mail.id ≡ false → Removes held w0 w mail.id
      unlinked w still gone = record {
        gone = gone;
        other_places = λ r h. still r mail.id;
        other_mails = λ r j h. still r j;
      }

      Unlinked-Removes :
          (w w' : World)
          → Still w
          → Unlinked fs linked w w' (folder fs stor Place.cleanup) mail.id
          → Removes held w0 w' mail.id
      Unlinked-Removes w w' still m = record {
        gone = m.gone;
        other_places = λ r h.
            m.other_folders (folder fs stor r) mail.id (apart.folders Place.cleanup r h)
            ∙ still r mail.id;
        other_mails = λ r j h. m.other_names (folder fs stor r) j h ∙ still r j;
      }

      on_remove :
          (vanished : Bool) (bad : fs.IoError → Error fs) (w : World)
          (res : World × Result (Unit {0}) fs.IoError)
          → RemoveLaw fs linked w (folder fs stor Place.cleanup) mail.id res
          → Still w
          → Law (
              on_io fs.is_not_found res
                (λ w' u. (w', got vanished))
                (λ w'. (w', got false))
                (λ w' e. (w', failed mail (bad e))))
      unfolding RemoveLaw CleanupLaw on_io
      on_remove vanished bad w (w', ok u) m still =
          (Unlinked-Removes w w' still m, λ t. sym (still Place.cleanup mail.id) ∙ m.was)
      on_remove vanished bad w (w', err e) (s, gone) still = elim (Bool-cases (fs.is_not_found e)) [
        | inl yes_it_is ↦ rw yes_it_is (
          unlinked w' (Still-Same w w' s still) (s _ _ ∙ gone yes_it_is),
          λ t. absurd (ground arith),
        )
        | inr no_it_is_not ↦ rw no_it_is_not (Still-Same w w' s still, refl)
      ]

      pub remove_link-Law :
          (vanished : Bool) (w : World)
          → Still w
          → Law (Cleanup.remove_link fs stor vanished mail w)
      unfolding Cleanup.remove_link folder
      remove_link-Law vanished w still =
          on_remove (not vanished) _ w (fs.remove_file w stor.cleanup_folder mail.id)
            (law.remove_file_law w stor.cleanup_folder mail.id) still
