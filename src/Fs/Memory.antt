-- ===== src/Fs/Memory.antt =====
-- A file system in memory for the tests: it keeps the links of each folder, and every file can be
-- written and read.
use kannader.Prelude.{
  ℕ, Bool, true, false, none, some, [], ◌∷◌, ◌++◌, Bytes, bytes_eq, ◌==◌, ◌≡◌, ◌≢◌, refl, sym, ap,
  ◌∙◌, arith, if◌then◌else◌, Bool-cases, inl, inr, codes,
}
use kannader.Queue.Types.{ScheduleInfo, MailMetadata, Result, ok, err}
use kannader.Queue.Storage.{Place, queue, inflight}
use kannader.Message.Address.{Email}
use kannader.Fs.System.{FileSystem}
use kannader.Fs.Types.{FsStorage, data_dir, queue_dir, inflight_dir, cleanup_dir}
use kannader.Fs.Scan.{new}
use kannader.Fs.Laws.{folder, RenameLaw, RemoveLaw, ReadLinkLaw, SymlinkLaw, IsFileSystem, IsApart}

-- Which links each folder has.
abbrev pub Links : Type 0
Links = ℕ → Bytes → Bool

pub bytes_eq_self : (n : Bytes) → bytes_eq n n ≡ true
bytes_eq_self [] = refl
bytes_eq_self (x ∷ n) = rw (bytes_eq_self n) (ground arith)

bytes_eq→≡ : (m n : Bytes) → bytes_eq m n ≡ true → m ≡ n
bytes_eq→≡ [] [] e = refl
bytes_eq→≡ [] (y ∷ n) e = absurd (ground arith)
bytes_eq→≡ (x ∷ m) [] e = absurd (ground arith)
bytes_eq→≡ (x ∷ m) (y ∷ n) e =
    let tail : bytes_eq m n ≡ true = ground arith in
    let head : x ≡ y = ground arith in ap (λ z. z ∷ m) head ∙ ap (λ l. y ∷ l) (bytes_eq→≡ m n tail)

pub bytes_eq_other : (m n : Bytes) → m ≢ n → bytes_eq m n ≡ false
bytes_eq_other m n h = elim (Bool-cases (bytes_eq m n)) [
  | inl e ↦ absurd (h (bytes_eq→≡ m n e))
  | inr e ↦ e
]

-- The file system, and how often a transport has accepted a mail and a configuration has given one up.
pub record Disk : Type 0 where
  pub links : Links
  pub accepted : ℕ
  pub refused : ℕ

-- The links, where the folder `d` has or has not a link `n`.
abbrev pub set : Links → ℕ → Bytes → Bool → Links
set w d n b e m = if bytes_eq m n then if e == d then b else w e m else w e m

set_here : (w : Links) (d : ℕ) (n : Bytes) (b : Bool) → set w d n b d n ≡ b
set_here w d n b = rw (bytes_eq_self n) (ground arith)

set_folder : (w : Links) (d e : ℕ) (n m : Bytes) (b : Bool) → e ≢ d → set w d n b e m ≡ w e m
set_folder w d e n m b h = ground arith

set_name : (w : Links) (d e : ℕ) (n m : Bytes) (b : Bool) → m ≢ n → set w d n b e m ≡ w e m
set_name w d e n m b h = rw (bytes_eq_other m n h) refl

keep_true : (w : Links) (d e : ℕ) (n m : Bytes) → w e m ≡ true → set w d n true e m ≡ true
keep_true w d e n m h = ground arith

abbrev pub Answer : Type 0
Answer = Disk × Result (Unit {0}) (Unit {0})

unfoldable pub rename_if : Bool → Disk → ℕ → Bytes → ℕ → Answer
rename_if true w d n d' = (record w { links = set (set w.links d n false) d' n true }, ok tt)
rename_if false w d n d' = (w, err tt)

unfoldable pub remove_if : Bool → Disk → ℕ → Bytes → Answer
remove_if true w d n = (record w { links = set w.links d n false }, ok tt)
remove_if false w d n = (w, err tt)

unfoldable pub read_if : Bool → Disk → Disk × Result Bytes (Unit {0})
read_if true w = (w, ok [])
read_if false w = (w, err tt)

-- A link is only made where its name is free.
unfoldable pub link_if : Bool → Disk → ℕ → Bytes → Answer
link_if true w d n = (w, err tt)
link_if false w d n = (record w { links = set w.links d n true }, ok tt)

abbrev main_dir : ℕ
main_dir = 9

-- The folder at a path: those of the storage in the main folder, and elsewhere one of a mail.
abbrev at_path : ℕ → Bytes → ℕ
at_path d p =
    if d == main_dir
    then if bytes_eq p data_dir
      then 0
      else if bytes_eq p queue_dir
      then 1
      else if bytes_eq p inflight_dir
      then 2
      else if bytes_eq p cleanup_dir
      then 3
      else 4
    else 4

abbrev pub recipient_meta : Email → MailMetadata (Unit {0})
recipient_meta to = record { from = none; to = to; metadata = tt }

abbrev pub soon : ScheduleInfo
soon = record { at = 0; last_attempt = none }

abbrev pub memory : Email → FileSystem Disk (Unit {0})
memory to = record {
  Dir = ℕ;
  File = Unit {0};
  PathBuf = Bytes;
  IoError = Unit {0};
  JsonError = Unit {0};
  WalkError = Unit {0};
  is_not_found = λ e. true;
  from = λ n. n;
  join = λ p q. p ++ q;
  strip_prefix = λ p n. some p;
  parent = λ p. some p;
  file_name = λ p. some [];
  open_dir = λ w p. (w, ok main_dir);
  create_main_dir = λ w p. (w, ok tt);
  sub_dir = λ w d p. (w, ok (at_path d p));
  create_dir = λ w d n. (w, ok tt);
  open_file = λ w d p. (w, ok tt);
  new_file = λ w d n. (w, ok tt);
  read_link = λ w d n. read_if (w.links d n) w;
  symlink = λ w d n p. link_if (w.links d n) w d n;
  remove_file = λ w d n. remove_if (w.links d n) w d n;
  remove_dir = λ w d p. (w, ok tt);
  rename = λ w d n d' n'. rename_if (w.links d n) w d n d';
  local_rename = λ w d n n'. (w, ok tt);
  list_dir = λ w d. (w, ok []);
  flush = λ w f. (w, ok tt);
  read_metadata = λ w f. (w, ok (recipient_meta to));
  read_schedule = λ w f. (w, ok soon);
  write_metadata = λ w f m. (w, ok tt);
  write_schedule = λ w f s. (w, ok tt);
  new_uuid = λ w. (w, codes "4d6d5d0e");
  walk = λ w p. (w, []);
}

abbrev pub there : Disk → ℕ → Bytes → Bool
there w d n = w.links d n

rename_if-RenameLaw :
    (to : Email) (w : Disk) (d d' : ℕ) (n : Bytes) (b : Bool)
    → w.links d n ≡ b
    → RenameLaw (memory to) there w d d' n (rename_if b w d n d')
unfolding RenameLaw rename_if
rename_if-RenameLaw to w d d' n true e = record {
  was = e;
  left = λ h.
      set_folder (set w.links d n false) d' d n n true (λ x. h (sym x))
      ∙ set_here w.links d n false;
  arrived = set_here (set w.links d n false) d' n true;
  other_folders = λ f h h'.
      set_folder (set w.links d n false) d' f n n true h' ∙ set_folder w.links d f n n false h;
  other_names =
      λ f m h. set_name (set w.links d n false) d' f n m true h ∙ set_name w.links d f n m false h;
}
rename_if-RenameLaw to w d d' n false e = ((λ f m. refl), λ x. e)

remove_if-RemoveLaw :
    (to : Email) (w : Disk) (d : ℕ) (n : Bytes) (b : Bool)
    → w.links d n ≡ b
    → RemoveLaw (memory to) there w d n (remove_if b w d n)
unfolding RemoveLaw remove_if
remove_if-RemoveLaw to w d n true e = record {
  was = e;
  gone = set_here w.links d n false;
  other_folders = λ f m h. set_folder w.links d f n m false h;
  other_names = λ f m h. set_name w.links d f n m false h;
}
remove_if-RemoveLaw to w d n false e = ((λ f m. refl), λ x. e)

read_if-ReadLinkLaw :
    (to : Email) (w : Disk) (d : ℕ) (n : Bytes) (b : Bool)
    → w.links d n ≡ b
    → ReadLinkLaw (memory to) there w d n (read_if b w)
unfolding ReadLinkLaw read_if
read_if-ReadLinkLaw to w d n true e = λ f m. refl
read_if-ReadLinkLaw to w d n false e = ((λ f m. refl), λ x. e)

link_if-SymlinkLaw :
    (to : Email) (w : Disk) (d : ℕ) (n : Bytes) (b : Bool)
    → w.links d n ≡ b
    → SymlinkLaw (memory to) there w d n (link_if b w d n)
unfolding SymlinkLaw link_if
link_if-SymlinkLaw to w d n true e = λ f m. refl
link_if-SymlinkLaw to w d n false e = record {
  was_free = e;
  there = set_here w.links d n true;
  other_folders = λ f m h. set_folder w.links d f n m true h;
  keeps = λ f m h. keep_true w.links d f n m h;
}

pub memory-IsFileSystem : (to : Email) → IsFileSystem (memory to) there
memory-IsFileSystem to = record {
  symlink_law = λ w d n p. link_if-SymlinkLaw to w d n (w.links d n) refl;
  create_dir_keeps = λ w d n e m. refl;
  flush_keeps = λ w f e m. refl;
  write_metadata_keeps = λ w f x e m. refl;
  rename_law = λ w d d' n. rename_if-RenameLaw to w d d' n (w.links d n) refl;
  remove_file_law = λ w d n. remove_if-RemoveLaw to w d n (w.links d n) refl;
  read_link_law = λ w d n. read_if-ReadLinkLaw to w d n (w.links d n) refl;
  sub_dir_keeps = λ w d p e m. refl;
  open_file_keeps = λ w d p e m. refl;
  new_file_keeps = λ w d n e m. refl;
  remove_dir_keeps = λ w d p e m. refl;
  local_rename_keeps = λ w d n n' e m. refl;
  list_dir_keeps = λ w d e m. refl;
  read_metadata_keeps = λ w f e m. refl;
  write_schedule_keeps = λ w f s e m. refl;
  new_uuid_keeps = λ w e m. refl;
}

abbrev pub folders : (to : Email) → FsStorage (memory to)
folders to = record {
  path = [];
  data_folder = 0;
  queue_folder = 1;
  inflight_folder = 2;
  cleanup_folder = 3;
}

-- This is the storage that `new` opens in the main folder of this file system.
pub new_folders : (to : Email) (w : Disk) → new (memory to) w [] ≡ (w, ok (folders to))
unfolding new
new_folders to w = refl

abbrev number : Place → ℕ
number queue = 1
number inflight = 2
number Place.cleanup = 3

number_of_folder : (to : Email) (p : Place) → folder (memory to) (folders to) p ≡ number p
unfolding folder
number_of_folder to queue = refl
number_of_folder to inflight = refl
number_of_folder to Place.cleanup = refl

numbers_differ : (p r : Place) → r ≢ p → number r ≢ number p
numbers_differ queue queue h e = h refl
numbers_differ queue inflight h e = ground arith
numbers_differ queue Place.cleanup h e = ground arith
numbers_differ inflight queue h e = ground arith
numbers_differ inflight inflight h e = h refl
numbers_differ inflight Place.cleanup h e = ground arith
numbers_differ Place.cleanup queue h e = ground arith
numbers_differ Place.cleanup inflight h e = ground arith
numbers_differ Place.cleanup Place.cleanup h e = h refl

number_small : (p : Place) → number p ≢ 4
number_small queue e = ground arith
number_small inflight e = ground arith
number_small Place.cleanup e = ground arith

-- The folder that a call has opened.
abbrev pub opened : ℕ → Result ℕ (Unit {0}) → ℕ
opened d (ok e) = e
opened d (err e) = d

pub memory-IsApart : (to : Email) → IsApart (memory to) there (folders to)
memory-IsApart to = record {
  folders =
      λ p r h e. numbers_differ p r h (sym (number_of_folder to r) ∙ (e ∙ number_of_folder to p));
  links = λ w id w' dest e. record {
    to_destination = λ v v' sub e' p same.
        number_small p (sym (number_of_folder to p) ∙ (same ∙ sym (ap (λ r. opened 4 r.1) e')));
    to_mail = λ path name is_path is_parent v v' sub e' p same.
        number_small p (sym (number_of_folder to p) ∙ (same ∙ sym (ap (λ r. opened 4 r.1) e')));
  };
}
