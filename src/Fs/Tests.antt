-- ===== src/Fs/Tests.antt =====
-- The theorems on storages in folders at concrete inputs: a file system in memory.
use kannader.Prelude.{true, false, some, List, [], ◌∷◌, codes, Bool, ◌≡◌, refl}
use kannader.Message.Address.{Email, ascii_domain, Localpart}
use kannader.Queue.Types.{ScheduleInfo, MailMetadata, Result, ok, err}
use kannader.Fs.Types.{FsEnqueuer, FsQueuedMail}
use kannader.Fs.Enqueue.{
  commit, make_dest_dir, make_dest_dirs, name_destinations, after_flush, after_make, give_up,
  with_mail,
}
use kannader.Fs.Memory.{Disk, recipient_meta, soon, memory, set, link_if}

abbrev someone : Email
someone = record {
  localpart = Localpart.ascii (codes "joe");
  hostname = some (ascii_domain (codes "example.org"));
}

abbrev empty_folders : Disk
empty_folders = record { links = λ d n. false; accepted = 0; refused = 0 }

abbrev enqueuer : FsEnqueuer (memory someone)
enqueuer = record { mail_uuid = codes "2a"; mail_dir = 4; queue_folder = 1; writer = tt }

abbrev destinations : List (MailMetadata (Unit {0}) × ScheduleInfo)
destinations = (recipient_meta someone, soon) ∷ []

abbrev new_mail : FsQueuedMail
new_mail = record { id = codes "4d6d5d0e"; schedule = soon }

abbrev one_link : Disk
one_link = record empty_folders { links = set empty_folders.links 1 (codes "4d6d5d0e") true }

abbrev is_err : {W A E : Type 0} → W × Result A E → Bool
is_err (w, ok a) = false
is_err (w, err e) = true

-- The second destination fails, since this file system gives the same name again.
second_fails :
    is_err (
      commit
        (memory someone)
        enqueuer
        empty_folders
        ((recipient_meta someone, soon) ∷ (recipient_meta someone, soon) ∷ []))
    ≡ true
unfolding after_flush make_dest_dirs name_destinations make_dest_dir after_make give_up with_mail
    link_if
second_fails = refl
