-- ===== src/Queue/One.antt =====
-- A queue of one mail, for the tests: its storage keeps the place of the mail, a transport counts the
-- mails that it accepts, and a configuration the mails that it gives up.
use kannader.Prelude.{
  ℕ, suc, ◌<◌, Bool, true, false, Option, none, some, [], codes, bytes_eq, ◌≡◌, ◌≢◌, refl, ap,
  arith, if◌then◌else◌,
}
use kannader.Message.Address.{Email, ascii_domain, Localpart}
use kannader.Queue.Types.{QueueId, ok}
use kannader.Queue.Storage.{
  Tried, got, Moved, Storage, QueueImpl, Place, queue, inflight, MoveLaw, CleanupLaw, IsStorage,
}
use kannader.Queue.Tasks.{send_attempt}
use kannader.Queue.Kept.Places.{is}
use kannader.Queue.Kept.Steps.{IsQuiet, IsHistory}
use kannader.Fs.Memory.{bytes_eq_other}

pub record One : Type 0 where
  pub place : Option Place
  pub accepted : ℕ
  pub refused : ℕ

abbrev pub one_id : QueueId
one_id = codes "07dc"

abbrev pub at : Option Place → Place → Bool
at none p = false
at (some q) p = is q p

abbrev pub one_holds : One → Place → QueueId → Bool
one_holds w p id = if bytes_eq id one_id then at w.place p else false

unfoldable pub move_if : Bool → One → Place → One × Moved (Unit {0}) (Unit {0}) (Unit {0})
move_if true w q = (record w { place = some q }, got (some tt))
move_if false w q = (w, got none)

unfoldable pub remove_if : Bool → One → One × Tried Bool (Unit {0}) (Unit {0})
remove_if true w = (record w { place = none }, got true)
remove_if false w = (w, got false)

abbrev pub one_mail : Email
one_mail = record {
  localpart = Localpart.ascii (codes "joe");
  hostname = some (ascii_domain (codes "example.org"));
}

abbrev pub one_storage : Storage One (Unit {0})
one_storage = record {
  Error = Unit {0};
  QueuedMail = Unit {0};
  InflightMail = Unit {0};
  PendingCleanupMail = Unit {0};
  Enqueuer = Unit {0};
  Reader = Unit {0};
  queued_id = λ m. one_id;
  schedule = λ m. record { at = 0; last_attempt = none };
  inflight_id = λ m. one_id;
  pending_id = λ m. one_id;
  list_queue = λ w. (w, []);
  find_inflight = λ w. (w, []);
  find_pending_cleanup = λ w. (w, []);
  enqueue = λ w. (w, ok tt);
  commit = λ w e ds. (w, ok []);
  read_inflight = λ w m. (w, ok (record { from = none; to = one_mail; metadata = tt }, tt));
  reschedule = λ w m s. (w, tt, none);
  send_start = λ w m. move_if (at w.place queue) w inflight;
  send_done = λ w m. move_if (at w.place inflight) w Place.cleanup;
  send_cancel = λ w m. move_if (at w.place inflight) w queue;
  drop = λ w m. move_if (at w.place queue) w Place.cleanup;
  cleanup = λ w m. remove_if (at w.place Place.cleanup) w;
}

-- A mail that could not be sent is given up at once.
abbrev pub one_queue : QueueImpl (Unit {0})
one_queue = record {
  World = One;
  storage = one_storage;
  config = record {
    next_interval = λ w s. (record w { refused = suc w.refused }, none);
    log = λ w e. w;
    found_inflight_check_delay = 3600;
    io_error_next_retry_delay = λ d. d;
  };
  transport = record {
    Destination = Unit {0};
    Sender = Unit {0};
    destination = λ w m. (w, ok tt);
    connect = λ w d. (w, ok tt);
    send = λ w s m r. (record w { accepted = suc w.accepted }, ok tt);
  };
  clock = record { now = λ w. (w, 100); sleep = λ w d. w; longest = 1000000 };
}

elsewhere : (o : Option Place) (p q r : Place) → at o p ≡ true → r ≢ p → r ≢ q → is q r ≡ at o r
elsewhere none p q r e h h' = absurd (ground arith)
elsewhere (some queue) queue q queue e h h' = absurd (h refl)
elsewhere (some queue) queue queue inflight e h h' = refl
elsewhere (some queue) queue inflight inflight e h h' = absurd (h' refl)
elsewhere (some queue) queue Place.cleanup inflight e h h' = refl
elsewhere (some queue) queue queue Place.cleanup e h h' = refl
elsewhere (some queue) queue inflight Place.cleanup e h h' = refl
elsewhere (some queue) queue Place.cleanup Place.cleanup e h h' = absurd (h' refl)
elsewhere (some queue) inflight q r e h h' = absurd (ground arith)
elsewhere (some queue) Place.cleanup q r e h h' = absurd (ground arith)
elsewhere (some inflight) inflight q inflight e h h' = absurd (h refl)
elsewhere (some inflight) inflight queue queue e h h' = absurd (h' refl)
elsewhere (some inflight) inflight inflight queue e h h' = refl
elsewhere (some inflight) inflight Place.cleanup queue e h h' = refl
elsewhere (some inflight) inflight queue Place.cleanup e h h' = refl
elsewhere (some inflight) inflight inflight Place.cleanup e h h' = refl
elsewhere (some inflight) inflight Place.cleanup Place.cleanup e h h' = absurd (h' refl)
elsewhere (some inflight) queue q r e h h' = absurd (ground arith)
elsewhere (some inflight) Place.cleanup q r e h h' = absurd (ground arith)
elsewhere (some Place.cleanup) Place.cleanup q Place.cleanup e h h' = absurd (h refl)
elsewhere (some Place.cleanup) Place.cleanup queue queue e h h' = absurd (h' refl)
elsewhere (some Place.cleanup) Place.cleanup inflight queue e h h' = refl
elsewhere (some Place.cleanup) Place.cleanup Place.cleanup queue e h h' = refl
elsewhere (some Place.cleanup) Place.cleanup queue inflight e h h' = refl
elsewhere (some Place.cleanup) Place.cleanup inflight inflight e h h' = absurd (h' refl)
elsewhere (some Place.cleanup) Place.cleanup Place.cleanup inflight e h h' = refl
elsewhere (some Place.cleanup) queue q r e h h' = absurd (ground arith)
elsewhere (some Place.cleanup) inflight q r e h h' = absurd (ground arith)

other_id : (w w' : One) (r : Place) (j : QueueId) → j ≢ one_id → one_holds w' r j ≡ one_holds w r j
other_id w w' r j h = rw (bytes_eq_other j one_id h) refl

is_here : (q : Place) → is q q ≡ true
is_here queue = refl
is_here inflight = refl
is_here Place.cleanup = refl

move_if-MoveLaw :
    (w : One) (p q : Place) (b : Bool)
    → at w.place p ≡ b
    → is q p ≡ false
    → MoveLaw one_holds
        (λ (m : Unit {0}). one_id)
        (λ (m : Unit {0}). one_id)
        p
        q
        w
        tt
        (move_if b w q)
unfolding MoveLaw move_if
move_if-MoveLaw w p q true e other = (
  record {
    was = e;
    left = other;
    arrived = is_here q;
    other_places = λ r h h'. elsewhere w.place p q r e h h';
    other_mails = λ r j h. other_id w (record w { place = some q }) r j h;
  },
  refl,
)
move_if-MoveLaw w p q false e other = ((λ r j. refl), e)

not_elsewhere :
    (o : Option Place) (r : Place) → at o Place.cleanup ≡ true → r ≢ Place.cleanup → false ≡ at o r
not_elsewhere none r e h = refl
not_elsewhere (some queue) r e h = absurd (ground arith)
not_elsewhere (some inflight) r e h = absurd (ground arith)
not_elsewhere (some Place.cleanup) queue e h = refl
not_elsewhere (some Place.cleanup) inflight e h = refl
not_elsewhere (some Place.cleanup) Place.cleanup e h = absurd (h refl)

remove_if-CleanupLaw :
    (w : One) (b : Bool)
    → at w.place Place.cleanup ≡ b
    → CleanupLaw one_holds (λ (m : Unit {0}). one_id) w tt (remove_if b w)
unfolding CleanupLaw remove_if
remove_if-CleanupLaw w true e = (
  record {
    gone = refl;
    other_places = λ r h. not_elsewhere w.place r e h;
    other_mails = λ r j h. other_id w (record w { place = none }) r j h;
  },
  λ t. e,
)
remove_if-CleanupLaw w false e = (
  record { gone = e; other_places = λ r h. refl; other_mails = λ r j h. refl },
  λ t. absurd (ground arith),
)

pub one_storage-IsStorage : IsStorage one_holds one_storage
one_storage-IsStorage = record {
  read_inflight_keeps = λ w m p id. refl;
  reschedule_keeps = λ w m i. ((λ p id. refl), refl);
  send_start_moves = λ w m. move_if-MoveLaw w queue inflight (at w.place queue) refl refl;
  send_done_moves = λ w m. move_if-MoveLaw w inflight Place.cleanup (at w.place inflight) refl refl;
  send_cancel_moves = λ w m. move_if-MoveLaw w inflight queue (at w.place inflight) refl refl;
  drop_moves = λ w m. move_if-MoveLaw w queue Place.cleanup (at w.place queue) refl refl;
  cleanup_removes = λ w m. remove_if-CleanupLaw w (at w.place Place.cleanup) refl;
}

pub one_queue-IsQuiet : IsQuiet one_queue one_holds
one_queue-IsQuiet = record {
  log = λ w e p id. refl;
  sleep = λ w d p id. refl;
  now = λ w p id. refl;
  next_interval = λ w s p id. refl;
  destination = λ w m p id. refl;
  connect = λ w d p id. refl;
  send = λ w s m r p id. refl;
}

abbrev pub WasAccepted : One → QueueId → Type 0
WasAccepted w id = 0 < w.accepted

abbrev pub WasRefused : One → QueueId → Type 0
WasRefused w id = 0 < w.refused

move_accepted : (b : Bool) (w : One) (q : Place) → (move_if b w q).0.accepted ≡ w.accepted
unfolding move_if
move_accepted true w q = refl
move_accepted false w q = refl

move_refused : (b : Bool) (w : One) (q : Place) → (move_if b w q).0.refused ≡ w.refused
unfolding move_if
move_refused true w q = refl
move_refused false w q = refl

remove_accepted : (b : Bool) (w : One) → (remove_if b w).0.accepted ≡ w.accepted
unfolding remove_if
remove_accepted true w = refl
remove_accepted false w = refl

remove_refused : (b : Bool) (w : One) → (remove_if b w).0.refused ≡ w.refused
unfolding remove_if
remove_refused true w = refl
remove_refused false w = refl

grown : (n m : ℕ) → suc n ≡ m → 0 < m
grown n m e = omega arith

pub one_queue-IsHistory : IsHistory one_queue one_holds WasAccepted WasRefused
unfolding send_attempt
one_queue-IsHistory = record {
  accepted =
      λ w w1 w2 i meta reader e e'. grown w1.accepted w2.accepted (ap (λ r. r.0.accepted) e');
  no_more = λ w w1 m e. grown w.refused w1.refused (ap (λ r. r.0.refused) e);
  delivered_stays = λ id. record {
    log = λ w e f. f;
    sleep = λ w d f. f;
    send_done = λ w i f. rw (move_accepted (at w.place inflight) w Place.cleanup) f;
    drop = λ w m f. rw (move_accepted (at w.place queue) w Place.cleanup) f;
    cleanup = λ w m f. rw (remove_accepted (at w.place Place.cleanup) w) f;
  };
  given_up_stays = λ id. record {
    log = λ w e f. f;
    sleep = λ w d f. f;
    send_done = λ w i f. rw (move_refused (at w.place inflight) w Place.cleanup) f;
    drop = λ w m f. rw (move_refused (at w.place queue) w Place.cleanup) f;
    cleanup = λ w m f. rw (remove_refused (at w.place Place.cleanup) w) f;
  };
}
