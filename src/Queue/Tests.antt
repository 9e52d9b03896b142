-- ===== src/Queue/Tests.antt =====
-- The theorems on queues at concrete inputs: a mail in a file system in memory.
use kannader.Prelude.{
  ℕ, ◌<◌, Bool, true, Option, none, some, List, [], ◌∷◌, ◌++◌, ap, codes, bytes_eq, ◌==◌, ◌&&◌, ◌≡◌,
  refl, arith,
}
use kannader.Message.Address.{Email, ascii_domain, Localpart}
use kannader.Queue.Types.{
  QueueId, ScheduleInfo, TransportFailure, Result, ok, err, out_of_range, last_interval,
}
use kannader.Queue.Storage.{got, failed, Place, queue, inflight, Storage, QueueImpl}
use kannader.Queue.Tasks.{or_zero, io_error_next_retry_delay, retry, next_schedule, send}
use kannader.Queue.Runs.{RunsTo}
use kannader.Queue.Delays.{
  delay, delays, IsTimed, Waited, retry-Waited, next_schedule-last_interval,
}
use kannader.Queue.Kept.Places.{Held}
use kannader.Queue.Kept.Steps.{Kept, Ended}
use kannader.Queue.Kept.Send.{send-RunsTo}
use kannader.Queue.Scan.{recover}
use kannader.Queue.Kept.Recover.{recover-RunsTo}
use kannader.Queue.One.{
  One, one_id, one_holds, one_queue, one_storage-IsStorage, one_queue-IsQuiet, WasAccepted,
  WasRefused, one_queue-IsHistory,
}
use kannader.Queue.Ends.{IsReliable, Ends, Over, send-Ends}
use kannader.Fs.Types.{FsQueuedMail}
use kannader.Fs.Storage.{fs_storage}
use kannader.Fs.Laws
use kannader.Fs.Laws.{holds}
use kannader.Fs.Memory.{Disk, recipient_meta, memory, folders, there}

abbrev someone : Email
someone = record {
  localpart = Localpart.ascii (codes "joe");
  hostname = some (ascii_domain (codes "example.org"));
}

-- A mail is tried twice.
abbrev once : Option ℕ → Option ℕ
once none = some 60
once (some t) = none

abbrev intervals : ScheduleInfo → Option ℕ
intervals s = once s.last_attempt

-- A queue in folders in memory, over a network that gives this answer.
abbrev test_queue : Result (Unit {0}) TransportFailure → QueueImpl (Unit {0})
test_queue answer = record {
  World = Disk;
  storage = fs_storage (memory someone) (folders someone);
  config = record {
    next_interval = λ w s. (w, intervals s);
    log = λ w e. w;
    found_inflight_check_delay = 3600;
    io_error_next_retry_delay = λ d. d;
  };
  transport = record {
    Destination = Unit {0};
    Sender = Unit {0};
    destination = λ w m. (w, ok tt);
    connect = λ w d. (w, ok tt);
    send = λ w s m r. (w, answer);
  };
  clock = record { now = λ w. (w, 100); sleep = λ w d. w; longest = 1000000 };
}

abbrev mail_id : QueueId
mail_id = codes "07dc"

abbrev waiting_mail : FsQueuedMail
waiting_mail = record { id = mail_id; schedule = record { at = 0; last_attempt = none } }

abbrev one_mail : Disk
one_mail = record { links = λ d n. d == 1 && bytes_eq n mail_id; accepted = 0; refused = 0 }

abbrev accepts : QueueImpl (Unit {0})
accepts = test_queue (ok tt)

abbrev where_it_is : Disk → Place → QueueId → Bool
where_it_is = holds (memory someone) there (folders someone)

abbrev one_waits : One
one_waits = record { place = some queue; accepted = 0; refused = 0 }

one_waits-Held : Held one_holds one_waits one_id queue
unfolding Held
one_waits-Held r = refl

send-RunsTo_example :
    RunsTo
      (Kept one_queue one_holds WasAccepted WasRefused one_id)
      (Ended one_queue one_holds WasAccepted WasRefused one_id)
      (send one_queue 2 3 one_waits tt)
send-RunsTo_example =
    send-RunsTo one_queue one_holds WasAccepted WasRefused one_storage-IsStorage one_queue-IsQuiet
      one_queue-IsHistory 2 3 one_id one_waits tt refl one_waits-Held

-- A storage that never fails, where a mail is its schedule.
abbrev steady : Storage (Unit {0}) (Unit {0})
steady = record {
  Error = Unit {0};
  QueuedMail = ScheduleInfo;
  InflightMail = ScheduleInfo;
  PendingCleanupMail = Unit {0};
  Enqueuer = Unit {0};
  Reader = Unit {0};
  queued_id = λ m. mail_id;
  schedule = λ m. m;
  inflight_id = λ m. mail_id;
  pending_id = λ m. mail_id;
  list_queue = λ w. (w, []);
  find_inflight = λ w. (w, []);
  find_pending_cleanup = λ w. (w, []);
  enqueue = λ w. (w, ok tt);
  commit = λ w e ds. (w, ok []);
  read_inflight = λ w m. (w, ok (recipient_meta someone, tt));
  reschedule = λ w m s. (w, s, none);
  send_start = λ w m. (w, got (some m));
  send_done = λ w m. (w, got (some tt));
  send_cancel = λ w m. (w, got (some m));
  drop = λ w m. (w, got (some tt));
  cleanup = λ w m. (w, got true);
}

-- A queue that is refused, with this storage.
abbrev refused : QueueImpl (Unit {0})
refused = record {
  World = Unit {0};
  storage = steady;
  config = record {
    next_interval = λ w s. (w, intervals s);
    log = λ w e. w;
    found_inflight_check_delay = 3600;
    io_error_next_retry_delay = λ d. d;
  };
  transport = record {
    Destination = Unit {0};
    Sender = Unit {0};
    destination = λ w m. (w, ok tt);
    connect = λ w d. (w, err TransportFailure.network_transient);
    send = λ w s m r. (w, ok tt);
  };
  clock = record { now = λ w. (w, 100); sleep = λ w d. w; longest = 1000000 };
}

some_injective : {a b : ScheduleInfo} → some a ≡ some b → b ≡ a
some_injective e = cc

refused-IsReliable : IsReliable refused (λ m. m)
refused-IsReliable = record {
  send_start = λ w m i e. some_injective e;
  send_cancel = λ w m i e. some_injective e;
  send_done = λ w i. tt;
  drop = λ w m. tt;
  cleanup = λ w m. tt;
  read_inflight = λ w i. refl;
  reschedule = λ w m s. refl;
}

abbrev tries_left : Option ℕ → ℕ
tries_left none = 1
tries_left (some t) = 0

refused_counts : (last : Option ℕ) (i : ℕ) → once last ≡ some i → 0 < tries_left last
refused_counts none i e = omega arith
refused_counts (some t) i e = absurd (ground arith)

refused_next :
    (j t i : ℕ) (s : ScheduleInfo)
    → intervals s ≡ some i
    → tries_left (next_schedule refused t j).last_attempt < tries_left s.last_attempt
unfolding next_schedule
refused_next j t i s e = refused_counts s.last_attempt i e

send-Ends_example :
    Ends
      (Over refused (λ m. m) refused-IsReliable)
      (send refused 1 2 tt (record { at = 0; last_attempt = none }))
send-Ends_example =
    send-Ends refused (λ m. m) refused-IsReliable (λ s. tries_left s.last_attempt)
      (λ w id s i t e. refused_next _ t i s e) 0 2 tt (record { at = 0; last_attempt = none })
      (omega arith)

-- A world that keeps the waits, where the call fails every time.
abbrev waiting_queue : QueueImpl (Unit {0})
waiting_queue = record {
  World = List ℕ;
  storage = record {
    Error = Unit {0};
    QueuedMail = Unit {0};
    InflightMail = Unit {0};
    PendingCleanupMail = Unit {0};
    Enqueuer = Unit {0};
    Reader = Unit {0};
    queued_id = λ m. one_id;
    schedule = λ m. record { at = 0; last_attempt = none };
    inflight_id = λ m. one_id;
    pending_id = λ m. one_id;
    list_queue = λ w. (w, []);
    find_inflight = λ w. (w, []);
    find_pending_cleanup = λ w. (w, []);
    enqueue = λ w. (w, ok tt);
    commit = λ w e ds. (w, ok []);
    read_inflight = λ w m. (w, err tt);
    reschedule = λ w m s. (w, tt, none);
    send_start = λ w m. (w, failed tt tt);
    send_done = λ w m. (w, failed tt tt);
    send_cancel = λ w m. (w, failed tt tt);
    drop = λ w m. (w, failed tt tt);
    cleanup = λ w m. (w, failed tt tt);
  };
  config = record {
    next_interval = λ w s. (w, none);
    log = λ w e. w;
    found_inflight_check_delay = 3600;
    io_error_next_retry_delay = λ d. or_zero (io_error_next_retry_delay d);
  };
  transport = record {
    Destination = Unit {0};
    Sender = Unit {0};
    destination = λ w m. (w, ok tt);
    connect = λ w d. (w, ok tt);
    send = λ w s m r. (w, ok tt);
  };
  clock = record { now = λ w. (w, 0); sleep = λ w d. w ++ (d ∷ []); longest = 1000000 };
}

waiting_queue-IsTimed : IsTimed waiting_queue (waiting_queue.storage.cleanup) (λ m. one_id) (λ w. w)
waiting_queue-IsTimed = record {
  sleeps = λ w d. refl;
  logs = λ w e. refl;
  calls = λ w b. refl;
  by_default = λ d d' e. ap or_zero e;
}

retry-Waited_example :
    Waited waiting_queue waiting_queue.storage.cleanup
      (λ m. one_id)
      (λ w. w)
      []
      0
      3
      (retry waiting_queue waiting_queue.storage.cleanup (λ m. one_id) 3 0 [] tt)
retry-Waited_example =
    retry-Waited waiting_queue waiting_queue.storage.cleanup (λ m. one_id) (λ w. w)
      waiting_queue-IsTimed 3 [] tt (omega arith)

three_waits : delays 0 3 ≡ 0 ∷ 60 ∷ 120 ∷ []
unfolding delays delay
three_waits = refl

next_schedule-last_interval_example : last_interval (next_schedule refused 100 60) ≡ out_of_range
next_schedule-last_interval_example = next_schedule-last_interval refused 100 60 (omega arith)

-- A history that has nothing to tell.
abbrev Unknown : Disk → QueueId → Type 0
Unknown w id = Unit {0}

abbrev one_in_flight : One
one_in_flight = record { place = some inflight; accepted = 0; refused = 0 }

one_in_flight-Held : Held one_holds one_in_flight one_id inflight
unfolding Held
one_in_flight-Held r = refl

recover-RunsTo_example :
    RunsTo
      (Kept one_queue one_holds WasAccepted WasRefused one_id)
      (Ended one_queue one_holds WasAccepted WasRefused one_id)
      (recover one_queue 2 3 one_in_flight tt)
recover-RunsTo_example =
    recover-RunsTo one_queue one_holds one_storage-IsStorage one_queue-IsQuiet WasAccepted
      WasRefused one_queue-IsHistory 2 3 one_id one_in_flight tt refl one_in_flight-Held
