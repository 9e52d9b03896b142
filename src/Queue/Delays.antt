-- ===== src/Queue/Delays.antt =====
-- smtp-queue/src/lib.rs and smtp-queue-types/src/lib.rs: delays after errors, and intervals between attempts.
use mathlib.Core.Path.{subst}
use native.Mathlib.Nat.{one-le-pow, pow-le-pow_right}
use kannader.Prelude.{
  ℕ, zero, suc, ◌+◌, ◌*◌, ◌^◌, ◌<◌, ◌≤◌, true, false, some, List, [], ◌∷◌, ◌++◌, append-nil,
  append_assoc, ltb, ◌≡◌, refl, sym, ap, ◌∙◌, arith,
}
use kannader.Queue.Types.{QueueId, out_of_range, to_std, last_interval, last_interval_of}
use kannader.Queue.Storage.{Tried, got, failed, Event, storage_error, QueueImpl}
use kannader.Queue.Tasks.{Ran, io_error_next_retry_delay, after_try, retry, next_schedule}
use kannader.Queue.Runs.{RunsTo, RunsTo-map}

-- The delay behind a try, by the number of the tries before it.
unfoldable pub delay : ℕ → ℕ
delay zero = 0
delay (suc n) = 60 * 2 ^ n

-- The delays behind `n` tries, of which the first comes after `k` others.
unfoldable pub delays : ℕ → ℕ → List ℕ
unfolding delay
delays k zero = []
delays k (suc n) = delay k ∷ delays (suc k) n

next_delay : (k : ℕ) → k ≤ 58 → io_error_next_retry_delay (delay k) ≡ some (delay (suc k))
unfolding delay io_error_next_retry_delay
next_delay zero h = refl
next_delay (suc n) h =
    let low : 1 ≤ 2 ^ n = one-le-pow n 2 (omega arith) in
    let high : 2 ^ suc n ≤ 2 ^ 58 = pow-le-pow_right (omega arith) h in
    let long : ltb (60 * 2 ^ n) 30 ≡ false = ground arith in
    let fits : ltb (60 * 2 ^ n * 2) (2 ^ 64) ≡ true = ground arith in
    rw (long, fits) (ap some (omega arith))

module _ {U : Type 0} (q : QueueImpl U) where
  open q use {World, storage, config, clock}
  open storage use {Error}

  module _ {V B : Type 0} (call : World → B → World × Tried V B Error) (id : B → QueueId)
      (slept : World → List ℕ) where
    -- `slept` is how long each timer ran, which only the clock changes; and the configuration keeps the
    -- default, as long as this does not panic.
    pub record IsTimed : Type 0 where
      pub sleeps : (w : World) (d : ℕ) → slept (clock.sleep w d) ≡ slept w ++ (d ∷ [])
      pub logs : (w : World) (e : Event Error) → slept (config.log w e) ≡ slept w
      pub calls : (w : World) (b : B) → slept (call w b).0 ≡ slept w
      pub by_default :
          (d d' : ℕ)
          → io_error_next_retry_delay d ≡ some d'
          → config.io_error_next_retry_delay d ≡ d'

    -- The loop has waited behind `fuel` tries, or behind fewer, after which one succeeded.
    abbrev pub Waited : List ℕ → ℕ → ℕ → Ran World V → Type 0
    Waited before k fuel =
        RunsTo (λ w. slept w ≡ before ++ delays k fuel)
          (λ w v. (n : ℕ) × (n < fuel) × (slept w ≡ before ++ delays k n))

    after_try-Waited :
        (timed : IsTimed) (fuel k : ℕ) (w : World) (r : World × Tried V B Error)
        → k ≤ 58
        → slept r.0 ≡ slept w
        → ((w' : World) (b : B)
            → Waited (slept w') (suc k) fuel (retry q call id fuel (delay (suc k)) w' b))
        → Waited (slept w) k (suc fuel) (after_try q id (retry q call id fuel) (delay k) r)
    unfolding after_try RunsTo delays
    after_try-Waited timed fuel k w (w', got v) h same rest =
        (0, omega arith, same ∙ sym (append-nil (slept w)))
    after_try-Waited timed fuel k w (w', failed b e) h same rest =
        let logged = config.log w' (storage_error e (some (id b))) in
        let waits = clock.sleep logged (delay k) in
        let now : slept waits ≡ slept w ++ (delay k ∷ []) =
          timed.sleeps logged (delay k) ∙ ap (λ l. l ++ (delay k ∷ [])) (timed.logs w' _ ∙ same) in
        let behind : (n : ℕ)
            → slept waits ++ delays (suc k) n ≡ slept w ++ (delay k ∷ delays (suc k) n) =
          λ n. ap (λ l. l ++ delays (suc k) n) now ∙ append_assoc (slept w) (delay k ∷ []) _ in
        subst (λ d. Waited (slept w) k (suc fuel) (retry q call id fuel d waits b))
          (sym (timed.by_default (delay k) (delay (suc k)) (next_delay k h)))
          (RunsTo-map (λ w1. slept w1 ≡ slept waits ++ delays (suc k) fuel)
            (λ w1. slept w1 ≡ slept w ++ (delay k ∷ delays (suc k) fuel))
            (λ w1 v. (n : ℕ) × (n < fuel) × (slept w1 ≡ slept waits ++ delays (suc k) n))
            (λ w1 v. (n : ℕ) × (n < suc fuel) × (slept w1 ≡ slept w ++ delays k n))
            (λ w1 e1. e1 ∙ behind fuel) (λ w1 v (n, less, e1). (suc n, omega arith, e1 ∙ behind n))
            (retry q call id fuel (delay (suc k)) waits b) (rest waits b))

    retry_from-Waited :
        (timed : IsTimed) (fuel k : ℕ) (w : World) (b : B)
        → k + fuel ≤ 59
        → Waited (slept w) k fuel (retry q call id fuel (delay k) w b)
    unfolding retry RunsTo delays
    retry_from-Waited timed zero k w b h = sym (append-nil (slept w))
    retry_from-Waited timed (suc fuel) k w b h =
        after_try-Waited timed fuel k w (call w b) (omega arith) (timed.calls w b)
          (λ w' b'. retry_from-Waited timed fuel (suc k) w' b' (omega arith))

    -- In the loop over a call that may fail, with the default `io_error_next_retry_delay`, the wait
    -- behind the first failure is zero, behind the second it is a minute, and behind each further one
    -- it is twice the one before: so for as many tries as are made, up to 59, and where one of them
    -- succeeds the loop ends there, without a wait behind it. Only the clock waits.
    pub retry-Waited :
        (timed : IsTimed) (fuel : ℕ) (w : World) (b : B)
        → fuel ≤ 59
        → Waited (slept w) 0 fuel (retry q call id fuel 0 w b)
    unfolding delay
    retry-Waited timed fuel w b h = retry_from-Waited timed fuel 0 w b (omega arith)

-- Once a mail is to be tried again after a time that is not zero, `last_interval` of its schedule is an
-- error: the last attempt is before the next one, and the code takes the next from the last.
pub next_schedule-last_interval :
    {U : Type 0} (q : QueueImpl U) (this_attempt i : ℕ)
    → 0 < i
    → last_interval (next_schedule q this_attempt i) ≡ out_of_range
unfolding last_interval_of to_std next_schedule
next_schedule-last_interval q this_attempt i h = ground arith
