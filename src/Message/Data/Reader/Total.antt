-- ===== src/Message/Data/Reader/Total.antt =====
-- A poll of `EscapedDataReader` does not panic where the caller's buffers are not longer than its own.
use kannader.Prelude.{
  ℕ, ◌-◌, ◌≤◌, true, false, some, List, ◌≡◌, ◌≢◌, leb, refl, ap, inl, inr, ◌==◌, ltb, if◌then◌else◌,
  Bool, Bool-cases, Option-cases, Bytes, length, arith, flatten,
}
use kannader.Message.Io.{Poll, pending, ready, failed, AsyncRead}
use kannader.Message.Data.Reader.{
  ReaderState, scan_bufs, EscapedDataReader, Outcome, is_finished, keep_rest, pass_on, after_fill,
  after_read, fill_own, poll_read_bufs,
}
use kannader.Message.Data.Reader.Fill.{filled_by, fill_total, fill-range, copy_back_total}
use kannader.Message.Data.Reader.Conserve.{IsValid}

module _ (io : AsyncRead) where
  open io use {Reader, poll_read_vectored, ready_bound, keeps_length}

  -- The poll gives an answer.
  pub Answers : Outcome io → Type 0
  Answers o = (a : EscapedDataReader io × List Bytes × Poll ℕ) × (o ≡ some a)

  if-Answers : (b : Bool) (x y : Outcome io) → Answers x → Answers y → Answers (if b then x else y)
  if-Answers true x y hx hy = hx
  if-Answers false x y hx hy = hy

  keep_rest-Answers :
      (e : EscapedDataReader io) (bufs : List Bytes) (raw : ℕ) (s : ReaderState) (size : ℕ)
      (behind : List Bytes)
      → raw ≤ length e.buf
      → (e.from ≢ e.to → raw ≤ e.from)
      → Answers (keep_rest io e bufs raw s size behind)
  unfolding Answers keep_rest
  keep_rest-Answers e bufs raw s size behind h k = elim (Bool-cases (e.from == e.to)) [
    | inl empty ↦
        let (copied, c) = copy_back_total e.buf 0 (raw - size) behind (omega arith) (omega arith) in
        rw (empty, c) (_, refl)
    | inr holds ↦
        let own = k (λ same. ground arith) in
        let room : leb (raw - size) e.from ≡ true = ground arith in rw (holds, room) (_, refl)
  ]

  pass_on-Answers :
      (e : EscapedDataReader io) (bufs : List Bytes) (raw : ℕ)
      → raw ≤ length e.buf
      → (e.from ≢ e.to → raw ≤ e.from)
      → Answers (pass_on io e bufs raw)
  unfolding Answers pass_on
  pass_on-Answers e bufs raw h k = elim (Option-cases (scan_bufs e.state raw bufs).behind) [
    | inl none_behind ↦ rw (none_behind, pass_on) (_, refl)
    | inr (behind, found) ↦
        rw (found, pass_on)
          (keep_rest-Answers e bufs raw (scan_bufs e.state raw bufs).state
            (scan_bufs e.state raw bufs).size behind h k)
  ]

  after_fill-Answers :
      (e : EscapedDataReader io) (bufs : List Bytes) (raw : ℕ)
      → raw ≤ length e.buf
      → (e.from ≢ e.to → raw ≤ e.from)
      → Answers (after_fill io e bufs raw)
  unfolding Answers after_fill
  after_fill-Answers e bufs raw h k =
      if-Answers (raw == 0) _ (pass_on io e bufs raw)
        (if-Answers (length (flatten bufs) == 0) _ _ (_, refl) (_, refl))
        (pass_on-Answers e bufs raw h k)

  after_read-Answers :
      (e : EscapedDataReader io) (bufs : List Bytes) (a : Reader × List Bytes × Poll ℕ)
      → e.from ≡ e.to
      → poll_read_vectored e.read bufs ≡ a
      → length (flatten bufs) ≤ length e.buf
      → Answers (after_read io e a)
  unfolding Answers after_read
  after_read-Answers e bufs (read, bufs', ready raw) empty answer h =
      let bound : raw ≤ length (flatten (poll_read_vectored e.read bufs).1) =
        ready_bound e.read bufs raw (ap (λ a. a.2) answer) in
      let same : length (flatten (poll_read_vectored e.read bufs).1) ≡ length (flatten bufs) =
        keeps_length e.read bufs in
      after_fill-Answers (record e { read = read }) bufs' raw (omega arith)
        (λ more. absurd (more empty))
  after_read-Answers e bufs (read, bufs', pending) empty answer h = (_, refl)
  after_read-Answers e bufs (read, bufs', failed k) empty answer h = (_, refl)

  fill_own-Answers :
      (e : EscapedDataReader io) (bufs : List Bytes) → IsValid io e → Answers (fill_own io e bufs)
  unfolding fill_own
  fill_own-Answers e bufs v =
      let filled = filled_by e.buf e.from e.to bufs in
      let (low, high) = fill-range e.buf e.from e.to bufs v.ordered in
      rw (fill_total e.buf e.from e.to bufs v.ordered v.in_buf) (
        after_fill-Answers (record e { from = filled.1 }) filled.0
          ((e.to - e.from) - (e.to - filled.1)) (omega (arith, v.in_buf)) (λ more. omega arith))

  -- When the caller's buffers together are no longer than the reader's own, and the unhandled range
  -- lies in that buffer, a poll gives an answer: no slice of a copy is out of range, and no
  -- difference is below zero.
  pub poll_read_bufs-Answers :
      (e : EscapedDataReader io) (bufs : List Bytes)
      → IsValid io e
      → length (flatten bufs) ≤ length e.buf
      → Answers (poll_read_bufs io e bufs)
  unfolding Answers poll_read_bufs
  poll_read_bufs-Answers e bufs v h =
      let in_order : leb e.from e.to ≡ true = let ordered = v.ordered in ground arith in
      if-Answers (is_finished io e) _ _ (_, refl)
        (rw in_order (elim (Bool-cases (ltb 0 (e.to - e.from))) [
          | inl holds ↦ rw holds (fill_own-Answers e bufs v)
          | inr empty ↦ rw empty (
              after_read-Answers e bufs (poll_read_vectored e.read bufs) (ground (arith, v.ordered))
                refl h)
        ]))
