-- ===== src/Message/Data/Reader.antt =====
-- smtp-message/src/data.rs: `EscapedDataReader`, which passes a `DATA` stream on up to its
-- end-of-data mark and keeps what follows. A vectored buffer is a list of byte strings; the range
-- `unhandled` is its two ends.
pub mod Mark
pub mod Fill
pub mod Scan
pub mod Conserve
pub mod Total
use kannader.Prelude.{
  ℕ, suc, ◌+◌, ◌-◌, Bool, true, false, ◌||◌, Option, none, some, List, [], ◌∷◌, ◌++◌, ltb, leb, not,
  ◌&&◌, ◌==◌, if◌then◌else◌, Bytes, length, flatten, take, drop, slice, min,
}
use kannader.Message.Io.{connection_aborted, Poll, pending, ready, failed, AsyncRead}

pub data ReaderState : Type 0 where
  start cr cr_lf cr_lf_dot cr_lf_dot_cr end completed : ReaderState

abbrev pub is_end : ReaderState → Bool
is_end end = true
is_end _ = false

abbrev pub is_completed : ReaderState → Bool
is_completed completed = true
is_completed _ = false

-- The `match` of the loop in `poll_read_vectored`.
unfoldable pub next : ReaderState → ℕ → ReaderState
next cr c = if c == b'\n' then cr_lf else if c == b'\r' then cr else start
next cr_lf c = if c == b'.' then cr_lf_dot else if c == b'\r' then cr else start
next cr_lf_dot c = if c == b'\r' then cr_lf_dot_cr else start
next cr_lf_dot_cr c = if c == b'\n' then end else if c == b'\r' then cr else start
next _ c = if c == b'\r' then cr else start

abbrev pub found_later : ReaderState × Option ℕ → ReaderState × Option ℕ
found_later (s, none) = (s, none)
found_later (s, some i) = (s, some (suc i))

-- The inner loop over the bytes of one buffer: the state that it leaves, and the index of the byte
-- that completes the mark.
unfoldable pub scan : ReaderState → Bytes → ReaderState × Option ℕ
scan s [] = (s, none)
scan s (c ∷ cs) = elim (is_end (next s c)) [
  | true ↦ (next s c, some 0)
  | false ↦ found_later (scan (next s c) cs)
]

-- What the outer loop finds in `left` bytes: the state, the number of bytes up to the end of the
-- mark, or of all of them, and the buffers behind the mark, if it is there.
pub record Scanned : Type 0 where
  pub state : ReaderState
  pub size : ℕ
  pub behind : Option (List Bytes)

abbrev pub scanned_after : ℕ → Scanned → Scanned
scanned_after n r = record r { size = n + r.size }

unfoldable pub scan_bufs : ReaderState → ℕ → List Bytes → Scanned
scan_bufs s left [] = record { state = s; size = 0; behind = none }
scan_bufs s left (b ∷ bs) =
    let n = min (length b) left in
    let (s', found) = scan s (take n b) in
    elim found [
      | none ↦ scanned_after n (scan_bufs s' (left - n) bs)
      | some i ↦ record { state = s'; size = suc i; behind = some (drop (suc i) b ∷ bs) }
    ]

abbrev pub filled_with : Bytes → Option (List Bytes × ℕ) → Option (List Bytes × ℕ)
filled_with b none = none
filled_with b (some (bs, from)) = some (b ∷ bs, from)

-- The loop that fills the caller's buffers from `src[from..to]`; the new `from` comes second. `none` is
-- the underflow of `to - from`, or the panic of a slice that is out of range.
unfoldable pub fill : Bytes → ℕ → ℕ → List Bytes → Option (List Bytes × ℕ)
fill src from to [] = some ([], from)
fill src from to (b ∷ bs) =
    let n = min (length b) (to - from) in
    let rest = fill src (from + n) to bs in
    if leb from to && leb (from + n) (length src)
    then filled_with (slice from (from + n) src ++ drop n b) rest
    else none

-- The loop that copies `total` bytes behind the mark into the reader's buffer, from `copied` on.
-- `none` is the panic of a slice that is too short.
unfoldable pub copy_back : Bytes → ℕ → ℕ → List Bytes → Option (Bytes × ℕ)
copy_back dest copied total [] = some (dest, copied)
copy_back dest copied total (b ∷ bs) =
    let n = min (length b) (total - copied) in
    let later =
      copy_back (take copied dest ++ (take n b ++ drop (copied + n) dest)) (copied + n) total bs in
    if leb (copied + n) (length dest) then later else none

module _ (io : AsyncRead) where
  open io use {Reader, poll_read_vectored}

  pub record EscapedDataReader : Type 0 where
    pub buf : Bytes
    pub from : ℕ
    pub to : ℕ
    pub state : ReaderState
    pub read : Reader

  abbrev pub new : Bytes → ℕ → ℕ → Reader → EscapedDataReader
  new buf from to read = record { buf = buf; from = from; to = to; state = cr_lf; read = read }

  abbrev pub is_finished : EscapedDataReader → Bool
  is_finished e = is_end e.state || is_completed e.state

  -- `none` is the failed assertion.
  unfoldable pub complete : EscapedDataReader → Option EscapedDataReader
  complete e = if is_finished e then some (record e { state = completed }) else none

  unfoldable pub get_unhandled : EscapedDataReader → Option (ℕ × ℕ)
  get_unhandled e = if is_completed e.state then some (e.from, e.to) else none

  -- A poll gives the reader, the caller's buffers and the answer, or panics.
  abbrev pub Outcome : Type 0
  Outcome = Option (EscapedDataReader × List Bytes × Poll ℕ)

  -- The end of the mark was found `size` bytes into `raw` bytes.
  unfoldable pub keep_rest :
      EscapedDataReader → List Bytes → ℕ → ReaderState → ℕ → List Bytes → Outcome
  keep_rest e bufs raw s size behind =
      if e.from == e.to
      then elim (copy_back e.buf 0 (raw - size) behind) [
        | none ↦ none
        | some (buf, copied) ↦
            some (record e { buf = buf; from = 0; to = copied; state = s }, bufs, ready size)
      ]
      else if leb (raw - size) e.from
      then some (record e { from = e.from - (raw - size); state = s }, bufs, ready size)
      else none

  -- The loop over `raw` new bytes in the caller's buffers.
  unfoldable pub pass_on : EscapedDataReader → List Bytes → ℕ → Outcome
  unfolding keep_rest
  pass_on e bufs raw =
      let r = scan_bufs e.state raw bufs in
      elim r.behind [
        | none ↦ some (record e { state = r.state }, bufs, ready r.size)
        | some behind ↦ keep_rest e bufs raw r.state r.size behind
      ]

  -- What follows the reading of `raw` bytes.
  unfoldable pub after_fill : EscapedDataReader → List Bytes → ℕ → Outcome
  unfolding pass_on
  after_fill e bufs raw =
      if raw == 0
      then if length (flatten bufs) == 0
        then some (e, bufs, ready 0)
        else some (e, bufs, failed connection_aborted)
      else pass_on e bufs raw

  -- The answer of the source that the reader wraps.
  unfoldable pub after_read : EscapedDataReader → Reader × List Bytes × Poll ℕ → Outcome
  unfolding after_fill
  after_read e (read, bufs, ready raw) = after_fill (record e { read = read }) bufs raw
  after_read e (read, bufs, pending) = some (record e { read = read }, bufs, pending)
  after_read e (read, bufs, failed k) = some (record e { read = read }, bufs, failed k)

  abbrev pub after_own : EscapedDataReader → Option (List Bytes × ℕ) → Outcome
  after_own e none = none
  after_own e (some (bufs, from)) =
      after_fill (record e { from = from }) bufs ((e.to - e.from) - (e.to - from))

  -- The reader's own bytes first, and the source when there are none.
  unfoldable pub fill_own : EscapedDataReader → List Bytes → Outcome
  unfolding after_fill fill
  fill_own e bufs = after_own e (fill e.buf e.from e.to bufs)

  unfoldable pub poll_read_bufs : EscapedDataReader → List Bytes → Outcome
  unfolding fill_own after_read
  poll_read_bufs e bufs =
      if is_finished e
      then some (e, bufs, ready 0)
      else if not (leb e.from e.to)
      then none
      else if ltb 0 (e.to - e.from)
      then fill_own e bufs
      else after_read e (poll_read_vectored e.read bufs)

  unfoldable pub poll_read : EscapedDataReader → Bytes → Outcome
  poll_read e buf = poll_read_bufs e (buf ∷ [])
