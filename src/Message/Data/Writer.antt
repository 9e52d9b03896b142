-- ===== src/Message/Data/Writer.antt =====
-- smtp-message/src/data.rs: `EscapingDataWriter`, which doubles the dots that begin a line.
-- A vectored buffer is a list of byte strings.
pub mod Reference
pub mod Scan
pub mod Progress
pub mod Faults
use kannader.Prelude.{
  ℕ, suc, ◌-◌, Bool, true, false, Option, none, some, List, [], ◌∷◌, ltb, ◌==◌, if◌then◌else◌,
  Bytes, length, flatten, take, slice, min,
}
use kannader.Message.Io.{other, Poll, pending, ready, failed, AsyncWrite}

pub data WriterState : Type 0 where
  start cr cr_lf : WriterState

-- What the loop does at one byte: go on in a state, or escape.
pub data Move : Type 0 where
  go : WriterState → Move
  escape : Move

abbrev pub is_cr : WriterState → Bool
is_cr cr = true
is_cr _ = false

abbrev pub is_cr_lf : WriterState → Bool
is_cr_lf cr_lf = true
is_cr_lf _ = false

-- The `match` of the loop in `poll_write_vectored`.
unfoldable pub classify : WriterState → ℕ → Move
classify cr c = if c == b'\r' then go cr else if c == b'\n' then go cr_lf else go start
classify cr_lf c = if c == b'\r' then go cr else if c == b'.' then escape else go start
classify start c = if c == b'\r' then go cr else go start

abbrev pub found_later : WriterState × Option ℕ → WriterState × Option ℕ
found_later (s, none) = (s, none)
found_later (s, some i) = (s, some (suc i))

-- The inner loop over one buffer: the state that it leaves, and the index of a byte to escape.
unfoldable pub scan : WriterState → Bytes → WriterState × Option ℕ
scan s [] = (s, none)
scan s (c ∷ cs) = elim (classify s c) [ go s' ↦ found_later (scan s' cs) | escape ↦ (s, some 0) ]

abbrev pub found_after :
    Bytes → WriterState × Option (List Bytes) → WriterState × Option (List Bytes)
found_after b (s, none) = (s, none)
found_after b (s, some v) = (s, some (b ∷ v))

-- The outer loop: the state, and, when a byte is to be escaped, the buffers up to that byte.
unfoldable pub scan_bufs : WriterState → List Bytes → WriterState × Option (List Bytes)
scan_bufs s [] = (s, none)
scan_bufs s (b ∷ bs) =
    let (s', found) = scan s b in
    elim found [
      | none ↦ found_after b (scan_bufs s' bs)
      | some i ↦ (s', some (take (suc i) b ∷ []))
    ]

-- The `match` in `set_state_until`.
unfoldable pub advance : WriterState → ℕ → WriterState
advance s c =
    if c == b'\r' then cr else if is_cr s then (if c == b'\n' then cr_lf else start) else start

unfoldable pub advance_all : WriterState → Bytes → WriterState
advance_all s [] = s
advance_all s (c ∷ cs) = advance_all (advance s c) cs

-- `set_state_until`. The inner loop takes one from `n` for each byte that it looks at, which is
-- at most two bytes of each buffer.
unfoldable pub set_state_until : WriterState → List Bytes → ℕ → WriterState
set_state_until s [] n = s
set_state_until s (b ∷ bs) n =
    if ltb (length b) (n - 2)
    then set_state_until start bs (n - length b)
    else let seen = slice (n - 2) (min (length b) n) b in
      let s' = advance_all s seen in
      let later = set_state_until s' bs (n - length seen) in
      if n - length seen == 0 then s' else later

-- The bytes that `finish` hands to `write_all`.
unfoldable pub finish : WriterState → Bytes
finish cr_lf = b'.' ∷ b'\r' ∷ b'\n' ∷ []
finish _ = b'\r' ∷ b'\n' ∷ b'.' ∷ b'\r' ∷ b'\n' ∷ []

module _ (io : AsyncWrite) where
  open io use {Writer, poll_write_vectored}

  pub record EscapingDataWriter : Type 0 where
    pub state : WriterState
    pub write : Writer

  abbrev pub new : Writer → EscapingDataWriter
  new w = record { state = cr_lf; write = w }

  -- The poll of the inner sink, when all buffers are offered. `scanned` is the state after the
  -- loop, `initial` the one before it.
  unfoldable pub poll_all :
      WriterState → WriterState → List Bytes → Writer × Poll ℕ → EscapingDataWriter × Poll ℕ
  poll_all initial scanned bufs (w, ready s) =
      if s == length (flatten bufs)
      then (record { state = scanned; write = w }, ready s)
      else (record { state = set_state_until initial bufs s; write = w }, ready s)
  poll_all initial scanned bufs (w, pending) = (record { state = scanned; write = w }, pending)
  poll_all initial scanned bufs (w, failed e) = (record { state = scanned; write = w }, failed e)

  -- The same, when `offered` ends with the dot to escape: that dot is sent, and not reported.
  unfoldable pub poll_escape :
      WriterState
      → WriterState
      → List Bytes
      → List Bytes
      → Writer × Poll ℕ
      → EscapingDataWriter × Poll ℕ
  poll_escape initial scanned bufs offered (w, ready s) =
      if s == length (flatten offered)
      then (record { state = start; write = w }, ready (s - 1))
      else (record { state = set_state_until initial bufs s; write = w }, ready s)
  poll_escape initial scanned bufs offered (w, pending) =
      (record { state = scanned; write = w }, pending)
  poll_escape initial scanned bufs offered (w, failed e) =
      (record { state = scanned; write = w }, failed e)

  -- What follows the loop.
  unfoldable pub poll_scanned :
      EscapingDataWriter
      → List Bytes
      → WriterState × Option (List Bytes)
      → EscapingDataWriter × Poll ℕ
  unfolding poll_all poll_escape
  poll_scanned e bufs (scanned, none) =
      poll_all e.state scanned bufs (poll_write_vectored e.write bufs)
  poll_scanned e bufs (scanned, some v) =
      poll_escape e.state scanned bufs v (poll_write_vectored e.write v)

  unfoldable pub poll_write_bufs : EscapingDataWriter → List Bytes → EscapingDataWriter × Poll ℕ
  unfolding poll_scanned
  poll_write_bufs e bufs = poll_scanned e bufs (scan_bufs e.state bufs)

  unfoldable pub poll_write : EscapingDataWriter → Bytes → EscapingDataWriter × Poll ℕ
  poll_write e buf = poll_write_bufs e (buf ∷ [])

  -- A message cannot be closed but by `finish`.
  pub poll_close : EscapingDataWriter → EscapingDataWriter × Poll (Unit {0})
  poll_close e = (e, failed other)
