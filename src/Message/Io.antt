-- ===== src/Message/Io.antt =====
-- What the byte streams of futures (`AsyncRead`, `AsyncWrite`, `io::Error`) promise to the code that
-- is wrapped around them: smtp-message/src/data.rs takes such a stream as a type parameter.
use kannader.Prelude.{ℕ, ◌≤◌, List, ◌++◌, ◌≡◌, Bytes, flatten, length, take}

-- The `io::ErrorKind`s that the program names.
pub data ErrorKind : Type 0 where
  connection_aborted not_found timed_out write_zero other : ErrorKind

pub data Poll {ℓ} (A : Type ℓ) : Type ℓ where
  pending : Poll A
  ready : A → Poll A
  failed : ErrorKind → Poll A

-- A sink. `sent` is all that it has taken so far. A call that succeeds takes a prefix of what is
-- offered and says how long the prefix is; any other call takes nothing.
pub record AsyncWrite : Type 1 where
  pub Writer : Type 0
  pub poll_write_vectored : Writer → List Bytes → Writer × Poll ℕ
  pub poll_flush : Writer → Writer × Poll (Unit {0})
  pub sent : Writer → Bytes
  pub ready_bound :
      (w : Writer) (bufs : List Bytes) (n : ℕ)
      → (poll_write_vectored w bufs).1 ≡ ready n
      → n ≤ length (flatten bufs)
  pub ready_sends :
      (w : Writer) (bufs : List Bytes) (n : ℕ)
      → (poll_write_vectored w bufs).1 ≡ ready n
      → sent (poll_write_vectored w bufs).0 ≡ sent w ++ take n (flatten bufs)
  pub pending_sends :
      (w : Writer) (bufs : List Bytes)
      → (poll_write_vectored w bufs).1 ≡ pending
      → sent (poll_write_vectored w bufs).0 ≡ sent w

-- A source. `got` is all that it has given so far. A call that succeeds with `n` puts `n` bytes at
-- the beginning of the buffers, whose lengths stay as they are.
pub record AsyncRead : Type 1 where
  pub Reader : Type 0
  pub poll_read_vectored : Reader → List Bytes → Reader × List Bytes × Poll ℕ
  pub got : Reader → Bytes
  pub ready_bound :
      (r : Reader) (bufs : List Bytes) (n : ℕ)
      → (poll_read_vectored r bufs).2 ≡ ready n
      → n ≤ length (flatten (poll_read_vectored r bufs).1)
  pub keeps_length :
      (r : Reader) (bufs : List Bytes)
      → length (flatten (poll_read_vectored r bufs).1) ≡ length (flatten bufs)
  pub ready_gets :
      (r : Reader) (bufs : List Bytes) (n : ℕ)
      → (poll_read_vectored r bufs).2 ≡ ready n
      → got (poll_read_vectored r bufs).0 ≡ got r ++ take n (flatten (poll_read_vectored r bufs).1)

-- `io::Result`
pub data IoResult {ℓ} (A : Type ℓ) : Type ℓ where
  ok : A → IoResult A
  err : ErrorKind → IoResult A
