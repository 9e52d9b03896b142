-- ===== src/Message/Data/Writer/Faults.antt =====
-- Where the writer leaves dot-stuffing: short vectored writes, pending polls, and a count of zero.
use kannader.Prelude.{
  ℕ, suc, ◌≤◌, false, none, some, List, [], ◌∷◌, ◌++◌, ◌≡◌, refl, sym, ap, ◌∙◌, inl, inr, ◌==◌,
  Bool-cases, Bytes, length, arith, flatten, min,
}
use kannader.Message.Io.{Poll, pending, ready, failed, AsyncWrite}
use kannader.Message.Data.Writer.{
  WriterState, start, cr, cr_lf, classify, scan, scan_bufs, advance, advance_all, set_state_until,
  EscapingDataWriter, poll_escape, poll_scanned, poll_write, poll_write_bufs,
}
use kannader.Message.Data.Writer.Reference.{stuff_from}
use kannader.Message.Data.Writer.Progress.{poll_write-some}
use kannader.Message.Data.Writer.Scan.{scan-state, scan_bufs-none, scan_bufs-some}

abbrev line : ℕ → ℕ → Bytes
line x y = x ∷ y ∷ b'\r' ∷ b'\n' ∷ []

-- `set_state_until` with two bytes still to look at.
set_state_until_two :
    (s : WriterState) (a b : ℕ) (text : Bytes) (bufs : List Bytes)
    → set_state_until s ((a ∷ b ∷ text) ∷ bufs) 2 ≡ advance (advance s a) b
unfolding set_state_until advance_all
set_state_until_two s a b text bufs =
    let two : min (suc (suc (length text))) 2 ≡ 2 = omega arith in
    rw (two, set_state_until) (ground arith)

set_state_until_next :
    (s : WriterState) (x y c : ℕ) (text : Bytes) (bufs : List Bytes)
    → set_state_until s (line x y ∷ (b'.' ∷ c ∷ text) ∷ bufs) 4 ≡ advance start c
unfolding set_state_until advance_all advance
set_state_until_next s x y c text bufs = set_state_until_two cr_lf b'.' c text bufs

undoubled :
    (c : ℕ) (text : Bytes)
    → stuff_from (advance start c) (b'.' ∷ c ∷ text) ≡ b'.' ∷ stuff_from start (c ∷ text)
unfolding advance classify
undoubled c text = elim (Bool-cases (c == b'\r')) [ inl e ↦ rw e refl | inr e ↦ rw e refl ]

module _ (io : AsyncWrite) (e : EscapingDataWriter io) where
  open io use {Writer, poll_write_vectored, sent, ready_bound, ready_sends}

  escape_zero :
      (bufs : List Bytes) (scanned : WriterState) {e' : EscapingDataWriter io} {r : ℕ}
      (p : Writer × Poll ℕ)
      → ((n : ℕ) → p.1 ≡ ready n → n ≤ 1)
      → poll_escape io e.state scanned bufs ((b'.' ∷ []) ∷ []) p ≡ (e', ready r)
      → r ≡ 0
  unfolding poll_escape
  escape_zero bufs scanned (w, ready n) bound h = let n_1 = bound n refl in ground arith
  escape_zero bufs scanned (w, pending) bound h = absurd (ground arith)
  escape_zero bufs scanned (w, failed k) bound h = absurd (ground arith)

  escape_pending :
      (bufs offered : List Bytes) (scanned : WriterState) {e' : EscapingDataWriter io}
      (p : Writer × Poll ℕ)
      → poll_escape io e.state scanned bufs offered p ≡ (e', pending)
      → e'.state ≡ scanned
  unfolding poll_escape
  escape_pending bufs offered scanned (w, ready n) h = absurd (ground arith)
  escape_pending bufs offered scanned (w, pending) h = ground arith
  escape_pending bufs offered scanned (w, failed k) h = ground arith

  short_scan :
      (x y c : ℕ) (text : Bytes) (bufs : List Bytes)
      → (scan e.state (line x y)).1 ≡ none
      → scan_bufs e.state (line x y ∷ (b'.' ∷ c ∷ text) ∷ bufs)
        ≡ (cr_lf, some (line x y ∷ (b'.' ∷ []) ∷ []))
  unfolding advance_all advance scan classify
  short_scan x y c text bufs clean =
      let at_line : (scan e.state (line x y)).0 ≡ cr_lf =
        scan-state e.state (line x y) ∙ rw clean refl in
      scan_bufs-none e.state (line x y) _ clean
      ∙ rw (at_line, scan_bufs-some cr_lf (b'.' ∷ c ∷ text) bufs refl) refl

  escape_short :
      (bufs offered : List Bytes) (scanned : WriterState) (w : Writer) (k n : ℕ)
      → length (flatten offered) ≡ n
      → (k == n) ≡ false
      → poll_escape io e.state scanned bufs offered (w, ready k)
        ≡ (record { state = set_state_until e.state bufs k; write = w }, ready k)
  unfolding poll_escape
  escape_short bufs offered scanned w k n long short = rw (long, short) refl

  -- A buffer that begins with a dot, at the beginning of a line: the poll never counts a byte as
  -- written, though the sink may have taken the first dot.
  pub poll_write_dot_zero :
      (text : Bytes) {e' : EscapingDataWriter io} {r : ℕ}
      → e.state ≡ cr_lf
      → poll_write io e (b'.' ∷ text) ≡ (e', ready r)
      → r ≡ 0
  unfolding scan classify
  poll_write_dot_zero text at_line h =
      let found : (scan e.state (b'.' ∷ text)).1 ≡ some 0 = rw (at_line, scan) refl in
      escape_zero ((b'.' ∷ text) ∷ []) _ _ (ready_bound e.write ((b'.' ∷ []) ∷ []))
        (sym (poll_write-some io e (b'.' ∷ text) found) ∙ h)

  -- After a pending poll nothing was sent, yet the state has moved over the buffer. The same
  -- buffer, offered again as the caller must do, then goes out with its dot undoubled.
  pub poll_write_pending_undoubles :
      (text : Bytes) {e' : EscapingDataWriter io}
      → e.state ≡ cr
      → poll_write io e (b'\n' ∷ b'.' ∷ text) ≡ (e', pending)
      → (stuff_from e.state (b'\n' ∷ b'.' ∷ text) ≡ b'\n' ∷ b'.' ∷ b'.' ∷ stuff_from start text)
        × (stuff_from e'.state (b'\n' ∷ b'.' ∷ text) ≡ b'\n' ∷ b'.' ∷ stuff_from start text)
  unfolding scan classify
  poll_write_pending_undoubles text after_cr h =
      let buf = b'\n' ∷ b'.' ∷ text in
      let found : (scan e.state buf).1 ≡ some 1 = rw (after_cr, scan) refl in
      let scanned : (scan e.state buf).0 ≡ cr_lf = rw (after_cr, scan) refl in
      let moved = escape_pending (buf ∷ []) _ _ _ (sym (poll_write-some io e buf found) ∙ h) in
      (rw (after_cr, stuff_from) refl, rw (moved, scanned, stuff_from) refl)

  short_poll :
      (x y c : ℕ) (text : Bytes) (bufs : List Bytes) {w : Writer}
      → (scan e.state (line x y)).1 ≡ none
      → poll_write_vectored e.write (line x y ∷ (b'.' ∷ []) ∷ []) ≡ (w, ready 4)
      → poll_write_bufs io e (line x y ∷ (b'.' ∷ c ∷ text) ∷ bufs)
        ≡ (record { state = advance start c; write = w }, ready 4)
  unfolding poll_write_bufs poll_scanned
  short_poll x y c text bufs {w} clean took =
      let all = line x y ∷ (b'.' ∷ c ∷ text) ∷ bufs in
      ap (poll_scanned io e all) (short_scan x y c text bufs clean)
      ∙ ap (poll_escape io e.state cr_lf all (line x y ∷ (b'.' ∷ []) ∷ [])) took
      ∙ escape_short all (line x y ∷ (b'.' ∷ []) ∷ []) cr_lf w 4 5 refl refl
      ∙ rw (set_state_until_next e.state x y c text bufs) refl

  -- A short vectored write that ends exactly with a line: `set_state_until` goes on into the next
  -- buffer, of which nothing was sent, and forgets the line's end. That buffer, offered next, then
  -- goes out with its dot undoubled.
  pub poll_write_bufs_short_undoubles :
      (x y c : ℕ) (text : Bytes) (bufs : List Bytes) {w : Writer}
      → (scan e.state (line x y)).1 ≡ none
      → poll_write_vectored e.write (line x y ∷ (b'.' ∷ []) ∷ []) ≡ (w, ready 4)
      → (sent w ≡ sent e.write ++ line x y)
        × (advance_all e.state (line x y) ≡ cr_lf)
        × (stuff_from cr_lf (b'.' ∷ c ∷ text) ≡ b'.' ∷ b'.' ∷ stuff_from start (c ∷ text))
        × ((poll_write_bufs io e (line x y ∷ (b'.' ∷ c ∷ text) ∷ bufs)).1 ≡ ready 4)
        × (stuff_from
              (poll_write_bufs io e (line x y ∷ (b'.' ∷ c ∷ text) ∷ bufs)).0.state
              (b'.' ∷ c ∷ text)
            ≡ b'.' ∷ stuff_from start (c ∷ text))
  unfolding advance_all advance classify
  poll_write_bufs_short_undoubles x y c text bufs clean took =
      let polled = short_poll x y c text bufs clean took in
      (
        ap (λ p. sent p.0) (sym took) ∙ ready_sends e.write _ 4 (ap (λ p. p.1) took),
        refl,
        refl,
        ap (λ p. p.1) polled,
        rw polled (undoubled c text),
      )
