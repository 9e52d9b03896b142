-- ===== src/Message/Data/Writer/Progress.antt =====
-- One poll of the writer against dot-stuffing.
use kannader.Prelude.{
  ℕ, suc, ◌≤◌, none, some, [], ◌∷◌, ◌++◌, ◌≡◌, refl, sym, ap, ◌∙◌, inl, inr, ◌==◌, if◌then◌else◌,
  Bool-cases, Bytes, length, take, drop, arith, flatten, length-take, append_assoc, append-nil,
  take-append-drop, take_all, take-take_le, Option-cases, ==_iff,
}
use kannader.Message.Io.{Poll, pending, ready, failed, AsyncWrite}
use kannader.Message.Data.Writer.{
  WriterState, start, scan, scan_bufs, advance_all, finish, set_state_until, EscapingDataWriter,
  new, poll_all, poll_escape, poll_scanned, poll_write, poll_write_bufs,
}
use kannader.Message.Data.Spec.{wire}
use kannader.Message.Data.Writer.Reference.{stuff_from, stuff_from-stuff, finish-state_of}
use kannader.Message.Data.Writer.Scan.{
  clear, scan-clear, scan-state, scan_dot, set_state_until_one, scan_bufs-none, scan_bufs-some,
  advance_all-append, stuff_from-append,
}

-- From state `s`, with `text` to write, `new` went out, the first `r` bytes count as written, and
-- the state is `s'`: what is left of the text is then sent as it would have been.
pub record Progress (s : WriterState) (text new : Bytes) (s' : WriterState) (r : ℕ) : Type 0 where
  pub sends : stuff_from s text ≡ new ++ stuff_from s' (drop r text)
  pub lands : advance_all s text ≡ advance_all s' (drop r text)
  pub bound : r ≤ length text

module _ (s : WriterState) (xs : Bytes) where
  -- A prefix with nothing to escape.
  Progress-clear :
      (n : ℕ)
      → n ≤ clear (scan s xs).1 xs
      → n ≤ length xs
      → Progress s xs (take n xs) (advance_all s (take n xs)) n
  Progress-clear n h long = record {
    sends = scan-clear s xs n h;
    lands =
        ap (advance_all s) (sym (take-append-drop n xs))
        ∙ advance_all-append s (take n xs) (drop n xs);
    bound = long;
  }

  Progress-dot : (i : ℕ) → (scan s xs).1 ≡ some i → Progress s xs (take (suc i) xs) start i
  Progress-dot i h =
      let (sent, long, lands) = scan_dot s xs h in
      record { sends = sent; lands = lands; bound = omega arith }

-- What is sent is the text, with dots doubled, whatever prefix of it each part takes.
module _ (io : AsyncWrite) where
  open io use {Writer, poll_write_vectored, sent, ready_bound, ready_sends}

  -- What a poll that succeeds has done.
  pub record Polled (e : EscapingDataWriter io) (text : Bytes) (e' : EscapingDataWriter io) (r : ℕ)
      : Type 0 where
    pub new : Bytes
    pub sends : sent e'.write ≡ sent e.write ++ new
    pub progress : Progress e.state text new e'.state r

  module _ (e : EscapingDataWriter io) (xs : Bytes) where
    polled :
        {e' : EscapingDataWriter io} {r : ℕ} {t : WriterState} {w : Writer} {n : ℕ} (new : Bytes)
        → e'.state ≡ t
        → e'.write ≡ w
        → r ≡ n
        → sent w ≡ sent e.write ++ new
        → Progress e.state xs new t n
        → Polled e xs e' r
    polled new es ew er sends p = record {
      new = new;
      sends = ap sent ew ∙ sends;
      progress = rw (es, er) p;
    }

    -- What the sink took of the one buffer `b`.
    taken :
        (b : Bytes) {w : Writer} {n : ℕ}
        → poll_write_vectored e.write (b ∷ []) ≡ (w, ready n)
        → (n ≤ length b) × (sent w ≡ sent e.write ++ take n b)
    taken b {w} {n} h =
        let long = ready_bound e.write (b ∷ []) n (ap (λ p. p.1) h) in
        let sends = ready_sends e.write (b ∷ []) n (ap (λ p. p.1) h) in
        (rw append-nil at long, ap (λ p. sent p.0) (sym h) ∙ rw append-nil at sends)

    -- With nothing to escape, the state is right after a full write and after a short one.
    all_states :
        (n : ℕ)
        → (scan e.state xs).1 ≡ none
        → n ≤ length xs
        → (if n == length (flatten (xs ∷ []))
            then (scan e.state xs).0
            else set_state_until e.state (xs ∷ []) n)
          ≡ advance_all e.state (take n xs)
    all_states n whole long = elim (Bool-cases (n == length (xs ++ []))) [
      | inl full ↦
          let e_n : n ≡ length xs = rw append-nil at ((==_iff n (length (xs ++ []))).0 full) in
          rw (full, scan-state, whole, e_n) refl
      | inr short ↦ rw (short, set_state_until_one e.state xs n long) refl
    ]

    poll_all-Polled :
        {e' : EscapingDataWriter io} {r : ℕ} (p : Writer × Poll ℕ)
        → (scan e.state xs).1 ≡ none
        → poll_write_vectored e.write (xs ∷ []) ≡ p
        → poll_all io e.state (scan e.state xs).0 (xs ∷ []) p ≡ (e', ready r)
        → Polled e xs e' r
    unfolding poll_all
    poll_all-Polled (w, ready n) whole e_p h =
        let (long, sends) = taken xs e_p in
        polled {n = n} (take n xs) (ground (arith, all_states n whole long)) (ground arith)
          (ground arith) sends (Progress-clear e.state xs n (rw whole long) long)
    poll_all-Polled (w, pending) whole e_p h = absurd (ground arith)
    poll_all-Polled (w, failed k) whole e_p h = absurd (ground arith)

    escape_state :
        (i n : ℕ)
        → (scan e.state xs).1 ≡ some i
        → n ≤ i
        → set_state_until e.state (xs ∷ []) n ≡ advance_all e.state (take n xs)
    escape_state i n found short =
        set_state_until_one e.state xs n (omega (arith, (scan_dot e.state xs found).1))

    poll_escape-Polled :
        {e' : EscapingDataWriter io} {r : ℕ} (p : Writer × Poll ℕ) (i : ℕ)
        → (scan e.state xs).1 ≡ some i
        → poll_write_vectored e.write (take (suc i) xs ∷ []) ≡ p
        → poll_escape io e.state (scan e.state xs).0 (xs ∷ []) (take (suc i) xs ∷ []) p
          ≡ (e', ready r)
        → Polled e xs e' r
    unfolding poll_escape
    poll_escape-Polled (w, ready n) i found e_p h =
        let (long, sends) = taken (take (suc i) xs) e_p in
        let (_, within, _) = scan_dot e.state xs found in
        let offered : length (take (suc i) xs ++ []) ≡ suc i =
          ap length (append-nil (take (suc i) xs)) ∙ omega (arith, length-take (suc i) xs) in
        elim (Bool-cases (n == length (take (suc i) xs ++ []))) [
          | inl full ↦
              let e_n : n ≡ suc i = (==_iff n _).0 full ∙ offered in
              polled {n = i} (take (suc i) xs) (ground arith) (ground arith) (ground arith)
                (rw
                  (e_n, take_all (suc i) (take (suc i) xs) (omega (arith, length-take (suc i) xs)))
                  at sends)
                (Progress-dot e.state xs i found)
          | inr short ↦
              let n_i : n ≤ i = ground (arith, offered, length-take (suc i) xs) in
              polled {n = n} (take n xs) (ground (arith, escape_state i n found n_i)) (ground arith)
                (ground arith) (rw (take-take_le n (suc i) xs (omega arith)) at sends)
                (Progress-clear e.state xs n (rw found n_i) (omega arith))
        ]
    poll_escape-Polled (w, pending) i found e_p h = absurd (ground arith)
    poll_escape-Polled (w, failed k) i found e_p h = absurd (ground arith)

    pub poll_write-none :
        (scan e.state xs).1 ≡ none
        → poll_write io e xs
          ≡ poll_all io e.state
              (scan e.state xs).0
              (xs ∷ [])
              (poll_write_vectored e.write (xs ∷ []))
    unfolding poll_write poll_write_bufs scan_bufs
    poll_write-none h = ap (poll_scanned io e (xs ∷ [])) (scan_bufs-none e.state xs [] h)

    pub poll_write-some :
        {i : ℕ}
        → (scan e.state xs).1 ≡ some i
        → poll_write io e xs
          ≡ poll_escape io e.state
              (scan e.state xs).0
              (xs ∷ [])
              (take (suc i) xs ∷ [])
              (poll_write_vectored e.write (take (suc i) xs ∷ []))
    unfolding poll_write poll_write_bufs
    poll_write-some h = ap (poll_scanned io e (xs ∷ [])) (scan_bufs-some e.state xs [] h)

    -- A poll with one buffer that the sink answers with a count goes on with dot-stuffing.
    pub poll_write-Polled :
        {e' : EscapingDataWriter io} {r : ℕ} → poll_write io e xs ≡ (e', ready r) → Polled e xs e' r
    poll_write-Polled h = elim (Option-cases (scan e.state xs).1) [
      | inl whole ↦ poll_all-Polled _ whole refl (sym (poll_write-none whole) ∙ h)
      | inr (i, found) ↦ poll_escape-Polled _ i found refl (sym (poll_write-some found) ∙ h)
    ]

  -- A caller that writes a text, one buffer after another, and goes on after each poll behind the
  -- bytes that the poll counts as written.
  pub data Writes : EscapingDataWriter io → Bytes → EscapingDataWriter io → Type 0 where
    done : {e : EscapingDataWriter io} → Writes e [] e
    poll :
        {e e' e'' : EscapingDataWriter io} {r : ℕ} (buf rest : Bytes) {text : Bytes}
        → text ≡ buf ++ rest
        → poll_write io e buf ≡ (e', ready r)
        → Writes e' (drop r buf ++ rest) e''
        → Writes e text e''

  -- The text that is left, after one poll.
  Progress-append :
      {s s' : WriterState} {buf new : Bytes} {r : ℕ} (rest : Bytes)
      → Progress s buf new s' r
      → (stuff_from s (buf ++ rest) ≡ new ++ stuff_from s' (drop r buf ++ rest))
        × (advance_all s (buf ++ rest) ≡ advance_all s' (drop r buf ++ rest))
  Progress-append {s} {s'} {buf} {new} {r} rest p = (
    stuff_from-append s buf rest
        ∙ rw (p.sends, p.lands, stuff_from-append s' (drop r buf) rest) (append_assoc new _ _),
    advance_all-append s buf rest ∙ rw (p.lands, advance_all-append s' (drop r buf) rest) refl,
  )

  -- However the text is cut into polls, the sink gets it with its dots doubled.
  pub Writes-stuff_from :
      {e e' : EscapingDataWriter io} {text : Bytes}
      → Writes e text e'
      → (sent e'.write ≡ sent e.write ++ stuff_from e.state text)
        × (e'.state ≡ advance_all e.state text)
  unfolding advance_all
  Writes-stuff_from (done {e}) = (sym (append-nil (sent e.write)), refl)
  Writes-stuff_from (poll {e} {e'} {e''} buf rest t h later) =
      let p = poll_write-Polled e buf h in
      let (sends, lands) = Progress-append rest p.progress in
      let (all, last) = Writes-stuff_from later in
      (
        rw (t, sends) (all ∙ rw p.sends (append_assoc (sent e.write) p.new _)),
        rw t (last ∙ sym lands),
      )

  -- A new writer that is given a whole text, buffer by buffer, and then finished has sent the
  -- text's wire message, whatever prefix of a buffer the sink takes at each poll.
  pub Writes-wire :
      (w : Writer) (text : Bytes) {e : EscapingDataWriter io}
      → Writes (new io w) text e
      → sent e.write ++ finish e.state ≡ sent w ++ wire text
  Writes-wire w text h =
      let (sends, lands) = Writes-stuff_from h in
      rw
        (
          sends,
          lands,
          append_assoc,
          finish-state_of b'\r' b'\n' text,
          stuff_from-stuff b'\r' b'\n' text,
        )
        refl
