-- ===== src/Message/Data/Reader/Conserve.antt =====
-- No byte of a `DATA` stream is lost, invented or reordered by `EscapedDataReader`.
use mathlib.Core.Path.{subst}
use kannader.Prelude.{
  ℕ, ◌+◌, ◌-◌, ◌≤◌, false, none, some, List, [], ◌++◌, ◌≡◌, ◌≢◌, refl, sym, ap, ◌∙◌, ◌⊎◌, inl, inr,
  ◌==◌, Bool-cases, Option-cases, Bytes, ltb, leb, true, length, arith, take, drop, slice,
  append-nil, flatten, length-append, length-take, length-drop, take-take_le, take_prefix, take_add,
  slice_self, slice_join, ==_iff,
}
use kannader.Message.Io.{Poll, pending, ready, failed, AsyncRead}
use kannader.Message.Data.Reader.{
  ReaderState, scan, Scanned, scan_bufs, copy_back, EscapedDataReader, Outcome, is_finished,
  keep_rest, pass_on, after_fill, after_read, fill_own, after_own, poll_read_bufs,
}
use kannader.Message.Data.Reader.Fill.{
  filled_by, fill_total, fill-range, length-fill, fill_begins, copy_back_sound,
}
use kannader.Message.Data.Reader.Scan.{scan_bufs-IsScan}

scan_nil : (s : ReaderState) → scan s [] ≡ (s, none)
unfolding scan
scan_nil s = refl

take-slice :
    (xs : Bytes) (from to n : ℕ)
    → n ≤ to - from
    → take n (slice from to xs) ≡ slice from (from + n) xs
take-slice xs from to n h =
    take-take_le n (to - from) (drop from xs) h ∙ ap (λ k. take k (drop from xs)) (omega arith)

copied_all : (copied n : ℕ) → copied ≡ n → copied - 0 ≡ n
copied_all copied n h = omega arith

module _ (io : AsyncRead) where
  open io use {Reader, poll_read_vectored, got, ready_bound, ready_gets, keeps_length}

  -- The bytes that the reader holds.
  abbrev pub own : EscapedDataReader io → Bytes
  own e = slice e.from e.to e.buf

  pub record IsValid (e : EscapedDataReader io) : Type 0 where
    pub ordered : e.from ≤ e.to
    pub in_buf : e.to ≤ length e.buf

  -- What became of the bytes behind the `n` first of `raw` bytes, which begin the bytes `all`.
  pub record Passed (e : EscapedDataReader io) (all : Bytes) (raw : ℕ) (e' : EscapedDataReader io)
      (n : ℕ) : Type 0 where
    pub within : n ≤ raw
    pub same_source : e'.read ≡ e.read
    pub scanned :
        (scan e.state (take n all) ≡ (e'.state, none))
        ⊎ (scan e.state (take n all) ≡ (e'.state, some (n - 1)))
    pub same_length : length e'.buf ≡ length e.buf
    pub ordered : e'.from ≤ e'.to
    pub in_buf : e'.to ≤ length e.buf
    pub kept :
        ((n ≡ raw) × (own e' ≡ own e))
        ⊎ ((e.from ≡ e.to) × (own e' ≡ take (raw - n) (drop n all)))
        ⊎ ((e.from ≢ e.to) × (own e' ≡ slice (e.from - (raw - n)) e.to e.buf))

  Passed-to :
      {e a e' : EscapedDataReader io} {bufs bufs' : List Bytes} {all : Bytes} {raw k n : ℕ}
      → ◌≡◌ {A = Outcome io} (some (a, bufs, ready k)) (some (e', bufs', ready n))
      → Passed e all raw a k
      → (bufs' ≡ bufs) × Passed e all raw e' n
  Passed-to {e} {a} {e'} {bufs} {bufs'} {all} {raw} {k} {n} h p =
      let same_reader : a ≡ e' = ground arith in
      let same_count : k ≡ n = ground arith in
      let same_bufs : bufs' ≡ bufs = ground arith in
      (
        same_bufs,
        subst (λ x. Passed e all raw x n) same_reader
            (subst (λ m. Passed e all raw a m) same_count p),
      )

  module _ (e : EscapedDataReader io) (bufs : List Bytes) (raw : ℕ) (v : IsValid e)
      (fits : raw ≤ length (flatten bufs)) where
    abbrev r : Scanned
    r = scan_bufs e.state raw bufs

    pass_on-none :
        r.behind ≡ none → Passed e (flatten bufs) raw (record e { state = r.state }) r.size
    pass_on-none whole =
        let s = scan_bufs-IsScan e.state raw bufs fits in
        record {
          within = s.within;
          same_source = refl;
          scanned = inl (s.agrees ∙ rw whole refl);
          same_length = refl;
          ordered = v.ordered;
          in_buf = v.in_buf;
          kept = inl (s.whole whole, refl);
        }

    module _ (behind : List Bytes) (found : r.behind ≡ some behind) where
      scanned_some : scan e.state (take r.size (flatten bufs)) ≡ (r.state, some (r.size - 1))
      scanned_some = let s = scan_bufs-IsScan e.state raw bufs fits in s.agrees ∙ rw found refl

      length-behind : raw - r.size ≤ length (flatten behind)
      length-behind =
          let s = scan_bufs-IsScan e.state raw bufs fits in
          let rest = s.behind_is behind found in
          omega (arith, ap length rest, length-drop r.size (flatten bufs))

      copied-Passed :
          {buf : Bytes} {copied : ℕ}
          → e.from ≡ e.to
          → copy_back e.buf 0 (raw - r.size) behind ≡ some (buf, copied)
          → Passed e
              (flatten bufs)
              raw
              (record e { buf = buf; from = 0; to = copied; state = r.state })
              r.size
      copied-Passed {buf} {copied} empty h =
          let s = scan_bufs-IsScan e.state raw bufs fits in
          let (count, long, room, bytes) =
            copy_back_sound e.buf 0 (raw - r.size) behind (omega arith) (omega arith)
              (omega (arith, length-behind)) h in
          record {
            within = s.within;
            same_source = refl;
            scanned = inr scanned_some;
            same_length = long;
            ordered = omega arith;
            in_buf = omega arith;
            kept = inr (
                inl (
                  empty,
                  ap (λ k. take k buf) (copied_all copied _ count)
                      ∙ bytes
                      ∙ ap (λ k. take k (flatten behind))
                          (copied_all (raw - r.size) (raw - r.size) refl)
                      ∙ ap (take (raw - r.size)) (s.behind_is behind found),
                ));
          }

      keep_rest-Passed :
          {e' : EscapedDataReader io} {bufs' : List Bytes} {n : ℕ}
          → keep_rest io e bufs raw r.state r.size behind ≡ some (e', bufs', ready n)
          → (bufs' ≡ bufs) × Passed e (flatten bufs) raw e' n
      unfolding keep_rest
      keep_rest-Passed h = elim (Bool-cases (e.from == e.to)) [
        | inl empty ↦ elim (Option-cases (copy_back e.buf 0 (raw - r.size) behind)) [
          | inl panic ↦ absurd (ground arith)
          | inr ((buf, copied), c) ↦
              Passed-to (sym (rw (empty, c) refl) ∙ h)
                (copied-Passed ((==_iff e.from e.to).0 empty) c)
        ]
        | inr holds_more ↦ elim (Bool-cases (leb (raw - r.size) e.from)) [
          | inr underflow ↦ absurd (ground arith)
          | inl room ↦
              let s = scan_bufs-IsScan e.state raw bufs fits in
              Passed-to (sym (rw (holds_more, room) refl) ∙ h) (record {
                within = s.within;
                same_source = refl;
                scanned = inr scanned_some;
                same_length = refl;
                ordered = omega (arith, v.ordered);
                in_buf = v.in_buf;
                kept = inr (inr (λ empty. ground arith, refl));
              })
        ]
      ]

    pass_on-Passed :
        {e' : EscapedDataReader io} {bufs' : List Bytes} {n : ℕ}
        → pass_on io e bufs raw ≡ some (e', bufs', ready n)
        → (bufs' ≡ bufs) × Passed e (flatten bufs) raw e' n
    unfolding pass_on
    pass_on-Passed h = elim (Option-cases r.behind) [
      | inl whole ↦ Passed-to (sym (rw (whole, pass_on) refl) ∙ h) (pass_on-none whole)
      | inr (behind, found) ↦ keep_rest-Passed behind found (sym (rw (found, pass_on) refl) ∙ h)
    ]

    after_fill-Passed :
        {e' : EscapedDataReader io} {bufs' : List Bytes} {n : ℕ}
        → after_fill io e bufs raw ≡ some (e', bufs', ready n)
        → (bufs' ≡ bufs) × Passed e (flatten bufs) raw e' n
    unfolding after_fill
    after_fill-Passed h = elim (Bool-cases (raw == 0)) [
      | inr some_bytes ↦ pass_on-Passed (sym (rw (some_bytes, after_fill) refl) ∙ h)
      | inl nothing ↦ elim (Bool-cases (length (flatten bufs) == 0)) [
        | inr room ↦ absurd (ground arith)
        | inl no_room ↦
            let no_bytes : 0 ≡ raw = sym ((==_iff raw 0).0 nothing) in
            Passed-to (sym (rw (nothing, no_room, after_fill) refl) ∙ h) (record {
              within = omega arith;
              same_source = refl;
              scanned = inl (scan_nil e.state);
              same_length = refl;
              ordered = v.ordered;
              in_buf = v.in_buf;
              kept = inl (no_bytes, refl);
            })
      ]
    ]

  -- The `raw` bytes and what the reader held behind them are passed on or kept, in order.
  Passed-bytes :
      (e : EscapedDataReader io) (all : Bytes) (raw : ℕ) {e' : EscapedDataReader io} {n : ℕ}
      → IsValid e
      → (e.from ≢ e.to → (raw ≤ e.from) × (take raw all ≡ slice (e.from - raw) e.from e.buf))
      → Passed e all raw e' n
      → take n all ++ own e' ≡ take raw all ++ own e
  Passed-bytes e all raw {e'} {n} v source p = elim p.kept [
    | inl (count, same) ↦ rw (count, same) refl
    | inr (inl (empty, copied)) ↦
        let n_raw : n + (raw - n) ≡ raw = omega (arith, p.within) in
        rw copied (
          sym (take_add n (raw - n) all)
          ∙ ap (λ k. take k all) n_raw
          ∙ sym (append-nil (take raw all))
          ∙ ap (λ ys. take raw all ++ ys)
              (sym (slice_self e.from e.buf) ∙ ap (λ k. slice e.from k e.buf) empty))
    | inr (inr (more, back)) ↦
        let (in_front, begins) = source more in
        let there : e.from - (raw - n) ≡ (e.from - raw) + n = omega (arith, p.within) in
        let start_of = e.from - raw in
        rw (back, there, begins)
          (ap (λ ys. ys ++ slice (start_of + n) e.to e.buf)
              (sym (take-take_le n raw all p.within)
                ∙ ap (take n) begins
                ∙ take-slice e.buf start_of e.from n (omega (arith, p.within)))
            ∙ slice_join start_of (start_of + n) e.to e.buf (omega arith)
                (omega (arith, p.within, v.ordered))
            ∙ sym (slice_join start_of e.from e.to e.buf (omega arith) v.ordered))
  ]

  -- What a poll that succeeds has done, from reader `e` to reader `e'`, with `n` bytes in `bufs'`.
  pub record Delivered (e e' : EscapedDataReader io) (bufs' : List Bytes) (n : ℕ) : Type 0 where
    pub new : Bytes
    pub gets : got e'.read ≡ got e.read ++ new
    pub conserved : take n (flatten bufs') ++ own e' ≡ own e ++ new
    pub scanned :
        (scan e.state (take n (flatten bufs')) ≡ (e'.state, none))
        ⊎ (scan e.state (take n (flatten bufs')) ≡ (e'.state, some (n - 1)))
    pub valid : IsValid e'

  module _ (e : EscapedDataReader io) (bufs : List Bytes) (v : IsValid e) where
    fill_own-Delivered :
        {e' : EscapedDataReader io} {bufs' : List Bytes} {n : ℕ}
        → fill_own io e bufs ≡ some (e', bufs', ready n)
        → Delivered e e' bufs' n
    unfolding fill_own
    fill_own-Delivered h =
        let filled = (filled_by e.buf e.from e.to bufs).0 in
        let f = (filled_by e.buf e.from e.to bufs).1 in
        let raw = (e.to - e.from) - (e.to - f) in
        let (low, high) = fill-range e.buf e.from e.to bufs v.ordered in
        let (junk, begins) = fill_begins e.buf e.from e.to bufs v.ordered v.in_buf in
        let long = length-fill e.buf e.from e.to bufs v.ordered v.in_buf in
        let count : raw ≡ f - e.from = omega (arith, low, high, v.ordered) in
        let sliced : length (slice e.from f e.buf) ≡ f - e.from = omega (
          arith,
          length-take (f - e.from) (drop e.from e.buf),
          length-drop e.from e.buf,
          v.in_buf,
        ) in
        let e1 : EscapedDataReader io = record e { from = f } in
        let first : take raw (flatten filled) ≡ slice e.from f e.buf =
          ap (take raw) begins ∙ take_prefix raw (slice e.from f e.buf) junk (sliced ∙ sym count) in
        let (same, p) =
          after_fill-Passed e1 filled raw (record { ordered = high; in_buf = v.in_buf })
            (omega
              (arith, ap length begins, length-append (slice e.from f e.buf) junk, sliced, count))
            (sym (ap (after_own io e) (fill_total e.buf e.from e.to bufs v.ordered v.in_buf))
              ∙ h) in
        let before : f - raw ≡ e.from = omega arith in
        rw same (record {
          new = [];
          gets = ap got p.same_source ∙ sym (append-nil (got e.read));
          conserved =
              Passed-bytes e1 (flatten filled) raw (record { ordered = high; in_buf = v.in_buf })
                (λ _. (omega arith, first ∙ ap (λ k. slice k f e.buf) (sym before))) p
              ∙ ap (λ ys. ys ++ slice f e.to e.buf) first
              ∙ slice_join e.from f e.to e.buf low high
              ∙ sym (append-nil (slice e.from e.to e.buf));
          scanned = p.scanned;
          valid = record { ordered = p.ordered; in_buf = omega (arith, p.in_buf, p.same_length) };
        })

    after_read-Delivered :
        (a : Reader × List Bytes × Poll ℕ) {e' : EscapedDataReader io} {bufs' : List Bytes} {n : ℕ}
        → e.from ≡ e.to
        → poll_read_vectored e.read bufs ≡ a
        → after_read io e a ≡ some (e', bufs', ready n)
        → Delivered e e' bufs' n
    unfolding after_read
    after_read-Delivered (read, read_bufs, ready raw) empty e_a h =
        let long = ready_bound e.read bufs raw (ap (λ x. x.2) e_a) in
        let bytes = ready_gets e.read bufs raw (ap (λ x. x.2) e_a) in
        let e1 : EscapedDataReader io = record e { read = read } in
        let (same, p) =
          after_fill-Passed e1 read_bufs raw (record { ordered = v.ordered; in_buf = v.in_buf })
            (rw e_a at long) h in
        rw same (record {
          new = take raw (flatten read_bufs);
          gets = ap got p.same_source ∙ rw e_a at bytes;
          conserved =
              Passed-bytes e1 (flatten read_bufs) raw
                (record { ordered = v.ordered; in_buf = v.in_buf }) (λ more. absurd (more empty)) p
              ∙ ap (λ ys. take raw (flatten read_bufs) ++ ys) (own_nil empty)
              ∙ append-nil (take raw (flatten read_bufs))
              ∙ ap (λ ys. ys ++ take raw (flatten read_bufs)) (sym (own_nil empty));
          scanned = p.scanned;
          valid = record { ordered = p.ordered; in_buf = omega (arith, p.in_buf, p.same_length) };
        })
      where
        own_nil : e.from ≡ e.to → own e ≡ []
        own_nil eq = ap (λ k. slice e.from k e.buf) (sym eq) ∙ slice_self e.from e.buf
    after_read-Delivered (read, read_bufs, pending) empty e_a h = absurd (ground arith)
    after_read-Delivered (read, read_bufs, failed k) empty e_a h = absurd (ground arith)

    in_order : leb e.from e.to ≡ true
    in_order = let ordered = v.ordered in ground arith

    -- A poll of a reader that has not finished passes on the stream as it is: what it delivers,
    -- and then what it holds, is what it held and then what the source gave. The mark does not end
    -- before the last byte delivered, and the new state is that of a scan of these bytes.
    pub poll_read_bufs-Delivered :
        {e' : EscapedDataReader io} {bufs' : List Bytes} {n : ℕ}
        → is_finished io e ≡ false
        → poll_read_bufs io e bufs ≡ some (e', bufs', ready n)
        → Delivered e e' bufs' n
    unfolding poll_read_bufs
    poll_read_bufs-Delivered open_still h = elim (Bool-cases (ltb 0 (e.to - e.from))) [
      | inl holds ↦
          fill_own-Delivered (sym (rw (open_still, in_order, holds, poll_read_bufs) refl) ∙ h)
      | inr empty ↦
          after_read-Delivered _ (ground (arith, v.ordered)) refl
            (sym (rw (open_still, in_order, empty, poll_read_bufs) refl) ∙ h)
    ]
