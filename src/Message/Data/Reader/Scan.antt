-- ===== src/Message/Data/Reader/Scan.antt =====
-- The loop of `poll_read_vectored` over several buffers is a scan of their bytes.
use mathlib.Core.Option
use mathlib.Core.Path.{subst}
use native.Mathlib.Decide.{dec_le}
use native.Mathlib.Nat.{le_refl}
use kannader.Prelude.{
  ℕ, suc, ◌+◌, ◌-◌, ◌≤◌, ◌<◌, Option, none, some, List, [], ◌∷◌, ◌++◌, ◌≡◌, refl, sym, ap, ◌∙◌, inl,
  inr, Bool-cases, Option-cases, Bytes, length, arith, take, drop, min, flatten, length-append,
  length-take, drop_append_le, take-take_le, take_append_le, take_all, drop_prefix, drop-drop,
  take_add, take-append_length, drop-append_length,
}
use kannader.Message.Data.Reader.{
  ReaderState, is_end, next, scan, found_later, Scanned, scan_bufs, scanned_after,
}
use kannader.Message.Data.Reader.Mark.{scan_end, scan_on}

abbrev pub shift : ℕ → ReaderState × Option ℕ → ReaderState × Option ℕ
shift n (s, o) = (s, Option.map (◌+◌ n) o)

found_later-shift : (n : ℕ) (r : ReaderState × Option ℕ) → found_later (shift n r) ≡ shift (suc n) r
found_later-shift n (s, none) = refl
found_later-shift n (s, some i) = ap (λ k. (s, some k)) (omega arith)

shift_zero : (r : ReaderState × Option ℕ) → r ≡ shift 0 r
shift_zero (s, none) = refl
shift_zero (s, some i) = ap (λ k. (s, some k)) (omega arith)

found_later-none :
    (r : ReaderState × Option ℕ)
    → (found_later r).1 ≡ none
    → (r.1 ≡ none) × ((found_later r).0 ≡ r.0)
found_later-none (s, none) h = (refl, refl)
found_later-none (s, some i) h = cc

found_later-some :
    (r : ReaderState × Option ℕ) {i : ℕ}
    → (found_later r).1 ≡ some i
    → (j : ℕ) × (i ≡ suc j) × (r.1 ≡ some j) × ((found_later r).0 ≡ r.0)
found_later-some (s, none) h = cc
found_later-some (s, some j) h = (j, ground arith, refl, refl)

-- Where no mark was found, the scan goes on behind.
pub scan-append :
    (s : ReaderState) (xs ys : Bytes)
    → (scan s xs).1 ≡ none
    → scan s (xs ++ ys) ≡ shift (length xs) (scan (scan s xs).0 ys)
unfolding scan
scan-append s [] ys h = shift_zero (scan s ys)
scan-append s (c ∷ cs) ys h = elim (Bool-cases (is_end (next s c))) [
  | inl ends ↦ absurd (ground (arith, ap (λ r. r.1) (scan_end s c cs ends)))
  | inr goes_on ↦
      let (h', same) = found_later-none (scan (next s c) cs) (rw (scan_on s c cs goes_on) at h) in
      rw
        (
          scan_on s c (cs ++ ys) goes_on,
          scan-append (next s c) cs ys h',
          scan_on s c cs goes_on,
          same,
        )
        (found_later-shift (length cs) _)
]

-- Where one was found, the bytes behind it do not matter.
pub scan_prefix :
    (s : ReaderState) (xs : Bytes) {i : ℕ}
    → (scan s xs).1 ≡ some i
    → (scan s (take (suc i) xs) ≡ ((scan s xs).0, some i)) × (suc i ≤ length xs)
unfolding scan
scan_prefix s [] h = cc
scan_prefix s (c ∷ cs) {i} h = elim (Bool-cases (is_end (next s c))) [
  | inl ends ↦
      let at_once : i ≡ 0 = ground (arith, ap (λ r. r.1) (scan_end s c cs ends)) in
      (rw (at_once, scan_end s c cs ends) (scan_end s c [] ends), omega arith)
  | inr goes_on ↦
      let (j, e, h', same) =
        found_later-some (scan (next s c) cs) (rw (scan_on s c cs goes_on) at h) in
      let (later, long) = scan_prefix (next s c) cs h' in
      (
        rw (e, scan_on s c (take (suc j) cs) goes_on, later, scan_on s c cs goes_on, same) refl,
        omega arith,
      )
]

abbrev pub index : Scanned → Option ℕ
index r = elim r.behind [ none ↦ none | some _ ↦ some (r.size - 1) ]

-- The result of the loop over `left` bytes of the buffers, whose bytes are `all`.
pub record IsScan (s : ReaderState) (left : ℕ) (all : Bytes) (r : Scanned) : Type 0 where
  pub within : r.size ≤ left
  pub agrees : scan s (take r.size all) ≡ (r.state, index r)
  pub whole : r.behind ≡ none → r.size ≡ left
  pub behind_is : (t : List Bytes) → r.behind ≡ some t → flatten t ≡ drop r.size all
  pub some_bytes : (t : List Bytes) → r.behind ≡ some t → 0 < r.size

module _ (b all : Bytes) (left k : ℕ) (h : k ≤ left - min (length b) left) where
  take_buf : take (min (length b) left + k) (b ++ all) ≡ take (min (length b) left) b ++ take k all
  take_buf = take_add (min (length b) left) k (b ++ all) ∙ elim (dec_le (length b) left) [
    | yes fits ↦
        let all_of_b : min (length b) left ≡ length b = omega arith in
        rw
          (
            all_of_b,
            take-append_length b all,
            drop-append_length b all,
            take_all (length b) b (le_refl (length b)),
          )
          refl
    | no longer ↦
        let no_more : k ≡ 0 = omega arith in
        rw (no_more, take_append_le (min (length b) left) b all (omega arith)) refl
  ]

  drop_buf : 0 < k → drop (min (length b) left + k) (b ++ all) ≡ drop k all
  drop_buf p =
      sym (drop-drop k (min (length b) left) (b ++ all))
      ∙ ap (drop k) (drop_prefix (min (length b) left) b all (omega arith))

index_later :
    (m n : ℕ) (q : Scanned)
    → m ≡ n
    → ((t : List Bytes) → q.behind ≡ some t → 0 < q.size)
    → Option.map (◌+◌ m) (index q) ≡ index (scanned_after n q)
index_later m n q e p = elim (Option-cases q.behind) [
  | inl nothing ↦ rw nothing refl
  | inr (t, found) ↦ rw found (ap some (omega (arith, p t found)))
]

scanned_later :
    (s : ReaderState) (left : ℕ) (b all : Bytes) (r : Scanned)
    → (scan s (take (min (length b) left) b)).1 ≡ none
    → IsScan (scan s (take (min (length b) left) b)).0 (left - min (length b) left) all r
    → IsScan s left (b ++ all) (scanned_after (min (length b) left) r)
scanned_later s left b all r clean h =
    let n = min (length b) left in
    let n_left : n ≤ left = omega arith in
    record {
      within = omega (arith, h.within);
      agrees =
          ap (scan s) (take_buf b all left r.size h.within)
          ∙ scan-append s (take n b) (take r.size all) clean
          ∙ rw h.agrees (
              ap (λ o. (r.state, o))
                (index_later (length (take n b)) n r (omega (arith, length-take n b))
                  h.some_bytes));
      whole = λ none_left. omega (arith, h.whole none_left);
      behind_is = λ t found.
          h.behind_is t found ∙ sym (drop_buf b all left r.size h.within (h.some_bytes t found));
      some_bytes = λ t found. omega (arith, h.some_bytes t found);
    }

scan_bufs-none :
    (s : ReaderState) (left : ℕ) (b : Bytes) (bs : List Bytes)
    → (scan s (take (min (length b) left) b)).1 ≡ none
    → scan_bufs s left (b ∷ bs)
      ≡ scanned_after
          (min (length b) left)
          (scan_bufs (scan s (take (min (length b) left) b)).0 (left - min (length b) left) bs)
unfolding scan_bufs
scan_bufs-none s left b bs h = rw (h, scan_bufs) refl

scan_bufs-some :
    (s : ReaderState) (left : ℕ) (b : Bytes) (bs : List Bytes) {i : ℕ}
    → (scan s (take (min (length b) left) b)).1 ≡ some i
    → scan_bufs s left (b ∷ bs) ≡ record {
      state = (scan s (take (min (length b) left) b)).0;
      size = suc i;
      behind = some (drop (suc i) b ∷ bs);
    }
unfolding scan_bufs
scan_bufs-some s left b bs h = rw (h, scan_bufs) refl

scanned_here :
    (s : ReaderState) (left : ℕ) (b : Bytes) (bs : List Bytes) (i : ℕ)
    → (scan s (take (min (length b) left) b)).1 ≡ some i
    → IsScan s left (b ++ flatten bs) (record {
      state = (scan s (take (min (length b) left) b)).0;
      size = suc i;
      behind = some (drop (suc i) b ∷ bs);
    })
scanned_here s left b bs i found =
    let n = min (length b) left in
    let (cut, long) = scan_prefix s (take n b) found in
    let short : suc i ≤ n = omega (arith, length-take n b) in
    let in_b : suc i ≤ length b = omega arith in
    record {
      within = omega arith;
      agrees =
          ap (scan s)
            (take_append_le (suc i) b (flatten bs) in_b ∙ sym (take-take_le (suc i) n b short))
          ∙ cut
          ∙ ap (λ k. ((scan s (take n b)).0, some k)) (omega arith);
      whole = λ e. absurd (ground arith);
      behind_is = λ t e. ground (arith, drop_append_le (suc i) b (flatten bs) in_b);
      some_bytes = λ t e. omega arith;
    }

pub scan_bufs-IsScan :
    (s : ReaderState) (left : ℕ) (bufs : List Bytes)
    → left ≤ length (flatten bufs)
    → IsScan s left (flatten bufs) (scan_bufs s left bufs)
unfolding scan_bufs scan
scan_bufs-IsScan s left [] h = record {
  within = omega arith;
  agrees = refl;
  whole = λ _. omega arith;
  behind_is = λ t e. absurd (ground arith);
  some_bytes = λ t e. absurd (ground arith);
}
scan_bufs-IsScan s left (b ∷ bs) h =
    let n = min (length b) left in
    elim (Option-cases (scan s (take n b)).1) [
      | inl clean ↦
          subst (IsScan s left (b ++ flatten bs)) (sym (scan_bufs-none s left b bs clean)) (
            scanned_later s left b (flatten bs) _ clean (
              scan_bufs-IsScan (scan s (take n b)).0 (left - n) bs
                (omega (arith, length-append b (flatten bs)))))
      | inr (i, found) ↦
          subst (IsScan s left (b ++ flatten bs)) (sym (scan_bufs-some s left b bs found))
            (scanned_here s left b bs i found)
    ]
