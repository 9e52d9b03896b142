-- ===== src/Message/Data/Writer/Scan.antt =====
-- What the loops of `poll_write_vectored` and `set_state_until` find out.
use kannader.Prelude.{
  ℕ, zero, suc, ◌+◌, ◌-◌, ◌≤◌, Option, none, some, List, [], ◌∷◌, ◌++◌, ◌≡◌, refl, sym, ap, ◌∙◌,
  inl, inr, Bytes, length, take, drop, arith, slice, min, drop-take, length-take,
}
use native.Mathlib.Decide.{dec_le}
use kannader.Message.Data.Writer.{
  WriterState, start, cr_lf, go, escape, classify, scan, found_later, scan_bufs, found_after,
  advance, advance_all, set_state_until,
}
use kannader.Message.Data.Writer.Reference.{stuff_from, classify-advance}

-- How far a scan goes without a dot to escape.
abbrev pub clear : Option ℕ → Bytes → ℕ
clear none xs = length xs
clear (some i) xs = i

clear-found_later :
    (c : ℕ) (cs : Bytes) (r : WriterState × Option ℕ)
    → clear (found_later r).1 (c ∷ cs) ≡ suc (clear r.1 cs)
clear-found_later c cs (s, none) = refl
clear-found_later c cs (s, some i) = refl

module _ (s : WriterState) (c : ℕ) (cs : Bytes) {t : WriterState}
    (moves : classify s c ≡ go t) where
  scan_go : scan s (c ∷ cs) ≡ found_later (scan t cs)
  unfolding scan
  scan_go = rw (moves, scan)

  pub stuff_from_go : stuff_from s (c ∷ cs) ≡ c ∷ stuff_from t cs
  stuff_from_go = rw (moves, stuff_from)

module _ (s : WriterState) (c : ℕ) (cs : Bytes) (escapes : classify s c ≡ escape) where
  scan_escape : scan s (c ∷ cs) ≡ (s, some 0)
  unfolding scan
  scan_escape = rw (escapes, scan)

  pub stuff_from_escape : stuff_from s (c ∷ cs) ≡ b'.' ∷ b'.' ∷ stuff_from start cs
  stuff_from_escape = rw (escapes, stuff_from)

-- Up to there the text is sent as it is.
pub scan-clear :
    (s : WriterState) (xs : Bytes) (n : ℕ)
    → n ≤ clear (scan s xs).1 xs
    → stuff_from s xs ≡ take n xs ++ stuff_from (advance_all s (take n xs)) (drop n xs)
unfolding advance_all
scan-clear s xs zero h = refl
scan-clear s [] (suc n) h = refl
scan-clear s (c ∷ cs) (suc n) h = elim (classify-advance s c) [
  | inl moves ↦
      stuff_from_go s c cs moves
      ∙ ap (◌∷◌ c) (
          scan-clear (advance s c) cs n (
            omega (
              arith,
              rw (scan_go s c cs moves) at h,
              clear-found_later c cs (scan (advance s c) cs),
            )))
  | inr (escapes, _, _) ↦ absurd (omega (arith, rw (scan_escape s c cs escapes) at h))
]

found_later-state :
    (s : WriterState) (c : ℕ) (cs : Bytes) (r : WriterState × Option ℕ)
    → r.0 ≡ advance_all (advance s c) (take (clear r.1 cs) cs)
    → (found_later r).0 ≡ advance_all s (take (clear (found_later r).1 (c ∷ cs)) (c ∷ cs))
unfolding advance_all
found_later-state s c cs (t, none) h = h
found_later-state s c cs (t, some i) h = h

pub scan-state :
    (s : WriterState) (xs : Bytes)
    → (scan s xs).0 ≡ advance_all s (take (clear (scan s xs).1 xs) xs)
unfolding advance_all scan
scan-state s [] = refl
scan-state s (c ∷ cs) = elim (classify-advance s c) [
  | inl moves ↦
      rw (scan_go s c cs moves)
        (found_later-state s c cs (scan (advance s c) cs) (scan-state (advance s c) cs))
  | inr (escapes, _, _) ↦ rw (scan_escape s c cs escapes)
]

found_later-some :
    (r : WriterState × Option ℕ) {i : ℕ}
    → (found_later r).1 ≡ some i
    → (j : ℕ) × (i ≡ suc j) × (r.1 ≡ some j)
found_later-some (s, none) h = cc
found_later-some (s, some j) h = (j, ground arith, refl)

scan_dot_now :
    (s : WriterState) (c : ℕ) (cs : Bytes) {i : ℕ}
    → s ≡ cr_lf
    → c ≡ b'.'
    → i ≡ 0
    → (stuff_from s (c ∷ cs) ≡ take (suc i) (c ∷ cs) ++ stuff_from start (drop i (c ∷ cs)))
      × (suc i ≤ suc (length cs))
      × (advance_all s (c ∷ cs) ≡ advance_all start (drop i (c ∷ cs)))
unfolding classify advance_all advance
scan_dot_now s c cs e d z = rw (e, d, z) (refl, omega arith, refl)

-- At a dot to escape, one dot goes out first and the rest is sent from the start state.
pub scan_dot :
    (s : WriterState) (xs : Bytes) {i : ℕ}
    → (scan s xs).1 ≡ some i
    → (stuff_from s xs ≡ take (suc i) xs ++ stuff_from start (drop i xs))
      × (suc i ≤ length xs)
      × (advance_all s xs ≡ advance_all start (drop i xs))
unfolding advance_all scan classify advance
scan_dot s [] h = cc
scan_dot s (c ∷ cs) h = elim (classify-advance s c) [
  | inl moves ↦
      let (j, e, h') = found_later-some (scan (advance s c) cs) (rw (scan_go s c cs moves) at h) in
      let (sent, long, lands) = scan_dot (advance s c) cs h' in
      rw e (stuff_from_go s c cs moves ∙ ap (◌∷◌ c) sent, omega arith, lands)
  | inr (escapes, e, d) ↦
      scan_dot_now s c cs e d (ground (arith, rw (scan_escape s c cs escapes) at h))
]

-- The state after two bytes does not depend on the state before them.
advance_twice : (s t : WriterState) (a b : ℕ) → advance (advance s a) b ≡ advance (advance t a) b
unfolding advance
advance_twice s t a b = ground arith

advance_all_forgets :
    (s t : WriterState) (xs : Bytes) → 2 ≤ length xs → advance_all s xs ≡ advance_all t xs
unfolding advance_all
advance_all_forgets s t [] h = absurd (omega arith)
advance_all_forgets s t (a ∷ []) h = absurd (omega arith)
advance_all_forgets s t (a ∷ b ∷ xs) h = ap (λ u. advance_all u xs) (advance_twice s t a b)

advance_all-drop :
    (s : WriterState) (k : ℕ) (xs : Bytes)
    → k + 2 ≤ length xs
    → advance_all s (drop k xs) ≡ advance_all s xs
unfolding advance_all
advance_all-drop s zero xs h = refl
advance_all-drop s (suc k) [] h = absurd (omega arith)
advance_all-drop s (suc k) (x ∷ xs) h =
    advance_all-drop s k xs (omega arith) ∙ advance_all_forgets s (advance s x) xs (omega arith)

-- The bytes that it looks at are the last two that were sent, or all of them.
slice-last :
    (b : Bytes) (n : ℕ)
    → n ≤ length b
    → slice (n - 2) (min (length b) n) b ≡ drop (n - 2) (take n b)
slice-last b n h =
    ap (λ m. take (m - (n - 2)) (drop (n - 2) b)) (omega arith)
    ∙ sym (drop-take (n - 2) (n - (n - 2)) b)
    ∙ ap (λ m. drop (n - 2) (take m b)) (omega arith)

advance_all-last :
    (s : WriterState) (b : Bytes) (n : ℕ)
    → n ≤ length b
    → advance_all s (drop (n - 2) (take n b)) ≡ advance_all s (take n b)
advance_all-last s b n h = elim (dec_le 2 n) [
  | yes many ↦ advance_all-drop s (n - 2) (take n b) (omega (arith, length-take n b))
  | no few ↦
      let at_start : n - 2 ≡ 0 = omega arith in ap (λ k. advance_all s (drop k (take n b))) at_start
]

-- In one buffer `set_state_until` finds the state after the bytes that were sent.
pub set_state_until_one :
    (s : WriterState) (b : Bytes) (n : ℕ)
    → n ≤ length b
    → set_state_until s (b ∷ []) n ≡ advance_all s (take n b)
unfolding set_state_until
set_state_until_one s b n h =
    ground (arith, ap (advance_all s) (slice-last b n h), advance_all-last s b n h)

pub advance_all-append :
    (s : WriterState) (xs ys : Bytes) → advance_all s (xs ++ ys) ≡ advance_all (advance_all s xs) ys
unfolding advance_all
advance_all-append s [] ys = refl
advance_all-append s (x ∷ xs) ys = advance_all-append (advance s x) xs ys

-- The state moves on over an escaped dot as over any other byte.
pub stuff_from-append :
    (s : WriterState) (xs ys : Bytes)
    → stuff_from s (xs ++ ys) ≡ stuff_from s xs ++ stuff_from (advance_all s xs) ys
unfolding advance_all advance
stuff_from-append s [] ys = refl
stuff_from-append s (c ∷ cs) ys = elim (classify-advance s c) [
  | inl moves ↦
      rw (stuff_from_go s c (cs ++ ys) moves, stuff_from_go s c cs moves)
        (ap (◌∷◌ c) (stuff_from-append (advance s c) cs ys))
  | inr (escapes, e, d) ↦
      rw (stuff_from_escape s c (cs ++ ys) escapes, stuff_from_escape s c cs escapes, e, d)
        (ap (λ r. b'.' ∷ b'.' ∷ r) (stuff_from-append start cs ys))
]

pub scan_bufs-none :
    (s : WriterState) (b : Bytes) (bs : List Bytes)
    → (scan s b).1 ≡ none
    → scan_bufs s (b ∷ bs) ≡ found_after b (scan_bufs (scan s b).0 bs)
unfolding scan_bufs
scan_bufs-none s b bs h = rw (h, scan_bufs)

pub scan_bufs-some :
    (s : WriterState) (b : Bytes) (bs : List Bytes) {i : ℕ}
    → (scan s b).1 ≡ some i
    → scan_bufs s (b ∷ bs) ≡ ((scan s b).0, some (take (suc i) b ∷ []))
unfolding scan_bufs
scan_bufs-some s b bs h = rw (h, scan_bufs)
