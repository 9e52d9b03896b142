-- ===== src/Message/Data/Reader/Mark.antt =====
-- Where `EscapedDataReader` finds the end-of-data mark.
use mathlib.Core.Option
use kannader.Prelude.{
  ℕ, suc, ◌&&◌, true, false, Option, none, some, [], ◌∷◌, ◌++◌, ◌≡◌, refl, ap, ◌∙◌, inl, inr, ◌==◌,
  if◌then◌else◌, Bool-cases, Bytes, length, arith, starts_with, append_assoc,
}
use kannader.Message.Data.Spec.{
  stuff, closing, wire, at_line_start, ends_with_mark, first_mark, dot, lf,
}
use kannader.Message.Data.Spec
use kannader.Message.Data.Reader.{
  ReaderState, start, cr, cr_lf, cr_lf_dot, cr_lf_dot_cr, end, is_end, next, scan, found_later,
}

-- The state that the last five bytes leave.
abbrev tail_state : Bytes → ReaderState
tail_state rev =
    if ends_with_mark rev
    then end
    else if starts_with (Spec.cr ∷ dot ∷ lf ∷ Spec.cr ∷ []) rev
    then cr_lf_dot_cr
    else if starts_with (dot ∷ lf ∷ Spec.cr ∷ []) rev
    then cr_lf_dot
    else if starts_with (lf ∷ Spec.cr ∷ []) rev
    then cr_lf
    else if starts_with (Spec.cr ∷ []) rev
    then cr
    else start

next-tail_state :
    (rev : Bytes) (c : ℕ)
    → is_end (tail_state rev) ≡ false
    → next (tail_state rev) c ≡ tail_state (c ∷ rev)
unfolding next
next-tail_state [] c h = ground arith
next-tail_state (p ∷ []) c h = ground arith
next-tail_state (p ∷ q ∷ []) c h = ground arith
next-tail_state (p ∷ q ∷ r ∷ []) c h = ground arith
next-tail_state (p ∷ q ∷ r ∷ s ∷ rev) c h = ground arith

end-tail_state : (rev : Bytes) → is_end (tail_state rev) ≡ ends_with_mark rev
end-tail_state rev = elim (Bool-cases (ends_with_mark rev)) [
  | inl e ↦ rw e refl
  | inr e ↦ ground arith
]

found_later_index : (r : ReaderState × Option ℕ) → (found_later r).1 ≡ Option.map suc r.1
found_later_index (s, none) = refl
found_later_index (s, some i) = refl

pub scan_end :
    (s : ReaderState) (c : ℕ) (cs : Bytes)
    → is_end (next s c) ≡ true
    → scan s (c ∷ cs) ≡ (next s c, some 0)
unfolding scan
scan_end s c cs h = rw (h, scan)

pub scan_on :
    (s : ReaderState) (c : ℕ) (cs : Bytes)
    → is_end (next s c) ≡ false
    → scan s (c ∷ cs) ≡ found_later (scan (next s c) cs)
unfolding scan
scan_on s c cs h = rw (h, scan)

scan-first_mark :
    (rev xs : Bytes) → ends_with_mark rev ≡ false → (scan (tail_state rev) xs).1 ≡ first_mark rev xs
unfolding scan
scan-first_mark rev [] h = refl
scan-first_mark rev (c ∷ cs) h =
    let e = next-tail_state rev c (end-tail_state rev ∙ h) in
    elim (Bool-cases (ends_with_mark (c ∷ rev))) [
      | inl found ↦
          let ends = ap is_end e ∙ end-tail_state (c ∷ rev) ∙ found in
          rw (scan_end (tail_state rev) c cs ends, found) refl
      | inr not_yet ↦
          let goes_on = ap is_end e ∙ end-tail_state (c ∷ rev) ∙ not_yet in
          rw (scan_on (tail_state rev) c cs goes_on, found_later_index, not_yet, e)
            (ap (Option.map suc) (scan-first_mark (c ∷ rev) cs not_yet))
    ]

-- The reader finds the mark exactly at the first place where the stream, behind a line break, ends
-- with a line break and the mark; and it finds none exactly when there is no such place.
pub scan_mark : (xs : Bytes) → (scan cr_lf xs).1 ≡ first_mark (lf ∷ Spec.cr ∷ []) xs
scan_mark xs = scan-first_mark (lf ∷ Spec.cr ∷ []) xs refl

-- In a stuffed text the reader is in one of three states.
abbrev state_of : ℕ → ℕ → ReaderState
state_of p q = if at_line_start p q then cr_lf else if q == b'\r' then cr else start

next-state_of :
    (p q c : ℕ)
    → (at_line_start p q && c == dot) ≡ false
    → (next (state_of p q) c ≡ state_of q c) × (is_end (state_of q c) ≡ false)
unfolding next
next-state_of p q c h = ground arith

-- The index at which a scan ends, moved on by some bytes before.
Ends : ReaderState → Bytes → ℕ → Type 0
Ends s xs n = (i : ℕ) × (scan s xs ≡ (end, some i)) × (suc i ≡ n)

Ends-on :
    (s t : ReaderState) (c : ℕ) (cs : Bytes) (n : ℕ)
    → next s c ≡ t
    → is_end t ≡ false
    → Ends t cs n
    → Ends s (c ∷ cs) (suc n)
unfolding Ends
Ends-on s t c cs n e h (i, found, long) =
    (suc i, scan_on s c cs (rw e h) ∙ rw (e, found) refl, ap suc long)

Ends-closing :
    (p q : ℕ) (rest : Bytes)
    → Ends (state_of p q) (closing p q [] ++ rest) (length (closing p q []))
unfolding Ends scan next
Ends-closing p q rest = elim (Bool-cases (at_line_start p q)) [
  | inl line ↦ rw line (2, refl, refl)
  | inr within ↦ rw within (elim (Bool-cases (q == b'\r')) [
    | inl after_cr ↦ rw after_cr (4, refl, refl)
    | inr plain ↦ rw plain (4, refl, refl)
  ])
]

-- A doubled dot at the beginning of a line leaves the start state.
Ends-dots :
    (p q c : ℕ) (cs : Bytes) (n : ℕ)
    → (at_line_start p q && c == dot) ≡ true
    → Ends (state_of q c) cs n
    → Ends (state_of p q) (dot ∷ dot ∷ cs) (suc (suc n))
unfolding next
Ends-dots p q c cs n h later =
    let at_line : state_of p q ≡ cr_lf = ground arith in
    let plain : state_of q c ≡ start = ground arith in
    rw at_line (
      Ends-on cr_lf cr_lf_dot dot (dot ∷ cs) (suc n) refl refl
        (Ends-on cr_lf_dot start dot cs n refl refl (rw plain at later)))

Ends-wire :
    (p q : ℕ) (xs rest : Bytes)
    → Ends
        (state_of p q)
        (stuff p q xs ++ (closing p q xs ++ rest))
        (length (stuff p q xs ++ closing p q xs))
Ends-wire p q [] rest = Ends-closing p q rest
Ends-wire p q (c ∷ cs) rest = elim (Bool-cases (at_line_start p q && c == dot)) [
  | inl doubled ↦ rw doubled (Ends-dots p q c _ _ doubled (Ends-wire q c cs rest))
  | inr plain ↦
      let (e, h) = next-state_of p q c plain in
      rw plain (Ends-on (state_of p q) (state_of q c) c _ _ e h (Ends-wire q c cs rest))
]

-- Whatever the text, the reader takes its wire message as a whole: the mark is found at the
-- message's last byte and not before, and what follows is not looked at.
pub scan-wire :
    (text rest : Bytes)
    → (i : ℕ) × (scan cr_lf (wire text ++ rest) ≡ (end, some i)) × (suc i ≡ length (wire text))
unfolding Ends
scan-wire text rest = rw (append_assoc (stuff b'\r' b'\n' text)) (Ends-wire b'\r' b'\n' text rest)
