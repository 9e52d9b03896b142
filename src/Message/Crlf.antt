-- ===== src/Message/Crlf.antt =====
-- smtp-message/src/misc.rs: `next_crlf`, the search of the end of a line in a stream that comes in
-- pieces.
use kannader.Prelude.{
  ℕ, suc, ◌+◌, ◌<◌, Bool, true, false, ◌&&◌, Option, none, some, [], ◌∷◌, ◌++◌, ◌==◌, ◌≡◌, refl,
  sym, ap, ◌∙◌, inl, inr, Bool-cases, Bytes, arith, length, append-nil, if◌then◌else◌,
}

pub data NextCrLfState : Type 0 where
  start cr_passed : NextCrLfState

abbrev pub is_cr_passed : NextCrLfState → Bool
is_cr_passed start = false
is_cr_passed cr_passed = true

abbrev later : Option ℕ → Option ℕ
later none = none
later (some p) = some (suc p)

-- `buf.windows(2).position(|s| s == b"\r\n")`
unfoldable pub position : Bytes → Option ℕ
position [] = none
position (c ∷ []) = none
position (c ∷ d ∷ cs) =
    let rest = position (d ∷ cs) in if c == b'\r' && d == b'\n' then some 0 else later rest

-- The state that the last byte of a buffer leaves.
unfoldable pub state_after : NextCrLfState → Bytes → NextCrLfState
state_after s [] = s
state_after s (c ∷ []) = if c == b'\r' then cr_passed else start
state_after s (c ∷ d ∷ cs) = state_after s (d ∷ cs)

unfoldable pub found : NextCrLfState → Bytes → Option ℕ → Option ℕ × NextCrLfState
found s buf (some p) = (some (suc p), s)
found s buf none = (none, state_after s buf)

-- The new state comes second.
unfoldable pub next_crlf : Bytes → NextCrLfState → Option ℕ × NextCrLfState
unfolding found
next_crlf [] s = (none, s)
next_crlf (c ∷ cs) s =
    if is_cr_passed s && c == b'\n' then (some 0, s) else found s (c ∷ cs) (position (c ∷ cs))

-- The index of the line feed of the first CRLF.
unfoldable pub first_crlf : Bytes → Option ℕ
first_crlf cs = later (position cs)

abbrev pub plus : ℕ → Option ℕ → Option ℕ
plus n none = none
plus n (some p) = some (n + p)

plus_zero : (o : Option ℕ) → o ≡ plus 0 o
plus_zero none = refl
plus_zero (some p) = ap some (omega arith)

later-plus : (n : ℕ) (o : Option ℕ) → later (plus n o) ≡ plus (suc n) o
later-plus n none = refl
later-plus n (some p) = ap some (omega arith)

later-none : (o : Option ℕ) → later o ≡ none → o ≡ none
later-none none h = refl
later-none (some p) h = absurd (ground arith)

found-later : (s : NextCrLfState) (buf : Bytes) (o : Option ℕ) → (found s buf o).0 ≡ later o
unfolding found
found-later s buf none = refl
found-later s buf (some p) = refl

-- A byte before the buffer that the state knows of.
one_before :
    (c : ℕ) (buf : Bytes)
    → first_crlf (c ∷ buf) ≡ plus 1 (next_crlf buf (state_after start (c ∷ []))).0
unfolding first_crlf next_crlf state_after position
one_before c [] = refl
one_before c (d ∷ ds) = elim (Bool-cases (c == b'\r')) [
  | inl cr ↦ elim (Bool-cases (d == b'\n')) [
    | inl lf ↦ rw (cr, lf) refl
    | inr other ↦
        rw (cr, other, found-later cr_passed (d ∷ ds) (position (d ∷ ds)))
          (later_plus_one (position (d ∷ ds)))
  ]
  | inr other ↦
      rw (other, found-later start (d ∷ ds) (position (d ∷ ds)))
        (later_plus_one (position (d ∷ ds)))
]
  where
    later_plus_one : (o : Option ℕ) → later (later o) ≡ plus 1 (later o)
    later_plus_one none = refl
    later_plus_one (some p) = ap some (omega arith)

nothing_before : (buf : Bytes) → first_crlf buf ≡ plus 0 (next_crlf buf start).0
unfolding first_crlf next_crlf position
nothing_before [] = refl
nothing_before (c ∷ cs) = rw (found-later start (c ∷ cs) (position (c ∷ cs))) (plus_zero _)

first_crlf_on :
    (c d : ℕ) (cs : Bytes)
    → (c == b'\r' && d == b'\n') ≡ false
    → first_crlf (c ∷ d ∷ cs) ≡ later (first_crlf (d ∷ cs))
unfolding first_crlf position
first_crlf_on c d cs h = rw (h) refl

first_crlf-none :
    (c d : ℕ) (cs : Bytes)
    → first_crlf (c ∷ d ∷ cs) ≡ none
    → ((c == b'\r' && d == b'\n') ≡ false) × (first_crlf (d ∷ cs) ≡ none)
unfolding first_crlf position
first_crlf-none c d cs h = elim (Bool-cases (c == b'\r' && d == b'\n')) [
  | inl here ↦ absurd (let wrong : some 1 ≡ none = sym (rw (here) refl) ∙ h in ground arith)
  | inr other ↦
      let none_later : later (later (position (d ∷ cs))) ≡ none = sym (rw (other) refl) ∙ h in
      (other, later-none (later (position (d ∷ cs))) none_later)
]

-- When the bytes before hold no CRLF, and the state is what they leave, `next_crlf` finds the line
-- feed of the first CRLF of those bytes and the buffer, counted from the buffer's beginning.
pub next_crlf_first :
    (before buf : Bytes)
    → first_crlf before ≡ none
    → first_crlf (before ++ buf) ≡ plus (length before) (next_crlf buf (state_after start before)).0
unfolding state_after
next_crlf_first [] buf h = nothing_before buf
next_crlf_first (c ∷ []) buf h = one_before c buf
next_crlf_first (c ∷ d ∷ cs) buf h =
    let (other, h') = first_crlf-none c d cs h in
    first_crlf_on c d (cs ++ buf) other
    ∙ (ap later (next_crlf_first (d ∷ cs) buf h')
        ∙ later-plus (suc (length cs)) (next_crlf buf (state_after start (d ∷ cs))).0)

state_after-append :
    (s : NextCrLfState) (xs ys : Bytes)
    → state_after s (xs ++ ys) ≡ state_after (state_after s xs) ys
unfolding state_after
state_after-append s [] ys = refl
state_after-append s (c ∷ []) [] = refl
state_after-append s (c ∷ []) (d ∷ []) = refl
state_after-append s (c ∷ []) (d ∷ e ∷ ys) = state_after-append s (c ∷ []) (e ∷ ys)
state_after-append s (c ∷ d ∷ xs) ys = state_after-append s (d ∷ xs) ys

-- When `next_crlf` finds nothing, the state is what the bytes leave.
pub next_crlf_state :
    (before buf : Bytes)
    → (next_crlf buf (state_after start before)).0 ≡ none
    → (next_crlf buf (state_after start before)).1 ≡ state_after start (before ++ buf)
unfolding next_crlf found
next_crlf_state before [] h = ap (state_after start) (sym (append-nil before))
next_crlf_state before (c ∷ cs) h =
    looked_state (is_cr_passed (state_after start before) && c == b'\n') (state_after start before)
      (c ∷ cs) (position (c ∷ cs)) h
    ∙ sym (state_after-append start before (c ∷ cs))
  where
    found_state :
        (s : NextCrLfState) (buf : Bytes) (o : Option ℕ)
        → (found s buf o).0 ≡ none
        → (found s buf o).1 ≡ state_after s buf
    found_state s buf none h = refl
    found_state s buf (some p) h = absurd (ground arith)

    looked_state :
        (b : Bool) (s : NextCrLfState) (buf : Bytes) (o : Option ℕ)
        → (if b then (some 0, s) else found s buf o).0 ≡ none
        → (if b then (some 0, s) else found s buf o).1 ≡ state_after s buf
    looked_state true s buf o h = absurd (ground arith)
    looked_state false s buf o h = found_state s buf o h

later_bound :
    (o : Option ℕ) (n p : ℕ) → ((q : ℕ) → o ≡ some q → suc q < n) → later o ≡ some p → p < n
later_bound none n p f h = absurd (ground arith)
later_bound (some q) n p f h = let bound : suc q < n = f q refl in ground arith

position_bound : (cs : Bytes) (p : ℕ) → position cs ≡ some p → suc p < length cs
unfolding position
position_bound [] p h = absurd (ground arith)
position_bound (c ∷ []) p h = absurd (ground arith)
position_bound (c ∷ d ∷ cs) p h = elim (Bool-cases (c == b'\r' && d == b'\n')) [
  | inl here ↦ let first : some 0 ≡ some p = sym (rw (here) refl) ∙ h in ground arith
  | inr other ↦
      let behind : later (position (d ∷ cs)) ≡ some p = sym (rw (other) refl) ∙ h in
      let bound : p < length (d ∷ cs) =
        later_bound (position (d ∷ cs)) (length (d ∷ cs)) p (position_bound (d ∷ cs)) behind in
      omega arith
]

pub first_crlf_bound : (cs : Bytes) (p : ℕ) → first_crlf cs ≡ some p → p < length cs
unfolding first_crlf
first_crlf_bound cs p h = later_bound (position cs) (length cs) p (position_bound cs) h
