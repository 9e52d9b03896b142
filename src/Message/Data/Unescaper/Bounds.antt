-- ===== src/Message/Data/Unescaper/Bounds.antt =====
-- What `unescape` says of its buffer lies in the buffer.
use mathlib.Core.Path.{subst}
use kannader.Prelude.{
  ℕ, zero, suc, ◌+◌, ◌-◌, ◌≤◌, ◌<◌, Bool, true, false, Option, none, some, [], ◌∷◌, ◌++◌, ◌≡◌, refl,
  sym, ap, ◌∙◌, inl, inr, leb, ◌==◌, if◌then◌else◌, starts_with, bytes_eq, Bool-cases, Option-cases,
  Bytes, arith, length, take, drop, slice, length-append, length-take, length-drop,
}
use kannader.Message.Data.Unescaper.{
  DataUnescapeRes, later, position, move, ends_with, slice_of, finish, leave, unescape_rest,
  unescape_dot, unescape_from, unescape_at, unescape_found, unescape_loop, unescape,
}

starts_with_bound : (p xs : Bytes) → starts_with p xs ≡ true → length p ≤ length xs
starts_with_bound [] xs h = omega arith
starts_with_bound (c ∷ p) [] h = absurd (ground arith)
starts_with_bound (c ∷ p) (x ∷ xs) h =
    let rest : starts_with p xs ≡ true = ground arith in
    let bound = starts_with_bound p xs rest in omega arith

position_bound : (xs : Bytes) (i : ℕ) → position xs ≡ some i → i + 3 ≤ length xs
unfolding position
position_bound [] i h = absurd (ground arith)
position_bound (c ∷ cs) i h = elim (Bool-cases (starts_with (b'\r' ∷ b'\n' ∷ b'.' ∷ []) (c ∷ cs))) [
  | inl here ↦
      let first : some 0 ≡ some i = sym (rw (position, here) refl) ∙ h in
      let bound : 3 ≤ length (c ∷ cs) =
        starts_with_bound (b'\r' ∷ b'\n' ∷ b'.' ∷ []) (c ∷ cs) here in
      ground arith
  | inr not_here ↦
      let behind : later (position cs) ≡ some i = sym (rw (position, not_here) refl) ∙ h in
      elim (Option-cases (position cs)) [
        | inl none_there ↦ absurd (ground arith)
        | inr (j, there) ↦ let bound : j + 3 ≤ length cs = position_bound cs j there in ground arith
      ]
]

-- A move to the front does not panic, and the buffer keeps its length.
move_total :
    (bytes : Bytes) (from to dest : ℕ)
    → dest ≤ from
    → from ≤ to
    → to ≤ length bytes
    → (moved : Bytes) × (move bytes from to dest ≡ some moved) × (length moved ≡ length bytes)
unfolding move
move_total bytes from to dest h k l = elim (Bool-cases (from == dest)) [
  | inl same ↦ (bytes, rw (move, same) refl, refl)
  | inr other ↦
      let ordered : leb from to ≡ true = ground arith in
      let inside : leb to (length bytes) ≡ true = ground arith in
      let room : leb (dest + (to - from)) (length bytes) ≡ true = ground arith in
      (
        take dest bytes ++ (slice from to bytes ++ drop (dest + (to - from)) bytes),
        rw (move, other, ordered, inside, room) refl,
        length-append (take dest bytes) (slice from to bytes ++ drop (dest + (to - from)) bytes)
            ∙ (ap (λ n. length (take dest bytes) + n)
                  (length-append (slice from to bytes) (drop (dest + (to - from)) bytes))
                ∙ omega (
                  arith,
                  length-take dest bytes,
                  length-take (to - from) (drop from bytes),
                  length-drop from bytes,
                  length-drop (dest + (to - from)) bytes,
                )),
      )
]

slice_of_total :
    (from to : ℕ) (bytes : Bytes)
    → from ≤ to
    → to ≤ length bytes
    → slice_of from to bytes ≡ some (slice from to bytes)
unfolding slice_of
slice_of_total from to bytes h k =
    let ordered : leb from to ≡ true = ground arith in
    let inside : leb to (length bytes) ≡ true = ground arith in rw (ordered, inside) refl

-- The buffer keeps its length, and the two numbers lie in it.
pub record Bounded (size : ℕ) (r : DataUnescapeRes) : Type 0 where
  pub keeps : length r.bytes ≡ size
  pub ordered : r.written ≤ r.unhandled_idx
  pub inside : r.unhandled_idx ≤ size

-- There is a result, and it lies in the buffer.
pub Ends : ℕ → Option DataUnescapeRes → Type 0
Ends size o = (r : DataUnescapeRes) × (o ≡ some r) × Bounded size r

finish-Ends :
    (bytes : Bytes) (from to dest written idx : ℕ)
    → dest ≤ from
    → from ≤ to
    → to ≤ length bytes
    → written ≤ idx
    → idx ≤ length bytes
    → Ends (length bytes) (finish written idx (move bytes from to dest))
unfolding Ends
finish-Ends bytes from to dest written idx h k l m n =
    let (moved, same, long) = move_total bytes from to dest h k l in
    rw same (_, refl, record { keeps = long; ordered = m; inside = n })

leave-Ends :
    (kept : ℕ) (bytes : Bytes) (written idx : ℕ)
    → kept ≤ 2
    → kept ≤ length bytes
    → written ≤ idx
    → idx ≤ length bytes - 2
    → Ends (length bytes) (leave kept bytes written idx)
unfolding leave
leave-Ends kept bytes written idx h l k x =
    let room : leb kept (length bytes) ≡ true = ground arith in
    let no_underflow : leb (kept + idx) (written + length bytes) ≡ true = ground arith in
    rw (room, no_underflow)
      (finish-Ends bytes idx (length bytes - kept) written _ _ k (omega arith) (omega arith)
        (omega arith) (omega arith))

ends_with_bound : (suffix xs : Bytes) → ends_with suffix xs ≡ true → length suffix ≤ length xs
unfolding ends_with
ends_with_bound suffix [] h = starts_with_bound suffix [] h
ends_with_bound suffix (c ∷ cs) h = elim (Bool-cases (leb (length (c ∷ cs)) (length suffix))) [
  | inl short ↦ starts_with_bound suffix (c ∷ cs) (sym (rw (ends_with, short) refl) ∙ h)
  | inr long ↦ ground arith
]

unescape_rest-Ends :
    (bytes : Bytes) (written idx : ℕ)
    → written ≤ idx
    → idx ≤ length bytes - 2
    → Ends (length bytes) (unescape_rest bytes written idx)
unfolding unescape_rest
unescape_rest-Ends bytes written idx h k =
    elim (Bool-cases (ends_with (b'\r' ∷ b'\n' ∷ []) bytes)) [
      | inl crlf ↦
          rw (unescape_rest, crlf)
            (leave-Ends 2 bytes written idx (omega arith) (ends_with_bound _ bytes crlf) h k)
      | inr no_crlf ↦ elim (Bool-cases (ends_with (b'\r' ∷ []) bytes)) [
        | inl cr ↦
            rw (unescape_rest, no_crlf, cr)
              (leave-Ends 1 bytes written idx (omega arith) (ends_with_bound _ bytes cr) h k)
        | inr no_cr ↦
            rw (unescape_rest, no_crlf, no_cr)
              (leave-Ends 0 bytes written idx (omega arith) (omega arith) h k)
      ]
    ]

-- What the rest of the loop does.
GoesOn : (Bytes → ℕ → ℕ → Option DataUnescapeRes) → ℕ → Type 0
GoesOn again fuel =
    (bytes : Bytes) (written idx : ℕ)
    → written ≤ idx
    → idx ≤ length bytes - 2
    → length bytes - idx < fuel
    → Ends (length bytes) (again bytes written idx)

unescape_dot-Ends :
    (again : Bytes → ℕ → ℕ → Option DataUnescapeRes) (fuel : ℕ) (bytes : Bytes) (written idx i : ℕ)
    (next : Bytes)
    → GoesOn again fuel
    → written ≤ idx
    → idx + i + 5 ≤ length bytes
    → length bytes - idx < suc fuel
    → Ends (length bytes) (unescape_dot again bytes written idx i (some next))
unfolding GoesOn Ends unescape_dot
unescape_dot-Ends again fuel bytes written idx i next goes h room l =
    elim (Bool-cases (bytes_eq next (b'\r' ∷ b'\n' ∷ []))) [
      | inl mark ↦
          rw (unescape_dot, mark)
            (finish-Ends bytes idx (idx + i + 2) written _ _ h (omega arith) (omega arith)
              (omega arith) (omega arith))
      | inr dot ↦
          let (moved, same, long) =
            move_total bytes idx (idx + i + 2) written h (omega arith) (omega arith) in
          rw (unescape_dot, dot, same)
            (subst (λ n. Ends n (again moved (written + (i + 2)) (idx + (i + 3)))) long
              (goes moved (written + (i + 2)) (idx + (i + 3)) (omega arith) (omega arith)
                (omega arith)))
    ]

unescape_at-Ends :
    (again : Bytes → ℕ → ℕ → Option DataUnescapeRes) (fuel : ℕ) (bytes : Bytes) (written idx i : ℕ)
    → GoesOn again fuel
    → written ≤ idx
    → idx + i + 3 ≤ length bytes
    → length bytes - idx < suc fuel
    → Ends (length bytes) (unescape_at again bytes written idx i)
unfolding unescape_at
unescape_at-Ends again fuel bytes written idx i goes h k l =
    elim (Bool-cases (leb (length bytes) (idx + i + 4))) [
      | inl short ↦
          rw (unescape_at, short)
            (finish-Ends bytes idx (idx + i) written _ _ h (omega arith) (omega arith) (omega arith)
              (omega arith))
      | inr long ↦
          let room : idx + i + 5 ≤ length bytes = ground arith in
          rw
            (unescape_at, long, slice_of_total (idx + i + 3) (idx + i + 5) bytes (omega arith) room)
            (unescape_dot-Ends again fuel bytes written idx i
              (slice (idx + i + 3) (idx + i + 5) bytes) goes h room l)
    ]

unescape_found-Ends :
    (again : Bytes → ℕ → ℕ → Option DataUnescapeRes) (fuel : ℕ) (bytes : Bytes) (written idx : ℕ)
    (o : Option ℕ)
    → GoesOn again fuel
    → written ≤ idx
    → idx ≤ length bytes - 2
    → length bytes - idx < suc fuel
    → position (slice idx (length bytes) bytes) ≡ o
    → Ends (length bytes) (unescape_found again bytes written idx o)
unfolding unescape_found
unescape_found-Ends again fuel bytes written idx none goes h k l e =
    unescape_rest-Ends bytes written idx h k
unescape_found-Ends again fuel bytes written idx (some i) goes h k l e =
    let bound = position_bound (slice idx (length bytes) bytes) i e in
    let cut = length-take (length bytes - idx) (drop idx bytes) in
    let left = length-drop idx bytes in
    unescape_at-Ends again fuel bytes written idx i goes h (omega arith) l

unescape_loop-Ends : (fuel : ℕ) → GoesOn (unescape_loop fuel) fuel
unfolding GoesOn unescape_loop unescape_from
unescape_loop-Ends zero bytes written idx h k l = absurd (omega arith)
unescape_loop-Ends (suc fuel) bytes written idx h k l =
    rw (slice_of_total idx (length bytes) bytes (omega arith) (omega arith)) (
      unescape_found-Ends (unescape_loop fuel) fuel bytes written idx
        (position (slice idx (length bytes) bytes)) (unescape_loop-Ends fuel) h k l refl)

if-Ends :
    (size : ℕ) (b : Bool) (x y : Bool × Option DataUnescapeRes)
    → Ends size x.1
    → (b ≡ false → Ends size y.1)
    → Ends size (if b then x else y).1
if-Ends size true x y hx hy = hx
if-Ends size false x y hx hy = hy refl

-- `unescape` always comes to an end, within as many rounds of its loop as the buffer has bytes, and
-- without a panic: no slice and no copy is out of range, and no difference is below zero. The buffer
-- keeps its length, and the part that it says is written ends before the part that it says is
-- not handled begins, which lies in the buffer.
pub unescape-Ends :
    (preceded : Bool) (bytes : Bytes) → Ends (length bytes) (unescape preceded bytes).1
unfolding GoesOn Ends unescape
unescape-Ends false bytes =
    unescape_loop-Ends (suc (length bytes)) bytes 0 0 (omega arith) (omega arith) (omega arith)
unescape-Ends true bytes =
    if-Ends (length bytes) (leb (length bytes) 3) _ _
      (_, refl, record { keeps = refl; ordered = omega arith; inside = omega arith })
      (λ long.
        let four : 4 ≤ length bytes = ground arith in
        if-Ends (length bytes) (starts_with (b'.' ∷ b'\r' ∷ b'\n' ∷ []) bytes) _ _
          (_, refl, record { keeps = refl; ordered = omega arith; inside = omega arith })
          (λ no_mark.
            if-Ends (length bytes) (starts_with (b'.' ∷ []) bytes) _ _
              (unescape_loop-Ends (suc (length bytes)) bytes 0 1 (omega arith) (omega arith)
                (omega arith))
              (λ no_dot.
                unescape_loop-Ends (suc (length bytes)) bytes 0 0 (omega arith) (omega arith)
                  (omega arith))))
