-- ===== src/Message/Data/Reader/Fill.antt =====
-- The loops of `poll_read_vectored` that copy bytes.
use kannader.Prelude.{
  ℕ, ◌+◌, ◌-◌, ◌≤◌, true, some, List, [], ◌∷◌, ◌++◌, ◌≡◌, refl, sym, ap, ◌∙◌, inl, inr, Bool-cases,
  Bytes, leb, length, arith, take, drop, slice, min, append_assoc, append-nil, flatten,
  length-append, length-take, length-drop, drop_all, leb→le, take-append, take-min, take_prefix,
  slice_join, slice_self,
}
use native.Mathlib.Decide.{dec_le}
use kannader.Message.Data.Reader.{fill, copy_back}

-- What the loop gives where no slice is out of range.
unfoldable pub filled_by : Bytes → ℕ → ℕ → List Bytes → List Bytes × ℕ
filled_by src from to [] = ([], from)
filled_by src from to (b ∷ bs) =
    let n = min (length b) (to - from) in
    let (bs', from') = filled_by src (from + n) to bs in
    ((slice from (from + n) src ++ drop n b) ∷ bs', from')

-- No slice is out of range in a buffer that has the range.
pub fill_total :
    (src : Bytes) (from to : ℕ) (bs : List Bytes)
    → from ≤ to
    → to ≤ length src
    → fill src from to bs ≡ some (filled_by src from to bs)
unfolding fill filled_by
fill_total src from to [] h k = refl
fill_total src from to (b ∷ bs) h k =
    let n = min (length b) (to - from) in
    let ordered : leb from to ≡ true = ground arith in
    let inside : leb (from + n) (length src) ≡ true = ground arith in
    let later = fill_total src (from + n) to bs (omega arith) k in rw (ordered, inside, later) refl

abbrev filled : Bytes → ℕ → ℕ → List Bytes → Bytes
filled src from to bs = flatten (filled_by src from to bs).0

abbrev rest_from : Bytes → ℕ → ℕ → List Bytes → ℕ
rest_from src from to bs = (filled_by src from to bs).1

pub fill-range :
    (src : Bytes) (from to : ℕ) (bs : List Bytes)
    → from ≤ to
    → (from ≤ rest_from src from to bs) × (rest_from src from to bs ≤ to)
unfolding filled_by
fill-range src from to [] h = (omega arith, h)
fill-range src from to (b ∷ bs) h =
    omega (arith, fill-range src (from + min (length b) (to - from)) to bs (omega arith))

-- The buffers keep their length.
pub length-fill :
    (src : Bytes) (from to : ℕ) (bs : List Bytes)
    → from ≤ to
    → to ≤ length src
    → length (filled src from to bs) ≡ length (flatten bs)
unfolding filled_by
length-fill src from to [] h k = refl
length-fill src from to (b ∷ bs) h k =
    let n = min (length b) (to - from) in
    omega (
      arith,
      length-fill src (from + n) to bs (omega arith) k,
      length-append (slice from (from + n) src ++ drop n b) (filled src (from + n) to bs),
      length-append (slice from (from + n) src) (drop n b),
      length-append b (flatten bs),
      length-take (from + n - from) (drop from src),
      length-drop from src,
      length-drop n b,
    )

-- The buffers begin with the reader's bytes up to the new `from`.
pub fill_begins :
    (src : Bytes) (from to : ℕ) (bs : List Bytes)
    → from ≤ to
    → to ≤ length src
    → (junk : Bytes) × (filled src from to bs ≡ slice from (rest_from src from to bs) src ++ junk)
unfolding filled_by
fill_begins src from to [] h k = ([], rw slice_self refl)
fill_begins src from to (b ∷ bs) h k =
    let n = min (length b) (to - from) in
    let within : from + n ≤ to = omega arith in
    let (junk, later) = fill_begins src (from + n) to bs within k in
    let (low, high) = fill-range src (from + n) to bs within in
    elim (dec_le (length b) (to - from)) [
      | yes full ↦ (
        junk,
        rw (drop_all n b (omega arith), append-nil, later, ← append_assoc)
            (ap (λ ys. ys ++ junk) (slice_join from (from + n) _ src (omega arith) low)),
      )
      | no some_left ↦ (
        drop n b ++ filled src (from + n) to bs,
        append_assoc (slice from (from + n) src) _ _
            ∙ ap (λ m. slice from m src ++ (drop n b ++ filled src (from + n) to bs)) (omega arith),
      )
    ]

-- The first `n` bytes of `b`, written over `dest` from `at` on.
abbrev write_at : Bytes → ℕ → ℕ → Bytes → Bytes
write_at dest at n b = take at dest ++ (take n b ++ drop (at + n) dest)

module _ (dest : Bytes) (at n : ℕ) (b : Bytes) (fits : at + n ≤ length dest)
    (long : n ≤ length b) where
  length-written : length (take at dest ++ take n b) ≡ at + n
  length-written =
      omega (arith, length-append (take at dest) (take n b), length-take at dest, length-take n b)

  length-write_at : length (write_at dest at n b) ≡ length dest
  length-write_at = omega (
    arith,
    length-append (take at dest) (take n b ++ drop (at + n) dest),
    length-append (take n b) (drop (at + n) dest),
    length-take at dest,
    length-take n b,
    length-drop (at + n) dest,
  )

  take-write_at : take (at + n) (write_at dest at n b) ≡ take at dest ++ take n b
  take-write_at =
      ap (take (at + n)) (sym (append_assoc (take at dest) (take n b) _))
      ∙ take_prefix (at + n) (take at dest ++ take n b) _ length-written

-- A copy that does not panic puts `total` bytes at the beginning of the buffer.
pub copy_back_sound :
    (dest : Bytes) (copied total : ℕ) (bs : List Bytes) {dest' : Bytes} {copied' : ℕ}
    → copied ≤ total
    → copied ≤ length dest
    → total - copied ≤ length (flatten bs)
    → copy_back dest copied total bs ≡ some (dest', copied')
    → (copied' ≡ total)
      × (length dest' ≡ length dest)
      × (total ≤ length dest)
      × (take total dest' ≡ take copied dest ++ take (total - copied) (flatten bs))
unfolding copy_back
copy_back_sound dest copied total [] {dest'} {copied'} h k l e =
    let same : dest' ≡ dest = ground arith in
    let all : copied ≡ total = omega arith in
    let count : copied' ≡ copied = ground arith in
    let none_left : total - copied ≡ 0 = omega arith in
    (count ∙ all, ap length same, omega arith, rw (same, none_left, append-nil, all) refl)
copy_back_sound dest copied total (b ∷ bs) {dest'} {copied'} h k l e =
    let n = min (length b) (total - copied) in
    let mid = write_at dest copied n b in
    elim (Bool-cases (leb (copied + n) (length dest))) [
      | inr short ↦ absurd (ground arith)
      | inl room ↦
          let fits = leb→le (copied + n) (length dest) room in
          let mid_long = length-write_at dest copied n b fits (omega arith) in
          let (count, long, total_fits, copied_all) =
            copy_back_sound mid (copied + n) total bs (omega arith) (omega arith)
              (omega (arith, length-append b (flatten bs))) (sym (rw room refl) ∙ e) in
          (
            count,
            long ∙ mid_long,
            omega arith,
            copied_all
                ∙ rw
                    (
                      take-write_at dest copied n b fits (omega arith),
                      take-append (total - copied) b (flatten bs),
                      take-min (total - copied) b,
                    )
                    (append_assoc (take copied dest) _ _
                      ∙ ap
                          (λ j.
                            take copied dest ++ (take (total - copied) b ++ take j (flatten bs)))
                          (omega arith)),
          )
    ]

-- With room for all bytes there is no panic.
pub copy_back_total :
    (dest : Bytes) (copied total : ℕ) (bs : List Bytes)
    → copied ≤ total
    → total ≤ length dest
    → (r : Bytes × ℕ) × (copy_back dest copied total bs ≡ some r)
unfolding copy_back
copy_back_total dest copied total [] h k = ((dest, copied), refl)
copy_back_total dest copied total (b ∷ bs) h k =
    let n = min (length b) (total - copied) in
    let fits : copied + n ≤ length dest = omega arith in
    let room : leb (copied + n) (length dest) ≡ true = ground arith in
    rw room (
      copy_back_total (write_at dest copied n b) (copied + n) total bs (omega arith)
        (rw (length-write_at dest copied n b fits (omega arith)) k))
