-- ===== src/Client/Buffer.antt =====
-- smtp-client/src/lib.rs: the buffer of `read_reply` as a list of bytes.
use kannader.Prelude.{
  ℕ, ◌+◌, ◌-◌, ◌≤◌, ◌++◌, Bytes, length, take, drop, slice, length-append, length-take, length-drop,
  drop-drop, drop_append_le, take-append_length, drop-take, take_prefix, drop_prefix, slice_join,
  ◌≡◌, refl, sym, ap, ◌∙◌, arith,
}

pub minus_zero : (n : ℕ) → n - 0 ≡ n
minus_zero n = omega arith

-- The bytes `bytes` are put at `to` into a buffer.
abbrev pub put : ℕ → Bytes → Bytes → Bytes
put to bytes r = take to r ++ (bytes ++ drop (to + length bytes) r)

slice_before :
    (from to : ℕ) (r ys : Bytes)
    → from ≤ to
    → to ≤ length r
    → slice from to (take to r ++ ys) ≡ slice from to r
slice_before from to r ys h k =
    let long : length (take to r) ≡ to = length-take to r ∙ omega arith in
    let split : from + (to - from) ≡ to = omega arith in
    let cut : drop from (take to r) ≡ take (to - from) (drop from r) =
      ap (λ n. drop from (take n r)) (sym split) ∙ drop-take from (to - from) r in
    ap (take (to - from)) (drop_append_le from (take to r) ys (omega arith))
    ∙ (ap (λ z. take (to - from) (z ++ ys)) cut
        ∙ take_prefix (to - from) (take (to - from) (drop from r)) ys (
            let a = length-take (to - from) (drop from r) in
            let b = length-drop from r in omega arith))

slice_there :
    (to : ℕ) (bytes r : Bytes)
    → to ≤ length r
    → slice to (to + length bytes) (put to bytes r) ≡ bytes
slice_there to bytes r k =
    let long : length (take to r) ≡ to = length-take to r ∙ omega arith in
    let size : to + length bytes - to ≡ length bytes = omega arith in
    ap (λ n. take n (drop to (put to bytes r))) size
    ∙ (ap (take (length bytes)) (drop_prefix to (take to r) _ long)
        ∙ take-append_length bytes (drop (to + length bytes) r))

pub slice-put :
    (from to : ℕ) (bytes r : Bytes)
    → from ≤ to
    → to ≤ length r
    → slice from (to + length bytes) (put to bytes r) ≡ slice from to r ++ bytes
slice-put from to bytes r h k =
    sym (slice_join from to (to + length bytes) (put to bytes r) h (omega arith))
    ∙ (ap (λ z. z ++ slice to (to + length bytes) (put to bytes r)) (slice_before from to r _ h k)
        ∙ ap (λ z. slice from to r ++ z) (slice_there to bytes r k))

pub length-put :
    (to : ℕ) (bytes r : Bytes) → to + length bytes ≤ length r → length (put to bytes r) ≡ length r
length-put to bytes r k =
    let a = length-append (take to r) (bytes ++ drop (to + length bytes) r) in
    let b = length-append bytes (drop (to + length bytes) r) in
    let c = length-take to r in let d = length-drop (to + length bytes) r in omega arith

pub slice_rest :
    (from to : ℕ) (r used rem : Bytes)
    → from ≤ to
    → to ≤ length r
    → slice from to r ≡ used ++ rem
    → slice (to - length rem) to r ≡ rem
slice_rest from to r used rem h k e =
    let a = length-take (to - from) (drop from r) in
    let b = length-drop from r in
    let c = ap length e in
    let d = length-append used rem in
    let sum : length used + length rem ≡ to - from = omega arith in
    let mid : from + length used ≡ to - length rem = omega arith in
    let size : to - (to - length rem) ≡ length rem = omega arith in
    ap (λ n. take n (drop (to - length rem) r)) size
    ∙ (ap (λ n. take (length rem) (drop n r)) (sym mid)
        ∙ (ap (take (length rem)) (sym (drop-drop (length used) from r))
            ∙ (sym (drop-take (length used) (length rem) (drop from r))
                ∙ (ap (λ n. drop (length used) (take n (drop from r))) sum
                    ∙ (ap (drop (length used)) e ∙ drop_prefix (length used) used rem refl)))))
