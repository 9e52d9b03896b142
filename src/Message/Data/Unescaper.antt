-- ===== src/Message/Data/Unescaper.antt =====
-- smtp-message/src/data.rs: `DataUnescaper`, which takes the doubled dots out of a buffer in place.
pub mod Bounds
use kannader.Prelude.{
  ℕ, zero, suc, ◌+◌, ◌-◌, Bool, true, false, Option, none, some, [], ◌∷◌, ◌++◌, leb, ◌==◌,
  if◌then◌else◌, starts_with, bytes_eq, ◌&&◌, Bytes, length, take, drop, slice,
}

pub record DataUnescapeRes : Type 0 where
  pub bytes : Bytes
  pub written : ℕ
  pub unhandled_idx : ℕ

abbrev pub later : Option ℕ → Option ℕ
later none = none
later (some i) = some (suc i)

-- `windows(3).position(|s| s == b"\r\n.")`
unfoldable pub position : Bytes → Option ℕ
position [] = none
position (c ∷ cs) =
    let rest = position cs in
    if starts_with (b'\r' ∷ b'\n' ∷ b'.' ∷ []) (c ∷ cs) then some 0 else later rest

-- `if from != dest { data.copy_within(from..to, dest) }`; `none` is the panic where the bytes or
-- their new place are out of range.
unfoldable pub move : Bytes → ℕ → ℕ → ℕ → Option Bytes
move bytes from to dest =
    if from == dest
    then some bytes
    else if leb from to && leb to (length bytes) && leb (dest + (to - from)) (length bytes)
    then some (take dest bytes ++ (slice from to bytes ++ drop (dest + (to - from)) bytes))
    else none

-- `data[from..to]`, where `none` is the panic.
unfoldable pub slice_of : ℕ → ℕ → Bytes → Option Bytes
slice_of from to bytes =
    if leb from to && leb to (length bytes) then some (slice from to bytes) else none

abbrev pub finish : ℕ → ℕ → Option Bytes → Option DataUnescapeRes
finish written idx none = none
finish written idx (some bytes) =
    some (record { bytes = bytes; written = written; unhandled_idx = idx })

unfoldable pub ends_with : Bytes → Bytes → Bool
ends_with suffix [] = starts_with suffix []
ends_with suffix (c ∷ cs) =
    let rest = ends_with suffix cs in
    if leb (length (c ∷ cs)) (length suffix) then starts_with suffix (c ∷ cs) else rest

-- What follows the loop: `kept` bytes at the end need more information. `none` is an underflow, or
-- the panic of `copy_within`.
unfoldable pub leave : ℕ → Bytes → ℕ → ℕ → Option DataUnescapeRes
unfolding move
leave kept bytes written idx =
    if leb kept (length bytes) && leb (kept + idx) (written + length bytes)
    then finish (written + length bytes - kept - idx) (length bytes - kept)
        (move bytes idx (length bytes - kept) written)
    else none

unfoldable pub unescape_rest : Bytes → ℕ → ℕ → Option DataUnescapeRes
unfolding leave
unescape_rest bytes written idx =
    if ends_with (b'\r' ∷ b'\n' ∷ []) bytes
    then leave 2 bytes written idx
    else if ends_with (b'\r' ∷ []) bytes
    then leave 1 bytes written idx
    else leave 0 bytes written idx

abbrev pub go_on :
    (Bytes → ℕ → ℕ → Option DataUnescapeRes) → ℕ → ℕ → Option Bytes → Option DataUnescapeRes
go_on again written idx none = none
go_on again written idx (some bytes) = again bytes written idx

-- The two bytes behind the `\r\n.` are `next`.
unfoldable pub unescape_dot :
    (Bytes → ℕ → ℕ → Option DataUnescapeRes)
    → Bytes
    → ℕ
    → ℕ
    → ℕ
    → Option Bytes
    → Option DataUnescapeRes
unfolding move
unescape_dot again bytes written idx i none = none
unescape_dot again bytes written idx i (some next) = elim (bytes_eq next (b'\r' ∷ b'\n' ∷ [])) [
  | false ↦ go_on again (written + (i + 2)) (idx + (i + 3)) (move bytes idx (idx + i + 2) written)
  | true ↦ finish (written + (i + 2)) (idx + (i + 5)) (move bytes idx (idx + i + 2) written)
]

-- One `\r\n.`, `i` bytes behind `idx`. `again` is the rest of the loop.
unfoldable pub unescape_at :
    (Bytes → ℕ → ℕ → Option DataUnescapeRes) → Bytes → ℕ → ℕ → ℕ → Option DataUnescapeRes
unfolding unescape_dot slice_of
unescape_at again bytes written idx i = elim (leb (length bytes) (idx + i + 4)) [
  | true ↦ finish (written + i) (idx + i) (move bytes idx (idx + i) written)
  | false ↦ unescape_dot again bytes written idx i (slice_of (idx + i + 3) (idx + i + 5) bytes)
]

unfoldable pub unescape_found :
    (Bytes → ℕ → ℕ → Option DataUnescapeRes) → Bytes → ℕ → ℕ → Option ℕ → Option DataUnescapeRes
unfolding unescape_at unescape_rest
unescape_found again bytes written idx none = unescape_rest bytes written idx
unescape_found again bytes written idx (some i) = unescape_at again bytes written idx i

-- One round, from `data[unhandled_idx..]` on.
unfoldable pub unescape_from :
    (Bytes → ℕ → ℕ → Option DataUnescapeRes) → Bytes → ℕ → ℕ → Option Bytes → Option DataUnescapeRes
unfolding unescape_found position
unescape_from again bytes written idx none = none
unescape_from again bytes written idx (some tail) =
    unescape_found again bytes written idx (position tail)

-- The loop, on fuel: `none` is a panic, or that there was not enough of it.
unfoldable pub unescape_loop : ℕ → Bytes → ℕ → ℕ → Option DataUnescapeRes
unfolding unescape_from slice_of
unescape_loop zero bytes written idx = none
unescape_loop (suc fuel) bytes written idx =
    unescape_from (unescape_loop fuel) bytes written idx (slice_of idx (length bytes) bytes)

abbrev pub untouched : Bytes → ℕ → DataUnescapeRes
untouched bytes idx = record { bytes = bytes; written = 0; unhandled_idx = idx }

-- `DataUnescaper::unescape`: whether the buffer is preceded by CRLF is the unescaper's state.
unfoldable pub unescape : Bool → Bytes → Bool × Option DataUnescapeRes
unfolding unescape_loop
unescape false bytes = (false, unescape_loop (suc (length bytes)) bytes 0 0)
unescape true bytes =
    if leb (length bytes) 3
    then (true, some (untouched bytes 0))
    else if starts_with (b'.' ∷ b'\r' ∷ b'\n' ∷ []) bytes
    then (true, some (untouched bytes 3))
    else if starts_with (b'.' ∷ []) bytes
    then (false, unescape_loop (suc (length bytes)) bytes 0 1)
    else (false, unescape_loop (suc (length bytes)) bytes 0 0)
