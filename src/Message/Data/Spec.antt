-- ===== src/Message/Data/Spec.antt =====
-- What dot-stuffing means (RFC 5321, 4.5.2), apart from the code: the two bytes that stand before
-- a byte decide whether it begins a line.
use mathlib.Core.Option
use kannader.Prelude.{
  ℕ, suc, Bool, Option, none, some, starts_with, ◌&&◌, [], ◌∷◌, ◌++◌, ◌==◌, if◌then◌else◌, Bytes,
}

abbrev pub cr : ℕ
cr = b'\r'

abbrev pub lf : ℕ
lf = b'\n'

abbrev pub dot : ℕ
dot = b'.'

abbrev pub crlf : Bytes
crlf = cr ∷ lf ∷ []

-- The end-of-data mark, when it stands at the beginning of a line.
abbrev pub mark : Bytes
mark = dot ∷ cr ∷ lf ∷ []

abbrev pub at_line_start : ℕ → ℕ → Bool
at_line_start p q = p == cr && q == lf

-- A text sent after the bytes `p` and `q`: each dot that begins a line is doubled.
abbrev pub stuff : ℕ → ℕ → Bytes → Bytes
stuff p q [] = []
stuff p q (c ∷ cs) =
    let rest = stuff q c cs in if at_line_start p q && c == dot then dot ∷ dot ∷ rest else c ∷ rest

-- What closes the text, by its last two bytes: the mark, on a line of its own.
abbrev pub closing : ℕ → ℕ → Bytes → Bytes
closing p q [] = if at_line_start p q then mark else crlf ++ mark
closing p q (c ∷ cs) = closing q c cs

-- The line break that is added to a text whose last line has none.
abbrev pub line_end : ℕ → ℕ → Bytes → Bytes
line_end p q [] = if at_line_start p q then [] else crlf
line_end p q (c ∷ cs) = line_end q c cs

-- A whole message on the wire. A message begins at the beginning of a line.
abbrev pub wire : Bytes → Bytes
wire text = stuff cr lf text ++ closing cr lf text

-- The text that a wire message stands for.
abbrev pub lines : Bytes → Bytes
lines text = text ++ line_end cr lf text

-- Whether the bytes end with a line break and the mark; the last byte comes first.
abbrev pub ends_with_mark : Bytes → Bool
ends_with_mark rev = starts_with (lf ∷ cr ∷ dot ∷ lf ∷ cr ∷ []) rev

-- The index of the first byte that completes a mark, behind bytes given last one first.
abbrev pub first_mark : Bytes → Bytes → Option ℕ
first_mark rev [] = none
first_mark rev (c ∷ cs) =
    let later = Option.map suc (first_mark (c ∷ rev) cs) in
    if ends_with_mark (c ∷ rev) then some 0 else later
