-- ===== src/Message/Reply/Lines.antt =====
-- Printed replies, read line by line (RFC 5321, 4.2).
use mathlib.Core.Path.{subst}
use kannader.Prelude.{
  ℕ, suc, ◌+◌, Bool, true, false, Option, none, some, List, [], ◌∷◌, ◌++◌, append_assoc, append-nil,
  ◌≡◌, refl, sym, ap, ◌∙◌, ◌==◌, if◌then◌else◌, Bytes, arith, flatten,
}
use kannader.Message.Text.{MaybeUtf8, as_str}
use kannader.Message.Reply
use kannader.Message.Reply.{
  Reply, last_char, ecode_slices, line_as_io_slices, lines_as_io_slices, text_as_io_slices,
}
use kannader.Message.Reply.Code.{ReplyCode}
use kannader.Message.Reply.Enhanced.{EnhancedReplyCode}

-- The line feeds among some bytes.
abbrev pub line_feeds : Bytes → ℕ
line_feeds [] = 0
line_feeds (c ∷ cs) = let rest = line_feeds cs in if c == b'\n' then suc rest else rest

abbrev ecode_feeds : Option EnhancedReplyCode → ℕ
ecode_feeds none = 0
ecode_feeds (some c) = line_feeds c.raw

abbrev text_feeds : List MaybeUtf8 → ℕ
text_feeds [] = 0
text_feeds (t ∷ ts) = line_feeds (as_str t) + text_feeds ts

-- No part of the reply holds a line feed.
abbrev pub IsPlain : Reply → Type 0
IsPlain r =
    (line_feeds (r.code.hundreds ∷ r.code.tens ∷ r.code.units ∷ []) ≡ 0)
    × (ecode_feeds r.ecode ≡ 0)
    × (text_feeds r.text ≡ 0)

-- What a client reads of a line: the three digits, whether it is the last, and the rest.
pub record Line : Type 0 where
  pub digits : Bytes
  pub last : Bool
  pub rest : Bytes

-- A line without its line break: after the digits stands a space in the last line, and else a dash.
abbrev separated : Bytes → ℕ → Bytes → Option Line
separated digits c rest =
    if c == b' '
    then some (record { digits = digits; last = true; rest = rest })
    else if c == b'-'
    then some (record { digits = digits; last = false; rest = rest })
    else none

abbrev read_line : Bytes → Option Line
read_line (a ∷ b ∷ c ∷ d ∷ rest) = separated (a ∷ b ∷ c ∷ []) d rest
read_line _ = none

abbrev in_front : ℕ → Option Bytes → Option Bytes
in_front c none = none
in_front c (some cs) = some (c ∷ cs)

-- The bytes before a carriage return that is the last one.
unfoldable pub without_cr : Bytes → Option Bytes
without_cr [] = none
without_cr (c ∷ []) = if c == b'\r' then some [] else none
without_cr (c ∷ d ∷ cs) = in_front c (without_cr (d ∷ cs))

abbrev read_end : Option Bytes → Option Line
read_end none = none
read_end (some l) = read_line l

abbrev with_lines : Option Line → Option (List Line) → Option (List Line)
with_lines none ls = none
with_lines (some l) none = none
with_lines (some l) (some ls) = some (l ∷ ls)

-- The lines of some bytes, each ended by CRLF; the bytes of the present line come first. `none` is
-- a line feed without its carriage return, a line without digits or separator, or one not ended.
unfoldable pub read_lines : Bytes → Bytes → Option (List Line)
unfolding without_cr
read_lines [] [] = some []
read_lines (b ∷ bs) [] = none
read_lines before (c ∷ cs) =
    let more = read_lines (before ++ (c ∷ [])) cs in
    let rest = read_lines [] cs in
    if c == b'\n' then with_lines (read_end (without_cr before)) rest else more

abbrev ecode_bytes : Option EnhancedReplyCode → Bytes
ecode_bytes none = []
ecode_bytes (some c) = c.raw ++ (b' ' ∷ [])

-- The lines that a reply with these texts stands for.
unfoldable pub lines_of : ReplyCode → Option EnhancedReplyCode → List MaybeUtf8 → List Line
lines_of code ecode [] = []
lines_of code ecode (t ∷ []) =
    record {
      digits = code.hundreds ∷ code.tens ∷ code.units ∷ [];
      last = true;
      rest = ecode_bytes ecode ++ as_str t;
    }
    ∷ []
lines_of code ecode (t ∷ u ∷ ts) =
    record {
      digits = code.hundreds ∷ code.tens ∷ code.units ∷ [];
      last = false;
      rest = ecode_bytes ecode ++ as_str t;
    }
    ∷ lines_of code ecode (u ∷ ts)

line_feeds-append : (xs ys : Bytes) → line_feeds (xs ++ ys) ≡ line_feeds xs + line_feeds ys
line_feeds-append [] ys = omega arith
line_feeds-append (x ∷ xs) ys = let rest = line_feeds-append xs ys in ground arith

flatten-append : (xs ys : List Bytes) → flatten (xs ++ ys) ≡ flatten xs ++ flatten ys
flatten-append [] ys = refl
flatten-append (x ∷ xs) ys =
    ap (λ r. x ++ r) (flatten-append xs ys) ∙ sym (append_assoc x (flatten xs) (flatten ys))

without_cr-append : (xs : Bytes) → without_cr (xs ++ (b'\r' ∷ [])) ≡ some xs
unfolding without_cr
without_cr-append [] = refl
without_cr-append (x ∷ []) = refl
without_cr-append (x ∷ y ∷ xs) = ap (in_front x) (without_cr-append (y ∷ xs))

read_lines_step :
    (x : ℕ) (before ys : Bytes)
    → (x == b'\n') ≡ false
    → read_lines before (x ∷ ys) ≡ read_lines (before ++ (x ∷ [])) ys
unfolding read_lines
read_lines_step x [] ys e = rw e refl
read_lines_step x (b ∷ before) ys e = rw e refl

read_lines_end :
    (before ys : Bytes)
    → read_lines before (b'\n' ∷ ys) ≡ with_lines (read_end (without_cr before)) (read_lines [] ys)
unfolding read_lines
read_lines_end [] ys = refl
read_lines_end (b ∷ before) ys = refl

-- The bytes of a line, up to its carriage return, go to the present line.
read_lines_past :
    (before xs ys : Bytes)
    → line_feeds xs ≡ 0
    → read_lines before (xs ++ ys) ≡ read_lines (before ++ xs) ys
read_lines_past before [] ys h = ap (λ l. read_lines l ys) (sym (append-nil before))
read_lines_past before (x ∷ xs) ys h =
    let later : line_feeds xs ≡ 0 = ground arith in
    let other : (x == b'\n') ≡ false = ground arith in
    read_lines_step x before (xs ++ ys) other
    ∙ (read_lines_past (before ++ (x ∷ [])) xs ys later
        ∙ ap (λ l. read_lines l ys) (append_assoc before (x ∷ []) xs))

abbrev digits_of : ReplyCode → Bytes
digits_of code = code.hundreds ∷ code.tens ∷ code.units ∷ []

abbrev body : ReplyCode → Bool → Option EnhancedReplyCode → MaybeUtf8 → Bytes
body code last ecode text = digits_of code ++ (last_char last ++ (ecode_bytes ecode ++ as_str text))

module _ (code : ReplyCode) (last : Bool) (ecode : Option EnhancedReplyCode)
    (text : MaybeUtf8) where
  ecode_printed : (e : Option EnhancedReplyCode) → flatten (ecode_slices e) ≡ ecode_bytes e
  ecode_printed none = refl
  ecode_printed (some c) = refl

  line_printed :
      flatten (line_as_io_slices code last ecode text)
      ≡ (body code last ecode text ++ (b'\r' ∷ [])) ++ (b'\n' ∷ [])
  unfolding line_as_io_slices
  line_printed =
      let end : Bytes = b'\r' ∷ b'\n' ∷ [] in
      ap (λ r. digits_of code ++ (last_char last ++ r))
        (flatten-append (ecode_slices ecode) (as_str text ∷ end ∷ [])
          ∙ (ap (λ e. e ++ (as_str text ++ end)) (ecode_printed ecode)
              ∙ sym (append_assoc (ecode_bytes ecode) (as_str text) end)))
      ∙ (ap (λ r. digits_of code ++ r)
            (sym (append_assoc (last_char last) (ecode_bytes ecode ++ as_str text) end))
          ∙ sym (append_assoc (body code last ecode text) (b'\r' ∷ []) (b'\n' ∷ [])))

  body_feeds :
      line_feeds (digits_of code) ≡ 0
      → ecode_feeds ecode ≡ 0
      → line_feeds (as_str text) ≡ 0
      → line_feeds (body code last ecode text ++ (b'\r' ∷ [])) ≡ 0
  body_feeds h k l =
      line_feeds-append (body code last ecode text) (b'\r' ∷ [])
      ∙ (ap (λ n. n + 0)
            (line_feeds-append (digits_of code)
                (last_char last ++ (ecode_bytes ecode ++ as_str text))
              ∙ ap (λ n. line_feeds (digits_of code) + n)
                  (separator_feeds last (ecode_bytes ecode ++ as_str text)
                    ∙ (line_feeds-append (ecode_bytes ecode) (as_str text)
                        ∙ ap (λ n. n + line_feeds (as_str text)) (ecode_feeds_lem ecode))))
          ∙ omega arith)
    where
      separator_feeds : (b : Bool) (xs : Bytes) → line_feeds (last_char b ++ xs) ≡ line_feeds xs
      separator_feeds true xs = refl
      separator_feeds false xs = refl

      ecode_feeds_lem : (e : Option EnhancedReplyCode) → line_feeds (ecode_bytes e) ≡ ecode_feeds e
      ecode_feeds_lem none = refl
      ecode_feeds_lem (some c) = line_feeds-append c.raw (b' ' ∷ []) ∙ omega arith

  read_body :
      (b : Bool)
      → read_line (body code b ecode text)
        ≡ some
            (record { digits = digits_of code; last = b; rest = ecode_bytes ecode ++ as_str text })
  read_body true = refl
  read_body false = refl

  -- A printed line is read as what it stands for.
  read_lines-line :
      (rest : Bytes)
      → line_feeds (digits_of code) ≡ 0
      → ecode_feeds ecode ≡ 0
      → line_feeds (as_str text) ≡ 0
      → read_lines [] (flatten (line_as_io_slices code last ecode text) ++ rest)
        ≡ with_lines
            (some (record {
              digits = digits_of code;
              last = last;
              rest = ecode_bytes ecode ++ as_str text;
            }))
            (read_lines [] rest)
  read_lines-line rest h k l =
      let whole = body code last ecode text ++ (b'\r' ∷ []) in
      ap (λ bs. read_lines [] (bs ++ rest)) line_printed
      ∙ (ap (read_lines []) (append_assoc whole (b'\n' ∷ []) rest)
          ∙ (read_lines_past [] whole (b'\n' ∷ rest) (body_feeds h k l)
              ∙ (read_lines_end whole rest
                  ∙ (ap (λ o. with_lines (read_end o) (read_lines [] rest))
                        (without_cr-append (body code last ecode text))
                      ∙ ap (λ o. with_lines o (read_lines [] rest)) (read_body last)))))

read_lines-lines :
    (code : ReplyCode) (ecode : Option EnhancedReplyCode) (ts : List MaybeUtf8)
    → line_feeds (digits_of code) ≡ 0
    → ecode_feeds ecode ≡ 0
    → text_feeds ts ≡ 0
    → read_lines [] (flatten (lines_as_io_slices code ecode ts)) ≡ some (lines_of code ecode ts)
unfolding lines_as_io_slices lines_of read_lines
read_lines-lines code ecode [] h k l = refl
read_lines-lines code ecode (t ∷ []) h k l =
    ap (read_lines []) (sym (append-nil (flatten (line_as_io_slices code true ecode t))))
    ∙ read_lines-line code true ecode t [] h k (omega arith)
read_lines-lines code ecode (t ∷ u ∷ ts) h k l =
    ap (read_lines []) (
      flatten-append (line_as_io_slices code false ecode t)
        (lines_as_io_slices code ecode (u ∷ ts)))
    ∙ (read_lines-line code false ecode t (flatten (lines_as_io_slices code ecode (u ∷ ts))) h k
          (omega arith)
        ∙ ap
            (with_lines (
              some (record {
                digits = digits_of code;
                last = false;
                rest = ecode_bytes ecode ++ as_str t;
              })))
            (read_lines-lines code ecode (u ∷ ts) h k (omega arith)))

printed_lines :
    (code : ReplyCode) (ecode : Option EnhancedReplyCode) (ts : List MaybeUtf8) (bufs : List Bytes)
    → text_as_io_slices code ecode ts ≡ some bufs
    → lines_as_io_slices code ecode ts ≡ bufs
unfolding text_as_io_slices
printed_lines code ecode [] bufs h = absurd (ground arith)
printed_lines code ecode (t ∷ ts) bufs h =
    let same : lines_as_io_slices code ecode (t ∷ ts) ≡ bufs = ground arith in same

-- A reply none of whose parts holds a line feed, printed and read line by line, gives the reply back:
-- each line ends with CRLF and nothing follows the last; each has the digits of the code, a dash
-- behind them and in the last line a space, and then the enhanced code, where there is one, and a
-- text, in the order of the texts.
pub as_io_slices-read_lines :
    (r : Reply) (bufs : List Bytes)
    → IsPlain r
    → Reply.as_io_slices r ≡ some bufs
    → read_lines [] (flatten bufs) ≡ some (lines_of r.code r.ecode r.text)
as_io_slices-read_lines r bufs (digits, ecode, text) h =
    subst (λ bs. read_lines [] (flatten bs) ≡ some (lines_of r.code r.ecode r.text))
      (printed_lines r.code r.ecode r.text bufs h)
      (read_lines-lines r.code r.ecode r.text digits ecode text)
