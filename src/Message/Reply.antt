-- ===== src/Message/Reply.antt =====
-- smtp-message/src/reply.rs: replies and how they are printed.
pub mod Code
pub mod Enhanced
pub mod Digits
pub mod Lines
use kannader.Prelude.{Bool, true, false, Option, none, some, List, [], ◌∷◌, ◌++◌, Bytes}
use kannader.Message.Text
use kannader.Message.Text.{MaybeUtf8}
use Code.{ReplyCode}
use Enhanced.{EnhancedReplyCode}

pub record ReplyLine : Type 0 where
  pub code : ReplyCode
  pub last : Bool
  pub ecode : Option EnhancedReplyCode
  pub text : MaybeUtf8

-- `text` is never empty in a reply that can be printed.
pub record Reply : Type 0 where
  pub code : ReplyCode
  pub ecode : Option EnhancedReplyCode
  pub text : List MaybeUtf8

abbrev pub last_char : Bool → Bytes
last_char true = b' ' ∷ []
last_char false = b'-' ∷ []

abbrev pub ecode_slices : Option EnhancedReplyCode → List Bytes
ecode_slices none = []
ecode_slices (some c) = Enhanced.as_io_slices c ++ (b' ' ∷ []) ∷ []

unfoldable pub line_as_io_slices :
    ReplyCode → Bool → Option EnhancedReplyCode → MaybeUtf8 → List Bytes
line_as_io_slices code last ecode text =
    Code.as_io_slices code
    ++ (last_char last
        ∷ (ecode_slices ecode ++ (Text.as_io_slices text ++ (b'\r' ∷ b'\n' ∷ []) ∷ [])))

-- The lines from the present one on; only the last is printed as the last.
unfoldable pub lines_as_io_slices :
    ReplyCode → Option EnhancedReplyCode → List MaybeUtf8 → List Bytes
lines_as_io_slices code ecode [] = []
lines_as_io_slices code ecode (l ∷ []) = line_as_io_slices code true ecode l
lines_as_io_slices code ecode (l ∷ m ∷ ls) =
    line_as_io_slices code false ecode l ++ lines_as_io_slices code ecode (m ∷ ls)

-- `none` is the underflow of `len() - 1`, where there is no line.
unfoldable pub text_as_io_slices :
    ReplyCode → Option EnhancedReplyCode → List MaybeUtf8 → Option (List Bytes)
text_as_io_slices code ecode [] = none
text_as_io_slices code ecode (l ∷ ls) = some (lines_as_io_slices code ecode (l ∷ ls))

-- `Reply::as_io_slices`
abbrev pub as_io_slices : Reply → Option (List Bytes)
as_io_slices r = text_as_io_slices r.code r.ecode r.text
