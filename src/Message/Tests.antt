-- ===== src/Message/Tests.antt =====
-- Quoted mailboxes and ends of lines on concrete input.
use kannader.Message.Reply.Code.{reply_code, code, kind}
use kannader.Message.Text.{MaybeUtf8}
use kannader.Message.Reply.{Reply, lines_as_io_slices, line_as_io_slices, text_as_io_slices}
use kannader.Message.Reply.Lines.{read_lines, lines_of, as_io_slices-read_lines}
use kannader.Message.Reply.Digits.{first_digit, code_kind}
use kannader.Prelude.{
  Bytes, ◌+◌, ◌*◌, ◌/◌, arith, [], ◌∷◌, ◌≡◌, refl, ◌++◌, codes, List, flatten, none, some,
}
use kannader.Message.Address.{unquoted}
use kannader.Message.Address.Quoting.{quote, unquoted-quote}
use kannader.Message.Crlf.{
  start, position, next_crlf, state_after, first_crlf, plus, next_crlf_first,
}

next_crlf_first_example :
    first_crlf (codes "NOOP\r" ++ codes "\nQUIT\r\n")
    ≡ plus 5 (next_crlf (codes "\nQUIT\r\n") (state_after start (codes "NOOP\r"))).0
unfolding first_crlf position
next_crlf_first_example = next_crlf_first (codes "NOOP\r") (codes "\nQUIT\r\n") refl

unquoted-quote_example :
    unquoted (b'"' ∷ (quote (codes "a \"b\\c") ++ b'"' ∷ [])) ≡ codes "a \"b\\c"
unquoted-quote_example = unquoted-quote (codes "a \"b\\c")

code_kind_example :
    (code (reply_code 4 5 1) ≡ 4 * 100 + 5 * 10 + 1)
    × (kind (reply_code 4 5 1) ≡ first_digit (code (reply_code 4 5 1) / 100))
code_kind_example = code_kind 4 5 1 (omega arith) (omega arith) (omega arith)

abbrev two_lines : Reply
two_lines = record {
  code = reply_code 2 5 0;
  ecode = none;
  text = MaybeUtf8.utf8 (codes "mx.example") ∷ MaybeUtf8.ascii (codes "8BITMIME") ∷ [];
}

abbrev printed : List Bytes
printed = lines_as_io_slices two_lines.code two_lines.ecode two_lines.text

as_io_slices-read_lines_example :
    read_lines [] (flatten printed) ≡ some (lines_of two_lines.code two_lines.ecode two_lines.text)
unfolding text_as_io_slices
as_io_slices-read_lines_example = as_io_slices-read_lines two_lines printed (refl, refl, refl) refl

two_lines_printed : flatten printed ≡ codes "250-mx.example\r\n250 8BITMIME\r\n"
unfolding lines_as_io_slices line_as_io_slices
two_lines_printed = refl
