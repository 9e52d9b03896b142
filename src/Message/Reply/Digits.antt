-- ===== src/Message/Reply/Digits.antt =====
-- What the digits of a reply code mean.
use kannader.Prelude.{
  ℕ, ◌+◌, ◌*◌, ◌/◌, ◌≤◌, Option, none, some, ◌≡◌, sym, ap, ◌∙◌, arith, ◌==◌, if◌then◌else◌,
}
use kannader.Message.Reply.Code.{
  ReplyCodeKind, positive_completion, positive_intermediate, transient_negative, permanent_negative,
  reply_code, kind, code,
}

-- RFC 5321, 4.2.1: what the first digit says.
abbrev pub first_digit : ℕ → Option ReplyCodeKind
first_digit n =
    if n == 2
    then some positive_completion
    else if n == 3
    then some positive_intermediate
    else if n == 4
    then some transient_negative
    else if n == 5
    then some permanent_negative
    else none

kind_first : (a b c : ℕ) → kind (reply_code a b c) ≡ first_digit a
unfolding kind
kind_first a b c = ground arith

-- For three decimal digits, the number of a reply code is the number that they write, without a wrap
-- in 16 bits, and its hundreds decide the code's kind, which is missing exactly where they are not 2
-- to 5.
pub code_kind :
    (a b c : ℕ)
    → a ≤ 9
    → b ≤ 9
    → c ≤ 9
    → (code (reply_code a b c) ≡ a * 100 + b * 10 + c)
      × (kind (reply_code a b c) ≡ first_digit (code (reply_code a b c) / 100))
unfolding code
code_kind a b c ha hb hc =
    let number : code (reply_code a b c) ≡ a * 100 + b * 10 + c = omega arith in
    let hundreds : (a * 100 + b * 10 + c) / 100 ≡ a = omega arith in
    (number, kind_first a b c ∙ ap first_digit (sym hundreds ∙ ap (λ n. n / 100) (sym number)))
