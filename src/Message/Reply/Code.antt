-- ===== src/Message/Reply/Code.antt =====
-- smtp-message/src/reply.rs: reply codes.
use kannader.Prelude.{
  ℕ, ◌+◌, ◌-◌, ◌*◌, ◌%◌, ◌^◌, Option, none, some, List, [], ◌∷◌, ◌==◌, if◌then◌else◌, Bytes,
}

pub data ReplyCodeKind : Type 0 where
  positive_completion positive_intermediate transient_negative permanent_negative : ReplyCodeKind

pub data ReplyCodeCategory : Type 0 where
  syntax information connection receiver_status unspecified : ReplyCodeCategory

-- Three bytes.
pub record ReplyCode : Type 0 where
  pub hundreds : ℕ
  pub tens : ℕ
  pub units : ℕ

abbrev pub reply_code : ℕ → ℕ → ℕ → ReplyCode
reply_code a b c = record { hundreds = b'0' + a; tens = b'0' + b; units = b'0' + c }

abbrev pub system_status : ReplyCode
system_status = reply_code 2 1 1

abbrev pub help_message : ReplyCode
help_message = reply_code 2 1 4

abbrev pub service_ready : ReplyCode
service_ready = reply_code 2 2 0

abbrev pub closing_channel : ReplyCode
closing_channel = reply_code 2 2 1

abbrev pub okay_code : ReplyCode
okay_code = reply_code 2 5 0

abbrev pub cannot_vrfy_but_please_try : ReplyCode
cannot_vrfy_but_please_try = reply_code 2 5 2

abbrev pub start_mail_input : ReplyCode
start_mail_input = reply_code 3 5 4

abbrev pub local_error : ReplyCode
local_error = reply_code 4 5 1

abbrev pub command_unrecognized_code : ReplyCode
command_unrecognized_code = reply_code 5 0 0

abbrev pub command_unimplemented_code : ReplyCode
command_unimplemented_code = reply_code 5 0 2

abbrev pub bad_sequence_code : ReplyCode
bad_sequence_code = reply_code 5 0 3

-- `none` is the panic on an invalid code.
unfoldable pub kind : ReplyCode → Option ReplyCodeKind
kind r =
    if r.hundreds == b'2'
    then some positive_completion
    else if r.hundreds == b'3'
    then some positive_intermediate
    else if r.hundreds == b'4'
    then some transient_negative
    else if r.hundreds == b'5'
    then some permanent_negative
    else none

unfoldable pub category : ReplyCode → ReplyCodeCategory
category r =
    if r.tens == b'0'
    then syntax
    else if r.tens == b'1'
    then information
    else if r.tens == b'2'
    then connection
    else if r.tens == b'5'
    then receiver_status
    else unspecified

-- In 16 bits, as a release build computes it.
unfoldable pub code : ReplyCode → ℕ
code r = (r.hundreds * 100 + r.tens * 10 + r.units + 2 ^ 16 - b'0' * 111) % 2 ^ 16

abbrev pub as_io_slices : ReplyCode → List Bytes
as_io_slices r = (r.hundreds ∷ r.tens ∷ r.units ∷ []) ∷ []
