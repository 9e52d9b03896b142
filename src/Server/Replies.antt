-- ===== src/Server/Replies.antt =====
-- smtp-server-types/src/reply.rs: the usual replies. Owned and borrowed strings are the same bytes.
use kannader.Prelude.{Bool, none, some, List, [], ◌∷◌, ◌++◌, if◌then◌else◌, Bytes, codes}
use kannader.Message.Text.{MaybeUtf8, ascii, utf8}
use kannader.Message.Reply.{Reply}
use kannader.Message.Reply.Code
use kannader.Message.Reply.Code.{ReplyCode}
use kannader.Message.Reply.Enhanced
use kannader.Message.Reply.Enhanced.{EnhancedReplyCode}

abbrev pub welcome_banner : Bytes → Bytes → Reply
welcome_banner hostname banner = record {
  code = Code.service_ready;
  ecode = none;
  text = utf8 (hostname ++ (codes " " ++ banner)) ∷ [];
}

abbrev pub built_banner : Bytes → Bytes → Bytes
built_banner local_hostname [] = local_hostname
built_banner local_hostname (c ∷ cs) = local_hostname ++ (codes " " ++ (c ∷ cs))

abbrev pub extensions : Bool → List MaybeUtf8
extensions can_do_tls =
    ascii (codes "8BITMIME")
    ∷ ascii (codes "ENHANCEDSTATUSCODES")
    ∷ ascii (codes "PIPELINING")
    ∷ ascii (codes "SMTPUTF8")
    ∷ (if can_do_tls then ascii (codes "STARTTLS") ∷ [] else [])

abbrev pub okay_hello : Bool → Bytes → Bytes → Bool → Reply
okay_hello is_extended local_hostname banner can_do_tls = record {
  code = Code.okay_code;
  ecode = none;
  text =
      utf8 (built_banner local_hostname banner)
      ∷ (if is_extended then extensions can_do_tls else []);
}

abbrev pub okay : EnhancedReplyCode → Reply
okay ecode = record { code = Code.okay_code; ecode = some ecode; text = ascii (codes "Okay") ∷ [] }

abbrev pub okay_from : Reply
okay_from = okay Enhanced.success_undefined

abbrev pub okay_to : Reply
okay_to = okay Enhanced.success_dest_valid

abbrev pub okay_data : Reply
okay_data = record {
  code = Code.start_mail_input;
  ecode = none;
  text = ascii (codes "Start mail input; end with <CRLF>.<CRLF>") ∷ [];
}

abbrev pub okay_mail : Reply
okay_mail = okay Enhanced.success_undefined

abbrev pub okay_starttls : Reply
okay_starttls = record {
  code = Code.service_ready;
  ecode = some Enhanced.success_undefined;
  text = ascii (codes "Ready to start TLS") ∷ [];
}

abbrev pub okay_rset : Reply
okay_rset = okay Enhanced.success_undefined

abbrev pub ignore_vrfy : Reply
ignore_vrfy = record {
  code = Code.cannot_vrfy_but_please_try;
  ecode = some Enhanced.success_dest_valid;
  text = ascii (codes "Cannot VRFY user, but will accept message and attempt delivery") ∷ [];
}

abbrev pub ignore_help : Reply
ignore_help = record {
  code = Code.help_message;
  ecode = some Enhanced.success_undefined;
  text = ascii (codes "See https://tools.ietf.org/html/rfc5321") ∷ [];
}

abbrev pub okay_noop : Reply
okay_noop = okay Enhanced.success_undefined

abbrev pub okay_quit : Reply
okay_quit = record {
  code = Code.closing_channel;
  ecode = some Enhanced.success_undefined;
  text = utf8 (codes "Bye") ∷ [];
}

-- A refusal of one line.
abbrev failure : ReplyCode → EnhancedReplyCode → Bytes → Reply
failure code ecode line = record { code = code; ecode = some ecode; text = ascii line ∷ [] }

abbrev pub bad_sequence : Reply
bad_sequence =
    failure Code.bad_sequence_code Enhanced.permanent_invalid_command
      (codes "Bad sequence of commands")

abbrev pub command_unimplemented : Reply
command_unimplemented =
    failure Code.command_unimplemented_code Enhanced.permanent_invalid_command
      (codes "Command not implemented")

abbrev pub command_unrecognized : Reply
command_unrecognized =
    failure Code.command_unrecognized_code Enhanced.permanent_invalid_command
      (codes "Command not recognized")

abbrev pub command_not_supported : Reply
command_not_supported =
    failure Code.command_unimplemented_code Enhanced.permanent_invalid_command
      (codes "Command not supported")

abbrev pub pipeline_forbidden_after_starttls : Reply
pipeline_forbidden_after_starttls =
    failure Code.bad_sequence_code Enhanced.permanent_invalid_command
      (codes "Pipelining after starttls is forbidden")

abbrev pub line_too_long : Reply
line_too_long =
    failure Code.command_unrecognized_code Enhanced.permanent_undefined (codes "Line too long")

abbrev pub internal_server_error : Reply
internal_server_error =
    failure Code.local_error Enhanced.transient_undefined (codes "Internal server error")

abbrev pub handle_mail_did_not_call_complete : Reply
handle_mail_did_not_call_complete =
    failure Code.local_error Enhanced.transient_system_incorrectly_configured
      (codes "System incorrectly configured")
