-- ===== src/Client/Replies.antt =====
-- smtp-client/src/lib.rs: reading a reply, checking it, and sending a command.
use kannader.Prelude.{
  ℕ, zero, suc, ◌+◌, ◌-◌, Bool, true, false, Option, none, some, [], ◌∷◌, ◌++◌, Bytes, ◌==◌, ltb,
  max, length, take, drop, slice, flatten, if◌then◌else◌,
}
use kannader.Queue.Types.{Result, ok, err, to_std}
use kannader.Message.Reply.{Reply}
use kannader.Message.Reply.Code.{
  ReplyCodeKind, positive_completion, positive_intermediate, transient_negative, permanent_negative,
  kind,
}
use kannader.Message.Reply.Enhanced.{
  EnhancedReplyCodeSubject, EnhancedReplyCode, mailbox, mail_system, subject,
}
use kannader.Message.Command
use kannader.Message.Command.{Command}
use kannader.Client.Types.{
  Timed, in_time, too_late, Parsed, incomplete, syntax_error, parsed, minimum_free_bufspace, Net,
  TransportError, receiving_reply_bytes, timed_out_waiting_for_reply, connection_aborted,
  too_long_reply, reply_syntax_error, timed_out_sending_command, sending_command, transient_mail,
  transient_mailbox, transient_mail_system, permanent_mail, permanent_mailbox,
  permanent_mail_system, unexpected_reply_code, Outcome, gives, fails, panics, unfinished, Sender,
  ◌then◌,
}

abbrev pub or_zero : Option ℕ → ℕ
or_zero none = 0
or_zero (some d) = d

abbrev pub same_kind : ReplyCodeKind → ReplyCodeKind → Bool
same_kind positive_completion positive_completion = true
same_kind positive_intermediate positive_intermediate = true
same_kind transient_negative transient_negative = true
same_kind permanent_negative permanent_negative = true
same_kind _ _ = false

abbrev pub subject_of : Option EnhancedReplyCode → Option EnhancedReplyCodeSubject
subject_of none = none
subject_of (some e) = some (subject e)

-- `cmp::max(MINIMUM_FREE_BUFSPACE, n)`
abbrev pub missing : Option ℕ → ℕ
missing none = minimum_free_bufspace
missing (some n) = max minimum_free_bufspace n

module _ {World : Type 0} (net : Net World) where
  open net use {Io, IoError}

  -- The error of a reply that is not of the expected kind.
  unfoldable pub reply_error :
      Reply → ReplyCodeKind → Option EnhancedReplyCodeSubject → TransportError net
  reply_error r transient_negative (some mailbox) = transient_mailbox r
  reply_error r permanent_negative (some mailbox) = permanent_mailbox r
  reply_error r transient_negative (some mail_system) = transient_mail_system r
  reply_error r permanent_negative (some mail_system) = permanent_mail_system r
  reply_error r transient_negative _ = transient_mail r
  reply_error r permanent_negative _ = permanent_mail r
  reply_error r _ _ = unexpected_reply_code r

  -- `none` is the panic of `kind`.
  unfoldable pub verify_kind : Reply → ReplyCodeKind → Option ReplyCodeKind → Outcome net (Unit {0})
  unfolding reply_error
  verify_kind r expected none = panics
  verify_kind r expected (some k) =
      if same_kind k expected then gives tt else fails (reply_error r k (subject_of r.ecode))

  unfoldable pub verify_reply : Reply → ReplyCodeKind → Outcome net (Unit {0})
  unfolding verify_kind
  verify_reply r expected = verify_kind r expected (kind r.code)

  -- `read_for_reply`, with room for `room` bytes
  unfoldable pub received : World × Timed (Result Bytes IoError) → World × Outcome net Bytes
  received (w, in_time (ok bytes)) = (w, gives bytes)
  received (w, in_time (err e)) = (w, fails (receiving_reply_bytes e))
  received (w, too_late) = (w, fails timed_out_waiting_for_reply)

  unfoldable pub read_before : Io → ℕ → ℕ → World × ℕ → World × Outcome net Bytes
  unfolding received
  read_before io room deadline (w, now) =
      received (net.read w io room (or_zero (to_std deadline now)))

  unfoldable pub read_for_reply : World → Io → ℕ → ℕ → ℕ → World × Outcome net Bytes
  unfolding read_before
  read_for_reply w io room since timeout = read_before io room (since + timeout) (net.now w)

  -- `rdbuf.copy_within(unhandled, 0)`
  unfoldable pub move_front : Sender net → Sender net
  move_front s =
      let unhandled = slice s.from s.to s.rdbuf in
      record s {
        rdbuf = unhandled ++ drop (length unhandled) s.rdbuf;
        from = 0;
        to = length unhandled;
      }

  unfoldable pub make_room : Sender net → Option ℕ → Sender net
  unfolding move_front
  make_room s n =
      if s.from == 0 then s else if ltb (length s.rdbuf - s.to) (missing n) then move_front s else s

  -- The bytes go behind those that are not handled.
  unfoldable pub take_in : Sender net → World → Bytes → World × Outcome net (Sender net)
  take_in s w [] = (w, fails connection_aborted)
  take_in s w (c ∷ cs) =
      let bytes = c ∷ cs in
      (
        w,
        gives (record s {
          rdbuf = take s.to s.rdbuf ++ (bytes ++ drop (s.to + length bytes) s.rdbuf);
          to = s.to + length bytes;
        }),
      )

  unfoldable pub read_more : ℕ → ℕ → World → Sender net → World × Outcome net (Sender net)
  unfolding read_for_reply take_in ◌then◌
  read_more since timeout w s =
      if s.to == length s.rdbuf
      then (w, fails (too_long_reply (slice s.from s.to s.rdbuf)))
      else read_for_reply w s.io (length s.rdbuf - s.to) since timeout then take_in s

  unfoldable pub after_parse :
      (World → Sender net → World × Outcome net (Reply × Sender net))
      → ℕ
      → ℕ
      → World
      → Sender net
      → Parsed
      → World × Outcome net (Reply × Sender net)
  unfolding read_more make_room ◌then◌
  after_parse again since timeout w s (incomplete n) =
      read_more since timeout w (make_room s n) then again
  after_parse again since timeout w s syntax_error =
      (w, fails (reply_syntax_error (slice s.from s.to s.rdbuf)))
  after_parse again since timeout w s (parsed rem reply) =
      (w, gives (reply, record s { from = s.to - length rem }))

  -- The loop of `read_reply`
  unfoldable pub read_loop :
      ℕ → ℕ → ℕ → World → Sender net → World × Outcome net (Reply × Sender net)
  unfolding after_parse
  read_loop zero since timeout w s = (w, unfinished)
  read_loop (suc fuel) since timeout w s =
      after_parse (read_loop fuel since timeout) since timeout w s
        (net.parse_reply (slice s.from s.to s.rdbuf))

  unfoldable pub read_first : ℕ → ℕ → World → Sender net → World × Outcome net (Sender net)
  unfolding read_for_reply take_in ◌then◌
  read_first since timeout w s =
      if s.from == s.to
      then read_for_reply w s.io (length s.rdbuf) since timeout
      then take_in (record s { from = 0; to = 0 })
      else (w, gives s)

  unfoldable pub read_reply_since :
      ℕ → Sender net → ℕ → World × ℕ → World × Outcome net (Reply × Sender net)
  unfolding read_first read_loop ◌then◌
  read_reply_since fuel s timeout (w, start) =
      read_first start timeout w s then read_loop fuel start timeout

  abbrev pub read_reply : ℕ → World → Sender net → ℕ → World × Outcome net (Reply × Sender net)
  read_reply fuel w s timeout = read_reply_since fuel s timeout (net.now w)

  -- A reply of the expected kind, or an error.
  unfoldable pub expect_reply :
      ℕ → ReplyCodeKind → ℕ → World → Sender net → World × Outcome net (Sender net)
  unfolding read_reply_since verify_reply ◌then◌
  expect_reply fuel expected timeout w s =
      read_reply fuel w s timeout
      then (λ w1 (reply, s1). (w1, verify_reply reply expected) then (λ w2 u. (w2, gives s1)))

  unfoldable pub command_sent :
      World × Timed (Result (Unit {0}) IoError) → World × Outcome net (Unit {0})
  command_sent (w, in_time (ok u)) = (w, gives tt)
  command_sent (w, in_time (err e)) = (w, fails (sending_command e))
  command_sent (w, too_late) = (w, fails timed_out_sending_command)

  unfoldable pub send_command : World → Io → Command → ℕ → World × Outcome net (Unit {0})
  unfolding command_sent
  send_command w io cmd timeout =
      command_sent (net.write_all w io (flatten (Command.as_io_slices cmd)) timeout)
