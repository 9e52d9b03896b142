-- ===== src/Server/Tests.antt =====
-- Sessions on concrete input, over a connection whose reads are written out beforehand.
use mathlib.Core.Path.{subst}
use kannader.Prelude.{
  ℕ, zero, suc, ◌≤◌, Bool, true, false, Option, none, some, List, [], ◌∷◌, ◌++◌, ◌≡◌, refl, sym, ap,
  ◌∙◌, Bytes, length, take, flatten, append-nil, arith, length-take, codes,
}
use kannader.Message.Io.{Poll, ready, AsyncRead, IoResult, ok, err}
use kannader.Message.Text.{MaybeUtf8}
use kannader.Message.Address.{Hostname}
use kannader.Message.Reply
use kannader.Message.Reply.{Reply}
use kannader.Message.Command.{noop}
use kannader.Message.Crlf.{position, next_crlf, found, state_after}
use kannader.Message.Data.Reader
use kannader.Message.Data.Reader.{
  EscapedDataReader, poll_read, poll_read_bufs, complete, get_unhandled, new,
}
use kannader.Server.Types.{Decision, MailMetadata, ConnectionMetadata, smtp}
use kannader.Server.Replies
use kannader.Server.Config.{Transport, Config}
use kannader.Server.Config.Defaults
use kannader.Server.Config.Starttls.{advertises, accepts, filter_hello_starttls}
use kannader.Server.Session.{
  Session, Step, next, stop, panic, out_of_fuel, ◌and_then◌, simple, dispatch, send_reply,
  send_slices, after_write, answer,
}
use kannader.Server.Session.Line.{
  advance_until_crlf, advance_until_crlf-Skipped, Skipped, after_search, after_read,
}
use kannader.Server.Session.Receive.{
  drain, receive, after_handle_mail, after_received, send_decisions, after_drain, complete_late,
  after_complete, send_incomplete, expected_n_decisions,
}
use kannader.Server.Session.Commands.{handle_command}
use kannader.Server.Session.Answers.{Writes, reply_to, handle_command_replies}
use kannader.Server.Session.Decisions.{
  replies_of, late_replies, Replies, receive_complete-Replies, receive_incomplete-Replies,
}
use kannader.Server.Session.Order.{ordered, IsOrdered}
use kannader.Server.Session.Order.Steps.{handle_command-IsOrdered}
use kannader.Server.Session.Loop.{new_session, greet, syntax_error}
use kannader.Server.Session.Order.Reachable.{greeting, Reachable-IsOrdered}
use kannader.Server.Session.Order.Commands.{KeepsHello}

record Wire : Type 0 where
  log : Bytes
  given : Bytes
  script : List Bytes

abbrev no_more : Wire → List Bytes → Wire × List Bytes × Poll ℕ
no_more w bufs = (w, bufs, ready 0)

keeps_got :
    (w : Wire) (bufs : List Bytes) (n : ℕ)
    → ready 0 ≡ ready n
    → w.given ≡ w.given ++ take n (flatten bufs)
keeps_got w bufs zero h = sym (append-nil w.given)
keeps_got w bufs (suc n) h = absurd (ground arith)

zero_bound : (n m : ℕ) → ready 0 ≡ ready n → n ≤ m
zero_bound n m h = ground arith

-- Polls find the end of the stream: all that comes is in the session's buffer.
abbrev wire_source : AsyncRead
wire_source = record {
  Reader = Wire;
  poll_read_vectored = no_more;
  got = λ w. w.given;
  ready_bound = λ w bufs n h. zero_bound n (length (flatten bufs)) h;
  keeps_length = λ w bufs. refl;
  ready_gets = λ w bufs n h. keeps_got w bufs n h;
}

abbrev wire_read : Wire → List Bytes → ℕ → Wire × IoResult Bytes
wire_read w [] n = (w, ok [])
wire_read w (c ∷ cs) n = (record w { given = w.given ++ take n c; script = cs }, ok (take n c))

ok_bytes : (xs ys : Bytes) → ok xs ≡ ok ys → xs ≡ ys
ok_bytes xs ys h = ap (λ r. bytes_of r) h
  where
    bytes_of : IoResult Bytes → Bytes
    bytes_of (ok zs) = zs
    bytes_of (err k) = []

read_within :
    (w : Wire) (s : List Bytes) (n : ℕ) (bytes : Bytes)
    → (wire_read w s n).1 ≡ ok bytes
    → length bytes ≤ n
read_within w [] n bytes h =
    let empty : 0 ≤ n = omega arith in subst (λ ys. length ys ≤ n) (ok_bytes [] bytes h) empty
read_within w (c ∷ cs) n bytes h =
    let counted = length-take n c in
    let bound : length (take n c) ≤ n = omega arith in
    subst (λ ys. length ys ≤ n) (ok_bytes (take n c) bytes h) bound

read_given :
    (w : Wire) (s : List Bytes) (n : ℕ) (bytes : Bytes)
    → (wire_read w s n).1 ≡ ok bytes
    → (wire_read w s n).0.given ≡ w.given ++ bytes
read_given w [] n bytes h =
    sym (append-nil w.given) ∙ ap (λ ys. w.given ++ ys) (ok_bytes [] bytes h)
read_given w (c ∷ cs) n bytes h = ap (λ ys. w.given ++ ys) (ok_bytes (take n c) bytes h)

abbrev wire : Transport
wire = record {
  source = wire_source;
  write_all_vectored = λ w bufs. (record w { log = w.log ++ flatten bufs }, ok tt);
  read = λ w n. wire_read w w.script n;
  sent = λ w. w.log;
  write_sends = λ w bufs h. refl;
  read_bound = λ w n bytes h. read_within w w.script n bytes h;
  read_gets = λ w n bytes h. read_given w w.script n bytes h;
}

abbrev zeros : ℕ → Bytes
zeros zero = []
zeros (suc n) = 0 ∷ zeros n

abbrev Received : Type 0
Received =
    EscapedDataReader wire_source × List (Decision (Unit {0})) × ConnectionMetadata (Unit {0})

-- A handler that reads once, into eight bytes, and completes the reader if it is told to.
abbrev completed :
    EscapedDataReader wire_source
    → Option (EscapedDataReader wire_source)
    → EscapedDataReader wire_source
completed e none = e
completed e (some e') = e'

abbrev after_poll :
    Bool
    → EscapedDataReader wire_source
    → Option (EscapedDataReader wire_source × List Bytes × Poll ℕ)
    → EscapedDataReader wire_source
after_poll b e none = e
after_poll false e (some (e', bufs, p)) = e'
after_poll true e (some (e', bufs, p)) = completed e' (complete wire_source e')

abbrev store : Bool → EscapedDataReader wire_source → ConnectionMetadata (Unit {0}) → Received
store b e conn = (
  after_poll b e (poll_read wire_source e (zeros 8)),
  Decision.accept Replies.okay_mail tt ∷ [],
  conn,
)

abbrev plain : Bool → Config wire
plain b = record {
  ConnectionUserMeta = Unit {0};
  MailUserMeta = Unit {0};
  protocol = smtp;
  welcome_banner_reply = Defaults.welcome_banner_reply (λ c. codes "mx.example");
  filter_hello = Defaults.filter_hello (λ c. codes "mx.example");
  can_do_tls = Defaults.can_do_tls;
  tls_accept = λ io conn. (ok io, conn);
  new_mail = λ conn. (tt, conn);
  filter_from = λ from mail conn. (Decision.accept Replies.okay_from from, mail, conn);
  filter_to = λ to mail conn. (Decision.accept Replies.okay_to to, mail, conn);
  filter_data = Defaults.filter_data;
  handle_mail = λ e mail conn. store b e conn;
  handle_rset = Defaults.handle_rset;
  handle_starttls = Defaults.handle_starttls;
  handle_expn = Defaults.handle_expn;
  handle_vrfy = Defaults.handle_vrfy;
  handle_help = Defaults.handle_help;
  handle_noop = Defaults.handle_noop;
  handle_quit = Defaults.handle_quit;
  already_did_hello = Defaults.already_did_hello;
  mail_before_hello = Defaults.mail_before_hello;
  already_in_mail = Defaults.already_in_mail;
  rcpt_before_mail = Defaults.rcpt_before_mail;
  data_before_rcpt = Defaults.data_before_rcpt;
  data_before_mail = Defaults.data_before_mail;
  starttls_unsupported = Defaults.starttls_unsupported;
  command_unrecognized = Defaults.command_unrecognized;
  pipeline_forbidden_after_starttls = Defaults.pipeline_forbidden_after_starttls;
  line_too_long = Defaults.line_too_long;
  handle_mail_did_not_call_complete = Defaults.handle_mail_did_not_call_complete;
}

plain-KeepsHello : (b : Bool) → KeepsHello wire (plain b)
unfolding Defaults.handle_starttls
plain-KeepsHello b = record {
  new_mail = λ c. refl;
  filter_from = λ e m c. refl;
  filter_to = λ e m c. refl;
  filter_data = λ m c. refl;
  handle_rset = λ m c. refl;
  handle_rset_none = λ c. refl;
  handle_starttls = λ c. refl;
  handle_expn = λ t c. refl;
  handle_vrfy = λ t c. refl;
  handle_help = λ t c. refl;
  handle_noop = λ t c. refl;
  handle_quit = λ c. refl;
  already_did_hello = λ c. refl;
  already_in_mail = λ c. refl;
  mail_before_hello = λ c. refl;
  rcpt_before_mail = λ c. refl;
  starttls_unsupported = λ c. refl;
  command_unrecognized = λ c. refl;
  line_too_long = λ c. refl;
  pipeline_forbidden_after_starttls = λ c. refl;
}

-- A greeted session, with a message and a command behind it in its buffer.
abbrev ready_session : (b : Bool) → Session wire (plain b)
ready_session b = record {
  io = record { log = []; given = []; script = codes "NOOP\r\n" ∷ [] };
  conn = record {
    user = tt;
    hello =
        some (record { is_extended = true; hostname = Hostname.ascii_domain (codes "a.example") });
    is_encrypted = false;
  };
  mail = none;
  rdbuf = codes ".\r\nQUIT\r\n";
  from = 0;
  to = 9;
}

abbrev some_mail : MailMetadata (Unit {0})
some_mail = record { user = tt; from = none; to = [] }

-- The session that a step leaves.
abbrev left_by :
    {net : Transport} {cfg : Config net}
    → Session net cfg
    → Step (Session net cfg)
    → Session net cfg
left_by s (next s') = s'
left_by s (stop s' res) = s'
left_by s panic = s
left_by s out_of_fuel = s

abbrev after_noop : Session wire (plain true)
after_noop =
    left_by (ready_session true)
      (handle_command wire (plain true) 0 (ready_session true) (noop (MaybeUtf8.ascii [])))

handle_command_replies_example :
    Writes wire
      (plain true)
      (reply_to wire (plain true) (ready_session true) (noop (MaybeUtf8.ascii [])))
      (ready_session true).io
      after_noop.io
unfolding handle_command simple dispatch send_reply send_slices after_write Reply.text_as_io_slices
handle_command_replies_example =
    handle_command_replies wire (plain true) 0 (ready_session true) after_noop
      (noop (MaybeUtf8.ascii [])) refl refl

handle_command-IsOrdered_example : IsOrdered wire (plain true) after_noop
unfolding handle_command simple dispatch send_reply send_slices after_write Reply.text_as_io_slices
    ordered
handle_command-IsOrdered_example =
    handle_command-IsOrdered wire (plain true) 0 (ready_session true) after_noop
      (noop (MaybeUtf8.ascii [])) (plain-KeepsHello true) refl refl

-- Reading and completing the message that consists of the final dot.
abbrev stored : (b : Bool) → Received
stored b =
    store b (new wire_source (ready_session b).rdbuf 0 9 (ready_session b).io)
      (ready_session b).conn

abbrev after_message : (b : Bool) → Session wire (plain b)
after_message b = left_by (ready_session b) (receive wire (plain b) 5 (ready_session b) some_mail)

receive_complete-Replies_example :
    Replies wire
      (plain true)
      (replies_of wire (plain true) (stored true).1)
      (stored true).0.read
      (after_message true).io
    × (length (stored true).1 ≡ 1)
unfolding receive after_handle_mail after_received send_decisions simple dispatch send_reply
    send_slices after_write Reply.text_as_io_slices expected_n_decisions poll_read complete
    get_unhandled poll_read_bufs Reader.fill Reader.scan_bufs Reader.scan Reader.next ◌and_then◌
receive_complete-Replies_example =
    receive_complete-Replies wire (plain true) 5 (ready_session true) (after_message true) some_mail
      (stored true).0 (stored true).1 (stored true).2 (3, 9) refl refl refl

receive_incomplete-Replies_example :
    Replies wire
      (plain false)
      (late_replies wire (plain false) 1 (stored false).2)
      (stored false).0.read
      (after_message false).io
unfolding receive after_handle_mail after_received drain after_drain complete_late after_complete
    send_incomplete answer send_reply send_slices after_write Reply.text_as_io_slices
    expected_n_decisions poll_read complete get_unhandled poll_read_bufs Reader.fill
    Reader.scan_bufs Reader.scan Reader.next ◌and_then◌
receive_incomplete-Replies_example =
    receive_incomplete-Replies wire (plain false) 5 (ready_session false) (after_message false)
      some_mail (stored false).0 (stored false).0 (stored false).1 (stored false).2 refl refl refl
      refl

abbrev greeted_session : Session wire (plain true)
greeted_session = left_by (ready_session true) (
    greet wire (plain true) (λ bytes. syntax_error)
      (new_session wire (plain true) (λ bytes. syntax_error) (ready_session true).io false tt))

Reachable-IsOrdered_example : IsOrdered wire (plain true) greeted_session
unfolding greet answer send_reply send_slices after_write Reply.text_as_io_slices
Reachable-IsOrdered_example =
    Reachable-IsOrdered wire (plain true) (λ bytes. syntax_error) greeted_session
      (plain-KeepsHello true) (greeting (ready_session true).io false tt greeted_session refl)

-- The end of a line that comes in two reads.
abbrev two_reads : Wire
two_reads = record { log = []; given = []; script = codes "x\r" ∷ codes "\nQUIT" ∷ [] }

abbrev read_both : Wire
read_both = record { log = []; given = codes "x\r\nQUIT"; script = [] }

advance_until_crlf-Skipped_example :
    Skipped wire two_reads (codes "BAD\r") 8 read_both (codes "\nQUITbc\r") 1 5
unfolding advance_until_crlf after_search after_read next_crlf found position state_after
advance_until_crlf-Skipped_example =
    advance_until_crlf-Skipped wire 3 two_reads read_both (codes "BAD\rabc\r") (codes "\nQUITbc\r")
      0 4 1 5 (omega arith) (omega arith) refl

filter_hello_starttls_example :
    (advertises
        (codes "STARTTLS")
        (Defaults.filter_hello
          (λ c. codes "mx.example")
          true
          (Hostname.ascii_domain (codes "a.example"))
          (ready_session true).conn).0
      ≡ true)
    × (accepts
          (Defaults.handle_starttls
            (Defaults.filter_hello
              (λ c. codes "mx.example")
              true
              (Hostname.ascii_domain (codes "a.example"))
              (ready_session true).conn).1).0
        ≡ advertises
            (codes "STARTTLS")
            (Defaults.filter_hello
              (λ c. codes "mx.example")
              true
              (Hostname.ascii_domain (codes "a.example"))
              (ready_session true).conn).0)
filter_hello_starttls_example =
    filter_hello_starttls (λ c. codes "mx.example") true (Hostname.ascii_domain (codes "a.example"))
      (ready_session true).conn
