-- ===== src/Client/Tests.antt =====
-- The theorems on the client at concrete inputs: a server whose replies are one digit each.
use kannader.Prelude.{
  length-take, take, drop, take-append-drop, arith, ℕ, suc, true, false, none, some, List, [], ◌∷◌,
  ◌++◌, Bytes, codes, flatten, ◌≡◌, refl, sym,
}
use kannader.Queue.Types.{Result, ok}
use kannader.Message.Address.{Email, Hostname, ascii_domain, ipv4, Localpart}
use kannader.Message.Text.{MaybeUtf8}
use kannader.Message.Reply.{Reply}
use kannader.Message.Reply.Code.{kind, positive_completion, permanent_negative}
use kannader.Message.Command
use kannader.Message.Command.{Command, mail, rcpt, cmd_data, ehlo}
use kannader.Client.Types.{
  Timed, in_time, too_late, Parsed, incomplete, parsed, Net, Config, gives, Sender,
}
use kannader.Client.Replies.{verify_reply, read_reply_since}
use kannader.Client.Connect.{connect, after_tls_connect, has_starttls}
use kannader.Client.Sender.{no_parameters, send}
use kannader.Client.Severity.{Checked, verify_reply-Checked}
use kannader.Client.Tls.{Gives, Encrypted}
use kannader.Client.Encrypted.{connect-Encrypted}
use kannader.Client.Leftover.{after_tls_connect_plain}
use kannader.Client.Stream.{
  unhandled_bytes, ReadLaw, ParseLaw, IsStream, Answers, read_reply_since-Answers,
}
use kannader.Client.Ends.{Ends, read_reply_since-Ends}
use kannader.Client.Sent.{WriteLaw, MailLaw, IsLogged, Logs}
use kannader.Client.Delivery.{wire, send-Logs}

-- What was written and read, and what the server and the mail have still to give.
pub record Wire : Type 0 where
  pub written : Bytes
  pub seen : Bytes
  pub replies : List Bytes
  pub unread : Bytes

abbrev Answer : Type 0
Answer = Wire × Timed (Result Bytes (Unit {0}))

unfoldable next_reply : Wire → ℕ → List Bytes → Answer
next_reply w room [] = (w, too_late)
next_reply w room (r ∷ rs) =
    (record w { replies = rs; seen = w.seen ++ take room r }, in_time (ok (take room r)))

-- At most seven bytes of the mail come at once.
unfoldable next_block : Wire → Bytes → Wire × Result Bytes (Unit {0})
next_block w unread = (record w { unread = drop 7 unread }, ok (take 7 unread))

-- A reply is one digit, and its text says that the server knows STARTTLS.
abbrev parse_digit : Bytes → Parsed
parse_digit [] = incomplete none
parse_digit (c ∷ rest) = parsed rest (record {
  code = record { hundreds = c; tens = b'0'; units = b'0' };
  ecode = none;
  text = MaybeUtf8.ascii (codes "starttls") ∷ [];
})

abbrev net : Net Wire
net = record {
  Io = ℕ;
  IoError = Unit {0};
  ResolveError = Unit {0};
  ProtoError = Unit {0};
  Name = Bytes;
  now = λ w. (w, 0);
  read = λ w io room t. next_reply w room w.replies;
  write_all = λ w io bytes t. (record w { written = w.written ++ bytes }, in_time (ok tt));
  tcp_connect = λ w ip port. (w, ok 1);
  into_name = λ n. ok n;
  mx_lookup = λ w n. (w, ok []);
  is_no_records_found = λ e. true;
  lookup_ip = λ w n. (w, ok []);
  shuffle = λ w ns. (w, ns);
  parse_reply = parse_digit;
  Mail = Unit {0};
  read_mail = λ w m n. next_block w w.unread;
}

abbrev me : Hostname
me = ascii_domain (codes "example.org")

abbrev cfg : Config net
cfg = record {
  ehlo_hostname = me;
  can_do_tls = true;
  must_do_tls = true;
  tls_connect = λ w io. (w, ok (suc io));
  banner_read_timeout = 300;
  command_write_timeout = 300;
  ehlo_reply_timeout = 300;
  starttls_reply_timeout = 120;
  mail_reply_timeout = 300;
  rcpt_reply_timeout = 300;
  data_init_reply_timeout = 120;
  data_block_write_timeout = 180;
  data_end_reply_timeout = 600;
}

abbrev buffer : Bytes
buffer = codes "0000"

abbrev server : Wire
server = record {
  written = [];
  seen = [];
  replies = codes "2" ∷ codes "2" ∷ codes "2" ∷ codes "2" ∷ [];
  unread = [];
}

abbrev refusal : Reply
refusal = record {
  code = record { hundreds = b'5'; tens = b'5'; units = b'0' };
  ecode = none;
  text = MaybeUtf8.ascii (codes "no such user") ∷ [];
}

refusal_kind : kind refusal.code ≡ some permanent_negative
unfolding kind
refusal_kind = refl

verify_reply-Checked_example :
    Checked net permanent_negative positive_completion
      (verify_reply net refusal positive_completion)
verify_reply-Checked_example =
    verify_reply-Checked net refusal permanent_negative positive_completion refusal_kind

connect-Encrypted_example :
    Gives net
      (Encrypted net cfg 4)
      (connect net cfg 4 buffer server (record { host = ipv4 (codes "[192.0.2.1]") 3221225985 }))
connect-Encrypted_example =
    connect-Encrypted net cfg 4 buffer refl server
      (record { host = ipv4 (codes "[192.0.2.1]") 3221225985 })

-- One digit came together with the reply to STARTTLS.
abbrev one_left : Sender net
one_left = record { io = 1; rdbuf = codes "2200"; from = 1; to = 2; starttls = true }

abbrev plain_reply : Reply
plain_reply = record {
  code = record { hundreds = b'2'; tens = b'0'; units = b'0' };
  ecode = none;
  text = MaybeUtf8.ascii (codes "starttls") ∷ [];
}

plain_kind : kind plain_reply.code ≡ some positive_completion
unfolding kind
plain_kind = refl

abbrev after_ehlo_sent : Wire
after_ehlo_sent = record server { written = flatten (Command.as_io_slices (ehlo me)) }

after_tls_connect_plain_example : after_tls_connect net cfg 1 one_left (server, ok 2) ≡ (
  after_ehlo_sent,
  gives (record one_left { io = 2; from = 2; starttls = has_starttls plain_reply.text }, true),
)
after_tls_connect_plain_example =
    after_tls_connect_plain net cfg 0 server after_ehlo_sent 2 one_left [] plain_reply refl refl
      plain_kind refl

next_reply_logs :
    (w : Wire) (room : ℕ) (rs : List Bytes)
    → ((next_reply w room rs).0.written ≡ w.written) × ((next_reply w room rs).0.unread ≡ w.unread)
unfolding next_reply
next_reply_logs w room [] = (refl, refl)
next_reply_logs w room (r ∷ rs) = (refl, refl)

empty_block : (unread : Bytes) → take 7 unread ≡ [] → unread ≡ []
empty_block [] e = refl
empty_block (c ∷ cs) e = absurd (ground arith)

next_block-MailLaw :
    (w : Wire) → MailLaw net (λ x. x.written) (λ x. x.unread) tt w (next_block w w.unread)
unfolding next_block MailLaw
next_block-MailLaw w = (refl, sym (take-append-drop 7 w.unread), empty_block w.unread)

net-IsLogged : IsLogged net (λ x. x.written) (λ x. x.unread) tt
unfolding WriteLaw
net-IsLogged = record {
  writes = λ w io bytes t. (refl, refl);
  mails = λ w n h. next_block-MailLaw w;
  reads = λ w io room t. next_reply_logs w room w.replies;
  now = λ w. (refl, refl);
}

abbrev to_joe : Email
to_joe = record { localpart = Localpart.ascii (codes "joe"); hostname = some me }

abbrev ready_server : Wire
ready_server = record {
  written = [];
  seen = [];
  replies = codes "2" ∷ codes "2" ∷ codes "3" ∷ codes "2" ∷ [];
  unread = codes "Hello\r\n.\r\n";
}

abbrev connection : Sender net
connection = record { io = 2; rdbuf = buffer; from = 0; to = 0; starttls = false }

send-Logs_example :
    Logs net
      (λ x. x.written)
      (λ x. x.unread)
      tt
      ((((ready_server.written
              ++ wire net
                  (λ x. x.written)
                  (λ x. x.unread)
                  tt
                  net-IsLogged
                  (mail none none no_parameters))
            ++ wire net
                (λ x. x.written)
                (λ x. x.unread)
                tt
                net-IsLogged
                (rcpt none to_joe no_parameters))
          ++ wire net (λ x. x.written) (λ x. x.unread) tt net-IsLogged cmd_data)
        ++ ready_server.unread)
      []
      (send net cfg 4 ready_server connection none to_joe tt)
send-Logs_example =
    send-Logs net (λ x. x.written) (λ x. x.unread) tt net-IsLogged cfg 4 ready_server connection
      none to_joe

next_reply-ReadLaw :
    (w : Wire) (room : ℕ) (rs : List Bytes)
    → ReadLaw net (λ x. x.seen) w room (next_reply w room rs)
unfolding next_reply ReadLaw
next_reply-ReadLaw w room [] = tt
next_reply-ReadLaw w room (r ∷ rs) = (refl, let h = length-take room r in omega arith)

parse_digit-ParseLaw : (bytes : Bytes) → ParseLaw net (λ x. x.seen) bytes (parse_digit bytes)
unfolding ParseLaw
parse_digit-ParseLaw [] = tt
parse_digit-ParseLaw (c ∷ rest) = (c ∷ [], refl)

net-IsStream : IsStream net (λ x. x.seen)
net-IsStream = record {
  reads = λ w io room t. next_reply-ReadLaw w room w.replies;
  now = λ w. refl;
  parses = parse_digit-ParseLaw;
}

read_reply_since-Answers_example :
    Answers net
      (λ x. x.seen)
      net-IsStream
      (server.seen)
      (unhandled_bytes net one_left)
      (read_reply_since net 2 one_left 300 (net.now server))
read_reply_since-Answers_example =
    read_reply_since-Answers net (λ x. x.seen) net-IsStream 2 300 server one_left
      (record { ordered = omega arith; inside = omega arith })

read_reply_since-Ends_example :
    Ends net (read_reply_since net 5 connection 300 (net.now ready_server))
read_reply_since-Ends_example =
    read_reply_since-Ends net (λ x. x.seen) net-IsStream 4 5 300 ready_server connection
      (record { sized = refl; ordered = omega arith; inside = omega arith; many = omega arith })
      (omega arith)
