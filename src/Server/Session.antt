-- ===== src/Server/Session.antt =====
-- smtp-server/src/lib.rs: `interact`, what it does with a parsed command. A parameter `&mut` is
-- passed on as state; `?` and `return` end the session.
pub mod Line
pub mod Receive
pub mod Commands
pub mod Loop
pub mod Answers
pub mod Decisions
pub mod Order
use kannader.Prelude.{
  ℕ, Bool, true, false, not, Option, none, some, List, [], ◌∷◌, ◌++◌, ◌==◌, if◌then◌else◌, Bytes,
}
use kannader.Message.Io.{IoResult, ok, err}
use kannader.Message.Address.{Email, Hostname}
use kannader.Message.Reply
use kannader.Message.Reply.{Reply}
use kannader.Message.Command
use kannader.Message.Command.{Command}
use kannader.Message.Data.Reader
use kannader.Server.Types.{
  Decision, MailMetadata, HelloInfo, ConnectionMetadata, ProtocolName, smtp, lmtp,
}
use kannader.Server.Config.{Transport, Config}

abbrev pub same_protocol : ProtocolName → ProtocolName → Bool
same_protocol smtp smtp = true
same_protocol lmtp lmtp = true
same_protocol smtp lmtp = false
same_protocol lmtp smtp = false

-- Bytes `from` to `to` of `rdbuf` are read and not yet handled.
pub record Session (net : Transport) (cfg : Config net) : Type 0 where
  pub io : net.source.Reader
  pub conn : ConnectionMetadata cfg.ConnectionUserMeta
  pub mail : Option (MailMetadata cfg.MailUserMeta)
  pub rdbuf : Bytes
  pub from : ℕ
  pub to : ℕ

-- How a part of the loop's body ends: the loop goes on, `interact` returns, it panics, or the model
-- has used up its fuel.
pub data Step {ℓ} (S : Type ℓ) : Type ℓ where
  next : S → Step S
  stop : S → IoResult (Unit {0}) → Step S
  panic : Step S
  out_of_fuel : Step S

infix 30 ◌and_then◌
unfoldable pub ◌and_then◌ {ℓ} : {S : Type ℓ} → Step S → (S → Step S) → Step S
next s and_then f = f s
stop s res and_then f = stop s res
panic and_then f = panic
out_of_fuel and_then f = out_of_fuel

module _ (net : Transport) (cfg : Config net) where
  open net use {source, write_all_vectored}

  abbrev pub Conn : Type 0
  Conn = ConnectionMetadata cfg.ConnectionUserMeta

  abbrev pub Mail : Type 0
  Mail = MailMetadata cfg.MailUserMeta

  unfoldable pub after_write :
      Session net cfg → source.Reader × IoResult (Unit {0}) → Step (Session net cfg)
  after_write s (io, ok u) = next (record s { io = io })
  after_write s (io, err k) = stop (record s { io = io }) (err k)

  unfoldable pub send_slices : Session net cfg → Option (List Bytes) → Step (Session net cfg)
  unfolding after_write
  send_slices s none = panic
  send_slices s (some bufs) = after_write s (write_all_vectored s.io bufs)

  -- `send_reply!`
  unfoldable pub send_reply : Session net cfg → Reply → Step (Session net cfg)
  unfolding send_slices
  send_reply s reply = send_slices s (Reply.as_io_slices reply)

  -- `send_reply!` of a reply that the configuration gives.
  unfoldable pub answer : Session net cfg → Reply × Conn → Step (Session net cfg)
  answer s (reply, conn) = send_reply (record s { conn = conn }) reply

  unfoldable pub kill :
      Session net cfg → Option Reply → IoResult (Unit {0}) → Step (Session net cfg)
  kill s none res = stop s res
  kill s (some reply) res = send_reply s reply and_then (λ s'. stop s' res)

  -- `dispatch_decision!`: the session if the decision accepts is a function of what it accepts.
  unfoldable pub dispatch {ℓ} :
      {A : Type ℓ} → Session net cfg → Decision A → (A → Session net cfg) → Step (Session net cfg)
  unfolding kill
  dispatch s (Decision.accept reply res) f = send_reply (f res) reply
  dispatch s (Decision.reject reply) f = send_reply s reply
  dispatch s (Decision.kill reply res) f = kill s reply res

  -- `simple_handler!`
  unfoldable pub simple : Session net cfg → Decision (Unit {0}) × Conn → Step (Session net cfg)
  simple s (d, conn) = dispatch (record s { conn = conn }) d (λ u. record s { conn = conn })

  unfoldable pub after_hello : Session net cfg → Decision HelloInfo × Conn → Step (Session net cfg)
  after_hello s (d, conn) =
      dispatch (record s { conn = conn }) d
        (λ info. record s { conn = record conn { hello = some info } })

  unfoldable pub hello_once :
      Session net cfg → Option HelloInfo → Bool → Hostname → Step (Session net cfg)
  unfolding answer after_hello
  hello_once s (some h) is_extended hostname = answer s (cfg.already_did_hello s.conn)
  hello_once s none is_extended hostname =
      after_hello s (cfg.filter_hello is_extended hostname s.conn)

  unfoldable pub handle_hello :
      Session net cfg → ProtocolName → Bool → Hostname → Step (Session net cfg)
  unfolding hello_once
  handle_hello s protocol is_extended hostname =
      if not (same_protocol protocol cfg.protocol)
      then answer s (cfg.command_unrecognized s.conn)
      else hello_once s s.conn.hello is_extended hostname

  unfoldable pub after_from :
      Session net cfg → Decision (Option Email) × Mail × Conn → Step (Session net cfg)
  after_from s (d, mail, conn) =
      dispatch (record s { conn = conn }) d
        (λ res. record s { mail = some (record mail { from = res }); conn = conn })

  unfoldable pub start_mail :
      Session net cfg → Option Email → cfg.MailUserMeta × Conn → Step (Session net cfg)
  unfolding after_from
  start_mail s email (user, conn) =
      after_from s (cfg.filter_from email (record { user = user; from = none; to = [] }) conn)

  unfoldable pub mail_once : Session net cfg → Option Mail → Option Email → Step (Session net cfg)
  unfolding start_mail answer
  mail_once s (some m) email = answer s (cfg.already_in_mail s.conn)
  mail_once s none email = start_mail s email (cfg.new_mail s.conn)

  unfoldable pub handle_mail_from :
      Session net cfg → Option HelloInfo → Option Email → Step (Session net cfg)
  unfolding mail_once
  handle_mail_from s none email = answer s (cfg.mail_before_hello s.conn)
  handle_mail_from s (some h) email = mail_once s s.mail email

  -- A refused recipient leaves what `filter_to` has made of the metadata.
  unfoldable pub after_to : Session net cfg → Decision Email × Mail × Conn → Step (Session net cfg)
  after_to s (d, mail, conn) =
      dispatch (record s { mail = some mail; conn = conn }) d
        (λ res. record s { mail = some (record mail { to = mail.to ++ res ∷ [] }); conn = conn })

  unfoldable pub handle_rcpt_to : Session net cfg → Option Mail → Email → Step (Session net cfg)
  unfolding after_to answer
  handle_rcpt_to s none email = answer s (cfg.rcpt_before_mail s.conn)
  handle_rcpt_to s (some mail) email = after_to s (cfg.filter_to email mail s.conn)

  unfoldable pub after_rset :
      Session net cfg → Decision (Unit {0}) × Option Mail × Conn → Step (Session net cfg)
  after_rset s (d, mail, conn) =
      dispatch (record s { mail = mail; conn = conn }) d
        (λ u. record s { mail = none; conn = conn })

  unfoldable pub after_tls :
      Session net cfg → IoResult source.Reader × Conn → Step (Session net cfg)
  after_tls s (ok io, conn) = next (record s {
    io = io;
    conn = record { user = conn.user; hello = none; is_encrypted = true };
    mail = none;
  })
  after_tls s (err k, conn) = stop (record s { conn = conn }) (err k)

  unfoldable pub after_starttls :
      Session net cfg → Decision (Unit {0}) × Conn → Step (Session net cfg)
  unfolding after_tls kill
  after_starttls s (Decision.accept reply u, conn) =
      send_reply (record s { conn = conn }) reply
      and_then (λ s'. after_tls s' (cfg.tls_accept s'.io s'.conn))
  after_starttls s (Decision.reject reply, conn) = send_reply (record s { conn = conn }) reply
  after_starttls s (Decision.kill reply res, conn) = kill (record s { conn = conn }) reply res

  unfoldable pub handle_starttls : Session net cfg → Step (Session net cfg)
  unfolding after_starttls answer
  handle_starttls s =
      if not (cfg.can_do_tls s.conn)
      then answer s (cfg.starttls_unsupported s.conn)
      else if not (s.from == s.to)
      then answer s (cfg.pipeline_forbidden_after_starttls s.conn)
      else after_starttls s (cfg.handle_starttls s.conn)
