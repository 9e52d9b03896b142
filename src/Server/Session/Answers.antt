-- ===== src/Server/Session/Answers.antt =====
-- What a session has written when it goes on.
use mathlib.Core.Path.{subst}
use kannader.Prelude.{
  ℕ, Bool, true, false, Option, none, some, List, [], ◌∷◌, ◌++◌, ◌≡◌, refl, ap, Bytes, arith, not,
  if◌then◌else◌, flatten, Bool-cases, inl, inr,
}
use kannader.Message.Io.{IoResult, ok, err}
use kannader.Message.Address.{Hostname, Email}
use kannader.Message.Reply
use kannader.Message.Reply.{Reply}
use kannader.Message.Command.{Command, ehlo, expn, helo, help, lhlo, noop, rcpt, vrfy}
use kannader.Server.Types.{Decision, HelloInfo, ProtocolName, smtp, lmtp}
use kannader.Server.Config.{Transport, Config}
use kannader.Server.Session.{
  Session, Step, next, stop, panic, out_of_fuel, ◌and_then◌, Conn, Mail, same_protocol, after_write,
  send_slices, send_reply, answer, kill, dispatch, simple, after_hello, hello_once, handle_hello,
  after_from, start_mail, mail_once, handle_mail_from, after_to, handle_rcpt_to, after_rset,
}
use kannader.Server.Session.Commands.{handle_command}

-- `P` holds of the session that goes on, if it does.
unfoldable pub OnNext {ℓ ℓ'} : {S : Type ℓ} → (S → Type ℓ') → Step S → Type ℓ'
OnNext P (next s) = P s
OnNext P (stop s res) = Unit
OnNext P panic = Unit
OnNext P out_of_fuel = Unit

pub OnNext-next {ℓ ℓ'} :
    {S : Type ℓ} (P : S → Type ℓ') (st : Step S) (s : S) → OnNext P st → st ≡ next s → P s
unfolding OnNext
OnNext-next P st s h e = subst (OnNext P) e h

pub OnNext-map {ℓ ℓ'} :
    {S : Type ℓ} (P Q : S → Type ℓ')
    → ((s : S) → P s → Q s)
    → (st : Step S) → OnNext P st
    → OnNext Q st
unfolding OnNext
OnNext-map P Q f (next s) h = f s h
OnNext-map P Q f (stop s res) h = tt
OnNext-map P Q f panic h = tt
OnNext-map P Q f out_of_fuel h = tt

pub and_then-OnNext {ℓ ℓ'} :
    {S : Type ℓ} (P Q : S → Type ℓ') (f : S → Step S)
    → ((s : S) → P s → OnNext Q (f s))
    → (st : Step S) → OnNext P st
    → OnNext Q (st and_then f)
unfolding OnNext ◌and_then◌
and_then-OnNext P Q f h (next s) p = h s p
and_then-OnNext P Q f h (stop s res) p = tt
and_then-OnNext P Q f h panic p = tt
and_then-OnNext P Q f h out_of_fuel p = tt

pub both-OnNext {ℓ ℓ'} :
    {S : Type ℓ} (P Q : S → Type ℓ') (st : Step S)
    → OnNext P st
    → OnNext Q st
    → OnNext (λ s. P s × Q s) st
unfolding OnNext
both-OnNext P Q (next s) p q = (p, q)
both-OnNext P Q (stop s res) p q = tt
both-OnNext P Q panic p q = tt
both-OnNext P Q out_of_fuel p q = tt

pub if-OnNext {ℓ ℓ'} :
    {S : Type ℓ} (P : S → Type ℓ') (b : Bool) (x y : Step S)
    → OnNext P x
    → OnNext P y
    → OnNext P (if b then x else y)
if-OnNext P true x y hx hy = hx
if-OnNext P false x y hx hy = hy

module _ (net : Transport) (cfg : Config net) where
  open net use {source, sent, write_all_vectored, write_sends}

  -- Just this reply was written, whole, between the two states of the connection.
  pub OneReply : Reply → source.Reader → source.Reader → Type 0
  OneReply r io io' =
      (bufs : List Bytes) × (Reply.as_io_slices r ≡ some bufs)
      × (sent io' ≡ sent io ++ flatten bufs)

  -- The same where there may be no reply; then the session is not to go on.
  unfoldable pub Writes : Option Reply → source.Reader → source.Reader → Type 0
  Writes none io io' = ⊥
  Writes (some r) io io' = OneReply r io io'

  -- The reply of a decision that lets the session go on.
  unfoldable pub reply_of {ℓ} : {A : Type ℓ} → Decision A → Option Reply
  reply_of (Decision.accept reply res) = some reply
  reply_of (Decision.reject reply) = some reply
  reply_of (Decision.kill reply res) = none

  after_write-OneReply :
      (r : Reply) (bufs : List Bytes) (s : Session net cfg)
      → Reply.as_io_slices r ≡ some bufs
      → (w : source.Reader × IoResult (Unit {0})) → write_all_vectored s.io bufs ≡ w
      → OnNext (λ s'. OneReply r s.io s'.io) (after_write net cfg s w)
  unfolding OnNext OneReply after_write
  after_write-OneReply r bufs s printed (io, ok tt) e = (
    bufs,
    printed,
    subst (λ w. sent w.0 ≡ sent s.io ++ flatten bufs) e (write_sends s.io bufs (ap (λ w. w.1) e)),
  )
  after_write-OneReply r bufs s printed (io, err k) e = tt

  send_slices-OneReply :
      (s : Session net cfg) (r : Reply) (o : Option (List Bytes))
      → Reply.as_io_slices r ≡ o
      → OnNext (λ s'. OneReply r s.io s'.io) (send_slices net cfg s o)
  unfolding OnNext send_slices
  send_slices-OneReply s r none e = tt
  send_slices-OneReply s r (some bufs) e =
      after_write-OneReply r bufs s e (write_all_vectored s.io bufs) refl

  pub send_reply-OneReply :
      (s : Session net cfg) (r : Reply)
      → OnNext (λ s'. OneReply r s.io s'.io) (send_reply net cfg s r)
  unfolding send_reply
  send_reply-OneReply s r = send_slices-OneReply s r (Reply.as_io_slices r) refl

  pub answer-OneReply :
      (s : Session net cfg) (a : Reply × Conn net cfg)
      → OnNext (λ s'. Writes (some a.0) s.io s'.io) (answer net cfg s a)
  unfolding answer Writes
  answer-OneReply s (reply, conn) = send_reply-OneReply (record s { conn = conn }) reply

  -- A reply changes nothing of the session but its connection.
  after_write-conn :
      (s : Session net cfg) (w : source.Reader × IoResult (Unit {0}))
      → OnNext (λ s'. s'.conn ≡ s.conn) (after_write net cfg s w)
  unfolding OnNext after_write
  after_write-conn s (io, ok u) = refl
  after_write-conn s (io, err k) = tt

  send_slices-conn :
      (s : Session net cfg) (o : Option (List Bytes))
      → OnNext (λ s'. s'.conn ≡ s.conn) (send_slices net cfg s o)
  unfolding OnNext send_slices
  send_slices-conn s none = tt
  send_slices-conn s (some bufs) = after_write-conn s (write_all_vectored s.io bufs)

  pub answer-conn :
      (s : Session net cfg) (a : Reply × Conn net cfg)
      → OnNext (λ s'. s'.conn ≡ a.1) (answer net cfg s a)
  unfolding answer send_reply
  answer-conn s (reply, conn) =
      send_slices-conn (record s { conn = conn }) (Reply.as_io_slices reply)

  -- A session that is killed does not go on.
  pub kill-stops :
      (P : Session net cfg → Type 0) (s : Session net cfg) (r : Option Reply)
      (res : IoResult (Unit {0}))
      → OnNext P (kill net cfg s r res)
  unfolding OnNext kill
  kill-stops P s none res = tt
  kill-stops P s (some r) res =
      and_then-OnNext (λ s'. Unit) P (λ s'. stop s' res) (λ s' u. tt) (send_reply net cfg s r)
        (OnNext-map (λ s'. OneReply r s.io s'.io) (λ s'. Unit) (λ s' o. tt) (send_reply net cfg s r)
          (send_reply-OneReply s r))

  dispatch-OneReply {ℓ} :
      {A : Type ℓ} (s : Session net cfg) (d : Decision A) (f : A → Session net cfg)
      → ((a : A) → (f a).io ≡ s.io)
      → OnNext (λ s'. Writes (reply_of d) s.io s'.io) (dispatch net cfg s d f)
  unfolding dispatch Writes reply_of
  dispatch-OneReply s (Decision.accept reply res) f h =
      subst (λ io. OnNext (λ s'. OneReply reply io s'.io) (send_reply net cfg (f res) reply))
        (h res) (send_reply-OneReply (f res) reply)
  dispatch-OneReply s (Decision.reject reply) f h = send_reply-OneReply s reply
  dispatch-OneReply s (Decision.kill reply res) f h = kill-stops (λ s'. ⊥) s reply res

  pub simple-OneReply :
      (s : Session net cfg) (r : Decision (Unit {0}) × Conn net cfg)
      → OnNext (λ s'. Writes (reply_of r.0) s.io s'.io) (simple net cfg s r)
  unfolding simple
  simple-OneReply s (d, conn) =
      dispatch-OneReply (record s { conn = conn }) d (λ u. record s { conn = conn }) (λ u. refl)

  -- What is answered to a greeting, to MAIL and to RCPT: the reply of the configuration's decision
  -- where the command comes in its order, and else that of the error.
  unfoldable once_reply : Session net cfg → Option HelloInfo → Bool → Hostname → Option Reply
  unfolding reply_of
  once_reply s (some h) b name = some (cfg.already_did_hello s.conn).0
  once_reply s none b name = reply_of (cfg.filter_hello b name s.conn).0

  unfoldable pub hello_reply : Session net cfg → ProtocolName → Bool → Hostname → Option Reply
  unfolding once_reply
  hello_reply s p b name =
      if not (same_protocol p cfg.protocol)
      then some (cfg.command_unrecognized s.conn).0
      else once_reply s s.conn.hello b name

  unfoldable start_reply : Option Email → cfg.MailUserMeta × Conn net cfg → Option Reply
  unfolding reply_of
  start_reply email (user, conn) =
      reply_of (cfg.filter_from email (record { user = user; from = none; to = [] }) conn).0

  unfoldable mail_once_reply : Session net cfg → Option (Mail net cfg) → Option Email → Option Reply
  unfolding start_reply
  mail_once_reply s (some m) email = some (cfg.already_in_mail s.conn).0
  mail_once_reply s none email = start_reply email (cfg.new_mail s.conn)

  unfoldable pub mail_reply : Session net cfg → Option HelloInfo → Option Email → Option Reply
  unfolding mail_once_reply
  mail_reply s none email = some (cfg.mail_before_hello s.conn).0
  mail_reply s (some h) email = mail_once_reply s s.mail email

  unfoldable pub rcpt_reply : Session net cfg → Option (Mail net cfg) → Email → Option Reply
  unfolding reply_of
  rcpt_reply s none email = some (cfg.rcpt_before_mail s.conn).0
  rcpt_reply s (some m) email = reply_of (cfg.filter_to email m s.conn).0

  after_hello-OneReply :
      (s : Session net cfg) (r : Decision HelloInfo × Conn net cfg)
      → OnNext (λ s'. Writes (reply_of r.0) s.io s'.io) (after_hello net cfg s r)
  unfolding after_hello
  after_hello-OneReply s (d, conn) =
      dispatch-OneReply (record s { conn = conn }) d
        (λ info. record s { conn = record conn { hello = some info } }) (λ a. refl)

  hello_once-OneReply :
      (s : Session net cfg) (h : Option HelloInfo) (b : Bool) (name : Hostname)
      → OnNext (λ s'. Writes (once_reply s h b name) s.io s'.io) (hello_once net cfg s h b name)
  unfolding hello_once once_reply
  hello_once-OneReply s (some h) b name = answer-OneReply s _
  hello_once-OneReply s none b name = after_hello-OneReply s (cfg.filter_hello b name s.conn)

  handle_hello-OneReply :
      (s : Session net cfg) (p : ProtocolName) (b : Bool) (name : Hostname)
      → OnNext (λ s'. Writes (hello_reply s p b name) s.io s'.io) (handle_hello net cfg s p b name)
  unfolding handle_hello hello_reply
  handle_hello-OneReply s p b name = elim (Bool-cases (not (same_protocol p cfg.protocol))) [
    | inl other ↦ rw other (answer-OneReply s (cfg.command_unrecognized s.conn))
    | inr same ↦ rw same (hello_once-OneReply s s.conn.hello b name)
  ]

  after_from-OneReply :
      (s : Session net cfg) (r : Decision (Option Email) × Mail net cfg × Conn net cfg)
      → OnNext (λ s'. Writes (reply_of r.0) s.io s'.io) (after_from net cfg s r)
  unfolding after_from
  after_from-OneReply s (d, mail, conn) =
      dispatch-OneReply (record s { conn = conn }) d
        (λ res. record s { mail = some (record mail { from = res }); conn = conn }) (λ a. refl)

  start_mail-OneReply :
      (s : Session net cfg) (email : Option Email) (r : cfg.MailUserMeta × Conn net cfg)
      → OnNext (λ s'. Writes (start_reply email r) s.io s'.io) (start_mail net cfg s email r)
  unfolding start_mail start_reply
  start_mail-OneReply s email (user, conn) =
      after_from-OneReply s
        (cfg.filter_from email (record { user = user; from = none; to = [] }) conn)

  mail_once-OneReply :
      (s : Session net cfg) (m : Option (Mail net cfg)) (email : Option Email)
      → OnNext (λ s'. Writes (mail_once_reply s m email) s.io s'.io) (mail_once net cfg s m email)
  unfolding mail_once mail_once_reply
  mail_once-OneReply s (some m) email = answer-OneReply s _
  mail_once-OneReply s none email = start_mail-OneReply s email (cfg.new_mail s.conn)

  handle_mail_from-OneReply :
      (s : Session net cfg) (h : Option HelloInfo) (email : Option Email)
      → OnNext (λ s'. Writes (mail_reply s h email) s.io s'.io) (handle_mail_from net cfg s h email)
  unfolding handle_mail_from mail_reply
  handle_mail_from-OneReply s none email = answer-OneReply s _
  handle_mail_from-OneReply s (some h) email = mail_once-OneReply s s.mail email

  after_to-OneReply :
      (s : Session net cfg) (r : Decision Email × Mail net cfg × Conn net cfg)
      → OnNext (λ s'. Writes (reply_of r.0) s.io s'.io) (after_to net cfg s r)
  unfolding after_to
  after_to-OneReply s (d, mail, conn) =
      dispatch-OneReply (record s { mail = some mail; conn = conn }) d
        (λ res. record s { mail = some (record mail { to = mail.to ++ res ∷ [] }); conn = conn })
        (λ a. refl)

  handle_rcpt_to-OneReply :
      (s : Session net cfg) (m : Option (Mail net cfg)) (email : Email)
      → OnNext (λ s'. Writes (rcpt_reply s m email) s.io s'.io) (handle_rcpt_to net cfg s m email)
  unfolding handle_rcpt_to rcpt_reply
  handle_rcpt_to-OneReply s none email = answer-OneReply s _
  handle_rcpt_to-OneReply s (some m) email = after_to-OneReply s (cfg.filter_to email m s.conn)

  after_rset-OneReply :
      (s : Session net cfg) (r : Decision (Unit {0}) × Option (Mail net cfg) × Conn net cfg)
      → OnNext (λ s'. Writes (reply_of r.0) s.io s'.io) (after_rset net cfg s r)
  unfolding after_rset
  after_rset-OneReply s (d, mail, conn) =
      dispatch-OneReply (record s { mail = mail; conn = conn }) d
        (λ u. record s { mail = none; conn = conn }) (λ a. refl)

-- Whether a command is answered by one reply: not DATA, where a message may follow, nor STARTTLS,
-- where the connection may be another one afterwards.
abbrev pub is_plain : Command → Bool
is_plain Command.cmd_data = false
is_plain Command.starttls = false
is_plain (ehlo h) = true
is_plain (helo h) = true
is_plain (lhlo h) = true
is_plain (Command.mail path email params) = true
is_plain (rcpt path email params) = true
is_plain Command.rset = true
is_plain (expn name) = true
is_plain (vrfy name) = true
is_plain (help subject) = true
is_plain (noop string) = true
is_plain Command.quit = true

module _ (net : Transport) (cfg : Config net) where
  -- The reply to a command, where the session goes on. DATA and STARTTLS are answered in several steps.
  unfoldable pub reply_to : Session net cfg → Command → Option Reply
  unfolding hello_reply mail_reply rcpt_reply reply_of
  reply_to s (ehlo name) = hello_reply net cfg s smtp true name
  reply_to s (helo name) = hello_reply net cfg s smtp false name
  reply_to s (lhlo name) = hello_reply net cfg s lmtp true name
  reply_to s (Command.mail path email params) = mail_reply net cfg s s.conn.hello email
  reply_to s (rcpt path email params) = rcpt_reply net cfg s s.mail email
  reply_to s Command.rset = reply_of net cfg (cfg.handle_rset s.mail s.conn).0
  reply_to s (expn name) = reply_of net cfg (cfg.handle_expn name s.conn).0
  reply_to s (vrfy name) = reply_of net cfg (cfg.handle_vrfy name s.conn).0
  reply_to s (help subject) = reply_of net cfg (cfg.handle_help subject s.conn).0
  reply_to s (noop string) = reply_of net cfg (cfg.handle_noop string s.conn).0
  reply_to s Command.quit = reply_of net cfg (cfg.handle_quit s.conn).0
  reply_to s Command.cmd_data = none
  reply_to s Command.starttls = none

  handle_command-OneReply :
      (fuel : ℕ) (s : Session net cfg) (cmd : Command)
      → is_plain cmd ≡ true
      → OnNext
          (λ s'. Writes net cfg (reply_to s cmd) s.io s'.io)
          (handle_command net cfg fuel s cmd)
  unfolding handle_command reply_to
  handle_command-OneReply fuel s Command.cmd_data h = absurd (ground arith)
  handle_command-OneReply fuel s Command.starttls h = absurd (ground arith)
  handle_command-OneReply fuel s (ehlo name) h = handle_hello-OneReply net cfg s smtp true name
  handle_command-OneReply fuel s (helo name) h = handle_hello-OneReply net cfg s smtp false name
  handle_command-OneReply fuel s (lhlo name) h = handle_hello-OneReply net cfg s lmtp true name
  handle_command-OneReply fuel s (Command.mail path email params) h =
      handle_mail_from-OneReply net cfg s s.conn.hello email
  handle_command-OneReply fuel s (rcpt path email params) h =
      handle_rcpt_to-OneReply net cfg s s.mail email
  handle_command-OneReply fuel s Command.rset h =
      after_rset-OneReply net cfg s (cfg.handle_rset s.mail s.conn)
  handle_command-OneReply fuel s (expn name) h = simple-OneReply net cfg s _
  handle_command-OneReply fuel s (vrfy name) h = simple-OneReply net cfg s _
  handle_command-OneReply fuel s (help subject) h = simple-OneReply net cfg s _
  handle_command-OneReply fuel s (noop string) h = simple-OneReply net cfg s _
  handle_command-OneReply fuel s Command.quit h = simple-OneReply net cfg s _

  -- When a session goes on after a command other than DATA and STARTTLS, the bytes sent are those of
  -- before and then those of one reply: that of the configuration's decision, where it has not killed
  -- the session, or of the configuration's error, where the command came out of order or the greeting
  -- is that of the other protocol.
  pub handle_command_replies :
      (fuel : ℕ) (s s' : Session net cfg) (cmd : Command)
      → is_plain cmd ≡ true
      → handle_command net cfg fuel s cmd ≡ next s'
      → Writes net cfg (reply_to s cmd) s.io s'.io
  handle_command_replies fuel s s' cmd h e =
      OnNext-next (λ s''. Writes net cfg (reply_to s cmd) s.io s''.io)
        (handle_command net cfg fuel s cmd) s' (handle_command-OneReply fuel s cmd h) e
