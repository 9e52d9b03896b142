-- ===== src/Server/Session/Order/Steps.antt =====
-- The order of greeting and transaction over a whole session.
use kannader.Prelude.{ℕ, ◌==◌, true, false, not, ◌≡◌, refl, if◌then◌else◌}
use kannader.Message.Io.{IoResult, ok, err}
use kannader.Message.Command.{Command, ehlo, expn, helo, help, lhlo, noop, rcpt, vrfy}
use kannader.Server.Types.{Decision, smtp, lmtp}
use kannader.Server.Config.{Transport, Config}
use kannader.Server.Session.{
  Session, next, Conn, send_reply, answer, after_tls, after_starttls, handle_starttls,
}
use kannader.Server.Session.Commands.{handle_command}
use kannader.Server.Session.Answers.{OnNext, OnNext-next, and_then-OnNext, if-OnNext, kill-stops}
use kannader.Server.Session.Order.{
  is_some, ordered, ordered_same, IsOrdered, Same-IsOrdered, send_reply-holds,
}
use kannader.Server.Session.Order.Commands.{
  KeepsHello, answer-IsOrdered, simple-IsOrdered, handle_hello-IsOrdered,
  handle_mail_from-IsOrdered, handle_rcpt_to-IsOrdered, rset_ordered, after_rset-IsOrdered,
}
use kannader.Server.Session.Order.Data.{handle_data-IsOrdered}

module _ (net : Transport) (cfg : Config net) where
  open net use {source}

  after_tls-IsOrdered :
      (s : Session net cfg) (r : IoResult source.Reader × Conn net cfg)
      → OnNext (IsOrdered net cfg) (after_tls net cfg s r)
  unfolding OnNext after_tls ordered
  after_tls-IsOrdered s (ok io, conn) = refl
  after_tls-IsOrdered s (err e, conn) = tt

  after_starttls-IsOrdered :
      (s : Session net cfg) (r : Decision (Unit {0}) × Conn net cfg)
      → is_some r.1.hello ≡ is_some s.conn.hello
      → IsOrdered net cfg s
      → OnNext (IsOrdered net cfg) (after_starttls net cfg s r)
  unfolding after_starttls
  after_starttls-IsOrdered s (Decision.accept reply u, conn) keeps o =
      and_then-OnNext (IsOrdered net cfg) (IsOrdered net cfg)
        (λ s'. after_tls net cfg s' (cfg.tls_accept s'.io s'.conn))
        (λ s' o'. after_tls-IsOrdered s' (cfg.tls_accept s'.io s'.conn))
        (send_reply net cfg (record s { conn = conn }) reply)
        (send_reply-holds net cfg (IsOrdered net cfg) (Same-IsOrdered net cfg)
          (record s { conn = conn }) reply (ordered_same s.mail s.conn.hello conn.hello keeps o))
  after_starttls-IsOrdered s (Decision.reject reply, conn) keeps o =
      send_reply-holds net cfg (IsOrdered net cfg) (Same-IsOrdered net cfg)
        (record s { conn = conn }) reply (ordered_same s.mail s.conn.hello conn.hello keeps o)
  after_starttls-IsOrdered s (Decision.kill reply res, conn) keeps o =
      kill-stops net cfg (IsOrdered net cfg) (record s { conn = conn }) reply res

  handle_starttls-IsOrdered :
      (s : Session net cfg)
      → KeepsHello net cfg
      → IsOrdered net cfg s
      → OnNext (IsOrdered net cfg) (handle_starttls net cfg s)
  unfolding handle_starttls
  handle_starttls-IsOrdered s k o =
      if-OnNext (IsOrdered net cfg) (not (cfg.can_do_tls s.conn))
        (answer net cfg s (cfg.starttls_unsupported s.conn))
        (if not (s.from == s.to)
          then answer net cfg s (cfg.pipeline_forbidden_after_starttls s.conn)
          else after_starttls net cfg s (cfg.handle_starttls s.conn))
        (answer-IsOrdered net cfg s (cfg.starttls_unsupported s.conn)
          (k.starttls_unsupported s.conn) o)
        (if-OnNext (IsOrdered net cfg) (not (s.from == s.to))
          (answer net cfg s (cfg.pipeline_forbidden_after_starttls s.conn))
          (after_starttls net cfg s (cfg.handle_starttls s.conn))
          (answer-IsOrdered net cfg s (cfg.pipeline_forbidden_after_starttls s.conn)
            (k.pipeline_forbidden_after_starttls s.conn) o)
          (after_starttls-IsOrdered s (cfg.handle_starttls s.conn) (k.handle_starttls s.conn) o))

  pub handle_command-OnNext :
      (fuel : ℕ) (s : Session net cfg) (cmd : Command)
      → KeepsHello net cfg
      → IsOrdered net cfg s
      → OnNext (IsOrdered net cfg) (handle_command net cfg fuel s cmd)
  unfolding handle_command
  handle_command-OnNext fuel s (ehlo name) k o = handle_hello-IsOrdered net cfg s smtp true name k o
  handle_command-OnNext fuel s (helo name) k o =
      handle_hello-IsOrdered net cfg s smtp false name k o
  handle_command-OnNext fuel s (lhlo name) k o = handle_hello-IsOrdered net cfg s lmtp true name k o
  handle_command-OnNext fuel s (Command.mail path email params) k o =
      handle_mail_from-IsOrdered net cfg s s.conn.hello email k refl o
  handle_command-OnNext fuel s (rcpt path email params) k o =
      handle_rcpt_to-IsOrdered net cfg s s.mail email k refl o
  handle_command-OnNext fuel s Command.cmd_data k o =
      handle_data-IsOrdered net cfg fuel s s.mail k refl o
  handle_command-OnNext fuel s Command.rset k o =
      after_rset-IsOrdered net cfg s (cfg.handle_rset s.mail s.conn)
        (rset_ordered net cfg s.mail s.conn k o)
  handle_command-OnNext fuel s Command.starttls k o = handle_starttls-IsOrdered s k o
  handle_command-OnNext fuel s (expn t) k o =
      simple-IsOrdered net cfg s (cfg.handle_expn t s.conn) (k.handle_expn t s.conn) o
  handle_command-OnNext fuel s (vrfy t) k o =
      simple-IsOrdered net cfg s (cfg.handle_vrfy t s.conn) (k.handle_vrfy t s.conn) o
  handle_command-OnNext fuel s (help t) k o =
      simple-IsOrdered net cfg s (cfg.handle_help t s.conn) (k.handle_help t s.conn) o
  handle_command-OnNext fuel s (noop t) k o =
      simple-IsOrdered net cfg s (cfg.handle_noop t s.conn) (k.handle_noop t s.conn) o
  handle_command-OnNext fuel s Command.quit k o =
      simple-IsOrdered net cfg s (cfg.handle_quit s.conn) (k.handle_quit s.conn) o

  -- When no transaction is open before the client has greeted, none is after any command that the
  -- session survives, for a configuration whose handlers leave it as it is whether the client has
  -- greeted.
  pub handle_command-IsOrdered :
      (fuel : ℕ) (s s' : Session net cfg) (cmd : Command)
      → KeepsHello net cfg
      → IsOrdered net cfg s
      → handle_command net cfg fuel s cmd ≡ next s'
      → IsOrdered net cfg s'
  handle_command-IsOrdered fuel s s' cmd k o e =
      OnNext-next (IsOrdered net cfg) (handle_command net cfg fuel s cmd) s'
        (handle_command-OnNext fuel s cmd k o) e
