-- ===== src/Server/Session/Commands.antt =====
-- smtp-server/src/lib.rs: `interact`, the match on the command.
use kannader.Prelude.{ℕ, true, false}
use kannader.Message.Command.{Command, ehlo, expn, helo, help, lhlo, mail, noop, rcpt, vrfy}
use kannader.Server.Types.{smtp, lmtp}
use kannader.Server.Config.{Transport, Config}
use kannader.Server.Session.{
  Session, Step, simple, handle_hello, handle_mail_from, handle_rcpt_to, after_rset,
  handle_starttls,
}
use kannader.Server.Session.Receive.{handle_data}

module _ (net : Transport) (cfg : Config net) where
  -- The fuel is that of the loop that reads a message that `handle_mail` has left unread.
  unfoldable pub handle_command : ℕ → Session net cfg → Command → Step (Session net cfg)
  unfolding handle_hello handle_mail_from handle_rcpt_to handle_starttls handle_data
  handle_command fuel s (ehlo hostname) = handle_hello net cfg s smtp true hostname
  handle_command fuel s (helo hostname) = handle_hello net cfg s smtp false hostname
  handle_command fuel s (lhlo hostname) = handle_hello net cfg s lmtp true hostname
  handle_command fuel s (mail path email params) = handle_mail_from net cfg s s.conn.hello email
  handle_command fuel s (rcpt path email params) = handle_rcpt_to net cfg s s.mail email
  handle_command fuel s Command.cmd_data = handle_data net cfg fuel s s.mail
  handle_command fuel s Command.rset = after_rset net cfg s (cfg.handle_rset s.mail s.conn)
  handle_command fuel s Command.starttls = handle_starttls net cfg s
  handle_command fuel s (expn name) = simple net cfg s (cfg.handle_expn name s.conn)
  handle_command fuel s (vrfy name) = simple net cfg s (cfg.handle_vrfy name s.conn)
  handle_command fuel s (help subject) = simple net cfg s (cfg.handle_help subject s.conn)
  handle_command fuel s (noop string) = simple net cfg s (cfg.handle_noop string s.conn)
  handle_command fuel s Command.quit = simple net cfg s (cfg.handle_quit s.conn)
