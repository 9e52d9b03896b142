-- ===== src/Server/Session/Order/Commands.antt =====
-- Each command keeps the order of greeting and transaction.
use kannader.Prelude.{Bool, true, not, Option, none, some, [], ◌∷◌, ◌++◌, ◌≡◌, refl, sym, ap, ◌∙◌}
use kannader.Message.Text.{MaybeUtf8}
use kannader.Message.Address.{Email, Hostname}
use kannader.Message.Reply.{Reply}
use kannader.Server.Types.{Decision, HelloInfo, ProtocolName}
use kannader.Server.Config.{Transport, Config}
use kannader.Server.Session.{
  Session, Conn, Mail, answer, simple, same_protocol, after_hello, hello_once, handle_hello,
  after_from, start_mail, mail_once, handle_mail_from, after_to, handle_rcpt_to, after_rset,
}
use kannader.Server.Session.Answers.{OnNext, if-OnNext}
use kannader.Server.Session.Order.{
  is_some, ordered, ordered_same, ordered_none, ordered_some, ordered_greeted, IsOrdered, NoMail,
  Same-IsOrdered, NoMail-IsOrdered, answer-holds, dispatch-holds, simple-holds,
}

module _ (net : Transport) (cfg : Config net) where
  open net use {source}

  -- The handlers leave it as it is whether the client has greeted, and `handle_rset` starts no
  -- transaction. `filter_hello` may do what it likes.
  pub record KeepsHello : Type 0 where
    pub new_mail : (c : Conn net cfg) → is_some (cfg.new_mail c).1.hello ≡ is_some c.hello
    pub filter_from :
        (e : Option Email) (m : Mail net cfg) (c : Conn net cfg)
        → is_some (cfg.filter_from e m c).2.hello ≡ is_some c.hello
    pub filter_to :
        (e : Email) (m : Mail net cfg) (c : Conn net cfg)
        → is_some (cfg.filter_to e m c).2.hello ≡ is_some c.hello
    pub filter_data :
        (m : Mail net cfg) (c : Conn net cfg)
        → is_some (cfg.filter_data m c).2.hello ≡ is_some c.hello
    pub handle_rset :
        (m : Option (Mail net cfg)) (c : Conn net cfg)
        → is_some (cfg.handle_rset m c).2.hello ≡ is_some c.hello
    pub handle_rset_none : (c : Conn net cfg) → (cfg.handle_rset none c).1 ≡ none
    pub handle_starttls :
        (c : Conn net cfg) → is_some (cfg.handle_starttls c).1.hello ≡ is_some c.hello
    pub handle_expn :
        (t : MaybeUtf8) (c : Conn net cfg) → is_some (cfg.handle_expn t c).1.hello ≡ is_some c.hello
    pub handle_vrfy :
        (t : MaybeUtf8) (c : Conn net cfg) → is_some (cfg.handle_vrfy t c).1.hello ≡ is_some c.hello
    pub handle_help :
        (t : MaybeUtf8) (c : Conn net cfg) → is_some (cfg.handle_help t c).1.hello ≡ is_some c.hello
    pub handle_noop :
        (t : MaybeUtf8) (c : Conn net cfg) → is_some (cfg.handle_noop t c).1.hello ≡ is_some c.hello
    pub handle_quit : (c : Conn net cfg) → is_some (cfg.handle_quit c).1.hello ≡ is_some c.hello
    pub already_did_hello :
        (c : Conn net cfg) → is_some (cfg.already_did_hello c).1.hello ≡ is_some c.hello
    pub already_in_mail :
        (c : Conn net cfg) → is_some (cfg.already_in_mail c).1.hello ≡ is_some c.hello
    pub mail_before_hello :
        (c : Conn net cfg) → is_some (cfg.mail_before_hello c).1.hello ≡ is_some c.hello
    pub rcpt_before_mail :
        (c : Conn net cfg) → is_some (cfg.rcpt_before_mail c).1.hello ≡ is_some c.hello
    pub starttls_unsupported :
        (c : Conn net cfg) → is_some (cfg.starttls_unsupported c).1.hello ≡ is_some c.hello
    pub command_unrecognized :
        (c : Conn net cfg) → is_some (cfg.command_unrecognized c).1.hello ≡ is_some c.hello
    pub line_too_long : (c : Conn net cfg) → is_some (cfg.line_too_long c).1.hello ≡ is_some c.hello
    pub pipeline_forbidden_after_starttls :
        (c : Conn net cfg)
        → is_some (cfg.pipeline_forbidden_after_starttls c).1.hello ≡ is_some c.hello

  -- A reply that the configuration gives.
  pub answer-IsOrdered :
      (s : Session net cfg) (a : Reply × Conn net cfg)
      → is_some a.1.hello ≡ is_some s.conn.hello
      → IsOrdered net cfg s
      → OnNext (IsOrdered net cfg) (answer net cfg s a)
  answer-IsOrdered s a keeps o =
      answer-holds net cfg (IsOrdered net cfg) (Same-IsOrdered net cfg) s a
        (ordered_same s.mail s.conn.hello a.1.hello keeps o)

  pub simple-IsOrdered :
      (s : Session net cfg) (r : Decision (Unit {0}) × Conn net cfg)
      → is_some r.1.hello ≡ is_some s.conn.hello
      → IsOrdered net cfg s
      → OnNext (IsOrdered net cfg) (simple net cfg s r)
  simple-IsOrdered s r keeps o =
      simple-holds net cfg (IsOrdered net cfg) (Same-IsOrdered net cfg) s r
        (ordered_same s.mail s.conn.hello r.1.hello keeps o)

  after_hello-IsOrdered :
      (s : Session net cfg) (r : Decision HelloInfo × Conn net cfg)
      → s.mail ≡ none
      → OnNext (IsOrdered net cfg) (after_hello net cfg s r)
  unfolding after_hello NoMail
  after_hello-IsOrdered s (d, conn) e =
      dispatch-holds net cfg (IsOrdered net cfg) (Same-IsOrdered net cfg) (record s { conn = conn })
        d (λ info. record s { conn = record conn { hello = some info } })
        (NoMail-IsOrdered net cfg (record s { conn = conn }) e)
        (λ info. NoMail-IsOrdered net cfg (record s { conn = record conn { hello = some info } }) e)

  hello_once-IsOrdered :
      (s : Session net cfg) (h : Option HelloInfo) (b : Bool) (name : Hostname)
      → KeepsHello
      → s.conn.hello ≡ h
      → IsOrdered net cfg s
      → OnNext (IsOrdered net cfg) (hello_once net cfg s h b name)
  unfolding hello_once
  hello_once-IsOrdered s (some h) b name k e o =
      answer-IsOrdered s (cfg.already_did_hello s.conn) (k.already_did_hello s.conn) o
  hello_once-IsOrdered s none b name k e o =
      after_hello-IsOrdered s (cfg.filter_hello b name s.conn)
        (ordered_none s.mail s.conn.hello e o)

  pub handle_hello-IsOrdered :
      (s : Session net cfg) (p : ProtocolName) (b : Bool) (name : Hostname)
      → KeepsHello
      → IsOrdered net cfg s
      → OnNext (IsOrdered net cfg) (handle_hello net cfg s p b name)
  unfolding handle_hello
  handle_hello-IsOrdered s p b name k o =
      if-OnNext (IsOrdered net cfg) (not (same_protocol p cfg.protocol))
        (answer net cfg s (cfg.command_unrecognized s.conn))
        (hello_once net cfg s s.conn.hello b name)
        (answer-IsOrdered s (cfg.command_unrecognized s.conn) (k.command_unrecognized s.conn) o)
        (hello_once-IsOrdered s s.conn.hello b name k refl o)

  after_from-IsOrdered :
      (s : Session net cfg) (r : Decision (Option Email) × Mail net cfg × Conn net cfg)
      → s.mail ≡ none
      → is_some r.2.hello ≡ true
      → OnNext (IsOrdered net cfg) (after_from net cfg s r)
  unfolding after_from NoMail
  after_from-IsOrdered s (d, mail, conn) e h =
      dispatch-holds net cfg (IsOrdered net cfg) (Same-IsOrdered net cfg) (record s { conn = conn })
        d (λ res. record s { mail = some (record mail { from = res }); conn = conn })
        (NoMail-IsOrdered net cfg (record s { conn = conn }) e)
        (λ res. ordered_greeted (some (record mail { from = res })) conn.hello h)

  start_mail-IsOrdered :
      (s : Session net cfg) (email : Option Email) (r : cfg.MailUserMeta × Conn net cfg)
      → KeepsHello
      → s.mail ≡ none
      → is_some r.1.hello ≡ true
      → OnNext (IsOrdered net cfg) (start_mail net cfg s email r)
  unfolding start_mail
  start_mail-IsOrdered s email (user, conn) k e h =
      let m : Mail net cfg = record { user = user; from = none; to = [] } in
      after_from-IsOrdered s (cfg.filter_from email m conn) e (k.filter_from email m conn ∙ h)

  mail_once-IsOrdered :
      (s : Session net cfg) (m : Option (Mail net cfg)) (email : Option Email)
      → KeepsHello
      → s.mail ≡ m
      → is_some s.conn.hello ≡ true
      → IsOrdered net cfg s
      → OnNext (IsOrdered net cfg) (mail_once net cfg s m email)
  unfolding mail_once
  mail_once-IsOrdered s (some m) email k e h o =
      answer-IsOrdered s (cfg.already_in_mail s.conn) (k.already_in_mail s.conn) o
  mail_once-IsOrdered s none email k e h o =
      start_mail-IsOrdered s email (cfg.new_mail s.conn) k e (k.new_mail s.conn ∙ h)

  pub handle_mail_from-IsOrdered :
      (s : Session net cfg) (h : Option HelloInfo) (email : Option Email)
      → KeepsHello
      → s.conn.hello ≡ h
      → IsOrdered net cfg s
      → OnNext (IsOrdered net cfg) (handle_mail_from net cfg s h email)
  unfolding handle_mail_from
  handle_mail_from-IsOrdered s none email k e o =
      answer-IsOrdered s (cfg.mail_before_hello s.conn) (k.mail_before_hello s.conn) o
  handle_mail_from-IsOrdered s (some h) email k e o =
      mail_once-IsOrdered s s.mail email k refl (ap is_some e) o

  after_to-IsOrdered :
      (s : Session net cfg) (r : Decision Email × Mail net cfg × Conn net cfg)
      → is_some r.2.hello ≡ true
      → OnNext (IsOrdered net cfg) (after_to net cfg s r)
  unfolding after_to
  after_to-IsOrdered s (d, mail, conn) h =
      dispatch-holds net cfg (IsOrdered net cfg) (Same-IsOrdered net cfg)
        (record s { mail = some mail; conn = conn }) d
        (λ res. record s { mail = some (record mail { to = mail.to ++ res ∷ [] }); conn = conn })
        (ordered_greeted (some mail) conn.hello h)
        (λ res. ordered_greeted (some (record mail { to = mail.to ++ res ∷ [] })) conn.hello h)

  pub greeted :
      (s : Session net cfg) (m : Mail net cfg)
      → s.mail ≡ some m
      → IsOrdered net cfg s
      → is_some s.conn.hello ≡ true
  greeted s m e o = ordered_some m s.conn.hello (ap (λ mail. ordered mail s.conn.hello) (sym e) ∙ o)

  pub handle_rcpt_to-IsOrdered :
      (s : Session net cfg) (m : Option (Mail net cfg)) (email : Email)
      → KeepsHello
      → s.mail ≡ m
      → IsOrdered net cfg s
      → OnNext (IsOrdered net cfg) (handle_rcpt_to net cfg s m email)
  unfolding handle_rcpt_to
  handle_rcpt_to-IsOrdered s none email k e o =
      answer-IsOrdered s (cfg.rcpt_before_mail s.conn) (k.rcpt_before_mail s.conn) o
  handle_rcpt_to-IsOrdered s (some m) email k e o =
      after_to-IsOrdered s (cfg.filter_to email m s.conn)
        (k.filter_to email m s.conn ∙ greeted s m e o)

  pub rset_ordered :
      (m : Option (Mail net cfg)) (c : Conn net cfg)
      → KeepsHello
      → ordered m c.hello ≡ true
      → ordered (cfg.handle_rset m c).1 (cfg.handle_rset m c).2.hello ≡ true
  unfolding ordered
  rset_ordered none c k o =
      ap (λ mail. ordered mail (cfg.handle_rset none c).2.hello) (k.handle_rset_none c)
  rset_ordered (some m) c k o =
      ordered_greeted (cfg.handle_rset (some m) c).1 (cfg.handle_rset (some m) c).2.hello
        (k.handle_rset (some m) c ∙ ordered_some m c.hello o)

  pub after_rset-IsOrdered :
      (s : Session net cfg) (r : Decision (Unit {0}) × Option (Mail net cfg) × Conn net cfg)
      → ordered r.1 r.2.hello ≡ true
      → OnNext (IsOrdered net cfg) (after_rset net cfg s r)
  unfolding after_rset NoMail
  after_rset-IsOrdered s (d, mail, conn) o =
      dispatch-holds net cfg (IsOrdered net cfg) (Same-IsOrdered net cfg)
        (record s { mail = mail; conn = conn }) d (λ u. record s { mail = none; conn = conn }) o
        (λ u. NoMail-IsOrdered net cfg (record s { mail = none; conn = conn }) refl)
