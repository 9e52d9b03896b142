-- ===== src/Server/Session/Order/Data.antt =====
-- DATA leaves no transaction open, but for one that the configuration refuses to receive.
use kannader.Prelude.{
  ℕ, zero, suc, ◌==◌, true, Option, none, some, List, [], ◌∷◌, ◌≡◌, refl, ltb, ◌∙◌,
}
use kannader.Message.Io.{err, connection_aborted}
use kannader.Message.Data.Reader.{EscapedDataReader, is_finished, complete, get_unhandled, new}
use kannader.Message.Reply.{Reply}
use kannader.Server.Types.{Decision}
use kannader.Server.Config.{Transport, Config}
use kannader.Server.Session.{
  Session, next, stop, panic, ◌and_then◌, Conn, Mail, send_reply, answer, simple,
}
use kannader.Server.Session.Receive.{
  Drained, drained, cut, broken, unfinished, drain, zeros, give_back, set_unhandled, send_decisions,
  send_incomplete, after_complete, complete_late, after_drain, after_received, after_handle_mail,
  receive, after_filter_data, data_with, handle_data, expected_n_decisions,
}
use kannader.Server.Session.Answers.{OnNext, OnNext-map, and_then-OnNext, if-OnNext, kill-stops}
use kannader.Server.Session.Order.{
  is_some, ordered_greeted, IsOrdered, NoMail, Same-IsOrdered, Same-NoMail, NoMail-IsOrdered,
  send_reply-holds, answer-holds, simple-holds,
}
use kannader.Server.Session.Order.Commands.{KeepsHello, greeted}

module _ (net : Transport) (cfg : Config net) where
  open net use {source}

  answer-NoMail :
      (s : Session net cfg) (a : Reply × Conn net cfg)
      → s.mail ≡ none
      → OnNext (NoMail net cfg) (answer net cfg s a)
  unfolding NoMail
  answer-NoMail s a e = answer-holds net cfg (NoMail net cfg) (Same-NoMail net cfg) s a e

  send_decisions-NoMail :
      (n expected : ℕ) (ds : List (Decision (Unit {0}))) (s : Session net cfg)
      → s.mail ≡ none
      → OnNext (NoMail net cfg) (send_decisions net cfg s n expected ds)
  unfolding OnNext NoMail send_decisions
  send_decisions-NoMail n expected [] s e =
      if-OnNext (NoMail net cfg) (n == expected) (next s) panic e tt
  send_decisions-NoMail n expected (d ∷ ds) s e =
      if-OnNext (NoMail net cfg) (ltb expected (suc n)) panic
        (simple net cfg s (d, s.conn)
          and_then (λ s'. send_decisions net cfg s' (suc n) expected ds))
        tt
        (and_then-OnNext (NoMail net cfg) (NoMail net cfg)
          (λ s'. send_decisions net cfg s' (suc n) expected ds)
          (λ s' e'. send_decisions-NoMail (suc n) expected ds s' e') (simple net cfg s (d, s.conn))
          (simple-holds net cfg (NoMail net cfg) (Same-NoMail net cfg) s (d, s.conn) e))

  send_incomplete-NoMail :
      (n : ℕ) (s : Session net cfg)
      → s.mail ≡ none
      → OnNext (NoMail net cfg) (send_incomplete net cfg s n)
  unfolding OnNext NoMail send_incomplete
  send_incomplete-NoMail zero s e = e
  send_incomplete-NoMail (suc n) s e =
      and_then-OnNext (NoMail net cfg) (NoMail net cfg) (λ s'. send_incomplete net cfg s' n)
        (λ s' e'. send_incomplete-NoMail n s' e')
        (answer net cfg s (cfg.handle_mail_did_not_call_complete s.conn))
        (answer-NoMail s (cfg.handle_mail_did_not_call_complete s.conn) e)

  after_complete-NoMail :
      (s : Session net cfg) (n : ℕ) (o : Option (ℕ × ℕ))
      → s.mail ≡ none
      → OnNext (NoMail net cfg) (after_complete net cfg s n o)
  unfolding OnNext after_complete
  after_complete-NoMail s n none e = tt
  after_complete-NoMail s n (some u) e = send_incomplete-NoMail n (set_unhandled net cfg s u) e

  complete_late-NoMail :
      (s : Session net cfg) (conn : Conn net cfg) (n : ℕ) (o : Option (EscapedDataReader source))
      → s.mail ≡ none
      → OnNext (NoMail net cfg) (complete_late net cfg s conn n o)
  unfolding OnNext complete_late
  complete_late-NoMail s conn n none e = tt
  complete_late-NoMail s conn n (some r) e =
      after_complete-NoMail (give_back net cfg s r conn) n (get_unhandled source r) e

  after_drain-NoMail :
      (s : Session net cfg) (conn : Conn net cfg) (n : ℕ) (d : Drained (EscapedDataReader source))
      → s.mail ≡ none
      → OnNext (NoMail net cfg) (after_drain net cfg s conn n d)
  unfolding OnNext after_drain
  after_drain-NoMail s conn n broken e = tt
  after_drain-NoMail s conn n unfinished e = tt
  after_drain-NoMail s conn n (cut r k) e = tt
  after_drain-NoMail s conn n (drained r) e =
      if-OnNext (NoMail net cfg) (is_finished source r)
        (complete_late net cfg s conn n (complete source r))
        (stop (give_back net cfg s r conn) (err connection_aborted))
        (complete_late-NoMail s conn n (complete source r) e) tt

  after_received-NoMail :
      (fuel : ℕ) (s : Session net cfg) (n : ℕ) (r : EscapedDataReader source)
      (ds : List (Decision (Unit {0}))) (conn : Conn net cfg) (o : Option (ℕ × ℕ))
      → s.mail ≡ none
      → OnNext (NoMail net cfg) (after_received net cfg fuel s n r ds conn o)
  unfolding after_received
  after_received-NoMail fuel s n r ds conn (some u) e =
      send_decisions-NoMail 0 n ds (set_unhandled net cfg (give_back net cfg s r conn) u) e
  after_received-NoMail fuel s n r ds conn none e =
      after_drain-NoMail s conn n (drain net cfg fuel r (zeros 128)) e

  after_handle_mail-NoMail :
      (fuel : ℕ) (s : Session net cfg) (n : ℕ)
      (a : EscapedDataReader source × List (Decision (Unit {0})) × Conn net cfg)
      → s.mail ≡ none
      → OnNext (NoMail net cfg) (after_handle_mail net cfg fuel s n a)
  unfolding after_handle_mail
  after_handle_mail-NoMail fuel s n (r, ds, conn) e =
      after_received-NoMail fuel s n r ds conn (get_unhandled source r) e

  receive-NoMail :
      (fuel : ℕ) (s : Session net cfg) (mail : Mail net cfg)
      → s.mail ≡ none
      → OnNext (NoMail net cfg) (receive net cfg fuel s mail)
  unfolding receive
  receive-NoMail fuel s mail e =
      after_handle_mail-NoMail fuel s (expected_n_decisions cfg.protocol mail.to)
        (cfg.handle_mail (new source s.rdbuf s.from s.to s.io) mail s.conn) e

  after_filter_data-IsOrdered :
      (fuel : ℕ) (s : Session net cfg) (a : Decision (Unit {0}) × Mail net cfg × Conn net cfg)
      → s.mail ≡ none
      → is_some a.2.hello ≡ true
      → OnNext (IsOrdered net cfg) (after_filter_data net cfg fuel s a)
  unfolding after_filter_data NoMail
  after_filter_data-IsOrdered fuel s (Decision.accept reply u, mail, conn) e h =
      and_then-OnNext (NoMail net cfg) (IsOrdered net cfg) (λ s'. receive net cfg fuel s' mail)
        (λ s' e'.
          OnNext-map (NoMail net cfg) (IsOrdered net cfg) (NoMail-IsOrdered net cfg)
            (receive net cfg fuel s' mail) (receive-NoMail fuel s' mail e'))
        (send_reply net cfg (record s { conn = conn }) reply)
        (send_reply-holds net cfg (NoMail net cfg) (Same-NoMail net cfg) (record s { conn = conn })
          reply e)
  after_filter_data-IsOrdered fuel s (Decision.reject reply, mail, conn) e h =
      send_reply-holds net cfg (IsOrdered net cfg) (Same-IsOrdered net cfg)
        (record s { mail = some mail; conn = conn }) reply
        (ordered_greeted (some mail) conn.hello h)
  after_filter_data-IsOrdered fuel s (Decision.kill reply res, mail, conn) e h =
      kill-stops net cfg (IsOrdered net cfg) (record s { conn = conn }) reply res

  answer_without-IsOrdered :
      (s : Session net cfg) (a : Reply × Conn net cfg)
      → s.mail ≡ none
      → OnNext (IsOrdered net cfg) (answer net cfg s a)
  answer_without-IsOrdered s a e =
      OnNext-map (NoMail net cfg) (IsOrdered net cfg) (NoMail-IsOrdered net cfg)
        (answer net cfg s a) (answer-NoMail s a e)

  data_with-IsOrdered :
      {A : Type 0} (fuel : ℕ) (s : Session net cfg) (mail : Mail net cfg) (to : List A)
      → KeepsHello net cfg
      → s.mail ≡ none
      → is_some s.conn.hello ≡ true
      → OnNext (IsOrdered net cfg) (data_with net cfg fuel s mail to)
  unfolding data_with
  data_with-IsOrdered fuel s mail [] k e h =
      answer_without-IsOrdered s (cfg.data_before_rcpt s.conn) e
  data_with-IsOrdered fuel s mail (to ∷ tos) k e h =
      after_filter_data-IsOrdered fuel s (cfg.filter_data mail s.conn) e
        (k.filter_data mail s.conn ∙ h)

  pub handle_data-IsOrdered :
      (fuel : ℕ) (s : Session net cfg) (m : Option (Mail net cfg))
      → KeepsHello net cfg
      → s.mail ≡ m
      → IsOrdered net cfg s
      → OnNext (IsOrdered net cfg) (handle_data net cfg fuel s m)
  unfolding handle_data
  handle_data-IsOrdered fuel s none k e o =
      answer_without-IsOrdered s (cfg.data_before_mail s.conn) e
  handle_data-IsOrdered fuel s (some m) k e o =
      data_with-IsOrdered fuel (record s { mail = none }) m m.to k refl (greeted net cfg s m e o)
