-- ===== src/Server/Session/Receive.antt =====
-- smtp-server/src/lib.rs: `interact`, the branch of DATA.
use kannader.Prelude.{
  ℕ, zero, suc, Option, none, some, List, [], ◌∷◌, ltb, ◌==◌, if◌then◌else◌, Bytes, length, flatten,
}
use kannader.Message.Io.{ErrorKind, err, connection_aborted, pending, ready, failed}
use kannader.Message.Data.Reader.{
  EscapedDataReader, new, is_finished, complete, get_unhandled, Outcome, poll_read,
}
use kannader.Server.Types.{Decision, ProtocolName, smtp, lmtp}
use kannader.Server.Config.{Transport, Config}
use kannader.Server.Session.{
  Session, Step, next, stop, panic, out_of_fuel, ◌and_then◌, Conn, Mail, send_reply, answer, kill,
  simple,
}

-- How the reading of an unread message ends.
pub data Drained {ℓ} (R : Type ℓ) : Type ℓ where
  drained : R → Drained R
  cut : R → ErrorKind → Drained R
  broken unfinished : Drained R

abbrev pub zeros : ℕ → Bytes
zeros zero = []
zeros (suc n) = 0 ∷ zeros n

unfoldable pub expected_n_decisions {ℓ} : {A : Type ℓ} → ProtocolName → List A → ℕ
expected_n_decisions smtp to = 1
expected_n_decisions lmtp to = length to

module _ (net : Transport) (cfg : Config net) where
  open net use {source}

  -- One answer of `reader.read(ignore_buf)`; an answer that is pending is awaited.
  unfoldable pub after_ignored :
      (EscapedDataReader source → Bytes → Drained (EscapedDataReader source))
      → Outcome source
      → Drained (EscapedDataReader source)
  after_ignored again none = broken
  after_ignored again (some (reader, bufs, pending)) = again reader (flatten bufs)
  after_ignored again (some (reader, bufs, failed k)) = cut reader k
  after_ignored again (some (reader, bufs, ready n)) =
      let rest = again reader (flatten bufs) in if n == 0 then drained reader else rest

  -- The loop that reads until the end of the message, on fuel.
  unfoldable pub drain : ℕ → EscapedDataReader source → Bytes → Drained (EscapedDataReader source)
  unfolding after_ignored
  drain zero reader ignore_buf = unfinished
  drain (suc fuel) reader ignore_buf =
      after_ignored (drain fuel) (poll_read source reader ignore_buf)

  -- The reader gives the session's buffer and connection back.
  abbrev pub give_back : Session net cfg → EscapedDataReader source → Conn net cfg → Session net cfg
  give_back s reader conn = record s { io = reader.read; rdbuf = reader.buf; conn = conn }

  abbrev pub set_unhandled : Session net cfg → ℕ × ℕ → Session net cfg
  set_unhandled s (from, to) = record s { from = from; to = to }

  -- The loop over the decisions, of which `n` have been seen.
  unfoldable pub send_decisions :
      Session net cfg → ℕ → ℕ → List (Decision (Unit {0})) → Step (Session net cfg)
  send_decisions s n expected [] = if n == expected then next s else panic
  send_decisions s n expected (d ∷ ds) =
      let sent =
        simple net cfg s (d, s.conn) and_then (λ s'. send_decisions s' (suc n) expected ds) in
      if ltb expected (suc n) then panic else sent

  unfoldable pub send_incomplete : Session net cfg → ℕ → Step (Session net cfg)
  send_incomplete s zero = next s
  send_incomplete s (suc n) =
      answer net cfg s (cfg.handle_mail_did_not_call_complete s.conn)
      and_then (λ s'. send_incomplete s' n)

  unfoldable pub after_complete : Session net cfg → ℕ → Option (ℕ × ℕ) → Step (Session net cfg)
  unfolding send_incomplete
  after_complete s expected none = panic
  after_complete s expected (some unhandled) = send_incomplete (set_unhandled s unhandled) expected

  unfoldable pub complete_late :
      Session net cfg
      → Conn net cfg
      → ℕ
      → Option (EscapedDataReader source)
      → Step (Session net cfg)
  unfolding after_complete
  complete_late s conn expected none = panic
  complete_late s conn expected (some reader) =
      after_complete (give_back s reader conn) expected (get_unhandled source reader)

  unfoldable pub after_drain :
      Session net cfg
      → Conn net cfg
      → ℕ
      → Drained (EscapedDataReader source)
      → Step (Session net cfg)
  unfolding complete_late
  after_drain s conn expected broken = panic
  after_drain s conn expected unfinished = out_of_fuel
  after_drain s conn expected (cut reader k) = stop (give_back s reader conn) (err k)
  after_drain s conn expected (drained reader) =
      if is_finished source reader
      then complete_late s conn expected (complete source reader)
      else stop (give_back s reader conn) (err connection_aborted)

  -- `reader_was_completed` and both its branches.
  unfoldable pub after_received :
      ℕ
      → Session net cfg
      → ℕ
      → EscapedDataReader source
      → List (Decision (Unit {0}))
      → Conn net cfg
      → Option (ℕ × ℕ)
      → Step (Session net cfg)
  unfolding send_decisions after_drain drain
  after_received fuel s expected reader decisions conn (some unhandled) =
      send_decisions (set_unhandled (give_back s reader conn) unhandled) 0 expected decisions
  after_received fuel s expected reader decisions conn none =
      after_drain s conn expected (drain fuel reader (zeros 128))

  unfoldable pub after_handle_mail :
      ℕ
      → Session net cfg
      → ℕ
      → EscapedDataReader source × List (Decision (Unit {0})) × Conn net cfg
      → Step (Session net cfg)
  unfolding after_received
  after_handle_mail fuel s expected (reader, decisions, conn) =
      after_received fuel s expected reader decisions conn (get_unhandled source reader)

  unfoldable pub receive : ℕ → Session net cfg → Mail net cfg → Step (Session net cfg)
  unfolding after_handle_mail
  receive fuel s mail =
      after_handle_mail fuel s (expected_n_decisions cfg.protocol mail.to)
        (cfg.handle_mail (new source s.rdbuf s.from s.to s.io) mail s.conn)

  unfoldable pub after_filter_data :
      ℕ
      → Session net cfg
      → Decision (Unit {0}) × Mail net cfg × Conn net cfg
      → Step (Session net cfg)
  unfolding receive
  after_filter_data fuel s (Decision.accept reply u, mail, conn) =
      send_reply net cfg (record s { conn = conn }) reply and_then (λ s'. receive fuel s' mail)
  after_filter_data fuel s (Decision.reject reply, mail, conn) =
      send_reply net cfg (record s { mail = some mail; conn = conn }) reply
  after_filter_data fuel s (Decision.kill reply res, mail, conn) =
      kill net cfg (record s { conn = conn }) reply res

  unfoldable pub data_with :
      {A : Type 0} → ℕ → Session net cfg → Mail net cfg → List A → Step (Session net cfg)
  unfolding after_filter_data
  data_with fuel s mail [] = answer net cfg s (cfg.data_before_rcpt s.conn)
  data_with fuel s mail (to ∷ tos) = after_filter_data fuel s (cfg.filter_data mail s.conn)

  -- `mail_meta.take()` and the match on what it gives.
  unfoldable pub handle_data : ℕ → Session net cfg → Option (Mail net cfg) → Step (Session net cfg)
  unfolding data_with
  handle_data fuel s none = answer net cfg s (cfg.data_before_mail s.conn)
  handle_data fuel s (some mail) = data_with fuel (record s { mail = none }) mail mail.to
