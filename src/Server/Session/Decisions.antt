-- ===== src/Server/Session/Decisions.antt =====
-- The replies that follow a message.
use mathlib.Core.Path.{subst}
use kannader.Prelude.{
  ℕ, zero, suc, ◌+◌, ◌==◌, Bool, true, false, Option, none, some, List, [], ◌∷◌, ◌≡◌, refl, sym, ap,
  ◌∙◌, inl, inr, arith, length, ltb, if◌then◌else◌, Bool-cases, ==_iff,
}
use kannader.Message.Io.{err, connection_aborted}
use kannader.Message.Data.Reader.{
  ReaderState, EscapedDataReader, new, is_finished, complete, get_unhandled,
}
use kannader.Message.Reply.{Reply}
use kannader.Server.Types.{Decision}
use kannader.Server.Config.{Transport, Config}
use kannader.Server.Session.{Session, next, stop, panic, ◌and_then◌, Conn, Mail, simple, answer}
use kannader.Server.Session.Receive.{
  send_decisions, send_incomplete, after_complete, complete_late, after_drain, drain, drained,
  zeros, after_received, after_handle_mail, receive, expected_n_decisions, give_back, set_unhandled,
}
use kannader.Server.Session.Answers.{
  OnNext, OnNext-next, OnNext-map, and_then-OnNext, if-OnNext, Writes, reply_of, simple-OneReply,
  both-OnNext, answer-OneReply, answer-conn,
}

module _ (net : Transport) (cfg : Config net) where
  open net use {source}

  -- Just these replies were written, one after the other; where one is `none`, the session is not to
  -- go on.
  pub data Replies : List (Option Reply) → source.Reader → source.Reader → Type 0 where
    no_more : (io : source.Reader) → Replies [] io io
    one_more :
        (r : Option Reply) (rs : List (Option Reply)) (io io' io'' : source.Reader)
        → Writes net cfg r io io'
        → Replies rs io' io''
        → Replies (r ∷ rs) io io''

  abbrev pub replies_of : List (Decision (Unit {0})) → List (Option Reply)
  replies_of [] = []
  replies_of (d ∷ ds) = reply_of net cfg d ∷ replies_of ds

  -- What the loop has done when the session goes on.
  Sent : ℕ → ℕ → List (Decision (Unit {0})) → source.Reader → Session net cfg → Type 0
  Sent n expected ds io s' = Replies (replies_of ds) io s'.io × (n + length ds ≡ expected)

  send_decisions-Sent :
      (n expected : ℕ) (ds : List (Decision (Unit {0}))) (s : Session net cfg)
      → OnNext (Sent n expected ds s.io) (send_decisions net cfg s n expected ds)
  unfolding OnNext Sent send_decisions
  send_decisions-Sent n expected [] s = elim (Bool-cases (n == expected)) [
    | inl e ↦
        let met : n ≡ expected = (==_iff n expected).0 e in
        let counted : n + 0 ≡ expected = omega arith in rw e (no_more s.io, counted)
    | inr e ↦ rw e tt
  ]
  send_decisions-Sent n expected (d ∷ ds) s =
      if-OnNext (Sent n expected (d ∷ ds) s.io) (ltb expected (suc n)) panic
        (simple net cfg s (d, s.conn)
          and_then (λ s'. send_decisions net cfg s' (suc n) expected ds))
        tt
        (and_then-OnNext (λ s'. Writes net cfg (reply_of net cfg d) s.io s'.io)
          (Sent n expected (d ∷ ds) s.io) (λ s'. send_decisions net cfg s' (suc n) expected ds)
          (λ s' one.
            OnNext-map (Sent (suc n) expected ds s'.io) (Sent n expected (d ∷ ds) s.io)
              (λ s'' h. (
                one_more (reply_of net cfg d) (replies_of ds) s.io s'.io s''.io one h.0,
                omega arith,
              ))
              (send_decisions net cfg s' (suc n) expected ds)
              (send_decisions-Sent (suc n) expected ds s'))
          (simple net cfg s (d, s.conn)) (simple-OneReply net cfg s (d, s.conn)))

  -- The replies to a message that `handle_mail` did not complete, as the configuration gives them.
  unfoldable pub late_replies : ℕ → Conn net cfg → List (Option Reply)
  late_replies zero conn = []
  late_replies (suc n) conn =
      let (reply, conn') = cfg.handle_mail_did_not_call_complete conn in
      some reply ∷ late_replies n conn'

  send_incomplete-Replies :
      (n : ℕ) (s : Session net cfg)
      → OnNext (λ s'. Replies (late_replies n s.conn) s.io s'.io) (send_incomplete net cfg s n)
  unfolding OnNext send_incomplete late_replies
  send_incomplete-Replies zero s = no_more s.io
  send_incomplete-Replies (suc n) s =
      let (reply, conn) = cfg.handle_mail_did_not_call_complete s.conn in
      and_then-OnNext (λ s'. Writes net cfg (some reply) s.io s'.io × (s'.conn ≡ conn))
        (λ s'. Replies (some reply ∷ late_replies n conn) s.io s'.io)
        (λ s'. send_incomplete net cfg s' n)
        (λ s' (one, same).
          OnNext-map (λ s''. Replies (late_replies n s'.conn) s'.io s''.io)
            (λ s''. Replies (some reply ∷ late_replies n conn) s.io s''.io)
            (λ s'' h.
              one_more (some reply) (late_replies n conn) s.io s'.io s''.io one
                (subst (λ c. Replies (late_replies n c) s'.io s''.io) same h))
            (send_incomplete net cfg s' n) (send_incomplete-Replies n s'))
        (answer net cfg s (reply, conn))
        (both-OnNext (λ s'. Writes net cfg (some reply) s.io s'.io) (λ s'. s'.conn ≡ conn)
          (answer net cfg s (reply, conn)) (answer-OneReply net cfg s (reply, conn))
          (answer-conn net cfg s (reply, conn)))

  receive_complete-send_decisions :
      (fuel : ℕ) (s : Session net cfg) (mail : Mail net cfg) (reader : EscapedDataReader source)
      (decisions : List (Decision (Unit {0}))) (conn : Conn net cfg) (unhandled : ℕ × ℕ)
      → cfg.handle_mail (new source s.rdbuf s.from s.to s.io) mail s.conn
        ≡ (reader, decisions, conn)
      → get_unhandled source reader ≡ some unhandled
      → receive net cfg fuel s mail
        ≡ send_decisions net cfg
            (set_unhandled net cfg (give_back net cfg s reader conn) unhandled)
            0
            (expected_n_decisions cfg.protocol mail.to)
            decisions
  unfolding receive after_handle_mail after_received
  receive_complete-send_decisions fuel s mail reader decisions conn unhandled handled completed =
      ap (after_handle_mail net cfg fuel s (expected_n_decisions cfg.protocol mail.to)) handled
      ∙ ap
          (after_received net cfg fuel s (expected_n_decisions cfg.protocol mail.to) reader
            decisions conn)
          completed

  -- When `handle_mail` has read the message to its end and called `complete`, and the session goes
  -- on, `handle_mail` gave as many decisions as the protocol expects, one for SMTP and one for each
  -- recipient for LMTP, none of them kills the session, and what was written after the message is
  -- the reply of each of them, in their order, and nothing else.
  pub receive_complete-Replies :
      (fuel : ℕ) (s s' : Session net cfg) (mail : Mail net cfg) (reader : EscapedDataReader source)
      (decisions : List (Decision (Unit {0}))) (conn : Conn net cfg) (unhandled : ℕ × ℕ)
      → cfg.handle_mail (new source s.rdbuf s.from s.to s.io) mail s.conn
        ≡ (reader, decisions, conn)
      → get_unhandled source reader ≡ some unhandled
      → receive net cfg fuel s mail ≡ next s'
      → Replies (replies_of decisions) reader.read s'.io
        × (length decisions ≡ expected_n_decisions cfg.protocol mail.to)
  unfolding Sent
  receive_complete-Replies fuel s s' mail reader decisions conn unhandled handled completed e =
      let expected = expected_n_decisions cfg.protocol mail.to in
      let before = set_unhandled net cfg (give_back net cfg s reader conn) unhandled in
      let (replies, count) =
        OnNext-next (Sent 0 expected decisions reader.read)
          (send_decisions net cfg before 0 expected decisions) s'
          (send_decisions-Sent 0 expected decisions before)
          (sym (
              receive_complete-send_decisions fuel s mail reader decisions conn unhandled handled
                completed)
            ∙ e) in
      let counted : length decisions ≡ expected = omega arith in (replies, counted)

  abbrev read_of : EscapedDataReader source → Option (EscapedDataReader source) → source.Reader
  read_of r none = r.read
  read_of r (some r') = r'.read

  completed-read :
      (b : Bool) (r r' : EscapedDataReader source)
      → (if b then some (record r { state = ReaderState.completed }) else none) ≡ some r'
      → r'.read ≡ r.read
  completed-read true r r' h = ap (read_of r) (sym h)
  completed-read false r r' h = absurd (ground arith)

  complete-read : (r r' : EscapedDataReader source) → complete source r ≡ some r' → r'.read ≡ r.read
  unfolding complete
  complete-read r r' h = completed-read (is_finished source r) r r' h

  after_complete-Replies :
      (s : Session net cfg) (n : ℕ) (o : Option (ℕ × ℕ))
      → OnNext (λ s'. Replies (late_replies n s.conn) s.io s'.io) (after_complete net cfg s n o)
  unfolding OnNext after_complete
  after_complete-Replies s n none = tt
  after_complete-Replies s n (some u) = send_incomplete-Replies n (set_unhandled net cfg s u)

  complete_late-Replies :
      (s : Session net cfg) (conn : Conn net cfg) (n : ℕ) (r : EscapedDataReader source)
      (o : Option (EscapedDataReader source))
      → complete source r ≡ o
      → OnNext (λ s'. Replies (late_replies n conn) r.read s'.io) (complete_late net cfg s conn n o)
  unfolding OnNext complete_late
  complete_late-Replies s conn n r none h = tt
  complete_late-Replies s conn n r (some r') h =
      subst
        (λ io.
          OnNext (λ s'. Replies (late_replies n conn) io s'.io)
            (after_complete net cfg (give_back net cfg s r' conn) n (get_unhandled source r')))
        (complete-read r r' h)
        (after_complete-Replies (give_back net cfg s r' conn) n (get_unhandled source r'))

  after_drain-Replies :
      (s : Session net cfg) (conn : Conn net cfg) (n : ℕ) (r : EscapedDataReader source)
      → OnNext
          (λ s'. Replies (late_replies n conn) r.read s'.io)
          (after_drain net cfg s conn n (drained r))
  unfolding OnNext after_drain
  after_drain-Replies s conn n r =
      if-OnNext (λ s'. Replies (late_replies n conn) r.read s'.io) (is_finished source r)
        (complete_late net cfg s conn n (complete source r))
        (stop (give_back net cfg s r conn) (err connection_aborted))
        (complete_late-Replies s conn n r (complete source r) refl) tt

  -- When `handle_mail` has not called `complete` and the rest of the message is read to its end, and
  -- the session goes on, what was written after the message is the configuration's reply to this
  -- error, asked for as often as the protocol expects decisions, and nothing else, whatever
  -- `handle_mail` decided.
  pub receive_incomplete-Replies :
      (fuel : ℕ) (s s' : Session net cfg) (mail : Mail net cfg)
      (reader r : EscapedDataReader source) (decisions : List (Decision (Unit {0})))
      (conn : Conn net cfg)
      → cfg.handle_mail (new source s.rdbuf s.from s.to s.io) mail s.conn
        ≡ (reader, decisions, conn)
      → get_unhandled source reader ≡ none
      → drain net cfg fuel reader (zeros 128) ≡ drained r
      → receive net cfg fuel s mail ≡ next s'
      → Replies (late_replies (expected_n_decisions cfg.protocol mail.to) conn) r.read s'.io
  unfolding receive after_handle_mail after_received
  receive_incomplete-Replies fuel s s' mail reader r decisions conn handled incomplete read e =
      let n = expected_n_decisions cfg.protocol mail.to in
      OnNext-next (λ s''. Replies (late_replies n conn) r.read s''.io)
        (after_drain net cfg s conn n (drained r)) s' (after_drain-Replies s conn n r)
        (sym (
            ap (after_handle_mail net cfg fuel s n) handled
            ∙ (ap (after_received net cfg fuel s n reader decisions conn) incomplete
                ∙ ap (after_drain net cfg s conn n) read))
          ∙ e)
