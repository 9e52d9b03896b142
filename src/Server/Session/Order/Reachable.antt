-- ===== src/Server/Session/Order/Reachable.antt =====
-- The sessions that the loop of `interact` can come to.
use kannader.Prelude.{
  ℕ, Bool, true, false, Option, none, [], ◌∷◌, ◌==◌, ◌≡◌, refl, ltb, leb, if◌then◌else◌, Bytes,
  length, slice, ◌-◌,
}
use kannader.Message.Io.{IoResult, ok, err}
use kannader.Message.Crlf.{start}
use kannader.Message.Reply.{Reply}
use kannader.Server.Config.{Transport, Config}
use kannader.Server.Session.{Session, next, Conn}
use kannader.Server.Session.Line.{
  Advanced, advanced, failed_at, unfinished, fill_front, advance_until_crlf,
}
use kannader.Server.Session.Loop.{
  Parsed, incomplete, syntax_error, parsed, missing, move_front, make_room, after_skip, skip_line,
  after_more, read_more, after_parse, parse_unhandled, after_first, round, new_session, greet,
}
use kannader.Server.Session.Answers.{OnNext, OnNext-next, OnNext-map, if-OnNext}
use kannader.Server.Session.Order.{
  is_some, IsOrdered, NoMail, Same-NoMail, NoMail-IsOrdered, answer-holds,
}
use kannader.Server.Session.Order.Commands.{KeepsHello, answer-IsOrdered}
use kannader.Server.Session.Order.Steps.{handle_command-OnNext}

module _ (net : Transport) (cfg : Config net) (parse : Bytes → Parsed) where
  open net use {source, read}

  -- From a new connection, by the banner and so many rounds of the loop.
  pub data Reachable : Session net cfg → Type 0 where
    greeting :
        (io : source.Reader) (is_already_tls : Bool) (user : cfg.ConnectionUserMeta)
        (s : Session net cfg)
        → greet net cfg parse (new_session net cfg parse io is_already_tls user) ≡ next s
        → Reachable s
    one_round :
        (fuel : ℕ) (s s' : Session net cfg)
        → Reachable s
        → round net cfg parse fuel s ≡ next s'
        → Reachable s'

  after_skip-IsOrdered :
      (s : Session net cfg) (reply : Conn net cfg → Reply × Conn net cfg)
      (a : Advanced source.Reader)
      → is_some (reply s.conn).1.hello ≡ is_some s.conn.hello
      → IsOrdered net cfg s
      → OnNext (IsOrdered net cfg) (after_skip net cfg parse s reply a)
  unfolding OnNext after_skip
  after_skip-IsOrdered s reply (advanced io rdbuf from to) keeps o =
      answer-IsOrdered net cfg (record s { io = io; rdbuf = rdbuf; from = from; to = to })
        (reply s.conn) keeps o
  after_skip-IsOrdered s reply (failed_at io rdbuf k) keeps o = tt
  after_skip-IsOrdered s reply unfinished keeps o = tt

  after_more-IsOrdered :
      (s : Session net cfg) (r : source.Reader × IoResult Bytes)
      → IsOrdered net cfg s
      → OnNext (IsOrdered net cfg) (after_more net cfg parse s r)
  unfolding OnNext after_more
  after_more-IsOrdered s (io, err k) o = tt
  after_more-IsOrdered s (io, ok []) o = tt
  after_more-IsOrdered s (io, ok (c ∷ cs)) o = o

  read_more-IsOrdered :
      (fuel : ℕ) (s : Session net cfg)
      → KeepsHello net cfg
      → IsOrdered net cfg s
      → OnNext (IsOrdered net cfg) (read_more net cfg parse fuel s)
  unfolding read_more skip_line
  read_more-IsOrdered fuel s k o =
      if-OnNext (IsOrdered net cfg) (s.to == length s.rdbuf)
        (skip_line net cfg parse fuel s cfg.line_too_long)
        (after_more net cfg parse s (read s.io (length s.rdbuf - s.to)))
        (after_skip-IsOrdered s cfg.line_too_long
          (advance_until_crlf net fuel s.io s.rdbuf s.from s.to start) (k.line_too_long s.conn) o)
        (after_more-IsOrdered s (read s.io (length s.rdbuf - s.to)) o)

  make_room-IsOrdered :
      (s : Session net cfg) (n : Option ℕ)
      → IsOrdered net cfg s
      → IsOrdered net cfg (make_room net cfg parse s n)
  unfolding make_room move_front
  make_room-IsOrdered s n o =
      elim (s.from == 0)
        as (λ b. IsOrdered net cfg (
          if b
          then s
          else (if ltb (length s.rdbuf - s.to) (missing n)
              then move_front net cfg parse s
              else s))) [
                | true ↦ o
                | false ↦
                    elim (ltb (length s.rdbuf - s.to) (missing n))
                      as (λ b. IsOrdered net cfg (if b then move_front net cfg parse s else s)) [
                        | true ↦ o
                        | false ↦ o
                      ]
              ]

  after_parse-IsOrdered :
      (fuel : ℕ) (s : Session net cfg) (p : Parsed)
      → KeepsHello net cfg
      → IsOrdered net cfg s
      → OnNext (IsOrdered net cfg) (after_parse net cfg parse fuel s p)
  unfolding after_parse skip_line
  after_parse-IsOrdered fuel s (incomplete n) k o =
      read_more-IsOrdered fuel (make_room net cfg parse s n) k (make_room-IsOrdered s n o)
  after_parse-IsOrdered fuel s syntax_error k o =
      after_skip-IsOrdered s cfg.command_unrecognized
        (advance_until_crlf net fuel s.io s.rdbuf s.from s.to start) (k.command_unrecognized s.conn)
        o
  after_parse-IsOrdered fuel s (parsed rem cmd) k o =
      handle_command-OnNext net cfg fuel (record s { from = s.to - length rem }) cmd k o

  after_first-IsOrdered :
      (fuel : ℕ) (s : Session net cfg) (r : source.Reader × IoResult Bytes)
      → KeepsHello net cfg
      → IsOrdered net cfg s
      → OnNext (IsOrdered net cfg) (after_first net cfg parse fuel s r)
  unfolding OnNext after_first parse_unhandled
  after_first-IsOrdered fuel s (io, err e) k o = tt
  after_first-IsOrdered fuel s (io, ok []) k o = tt
  after_first-IsOrdered fuel s (io, ok (c ∷ cs)) k o =
      let filled : Session net cfg = record s {
        io = io;
        rdbuf = fill_front (c ∷ cs) s.rdbuf;
        from = 0;
        to = length (c ∷ cs);
      } in
      after_parse-IsOrdered fuel filled (parse (slice filled.from filled.to filled.rdbuf)) k o

  round-IsOrdered :
      (fuel : ℕ) (s : Session net cfg)
      → KeepsHello net cfg
      → IsOrdered net cfg s
      → OnNext (IsOrdered net cfg) (round net cfg parse fuel s)
  unfolding round parse_unhandled
  round-IsOrdered fuel s k o =
      if-OnNext (IsOrdered net cfg) (leb s.to s.from)
        (after_first net cfg parse fuel s (read s.io (length s.rdbuf)))
        (parse_unhandled net cfg parse fuel s)
        (after_first-IsOrdered fuel s (read s.io (length s.rdbuf)) k o)
        (after_parse-IsOrdered fuel s (parse (slice s.from s.to s.rdbuf)) k o)

  greet-IsOrdered :
      (s : Session net cfg) → s.mail ≡ none → OnNext (IsOrdered net cfg) (greet net cfg parse s)
  unfolding greet NoMail
  greet-IsOrdered s e =
      OnNext-map (NoMail net cfg) (IsOrdered net cfg) (NoMail-IsOrdered net cfg)
        (greet net cfg parse s)
        (answer-holds net cfg (NoMail net cfg) (Same-NoMail net cfg) s
          (cfg.welcome_banner_reply s.conn) e)

  -- In every session that the loop comes to from a new connection, whatever bytes arrive and whatever
  -- the parser makes of them, a mail transaction is open only where the client has greeted, for a
  -- configuration whose handlers leave it as it is whether the client has greeted.
  pub Reachable-IsOrdered :
      (s : Session net cfg) → KeepsHello net cfg → Reachable s → IsOrdered net cfg s
  Reachable-IsOrdered _ k (greeting io is_already_tls user s e) =
      OnNext-next (IsOrdered net cfg)
        (greet net cfg parse (new_session net cfg parse io is_already_tls user)) s
        (greet-IsOrdered (new_session net cfg parse io is_already_tls user) refl) e
  Reachable-IsOrdered _ k (one_round fuel s s' r e) =
      OnNext-next (IsOrdered net cfg) (round net cfg parse fuel s) s'
        (round-IsOrdered fuel s k (Reachable-IsOrdered s k r)) e
