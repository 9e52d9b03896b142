-- ===== src/Server/Session/Loop.antt =====
-- smtp-server/src/lib.rs: `interact`, the loop that reads commands. `Command::parse` is a parameter:
-- what is done with its answer is the same for any parser.
use kannader.Prelude.{
  ℕ, zero, suc, ◌+◌, ◌-◌, ◌*◌, Bool, Option, none, some, [], ◌∷◌, ◌++◌, ltb, leb, ◌==◌,
  if◌then◌else◌, Bytes, length, take, drop, slice, max,
}
use kannader.Message.Io.{IoResult, ok, err, connection_aborted}
use kannader.Message.Crlf.{start}
use kannader.Message.Reply.{Reply}
use kannader.Message.Command.{Command}
use kannader.Server.Config.{Transport, Config}
use kannader.Server.Session.{Session, Step, next, stop, out_of_fuel, ◌and_then◌, Conn, answer}
use kannader.Server.Session.Line.{
  Advanced, advanced, failed_at, unfinished, fill_front, advance_until_crlf,
}
use kannader.Server.Session.Receive.{zeros}
use kannader.Server.Session.Commands.{handle_command}

abbrev pub rdbuf_size : ℕ
rdbuf_size = 16 * 1024

abbrev pub minimum_free_bufspace : ℕ
minimum_free_bufspace = 128

-- The answer of `Command::parse`: how much more it needs, if it knows, or an error, or what is left
-- behind a command.
pub data Parsed : Type 0 where
  incomplete : Option ℕ → Parsed
  syntax_error : Parsed
  parsed : Bytes → Command → Parsed

unfoldable pub missing : Option ℕ → ℕ
missing none = minimum_free_bufspace
missing (some n) = max minimum_free_bufspace n

module _ (net : Transport) (cfg : Config net) (parse : Bytes → Parsed) where
  open net use {source, read}

  -- `rdbuf.copy_within(unhandled, 0)`
  unfoldable pub move_front : Session net cfg → Session net cfg
  move_front s =
      let unhandled = slice s.from s.to s.rdbuf in
      record s {
        rdbuf = unhandled ++ drop (length unhandled) s.rdbuf;
        from = 0;
        to = s.to - s.from;
      }

  unfoldable pub make_room : Session net cfg → Option ℕ → Session net cfg
  unfolding missing move_front
  make_room s n =
      if s.from == 0 then s else if ltb (length s.rdbuf - s.to) (missing n) then move_front s else s

  unfoldable pub after_skip :
      Session net cfg
      → (Conn net cfg → Reply × Conn net cfg)
      → Advanced source.Reader
      → Step (Session net cfg)
  after_skip s reply (advanced io rdbuf from to) =
      answer net cfg (record s { io = io; rdbuf = rdbuf; from = from; to = to }) (reply s.conn)
  after_skip s reply (failed_at io rdbuf k) = stop (record s { io = io; rdbuf = rdbuf }) (err k)
  after_skip s reply unfinished = out_of_fuel

  -- A line that cannot be handled is left out, and answered.
  unfoldable pub skip_line :
      ℕ → Session net cfg → (Conn net cfg → Reply × Conn net cfg) → Step (Session net cfg)
  unfolding after_skip
  skip_line fuel s reply =
      after_skip s reply (advance_until_crlf net fuel s.io s.rdbuf s.from s.to start)

  unfoldable pub after_more :
      Session net cfg → source.Reader × IoResult Bytes → Step (Session net cfg)
  after_more s (io, err k) = stop (record s { io = io }) (err k)
  after_more s (io, ok []) = stop (record s { io = io }) (err connection_aborted)
  after_more s (io, ok (c ∷ cs)) =
      let bytes = c ∷ cs in
      next (record s {
        io = io;
        rdbuf = take s.to s.rdbuf ++ (bytes ++ drop (s.to + length bytes) s.rdbuf);
        to = s.to + length bytes;
      })

  unfoldable pub read_more : ℕ → Session net cfg → Step (Session net cfg)
  unfolding skip_line after_more
  read_more fuel s =
      if s.to == length s.rdbuf
      then skip_line fuel s cfg.line_too_long
      else after_more s (read s.io (length s.rdbuf - s.to))

  unfoldable pub after_parse : ℕ → Session net cfg → Parsed → Step (Session net cfg)
  unfolding make_room read_more
  after_parse fuel s (incomplete n) = read_more fuel (make_room s n)
  after_parse fuel s syntax_error = skip_line fuel s cfg.command_unrecognized
  after_parse fuel s (parsed rem cmd) =
      handle_command net cfg fuel (record s { from = s.to - length rem }) cmd

  unfoldable pub parse_unhandled : ℕ → Session net cfg → Step (Session net cfg)
  unfolding after_parse
  parse_unhandled fuel s = after_parse fuel s (parse (slice s.from s.to s.rdbuf))

  -- A session ends well where the client closes the connection between commands.
  unfoldable pub after_first :
      ℕ → Session net cfg → source.Reader × IoResult Bytes → Step (Session net cfg)
  unfolding parse_unhandled
  after_first fuel s (io, err k) = stop (record s { io = io }) (err k)
  after_first fuel s (io, ok []) = stop (record s { io = io; from = 0; to = 0 }) (ok tt)
  after_first fuel s (io, ok (c ∷ cs)) =
      parse_unhandled fuel
        (record s { io = io; rdbuf = fill_front (c ∷ cs) s.rdbuf; from = 0; to = length (c ∷ cs) })

  -- The loop's body.
  unfoldable pub round : ℕ → Session net cfg → Step (Session net cfg)
  unfolding after_first
  round fuel s =
      if leb s.to s.from
      then after_first fuel s (read s.io (length s.rdbuf))
      else parse_unhandled fuel s

  unfoldable pub rounds : ℕ → Session net cfg → Step (Session net cfg)
  rounds zero s = out_of_fuel
  rounds (suc fuel) s = round fuel s and_then rounds fuel

  abbrev pub new_session : source.Reader → Bool → cfg.ConnectionUserMeta → Session net cfg
  new_session io is_already_tls metadata = record {
    io = io;
    conn = record { user = metadata; hello = none; is_encrypted = is_already_tls };
    mail = none;
    rdbuf = zeros rdbuf_size;
    from = 0;
    to = 0;
  }

  -- The session after the banner.
  unfoldable pub greet : Session net cfg → Step (Session net cfg)
  greet s = answer net cfg s (cfg.welcome_banner_reply s.conn)

  unfoldable pub interact :
      ℕ → source.Reader → Bool → cfg.ConnectionUserMeta → Step (Session net cfg)
  unfolding greet rounds
  interact fuel io is_already_tls metadata =
      greet (new_session io is_already_tls metadata) and_then rounds fuel
