-- ===== src/Message/Command.antt =====
-- smtp-message/src/command.rs: commands and how they are printed.
use kannader.Prelude.{Option, none, some, List, [], ◌∷◌, ◌++◌, Bytes, codes}
use kannader.Message.Text
use kannader.Message.Text.{MaybeUtf8}
use kannader.Message.Address.{
  Hostname, Email, SourceRoute, raw_hostname, email_as_io_slices, route_as_io_slices,
}

pub data ParameterName : Type 0 where
  other : Bytes → ParameterName

abbrev pub name_as_str : ParameterName → Bytes
name_as_str (other s) = s

pub record Parameters : Type 0 where
  pub params : List (ParameterName × Option MaybeUtf8)

pub data Command : Type 0 where
  cmd_data : Command
  ehlo : Hostname → Command
  expn : MaybeUtf8 → Command
  helo : Hostname → Command
  help : MaybeUtf8 → Command
  lhlo : Hostname → Command
  mail : Option SourceRoute → Option Email → Parameters → Command
  noop : MaybeUtf8 → Command
  quit : Command
  rcpt : Option SourceRoute → Email → Parameters → Command
  rset : Command
  starttls : Command
  vrfy : MaybeUtf8 → Command

abbrev pub crlf : Bytes
crlf = b'\r' ∷ b'\n' ∷ []

abbrev pub value_slices : Option MaybeUtf8 → List Bytes
value_slices none = []
value_slices (some v) = (b'=' ∷ []) ∷ Text.as_io_slices v

abbrev pub params_slices : List (ParameterName × Option MaybeUtf8) → List Bytes
params_slices [] = []
params_slices ((name, value) ∷ ps) =
    (b' ' ∷ []) ∷ name_as_str name ∷ (value_slices value ++ params_slices ps)

abbrev pub path_slices : Option SourceRoute → List Bytes
path_slices none = []
path_slices (some p) = route_as_io_slices p ++ (b':' ∷ []) ∷ []

abbrev pub email_slices : Option Email → List Bytes
email_slices none = []
email_slices (some e) = email_as_io_slices e

-- `Command::as_io_slices`
unfoldable pub as_io_slices : Command → List Bytes
as_io_slices cmd_data = codes "DATA\r\n" ∷ []
as_io_slices (ehlo h) = codes "EHLO " ∷ raw_hostname h ∷ crlf ∷ []
as_io_slices (expn name) = codes "EXPN " ∷ (Text.as_io_slices name ++ crlf ∷ [])
as_io_slices (helo h) = codes "HELO " ∷ raw_hostname h ∷ crlf ∷ []
as_io_slices (help subject) = codes "HELP " ∷ (Text.as_io_slices subject ++ crlf ∷ [])
as_io_slices (lhlo h) = codes "LHLO " ∷ raw_hostname h ∷ crlf ∷ []
as_io_slices (mail path email p) =
    codes "MAIL FROM:<"
    ∷ (path_slices path
        ++ (email_slices email ++ (b'>' ∷ []) ∷ (params_slices p.params ++ crlf ∷ [])))
as_io_slices (noop string) = codes "NOOP " ∷ (Text.as_io_slices string ++ crlf ∷ [])
as_io_slices quit = codes "QUIT\r\n" ∷ []
as_io_slices (rcpt path email p) =
    codes "RCPT TO:<"
    ∷ (path_slices path
        ++ (email_as_io_slices email ++ (b'>' ∷ []) ∷ (params_slices p.params ++ crlf ∷ [])))
as_io_slices rset = codes "RSET\r\n" ∷ []
as_io_slices starttls = codes "STARTTLS\r\n" ∷ []
as_io_slices (vrfy name) = codes "VRFY " ∷ (Text.as_io_slices name ++ crlf ∷ [])
