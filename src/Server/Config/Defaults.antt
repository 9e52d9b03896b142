-- ===== src/Server/Config/Defaults.antt =====
-- smtp-server/src/lib.rs: the methods that `Config` has by default.
use kannader.Prelude.{Bool, false, not, ◌&&◌, Option, none, some, if◌then◌else◌, Bytes, codes}
use kannader.Message.Io.{ok}
use kannader.Message.Address.{Hostname}
use kannader.Message.Text.{MaybeUtf8}
use kannader.Message.Reply.{Reply}
use kannader.Server.Types.{Decision, MailMetadata, HelloInfo, ConnectionMetadata}
use kannader.Server.Replies

-- The default banners, of a connection and of HELO.
abbrev pub welcome_banner : Bytes
welcome_banner = codes "Service ready"

abbrev pub hello_banner : Bytes
hello_banner = codes ""

unfoldable pub can_do_tls_after : Option HelloInfo → Bool
can_do_tls_after none = false
can_do_tls_after (some h) = h.is_extended

-- `U` and `M` are the metadata of a configuration.
module _ {U M : Type 0} where
  abbrev pub filter_data :
      MailMetadata M
      → ConnectionMetadata U
      → Decision (Unit {0}) × MailMetadata M × ConnectionMetadata U
  filter_data mail conn = (Decision.accept Replies.okay_data tt, mail, conn)

  abbrev pub handle_rset :
      Option (MailMetadata M)
      → ConnectionMetadata U
      → Decision (Unit {0}) × Option (MailMetadata M) × ConnectionMetadata U
  handle_rset mail conn = (Decision.accept Replies.okay_rset tt, mail, conn)

module _ {U : Type 0} where
  unfoldable pub can_do_tls : ConnectionMetadata U → Bool
  can_do_tls conn = not conn.is_encrypted && can_do_tls_after conn.hello

  abbrev pub welcome_banner_reply :
      (ConnectionMetadata U → Bytes) → ConnectionMetadata U → Reply × ConnectionMetadata U
  welcome_banner_reply hostname conn = (Replies.welcome_banner (hostname conn) welcome_banner, conn)

  -- `conn.hello` is set first, so that `can_do_tls` sees it.
  unfoldable pub filter_hello :
      (ConnectionMetadata U → Bytes)
      → Bool
      → Hostname
      → ConnectionMetadata U
      → Decision HelloInfo × ConnectionMetadata U
  filter_hello hostname is_extended name conn =
      let info : HelloInfo = record { is_extended = is_extended; hostname = name } in
      let greeted : ConnectionMetadata U = record {
        user = conn.user;
        hello = some info;
        is_encrypted = conn.is_encrypted;
      } in
      (
        Decision.accept
            (Replies.okay_hello is_extended (hostname greeted) hello_banner (can_do_tls greeted))
            info,
        greeted,
      )

  unfoldable pub handle_starttls : ConnectionMetadata U → Decision (Unit {0}) × ConnectionMetadata U
  handle_starttls conn = (
    (if can_do_tls conn
        then Decision.accept Replies.okay_starttls tt
        else Decision.reject Replies.command_not_supported),
    conn,
  )

  abbrev pub handle_expn :
      MaybeUtf8 → ConnectionMetadata U → Decision (Unit {0}) × ConnectionMetadata U
  handle_expn name conn = (Decision.reject Replies.command_unimplemented, conn)

  abbrev pub handle_vrfy :
      MaybeUtf8 → ConnectionMetadata U → Decision (Unit {0}) × ConnectionMetadata U
  handle_vrfy name conn = (Decision.accept Replies.ignore_vrfy tt, conn)

  abbrev pub handle_help :
      MaybeUtf8 → ConnectionMetadata U → Decision (Unit {0}) × ConnectionMetadata U
  handle_help subject conn = (Decision.accept Replies.ignore_help tt, conn)

  abbrev pub handle_noop :
      MaybeUtf8 → ConnectionMetadata U → Decision (Unit {0}) × ConnectionMetadata U
  handle_noop string conn = (Decision.accept Replies.okay_noop tt, conn)

  abbrev pub handle_quit : ConnectionMetadata U → Decision (Unit {0}) × ConnectionMetadata U
  handle_quit conn = (Decision.kill (some Replies.okay_quit) (ok tt), conn)

  abbrev pub already_did_hello : ConnectionMetadata U → Reply × ConnectionMetadata U
  already_did_hello conn = (Replies.bad_sequence, conn)

  abbrev pub mail_before_hello : ConnectionMetadata U → Reply × ConnectionMetadata U
  mail_before_hello conn = (Replies.bad_sequence, conn)

  abbrev pub already_in_mail : ConnectionMetadata U → Reply × ConnectionMetadata U
  already_in_mail conn = (Replies.bad_sequence, conn)

  abbrev pub rcpt_before_mail : ConnectionMetadata U → Reply × ConnectionMetadata U
  rcpt_before_mail conn = (Replies.bad_sequence, conn)

  abbrev pub data_before_rcpt : ConnectionMetadata U → Reply × ConnectionMetadata U
  data_before_rcpt conn = (Replies.bad_sequence, conn)

  abbrev pub data_before_mail : ConnectionMetadata U → Reply × ConnectionMetadata U
  data_before_mail conn = (Replies.bad_sequence, conn)

  abbrev pub starttls_unsupported : ConnectionMetadata U → Reply × ConnectionMetadata U
  starttls_unsupported conn = (Replies.command_not_supported, conn)

  abbrev pub command_unrecognized : ConnectionMetadata U → Reply × ConnectionMetadata U
  command_unrecognized conn = (Replies.command_unrecognized, conn)

  abbrev pub pipeline_forbidden_after_starttls : ConnectionMetadata U → Reply × ConnectionMetadata U
  pipeline_forbidden_after_starttls conn = (Replies.pipeline_forbidden_after_starttls, conn)

  abbrev pub line_too_long : ConnectionMetadata U → Reply × ConnectionMetadata U
  line_too_long conn = (Replies.line_too_long, conn)

  abbrev pub handle_mail_did_not_call_complete : ConnectionMetadata U → Reply × ConnectionMetadata U
  handle_mail_did_not_call_complete conn = (Replies.handle_mail_did_not_call_complete, conn)
