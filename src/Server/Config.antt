-- ===== src/Server/Config.antt =====
-- smtp-server/src/lib.rs: the transport and the trait `Config`.
pub mod Defaults
pub mod Starttls
use kannader.Prelude.{ℕ, ◌≤◌, Bool, Option, List, ◌++◌, ◌≡◌, Bytes, length, flatten}
use kannader.Message.Io.{AsyncRead, IoResult, ok}
use kannader.Message.Address.{Email, Hostname}
use kannader.Message.Text.{MaybeUtf8}
use kannader.Message.Reply.{Reply}
use kannader.Message.Data.Reader.{EscapedDataReader}
use kannader.Server.Types.{Decision, MailMetadata, HelloInfo, ConnectionMetadata, ProtocolName}

-- The connection, with the time limits of `read_for_command!` and `send_reply!` counted among its
-- errors. `sent` is all that was written; a write that succeeds writes all that it is given.
pub record Transport : Type 1 where
  pub source : AsyncRead
  pub write_all_vectored : source.Reader → List Bytes → source.Reader × IoResult (Unit {0})
  pub read : source.Reader → ℕ → source.Reader × IoResult Bytes
  pub sent : source.Reader → Bytes
  pub write_sends :
      (io : source.Reader) (bufs : List Bytes)
      → (write_all_vectored io bufs).1 ≡ ok tt
      → sent (write_all_vectored io bufs).0 ≡ sent io ++ flatten bufs
  pub read_bound :
      (io : source.Reader) (n : ℕ) (bytes : Bytes) → (read io n).1 ≡ ok bytes → length bytes ≤ n
  pub read_gets :
      (io : source.Reader) (n : ℕ) (bytes : Bytes)
      → (read io n).1 ≡ ok bytes
      → source.got (read io n).0 ≡ source.got io ++ bytes

-- The trait. A handler that takes metadata by `&mut` returns the new metadata; what else a
-- configuration keeps is part of the connection's user metadata.
pub record Config (net : Transport) : Type 1 where
  pub ConnectionUserMeta : Type 0
  pub MailUserMeta : Type 0
  pub protocol : ProtocolName
  pub welcome_banner_reply :
      ConnectionMetadata ConnectionUserMeta → Reply × ConnectionMetadata ConnectionUserMeta
  pub filter_hello :
      Bool
      → Hostname
      → ConnectionMetadata ConnectionUserMeta
      → Decision HelloInfo × ConnectionMetadata ConnectionUserMeta
  pub can_do_tls : ConnectionMetadata ConnectionUserMeta → Bool
  pub tls_accept :
      net.source.Reader
      → ConnectionMetadata ConnectionUserMeta
      → IoResult net.source.Reader × ConnectionMetadata ConnectionUserMeta
  pub new_mail :
      ConnectionMetadata ConnectionUserMeta → MailUserMeta × ConnectionMetadata ConnectionUserMeta
  pub filter_from :
      Option Email
      → MailMetadata MailUserMeta
      → ConnectionMetadata ConnectionUserMeta
      → Decision (Option Email) × MailMetadata MailUserMeta × ConnectionMetadata ConnectionUserMeta
  pub filter_to :
      Email
      → MailMetadata MailUserMeta
      → ConnectionMetadata ConnectionUserMeta
      → Decision Email × MailMetadata MailUserMeta × ConnectionMetadata ConnectionUserMeta
  pub filter_data :
      MailMetadata MailUserMeta
      → ConnectionMetadata ConnectionUserMeta
      → Decision (Unit {0}) × MailMetadata MailUserMeta × ConnectionMetadata ConnectionUserMeta
  -- The decisions are those of the stream; the single decision of `Smtp` is made one by
  -- `handle_mail_return_type_as_stream`.
  pub handle_mail :
      EscapedDataReader net.source
      → MailMetadata MailUserMeta
      → ConnectionMetadata ConnectionUserMeta
      → EscapedDataReader net.source
        × List (Decision (Unit {0}))
        × ConnectionMetadata ConnectionUserMeta
  pub handle_rset :
      Option (MailMetadata MailUserMeta)
      → ConnectionMetadata ConnectionUserMeta
      → Decision (Unit {0})
        × Option (MailMetadata MailUserMeta)
        × ConnectionMetadata ConnectionUserMeta
  pub handle_starttls :
      ConnectionMetadata ConnectionUserMeta
      → Decision (Unit {0}) × ConnectionMetadata ConnectionUserMeta
  pub handle_expn :
      MaybeUtf8
      → ConnectionMetadata ConnectionUserMeta
      → Decision (Unit {0}) × ConnectionMetadata ConnectionUserMeta
  pub handle_vrfy :
      MaybeUtf8
      → ConnectionMetadata ConnectionUserMeta
      → Decision (Unit {0}) × ConnectionMetadata ConnectionUserMeta
  pub handle_help :
      MaybeUtf8
      → ConnectionMetadata ConnectionUserMeta
      → Decision (Unit {0}) × ConnectionMetadata ConnectionUserMeta
  pub handle_noop :
      MaybeUtf8
      → ConnectionMetadata ConnectionUserMeta
      → Decision (Unit {0}) × ConnectionMetadata ConnectionUserMeta
  pub handle_quit :
      ConnectionMetadata ConnectionUserMeta
      → Decision (Unit {0}) × ConnectionMetadata ConnectionUserMeta
  pub already_did_hello :
      ConnectionMetadata ConnectionUserMeta → Reply × ConnectionMetadata ConnectionUserMeta
  pub mail_before_hello :
      ConnectionMetadata ConnectionUserMeta → Reply × ConnectionMetadata ConnectionUserMeta
  pub already_in_mail :
      ConnectionMetadata ConnectionUserMeta → Reply × ConnectionMetadata ConnectionUserMeta
  pub rcpt_before_mail :
      ConnectionMetadata ConnectionUserMeta → Reply × ConnectionMetadata ConnectionUserMeta
  pub data_before_rcpt :
      ConnectionMetadata ConnectionUserMeta → Reply × ConnectionMetadata ConnectionUserMeta
  pub data_before_mail :
      ConnectionMetadata ConnectionUserMeta → Reply × ConnectionMetadata ConnectionUserMeta
  pub starttls_unsupported :
      ConnectionMetadata ConnectionUserMeta → Reply × ConnectionMetadata ConnectionUserMeta
  pub command_unrecognized :
      ConnectionMetadata ConnectionUserMeta → Reply × ConnectionMetadata ConnectionUserMeta
  pub pipeline_forbidden_after_starttls :
      ConnectionMetadata ConnectionUserMeta → Reply × ConnectionMetadata ConnectionUserMeta
  pub line_too_long :
      ConnectionMetadata ConnectionUserMeta → Reply × ConnectionMetadata ConnectionUserMeta
  pub handle_mail_did_not_call_complete :
      ConnectionMetadata ConnectionUserMeta → Reply × ConnectionMetadata ConnectionUserMeta
