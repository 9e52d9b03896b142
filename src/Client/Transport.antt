-- ===== src/Client/Transport.antt =====
-- kannader/src/queue_transport.rs: the client as the transport of the queue.
use kannader.Prelude.{Option, none, some, codes}
use kannader.Message.Address.{Hostname, ascii_domain}
use kannader.Queue.Types.{MailMetadata, TransportFailure, Result, ok, err}
use kannader.Client.Types.{
  Net, TransportError, TransportErrorSeverity, severity, Outcome, gives, fails, panics, unfinished,
}
use kannader.Client.Connect.{Destination}

unfoldable pub severity_to_failure : TransportErrorSeverity → TransportFailure
severity_to_failure TransportErrorSeverity.local = TransportFailure.local
severity_to_failure TransportErrorSeverity.network_transient = TransportFailure.network_transient
severity_to_failure TransportErrorSeverity.mail_transient = TransportFailure.mail_transient
severity_to_failure TransportErrorSeverity.mailbox_transient = TransportFailure.mailbox_transient
severity_to_failure TransportErrorSeverity.mail_system_transient =
    TransportFailure.mail_system_transient
severity_to_failure TransportErrorSeverity.mail_permanent = TransportFailure.mail_permanent
severity_to_failure TransportErrorSeverity.mailbox_permanent = TransportFailure.mailbox_permanent
severity_to_failure TransportErrorSeverity.mail_system_permanent =
    TransportFailure.mail_system_permanent

module _ {World : Type 0} (net : Net World) where
  unfoldable pub transport_error_client_to_queue : TransportError net → TransportFailure
  unfolding severity_to_failure severity
  transport_error_client_to_queue e = severity_to_failure (severity net e)

  -- `none` is a panic, or a model that has used up its fuel.
  unfoldable pub to_queue : {A : Type 0} → Outcome net A → Option (Result A TransportFailure)
  unfolding transport_error_client_to_queue
  to_queue (gives a) = some (ok a)
  to_queue (fails e) = some (err (transport_error_client_to_queue e))
  to_queue panics = none
  to_queue unfinished = none

  abbrev pub host_or_localhost : Option Hostname → Hostname
  host_or_localhost none = ascii_domain (codes "localhost")
  host_or_localhost (some h) = h

  -- `QueueTransport::destination`
  unfoldable pub destination : {U : Type 0} → MailMetadata U → Destination
  destination meta = record { host = host_or_localhost meta.to.hostname }
