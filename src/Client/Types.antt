-- ===== src/Client/Types.antt =====
-- smtp-client/src/lib.rs: errors, configuration, and the state of a connection; and what the client
-- calls, as parameters.
use kannader.Prelude.{◌*◌, ℕ, Bool, Option, List, Bytes}
use kannader.Queue.Types.{Result}
use kannader.Message.Address.{Hostname}
use kannader.Message.Reply.{Reply}

pub data IpAddr : Type 0 where
  v4 v6 : ℕ → IpAddr

abbrev pub smtp_port : ℕ
smtp_port = 25

abbrev pub rdbuf_size : ℕ
rdbuf_size = 16 * 1024

abbrev pub databuf_size : ℕ
databuf_size = 16 * 1024

abbrev pub minimum_free_bufspace : ℕ
minimum_free_bufspace = 128

-- What a timer beside a call gives: the call's answer, or that its time is over.
pub data Timed (A : Type 0) : Type 0 where
  in_time : A → Timed A
  too_late : Timed A

-- The answer of `Reply::parse`: how much more it needs, if it knows, or an error, or what is left and
-- the reply.
pub data Parsed : Type 0 where
  incomplete : Option ℕ → Parsed
  syntax_error : Parsed
  parsed : Bytes → Reply → Parsed

-- The network, the clock, the resolver and the source of randomness. `World` is all that they change.
-- Each call with a number of units of time at its end runs beside a timer.
pub record Net (World : Type 0) : Type 1 where
  pub Io : Type 0
  pub IoError : Type 0
  pub ResolveError : Type 0
  pub ProtoError : Type 0
  pub Name : Type 0
  pub now : World → World × ℕ
  pub read : World → Io → ℕ → ℕ → World × Timed (Result Bytes IoError)
  pub write_all : World → Io → Bytes → ℕ → World × Timed (Result (Unit {0}) IoError)
  pub tcp_connect : World → IpAddr → ℕ → World × Result Io IoError
  pub into_name : Bytes → Result Name ProtoError
  pub mx_lookup : World → Bytes → World × Result (List (ℕ × Name)) ResolveError
  pub is_no_records_found : ResolveError → Bool
  pub lookup_ip : World → Name → World × Result (List IpAddr) ResolveError
  pub shuffle : World → List Name → World × List Name
  pub parse_reply : Bytes → Parsed
  -- The mail that is sent, read in blocks.
  pub Mail : Type 0
  pub read_mail : World → Mail → ℕ → World × Result Bytes IoError

module _ {World : Type 0} (net : Net World) where
  open net use {Io, IoError, ResolveError, ProtoError, Name}

  pub record Config : Type 0 where
    pub ehlo_hostname : Hostname
    pub can_do_tls : Bool
    pub must_do_tls : Bool
    pub tls_connect : World → Io → World × Result Io IoError
    pub banner_read_timeout : ℕ
    pub command_write_timeout : ℕ
    pub ehlo_reply_timeout : ℕ
    pub starttls_reply_timeout : ℕ
    pub mail_reply_timeout : ℕ
    pub rcpt_reply_timeout : ℕ
    pub data_init_reply_timeout : ℕ
    pub data_block_write_timeout : ℕ
    pub data_end_reply_timeout : ℕ

  pub data TransportError : Type 0 where
    dns_mx : Bytes → ResolveError → TransportError
    host_to_trust_dns : Bytes → ProtoError → TransportError
    dns_ip : Name → ResolveError → TransportError
    connecting : IpAddr → ℕ → IoError → TransportError
    receiving_reply_bytes : IoError → TransportError
    timed_out_waiting_for_reply : TransportError
    connection_aborted : TransportError
    too_long_reply : Bytes → TransportError
    reply_syntax_error : Bytes → TransportError
    timed_out_sending_command : TransportError
    sending_command : IoError → TransportError
    negotiating_tls : IoError → TransportError
    cannot_do_tls : TransportError
    transient_mail transient_mailbox transient_mail_system : Reply → TransportError
    permanent_mail permanent_mailbox permanent_mail_system : Reply → TransportError
    unexpected_reply_code : Reply → TransportError
    timed_out_sending_data : TransportError
    sending_data : IoError → TransportError
    reading_mail : IoError → TransportError

  -- How a part of the client ends: with a value, an error or a panic; or it has used up its fuel.
  pub data Outcome (A : Type 0) : Type 0 where
    gives : A → Outcome A
    fails : TransportError → Outcome A
    panics : Outcome A
    unfinished : Outcome A

  -- The part of `rdbuf` from `from` to `to` is read and not handled.
  pub record Sender : Type 0 where
    pub io : Io
    pub rdbuf : Bytes
    pub from : ℕ
    pub to : ℕ
    pub starttls : Bool

-- The variants of `TransportErrorSeverity`
pub data TransportErrorSeverity : Type 0 where
  local network_transient mail_transient mailbox_transient mail_system_transient mail_permanent
        mailbox_permanent mail_system_permanent :
      TransportErrorSeverity

-- `TransportError::severity`
unfoldable pub severity :
    {World : Type 0} (net : Net World) → TransportError net → TransportErrorSeverity
severity net (dns_mx h e) = network_transient
severity net (host_to_trust_dns h e) = local
severity net (dns_ip n e) = network_transient
severity net (connecting ip port e) = network_transient
severity net (receiving_reply_bytes e) = network_transient
severity net timed_out_waiting_for_reply = network_transient
severity net connection_aborted = network_transient
severity net (too_long_reply s) = network_transient
severity net (reply_syntax_error s) = mail_system_transient
severity net timed_out_sending_command = network_transient
severity net (sending_command e) = network_transient
severity net (negotiating_tls e) = network_transient
severity net cannot_do_tls = network_transient
severity net (transient_mail r) = mail_transient
severity net (transient_mailbox r) = mailbox_transient
severity net (transient_mail_system r) = mail_system_transient
severity net (permanent_mail r) = mail_permanent
severity net (permanent_mailbox r) = mailbox_permanent
severity net (permanent_mail_system r) = mail_system_permanent
severity net (unexpected_reply_code r) = network_transient
severity net timed_out_sending_data = network_transient
severity net (sending_data e) = network_transient
severity net (reading_mail e) = local

infix 30 ◌then◌
unfoldable pub ◌then◌ :
    {World A B : Type 0} {net : Net World}
    → World × Outcome net A
    → (World → A → World × Outcome net B)
    → World × Outcome net B
(w, gives a) then f = f w a
(w, fails e) then f = (w, fails e)
(w, panics) then f = (w, panics)
(w, unfinished) then f = (w, unfinished)
