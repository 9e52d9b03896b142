-- ===== src/Client/Leftover.antt =====
-- smtp-client/src/lib.rs: what the buffer holds when TLS is negotiated.
use kannader.Prelude.{
  ℕ, suc, ◌-◌, true, false, some, Bytes, ◌≡◌, refl, ◌==◌, length, slice, flatten,
}
use kannader.Queue.Types.{ok}
use kannader.Message.Reply.{Reply}
use kannader.Message.Reply.Code.{positive_completion, kind}
use kannader.Message.Command
use kannader.Message.Command.{ehlo}
use kannader.Client.Types.{in_time, parsed, Net, Config, gives, Sender, ◌then◌}
use kannader.Client.Replies.{
  verify_kind, verify_reply, after_parse, read_loop, read_first, read_reply_since, command_sent,
  send_command,
}
use kannader.Client.Connect.{has_starttls, after_ehlo, send_ehlo, after_tls_connect}

module _ {World : Type 0} (net : Net World) (cfg : Config net) (fuel : ℕ) where
  open net use {Io}

  -- If bytes that came before TLS are still in the buffer, and they are a positive reply, then the EHLO
  -- after TLS is answered by them: nothing is read from the encrypted connection, and the
  -- extensions of the server are those that the plain bytes name.
  pub after_tls_connect_plain :
      (w w1 : World) (io : Io) (s : Sender net) (rem : Bytes) (reply : Reply)
      → (s.from == s.to) ≡ false
      → net.parse_reply (slice s.from s.to s.rdbuf) ≡ parsed rem reply
      → kind reply.code ≡ some positive_completion
      → net.write_all w io
          (flatten (Command.as_io_slices (ehlo cfg.ehlo_hostname)))
          cfg.command_write_timeout
        ≡ (w1, in_time (ok tt))
      → after_tls_connect net cfg (suc fuel) s (w, ok io) ≡ (
        (net.now w1).0,
        gives (
          record s { io = io; from = s.to - length rem; starttls = has_starttls reply.text },
          true,
        ),
      )
  unfolding after_tls_connect send_ehlo send_command command_sent ◌then◌ read_reply_since read_first
      read_loop after_parse after_ehlo verify_reply verify_kind
  after_tls_connect_plain w w1 io s rem reply some_left parses positive sends =
      rw (sends, some_left, parses, positive) refl
