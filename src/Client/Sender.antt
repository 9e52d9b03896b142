-- ===== src/Client/Sender.antt =====
-- smtp-client/src/lib.rs: `Sender::send`.
use kannader.Prelude.{ℕ, zero, suc, Option, none, [], ◌∷◌, Bytes}
use kannader.Queue.Types.{Result, ok, err}
use kannader.Message.Address.{Email}
use kannader.Message.Reply.Code.{positive_completion, positive_intermediate}
use kannader.Message.Command.{Command, mail, rcpt, cmd_data, Parameters}
use kannader.Client.Types.{
  Timed, in_time, too_late, databuf_size, Net, Config, timed_out_sending_data, sending_data,
  reading_mail, Outcome, gives, fails, unfinished, Sender, ◌then◌,
}
use kannader.Client.Replies.{expect_reply, send_command}

abbrev pub no_parameters : Parameters
no_parameters = record { params = [] }

module _ {World : Type 0} (net : Net World) (cfg : Config net) (fuel : ℕ) where
  open net use {Io, IoError, Mail}

  unfoldable pub block_sent :
      World × Timed (Result (Unit {0}) IoError) → World × Outcome net (Unit {0})
  block_sent (w, in_time (ok u)) = (w, gives tt)
  block_sent (w, in_time (err e)) = (w, fails (sending_data e))
  block_sent (w, too_late) = (w, fails timed_out_sending_data)

  unfoldable pub after_block :
      (World → World × Outcome net (Unit {0}))
      → Io
      → World × Result Bytes IoError
      → World × Outcome net (Unit {0})
  unfolding block_sent ◌then◌
  after_block again io (w, err e) = (w, fails (reading_mail e))
  after_block again io (w, ok []) = (w, gives tt)
  after_block again io (w, ok (c ∷ cs)) =
      block_sent (net.write_all w io (c ∷ cs) cfg.data_block_write_timeout) then (λ w1 u. again w1)

  -- The contents of the mail, block by block
  unfoldable pub send_contents : ℕ → Io → Mail → World → World × Outcome net (Unit {0})
  unfolding after_block
  send_contents zero io m w = (w, unfinished)
  send_contents (suc n) io m w =
      after_block (send_contents n io m) io (net.read_mail w m databuf_size)

  -- A command and its reply
  unfoldable pub exchange :
      Command
      → (World → Sender net → World × Outcome net (Sender net))
      → World
      → Sender net
      → World × Outcome net (Sender net)
  unfolding send_command ◌then◌
  exchange cmd reply w s =
      send_command net w s.io cmd cfg.command_write_timeout then (λ w1 u. reply w1 s)

  unfoldable pub send :
      World → Sender net → Option Email → Email → Mail → World × Outcome net (Sender net)
  unfolding exchange expect_reply send_contents ◌then◌
  send w s from to m =
      exchange (mail none from no_parameters)
        (expect_reply net fuel positive_completion cfg.mail_reply_timeout) w s
      then (λ w1 s1.
          exchange (rcpt none to no_parameters)
            (expect_reply net fuel positive_completion cfg.rcpt_reply_timeout) w1 s1
          then (λ w2 s2.
              exchange cmd_data
                (expect_reply net fuel positive_intermediate cfg.data_init_reply_timeout) w2 s2
              then (λ w3 s3. send_contents fuel s3.io m w3 then (λ w4 u.
                  expect_reply net fuel positive_completion cfg.data_end_reply_timeout w4 s3))))
