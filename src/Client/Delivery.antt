-- ===== src/Client/Delivery.antt =====
-- smtp-client/src/lib.rs: `Sender::send` writes the three commands and the mail.
use kannader.Prelude.{
  arith, ℕ, zero, suc, Option, none, [], ◌∷◌, ◌++◌, Bytes, append_assoc, append-nil, ◌≡◌, refl, sym,
  ap, ◌∙◌, flatten,
}
use mathlib.Core.Path.{subst}
use kannader.Queue.Types.{Result, ok, err}
use kannader.Message.Address.{Email}
use kannader.Message.Reply.Code.{ReplyCodeKind, positive_completion, positive_intermediate}
use kannader.Message.Command
use kannader.Message.Command.{Command, mail, rcpt, cmd_data}
use kannader.Client.Types.{Timed, in_time, too_late, databuf_size, Net, Config, Outcome, Sender}
use kannader.Client.Replies.{expect_reply, command_sent, send_command}
use kannader.Client.Sender.{no_parameters, block_sent, after_block, send_contents, exchange, send}
use kannader.Client.Sent.{WriteLaw, MailLaw, IsLogged, Logs, then-Logs, expect_reply-Logs}

module _ {World : Type 0} (net : Net World) (sent left : World → Bytes) (message : net.Mail)
    (logged : IsLogged net sent left message) where
  open net use {Io, IoError, Mail}

  abbrev pub wire : Command → Bytes
  wire cmd = flatten (Command.as_io_slices cmd)

  command_sent-Logs :
      (w : World) (bytes : Bytes) (r : World × Timed (Result (Unit {0}) IoError))
      → WriteLaw net sent left message w bytes r
      → Logs net sent left message (sent w ++ bytes) (left w) (command_sent net r)
  unfolding WriteLaw command_sent Logs
  command_sent-Logs w bytes (w', in_time (ok u)) law = law
  command_sent-Logs w bytes (w', in_time (err e)) law = tt
  command_sent-Logs w bytes (w', too_late) law = tt

  module _ (cfg : Config net) (fuel : ℕ) where
    exchange-Logs :
        (cmd : Command) (expected : ReplyCodeKind) (timeout : ℕ) (w : World) (x : Sender net)
        (s g : Bytes)
        → sent w ≡ s
        → left w ≡ g
        → Logs net sent left message
            (s ++ wire cmd)
            g
            (exchange net cfg fuel cmd (expect_reply net fuel expected timeout) w x)
    unfolding exchange send_command
    exchange-Logs cmd expected timeout w x s g p q =
        then-Logs net sent left message (s ++ wire cmd) g (s ++ wire cmd) g _ _
          (subst
            (λ s'.
              Logs net sent left message (s' ++ wire cmd) g
                (command_sent net (net.write_all w x.io (wire cmd) cfg.command_write_timeout)))
            p
            (subst
              (λ g'.
                Logs net sent left message (sent w ++ wire cmd) g'
                  (command_sent net (net.write_all w x.io (wire cmd) cfg.command_write_timeout)))
              q
              (command_sent-Logs w (wire cmd)
                (net.write_all w x.io (wire cmd) cfg.command_write_timeout)
                (logged.writes w x.io (wire cmd) cfg.command_write_timeout))))
          (λ w1 u p1 q1.
            expect_reply-Logs net sent left message logged (s ++ wire cmd) g fuel expected timeout
              w1 x p1 q1)

  block_sent-Logs :
      (cfg : Config net) (fuel : ℕ) (w : World) (bytes : Bytes)
      (r : World × Timed (Result (Unit {0}) IoError))
      → WriteLaw net sent left message w bytes r
      → Logs net sent left message (sent w ++ bytes) (left w) (block_sent net cfg fuel r)
  unfolding WriteLaw block_sent Logs
  block_sent-Logs cfg fuel w bytes (w', in_time (ok u)) law = law
  block_sent-Logs cfg fuel w bytes (w', in_time (err e)) law = tt
  block_sent-Logs cfg fuel w bytes (w', too_late) law = tt

  module _ (cfg : Config net) (fuel : ℕ) where
    after_block-Logs :
        (again : World → World × Outcome net (Unit {0})) (io : Io) (w : World)
        (r : World × Result Bytes IoError) (s g : Bytes)
        → MailLaw net sent left message w r
        → sent w ≡ s
        → left w ≡ g
        → ((w' : World) (s' g' : Bytes)
            → sent w' ≡ s'
            → left w' ≡ g'
            → Logs net sent left message (s' ++ g') [] (again w'))
        → Logs net sent left message (s ++ g) [] (after_block net cfg fuel again io r)
    unfolding after_block MailLaw Logs
    after_block-Logs again io w (w', err e) s g law p q h = tt
    after_block-Logs again io w (w', ok []) s g (p', q', at_end) p q h =
        let none_left : g ≡ [] = sym q ∙ at_end refl in
        (p' ∙ (p ∙ (sym (append-nil s) ∙ ap (λ x. s ++ x) (sym none_left))), sym q' ∙ at_end refl)
    after_block-Logs again io w (w', ok (c ∷ cs)) s g (p', q', at_end) p q h =
        let bytes = c ∷ cs in
        let written = net.write_all w' io bytes cfg.data_block_write_timeout in
        let all : (s ++ bytes) ++ left w' ≡ s ++ g =
          append_assoc s bytes (left w') ∙ ap (λ x. s ++ x) (sym q' ∙ q) in
        then-Logs net sent left message (sent w' ++ bytes) (left w') (s ++ g) []
          (block_sent net cfg fuel written) (λ w1 u. again w1)
          (block_sent-Logs cfg fuel w' bytes written
            (logged.writes w' io bytes cfg.data_block_write_timeout))
          (λ w1 u p1 q1.
            subst (λ x. Logs net sent left message x [] (again w1)) all
              (h w1 (s ++ bytes) (left w') (p1 ∙ ap (λ x. x ++ bytes) (p' ∙ p)) q1))

    send_contents-Logs :
        (n : ℕ) (io : Io) (w : World) (s g : Bytes)
        → sent w ≡ s
        → left w ≡ g
        → Logs net sent left message (s ++ g) [] (send_contents net cfg fuel n io message w)
    unfolding send_contents Logs
    send_contents-Logs zero io w s g p q = tt
    send_contents-Logs (suc n) io w s g p q =
        after_block-Logs (send_contents net cfg fuel n io message) io w
          (net.read_mail w message databuf_size) s g (logged.mails w databuf_size (omega arith)) p q
          (λ w' s' g' p' q'. send_contents-Logs n io w' s' g' p' q')

    -- If `send` succeeds, what it has written is the command MAIL, the command RCPT, the command DATA,
    -- and then all bytes that were left of the mail, in their order, and nothing else; and of the
    -- mail nothing is left. A write that succeeds has written its bytes; a read of the mail that
    -- succeeds gives its next bytes, and none only at its end; and reading replies and the clock
    -- writes nothing and reads none of the mail.
    pub send-Logs :
        (w : World) (x : Sender net) (from : Option Email) (to : Email)
        → Logs net sent left message
            ((((sent w ++ wire (mail none from no_parameters)) ++ wire (rcpt none to no_parameters))
                ++ wire cmd_data)
              ++ left w)
            []
            (send net cfg fuel w x from to message)
    unfolding send
    send-Logs w x from to =
        let s1 = sent w ++ wire (mail none from no_parameters) in
        let s2 = s1 ++ wire (rcpt none to no_parameters) in
        let s3 = s2 ++ wire cmd_data in
        let g = left w in
        let end = s3 ++ g in
        then-Logs net sent left message s1 g end [] _ _
          (exchange-Logs cfg fuel (mail none from no_parameters) positive_completion
            cfg.mail_reply_timeout w x (sent w) g refl refl)
          (λ w1 x1 p1 q1.
            then-Logs net sent left message s2 g end [] _ _
              (exchange-Logs cfg fuel (rcpt none to no_parameters) positive_completion
                cfg.rcpt_reply_timeout w1 x1 s1 g p1 q1)
              (λ w2 x2 p2 q2.
                then-Logs net sent left message s3 g end [] _ _
                  (exchange-Logs cfg fuel cmd_data positive_intermediate cfg.data_init_reply_timeout
                    w2 x2 s2 g p2 q2)
                  (λ w3 x3 p3 q3.
                    then-Logs net sent left message end [] end [] _ _
                      (send_contents-Logs fuel x3.io w3 s3 g p3 q3)
                      (λ w4 u p4 q4.
                        expect_reply-Logs net sent left message logged end [] fuel
                          positive_completion cfg.data_end_reply_timeout w4 x3 p4 q4))))
