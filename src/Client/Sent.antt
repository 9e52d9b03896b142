-- ===== src/Client/Sent.antt =====
-- smtp-client/src/lib.rs: the bytes that `Sender::send` writes.
use kannader.Prelude.{
  ℕ, zero, suc, ◌-◌, ◌≤◌, Bool, true, false, [], ◌∷◌, ◌++◌, Bytes, ◌≡◌, ◌∙◌, ◌==◌, length,
  if◌then◌else◌,
}
use kannader.Queue.Types.{Result, ok, err}
use kannader.Message.Reply.{Reply}
use kannader.Message.Reply.Code.{ReplyCodeKind}
use kannader.Client.Types.{
  Timed, in_time, too_late, Parsed, incomplete, syntax_error, parsed, Net, Outcome, gives, fails,
  panics, unfinished, Sender, ◌then◌,
}
use kannader.Client.Replies.{
  verify_reply, received, read_before, read_for_reply, make_room, take_in, read_more, after_parse,
  read_loop, read_first, read_reply_since, expect_reply,
}

module _ {World : Type 0} (net : Net World) where
  open net use {Io, IoError, Mail}

  module _ (sent left : World → Bytes) (message : Mail) where
    unfoldable pub WriteLaw : World → Bytes → World × Timed (Result (Unit {0}) IoError) → Type 0
    WriteLaw w bytes (w', in_time (ok u)) = (sent w' ≡ sent w ++ bytes) × (left w' ≡ left w)
    WriteLaw w bytes (w', in_time (err e)) = Unit {0}
    WriteLaw w bytes (w', too_late) = Unit {0}

    unfoldable pub MailLaw : World → World × Result Bytes IoError → Type 0
    MailLaw w (w', ok bytes) =
        (sent w' ≡ sent w) × (left w ≡ bytes ++ left w') × (bytes ≡ [] → left w ≡ [])
    MailLaw w (w', err e) = Unit {0}

    -- What the code relies on: `sent` is all that has been written to connections, and `left` what has
    -- not been read of the mail `message`; a read with room gives the next bytes, and none only at
    -- the end.
    pub record IsLogged : Type 0 where
      pub writes :
          (w : World) (io : Io) (bytes : Bytes) (t : ℕ)
          → WriteLaw w bytes (net.write_all w io bytes t)
      pub mails : (w : World) (n : ℕ) → 1 ≤ n → MailLaw w (net.read_mail w message n)
      pub reads :
          (w : World) (io : Io) (room t : ℕ)
          → (sent (net.read w io room t).0 ≡ sent w) × (left (net.read w io room t).0 ≡ left w)
      pub now : (w : World) → (sent (net.now w).0 ≡ sent w) × (left (net.now w).0 ≡ left w)

    -- If there is a value, the world has these logs.
    unfoldable pub Logs : {A : Type 0} → Bytes → Bytes → World × Outcome net A → Type 0
    Logs s g (w, gives a) = (sent w ≡ s) × (left w ≡ g)
    Logs s g (w, fails e) = Unit {0}
    Logs s g (w, panics) = Unit {0}
    Logs s g (w, unfinished) = Unit {0}

    -- `more` bytes have been sent since `w`.
    pub then-Logs :
        {A B : Type 0} (s g s' g' : Bytes) (r : World × Outcome net A)
        (f : World → A → World × Outcome net B)
        → Logs s g r
        → ((w : World) (a : A) → sent w ≡ s → left w ≡ g → Logs s' g' (f w a))
        → Logs s' g' (r then f)
    unfolding Logs ◌then◌
    then-Logs s g s' g' (w, gives a) f (p, q) h = h w a p q
    then-Logs s g s' g' (w, fails e) f p h = tt
    then-Logs s g s' g' (w, panics) f p h = tt
    then-Logs s g s' g' (w, unfinished) f p h = tt

    pub outcome-Logs :
        {A : Type 0} (s g : Bytes) (w : World) (o : Outcome net A)
        → sent w ≡ s
        → left w ≡ g
        → Logs s g (w, o)
    unfolding Logs
    outcome-Logs s g w (gives a) p q = (p, q)
    outcome-Logs s g w (fails e) p q = tt
    outcome-Logs s g w panics p q = tt
    outcome-Logs s g w unfinished p q = tt

    module _ (logged : IsLogged) (s g : Bytes) where
      received-Logs :
          (r : World × Timed (Result Bytes IoError))
          → sent r.0 ≡ s
          → left r.0 ≡ g
          → Logs s g (received net r)
      unfolding received Logs
      received-Logs (w, in_time (ok bytes)) p q = (p, q)
      received-Logs (w, in_time (err e)) p q = tt
      received-Logs (w, too_late) p q = tt

      read_for_reply-Logs :
          (w : World) (io : Io) (room since timeout : ℕ)
          → sent w ≡ s
          → left w ≡ g
          → Logs s g (read_for_reply net w io room since timeout)
      unfolding read_for_reply read_before
      read_for_reply-Logs w io room since timeout p q =
          received-Logs _ ((logged.reads (net.now w).0 io room _).0 ∙ ((logged.now w).0 ∙ p))
            ((logged.reads (net.now w).0 io room _).1 ∙ ((logged.now w).1 ∙ q))

      take_in-Logs :
          (x : Sender net) (w : World) (bytes : Bytes)
          → sent w ≡ s
          → left w ≡ g
          → Logs s g (take_in net x w bytes)
      unfolding take_in Logs
      take_in-Logs x w [] p q = tt
      take_in-Logs x w (c ∷ cs) p q = (p, q)

      read_in-Logs :
          (x : Sender net) (w : World) (io : Io) (room since timeout : ℕ)
          → sent w ≡ s
          → left w ≡ g
          → Logs s g (read_for_reply net w io room since timeout then take_in net x)
      read_in-Logs x w io room since timeout p q =
          then-Logs s g s g (read_for_reply net w io room since timeout) (take_in net x)
            (read_for_reply-Logs w io room since timeout p q) (take_in-Logs x)

      if_then-Logs :
          {A : Type 0} (b : Bool) (x y : World × Outcome net A)
          → Logs s g x
          → Logs s g y
          → Logs s g (if b then x else y)
      if_then-Logs true x y p q = p
      if_then-Logs false x y p q = q

      read_more-Logs :
          (since timeout : ℕ) (w : World) (x : Sender net)
          → sent w ≡ s
          → left w ≡ g
          → Logs s g (read_more net since timeout w x)
      unfolding read_more
      read_more-Logs since timeout w x p q =
          if_then-Logs (x.to == length x.rdbuf) _ _ (outcome-Logs s g w _ p q)
            (read_in-Logs x w x.io (length x.rdbuf - x.to) since timeout p q)

      after_parse-Logs :
          (again : World → Sender net → World × Outcome net (Reply × Sender net))
          (since timeout : ℕ) (w : World) (x : Sender net) (a : Parsed)
          → ((w' : World) (x' : Sender net) → sent w' ≡ s → left w' ≡ g → Logs s g (again w' x'))
          → sent w ≡ s
          → left w ≡ g
          → Logs s g (after_parse net again since timeout w x a)
      unfolding after_parse
      after_parse-Logs again since timeout w x (incomplete n) h p q =
          then-Logs s g s g (read_more net since timeout w (make_room net x n)) again
            (read_more-Logs since timeout w (make_room net x n) p q) h
      after_parse-Logs again since timeout w x syntax_error h p q = outcome-Logs s g w _ p q
      after_parse-Logs again since timeout w x (parsed rem reply) h p q = outcome-Logs s g w _ p q

      read_loop-Logs :
          (fuel since timeout : ℕ) (w : World) (x : Sender net)
          → sent w ≡ s
          → left w ≡ g
          → Logs s g (read_loop net fuel since timeout w x)
      unfolding read_loop
      read_loop-Logs zero since timeout w x p q = outcome-Logs s g w _ p q
      read_loop-Logs (suc fuel) since timeout w x p q =
          after_parse-Logs (read_loop net fuel since timeout) since timeout w x _
            (λ w' x' p' q'. read_loop-Logs fuel since timeout w' x' p' q') p q

      read_first-Logs :
          (since timeout : ℕ) (w : World) (x : Sender net)
          → sent w ≡ s
          → left w ≡ g
          → Logs s g (read_first net since timeout w x)
      unfolding read_first
      read_first-Logs since timeout w x p q =
          if_then-Logs (x.from == x.to) _ _
            (read_in-Logs (record x { from = 0; to = 0 }) w x.io (length x.rdbuf) since timeout p q)
            (outcome-Logs s g w _ p q)

      read_reply-Logs :
          (fuel : ℕ) (x : Sender net) (timeout : ℕ) (w : World)
          → sent w ≡ s
          → left w ≡ g
          → Logs s g (read_reply_since net fuel x timeout (net.now w))
      unfolding read_reply_since
      read_reply-Logs fuel x timeout w p q =
          then-Logs s g s g (read_first net (net.now w).1 timeout (net.now w).0 x)
            (read_loop net fuel (net.now w).1 timeout)
            (read_first-Logs (net.now w).1 timeout (net.now w).0 x ((logged.now w).0 ∙ p)
              ((logged.now w).1 ∙ q))
            (read_loop-Logs fuel (net.now w).1 timeout)

      pub expect_reply-Logs :
          (fuel : ℕ) (expected : ReplyCodeKind) (timeout : ℕ) (w : World) (x : Sender net)
          → sent w ≡ s
          → left w ≡ g
          → Logs s g (expect_reply net fuel expected timeout w x)
      unfolding expect_reply
      expect_reply-Logs fuel expected timeout w x p q =
          then-Logs s g s g (read_reply_since net fuel x timeout (net.now w)) _
            (read_reply-Logs fuel x timeout w p q)
            (λ w1 (reply, x1) p1 q1.
              then-Logs s g s g (w1, verify_reply net reply expected) _
                (outcome-Logs s g w1 _ p1 q1) (λ w2 u p2 q2. outcome-Logs s g w2 (gives x1) p2 q2))
