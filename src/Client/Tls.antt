-- ===== src/Client/Tls.antt =====
-- smtp-client/src/lib.rs: encryption.
use kannader.Prelude.{
  ℕ, zero, suc, ◌-◌, true, false, ◌&&◌, Option, [], ◌∷◌, Bytes, Bool-cases, inl, inr, ◌≡◌, refl,
  sym, ap, ◌∙◌, arith, ◌==◌, length,
}
use kannader.Queue.Types.{Result, ok, err}
use kannader.Message.Reply.{Reply}
use kannader.Message.Reply.Code.{positive_completion}
use kannader.Message.Command.{Command, ehlo}
use kannader.Client.Types.{
  Parsed, incomplete, syntax_error, parsed, Net, Config, Outcome, gives, fails, panics, unfinished,
  Sender, ◌then◌,
}
use kannader.Client.Replies.{
  verify_reply, read_for_reply, move_front, make_room, take_in, read_more, after_parse, read_loop,
  read_first, read_reply_since, expect_reply, send_command,
}
use kannader.Client.Connect.{
  has_starttls, after_ehlo, send_ehlo, Connected, after_tls_connect, after_starttls, negotiate,
  check_tls, connect_to_stream,
}

module _ {World : Type 0} (net : Net World) where
  open net use {Io, IoError}

  -- `P` holds of the value, if there is one.
  unfoldable pub Gives : {A : Type 0} → (A → Type 0) → World × Outcome net A → Type 0
  Gives P (w, gives a) = P a
  Gives P (w, fails e) = Unit {0}
  Gives P (w, panics) = Unit {0}
  Gives P (w, unfinished) = Unit {0}

  pub then-Gives :
      {A B : Type 0} (P : A → Type 0) (Q : B → Type 0) (r : World × Outcome net A)
      (f : World → A → World × Outcome net B)
      → Gives P r
      → ((w : World) (a : A) → P a → Gives Q (f w a))
      → Gives Q (r then f)
  unfolding Gives ◌then◌
  then-Gives P Q (w, gives a) f p h = h w a p
  then-Gives P Q (w, fails e) f p h = tt
  then-Gives P Q (w, panics) f p h = tt
  then-Gives P Q (w, unfinished) f p h = tt

  then_any-Gives :
      {A B : Type 0} (Q : B → Type 0) (r : World × Outcome net A)
      (f : World → A → World × Outcome net B)
      → ((w : World) (a : A) → Gives Q (f w a))
      → Gives Q (r then f)
  unfolding Gives ◌then◌
  then_any-Gives Q (w, gives a) f h = h w a
  then_any-Gives Q (w, fails e) f h = tt
  then_any-Gives Q (w, panics) f h = tt
  then_any-Gives Q (w, unfinished) f h = tt

  module _ (io : Io) where
    -- The connection is `io`.
    abbrev On : Sender net → Type 0
    On s = s.io ≡ io

    make_room_io : (s : Sender net) (n : Option ℕ) → (make_room net s n).io ≡ s.io
    unfolding make_room move_front
    make_room_io s n = ground arith

    take_in-Gives :
        (s : Sender net) (w : World) (bytes : Bytes) → On s → Gives On (take_in net s w bytes)
    unfolding Gives take_in
    take_in-Gives s w [] on = tt
    take_in-Gives s w (c ∷ cs) on = on

    read_more-Gives :
        (since timeout : ℕ) (w : World) (s : Sender net)
        → On s
        → Gives On (read_more net since timeout w s)
    unfolding read_more Gives
    read_more-Gives since timeout w s on = elim (Bool-cases (s.to == length s.rdbuf)) [
      | inl e ↦ rw e tt
      | inr e ↦ rw e (
          then_any-Gives On (read_for_reply net w s.io (length s.rdbuf - s.to) since timeout)
            (take_in net s) (λ w' b. take_in-Gives s w' b on))
    ]

    after_parse-Gives :
        (again : World → Sender net → World × Outcome net (Reply × Sender net)) (since timeout : ℕ)
        (w : World) (s : Sender net) (p : Parsed)
        → ((w' : World) (s' : Sender net) → On s' → Gives (λ (r, s''). On s'') (again w' s'))
        → On s
        → Gives (λ (r, s'). On s') (after_parse net again since timeout w s p)
    unfolding after_parse Gives
    after_parse-Gives again since timeout w s (incomplete n) h on =
        then-Gives On (λ (r, s'). On s') (read_more net since timeout w (make_room net s n)) again
          (read_more-Gives since timeout w (make_room net s n) (make_room_io s n ∙ on)) h
    after_parse-Gives again since timeout w s syntax_error h on = tt
    after_parse-Gives again since timeout w s (parsed rem reply) h on = on

    read_loop-Gives :
        (fuel since timeout : ℕ) (w : World) (s : Sender net)
        → On s
        → Gives (λ (r, s'). On s') (read_loop net fuel since timeout w s)
    unfolding read_loop Gives
    read_loop-Gives zero since timeout w s on = tt
    read_loop-Gives (suc fuel) since timeout w s on =
        after_parse-Gives (read_loop net fuel since timeout) since timeout w s _
          (λ w' s' on'. read_loop-Gives fuel since timeout w' s' on') on

    read_first-Gives :
        (since timeout : ℕ) (w : World) (s : Sender net)
        → On s
        → Gives On (read_first net since timeout w s)
    unfolding read_first Gives
    read_first-Gives since timeout w s on = elim (Bool-cases (s.from == s.to)) [
      | inl e ↦ rw e (
          then_any-Gives On (read_for_reply net w s.io (length s.rdbuf) since timeout)
            (take_in net (record s { from = 0; to = 0 }))
            (λ w' b. take_in-Gives (record s { from = 0; to = 0 }) w' b on))
      | inr e ↦ rw e on
    ]

    read_reply-Gives :
        (fuel : ℕ) (s : Sender net) (timeout : ℕ) (r : World × ℕ)
        → On s
        → Gives (λ (reply, s'). On s') (read_reply_since net fuel s timeout r)
    unfolding read_reply_since
    read_reply-Gives fuel s timeout (w, start) on =
        then-Gives On (λ (reply, s'). On s') (read_first net start timeout w s)
          (read_loop net fuel start timeout) (read_first-Gives start timeout w s on)
          (λ w' s' on'. read_loop-Gives fuel start timeout w' s' on')

    still_there : (w : World) (s : Sender net) → On s → Gives On (w, gives s)
    unfolding Gives
    still_there w s on = on

    module _ (cfg : Config net) (fuel : ℕ) where
      after_ehlo-Gives :
          (w : World) (r : Reply × Sender net) → On r.1 → Gives On (after_ehlo net cfg fuel w r)
      unfolding after_ehlo
      after_ehlo-Gives w (reply, s) on =
          then_any-Gives On (w, verify_reply net reply positive_completion) _
            (λ w' u. still_there w' (record s { starttls = has_starttls reply.text }) on)

      send_ehlo-Gives : (w : World) (s : Sender net) → On s → Gives On (send_ehlo net cfg fuel w s)
      unfolding send_ehlo
      send_ehlo-Gives w s on =
          then_any-Gives On
            (send_command net w s.io (ehlo cfg.ehlo_hostname) cfg.command_write_timeout) _
            (λ w' u.
              then-Gives (λ (r, s'). On s') On
                (read_reply_since net fuel s cfg.ehlo_reply_timeout (net.now w')) _
                (read_reply-Gives fuel s cfg.ehlo_reply_timeout (net.now w') on)
                (λ w2 r on'. after_ehlo-Gives w2 r on'))

  module _ (cfg : Config net) (fuel : ℕ) where
    -- The connection stands on one that `tls_connect` has given.
    unfoldable pub Encrypted : Sender net → Type 0
    Encrypted s =
        (w : World) × (below : Io) × (w' : World) × (cfg.tls_connect w below ≡ (w', ok s.io))

    -- If TLS was negotiated, the connection is encrypted.
    abbrev Negotiated : Connected net cfg fuel → Type 0
    Negotiated (s, did_tls) = did_tls ≡ true → Encrypted s

    stands_on_tls :
        (w w0 w' : World) (below io : Io) (s : Sender net)
        → cfg.tls_connect w0 below ≡ (w', ok io)
        → s.io ≡ io
        → Gives Negotiated (w, gives (s, true))
    unfolding Gives Encrypted
    stands_on_tls w w0 w' below io s e on t = (w0, below, w', e ∙ ap (λ x. (w', ok x)) (sym on))

    after_tls_connect-Gives :
        (s : Sender net) (w0 : World) (below : Io) (r : World × Result Io IoError)
        → cfg.tls_connect w0 below ≡ r
        → Gives Negotiated (after_tls_connect net cfg fuel s r)
    unfolding after_tls_connect Gives
    after_tls_connect-Gives s w0 below (w, err e) eq = tt
    after_tls_connect-Gives s w0 below (w, ok io) eq =
        then-Gives (λ s'. s'.io ≡ io) Negotiated (send_ehlo net cfg fuel w (record s { io = io })) _
          (send_ehlo-Gives io cfg fuel w (record s { io = io }) refl)
          (λ w' s' on. stands_on_tls w' w0 w below io s' eq on)

    after_starttls-Gives :
        (s : Sender net) (w : World) (o : Outcome net (Unit {0}))
        → Gives Negotiated (after_starttls net cfg fuel s w o)
    unfolding after_starttls Gives
    after_starttls-Gives s w (gives u) =
        after_tls_connect-Gives s w s.io (cfg.tls_connect w s.io) refl
    after_starttls-Gives s w (fails e) = λ t. absurd (ground arith)
    after_starttls-Gives s w panics = tt
    after_starttls-Gives s w unfinished = tt

    without_tls : (w : World) (s : Sender net) → Gives Negotiated (w, gives (s, false))
    unfolding Gives
    without_tls w s t = absurd (ground arith)

    negotiate-Gives : (w : World) (s : Sender net) → Gives Negotiated (negotiate net cfg fuel w s)
    unfolding negotiate
    negotiate-Gives w s = elim (Bool-cases (s.starttls && cfg.can_do_tls)) [
      | inl e ↦ rw e (
          then_any-Gives Negotiated
            (send_command net w s.io Command.starttls cfg.command_write_timeout) _
            (λ w1 u.
              then_any-Gives Negotiated
                (read_reply_since net fuel s cfg.starttls_reply_timeout (net.now w1)) _
                (λ w2 (reply, s2).
                  after_starttls-Gives s2 w2 (verify_reply net reply positive_completion))))
      | inr e ↦ rw e (without_tls w s)
    ]

    module _ (must : cfg.must_do_tls ≡ true) where
      check_tls-Gives :
          (w : World) (c : Connected net cfg fuel)
          → Negotiated c
          → Gives Encrypted (check_tls net cfg fuel w c)
      unfolding check_tls Gives
      check_tls-Gives w (s, true) h = h refl
      check_tls-Gives w (s, false) h = rw must tt

      pub connect_to_stream-Gives :
          (rdbuf : Bytes) (w : World) (io : Io)
          → Gives Encrypted (connect_to_stream net cfg fuel rdbuf w io)
      unfolding connect_to_stream
      connect_to_stream-Gives rdbuf w io =
          then_any-Gives Encrypted
            (expect_reply net fuel positive_completion cfg.banner_read_timeout w
              (record { io = io; rdbuf = rdbuf; from = 0; to = 0; starttls = false }))
            _
            (λ w1 s1. then_any-Gives Encrypted (send_ehlo net cfg fuel w1 s1) _ (λ w2 s2.
              then-Gives Negotiated Encrypted (negotiate net cfg fuel w2 s2) _
                (negotiate-Gives w2 s2) check_tls-Gives))
