-- ===== src/Client/Connect.antt =====
-- smtp-client/src/lib.rs: `Client`, from a destination to a connection that is ready for mail.
use kannader.Prelude.{
  ◌+◌, ℕ, Bool, true, false, not, ◌&&◌, ◌||◌, Option, none, some, List, [], ◌∷◌, ◌++◌, Bytes, codes,
  bytes_eq, ◌==◌, ltb, if◌then◌else◌,
}
use kannader.Queue.Types.{Result, ok, err}
use kannader.Message.Address.{Hostname, utf8_domain, ascii_domain, ipv6, ipv4}
use kannader.Message.Text.{MaybeUtf8, as_str}
use kannader.Message.Reply.{Reply}
use kannader.Message.Reply.Code.{positive_completion}
use kannader.Message.Command.{ehlo, starttls}
use kannader.Client.Types.{
  IpAddr, v4, v6, smtp_port, Net, Config, dns_mx, host_to_trust_dns, dns_ip, connecting,
  negotiating_tls, cannot_do_tls, TransportError, Outcome, gives, fails, panics, unfinished, Sender,
  ◌then◌,
}
use kannader.Client.Replies.{read_reply_since, read_reply, verify_reply, expect_reply, send_command}

-- `eq_ignore_ascii_case`
abbrev pub to_lower : ℕ → ℕ
to_lower c = if ltb 64 c && ltb c 91 then c + 32 else c

abbrev pub lower : Bytes → Bytes
lower [] = []
lower (c ∷ cs) = to_lower c ∷ lower cs

unfoldable pub has_starttls : List MaybeUtf8 → Bool
has_starttls [] = false
has_starttls (line ∷ ls) =
    bytes_eq (lower (as_str line)) (lower (codes "STARTTLS")) || has_starttls ls

pub record Destination : Type 0 where
  pub host : Hostname

-- A map from preferences to names, by increasing preference; `push` keeps the order of arrival.
unfoldable pub push {ℓ} : {A : Type ℓ} → ℕ → A → List (ℕ × List A) → List (ℕ × List A)
push p x [] = (p, x ∷ []) ∷ []
push p x ((q, xs) ∷ m) =
    let rest = push p x m in
    if ltb p q
    then (p, x ∷ []) ∷ (q, xs) ∷ m
    else if p == q
    then (q, xs ++ (x ∷ [])) ∷ m
    else (q, xs) ∷ rest

unfoldable pub mx_records {ℓ} : {A : Type ℓ} → List (ℕ × List A) → List (ℕ × A) → List (ℕ × List A)
unfolding push
mx_records m [] = m
mx_records m ((preference, exchange) ∷ rs) = mx_records (push preference exchange m) rs

module _ {World : Type 0} (net : Net World) (cfg : Config net) (fuel : ℕ) where
  open net use {Io, IoError, Name, ResolveError}

  unfoldable pub after_ehlo : World → Reply × Sender net → World × Outcome net (Sender net)
  unfolding has_starttls verify_reply ◌then◌
  after_ehlo w (reply, s) =
      (w, verify_reply net reply positive_completion)
      then (λ w1 u. (w1, gives (record s { starttls = has_starttls reply.text })))

  unfoldable pub send_ehlo : World → Sender net → World × Outcome net (Sender net)
  unfolding send_command read_reply_since after_ehlo ◌then◌
  send_ehlo w s =
      send_command net w s.io (ehlo cfg.ehlo_hostname) cfg.command_write_timeout
      then (λ w1 u. read_reply net fuel w1 s cfg.ehlo_reply_timeout then after_ehlo)

  abbrev pub Connected : Type 0
  Connected = Sender net × Bool

  -- The second part says whether TLS was negotiated.
  unfoldable pub after_tls_connect :
      Sender net → World × Result Io IoError → World × Outcome net Connected
  unfolding send_ehlo ◌then◌
  after_tls_connect s (w, err e) = (w, fails (negotiating_tls e))
  after_tls_connect s (w, ok io) =
      send_ehlo w (record s { io = io }) then (λ w1 s1. (w1, gives (s1, true)))

  unfoldable pub after_starttls :
      Sender net → World → Outcome net (Unit {0}) → World × Outcome net Connected
  unfolding after_tls_connect
  after_starttls s w (gives u) = after_tls_connect s (cfg.tls_connect w s.io)
  after_starttls s w (fails e) = (w, gives (s, false))
  after_starttls s w panics = (w, panics)
  after_starttls s w unfinished = (w, unfinished)

  unfoldable pub negotiate : World → Sender net → World × Outcome net Connected
  unfolding send_command read_reply_since after_starttls verify_reply ◌then◌
  negotiate w s =
      if s.starttls && cfg.can_do_tls
      then send_command net w s.io starttls cfg.command_write_timeout
      then (λ w1 u. read_reply net fuel w1 s cfg.starttls_reply_timeout then (λ w2 (reply, s2).
          after_starttls s2 w2 (verify_reply net reply positive_completion)))
      else (w, gives (s, false))

  unfoldable pub check_tls : World → Connected → World × Outcome net (Sender net)
  check_tls w (s, did_tls) =
      if not did_tls && cfg.must_do_tls then (w, fails cannot_do_tls) else (w, gives s)

  -- `connect_to_stream`; `rdbuf` is the buffer of zeros.
  unfoldable pub connect_to_stream : Bytes → World → Io → World × Outcome net (Sender net)
  unfolding expect_reply send_ehlo negotiate check_tls ◌then◌
  connect_to_stream rdbuf w io =
      expect_reply net fuel positive_completion cfg.banner_read_timeout w
        (record { io = io; rdbuf = rdbuf; from = 0; to = 0; starttls = false })
      then (λ w1 s1. send_ehlo w1 s1 then (λ w2 s2. negotiate w2 s2 then check_tls))

  module _ (rdbuf : Bytes) where
    unfoldable pub after_tcp_connect :
        IpAddr → ℕ → World × Result Io IoError → World × Outcome net (Sender net)
    unfolding connect_to_stream
    after_tcp_connect ip port (w, err e) = (w, fails (connecting ip port e))
    after_tcp_connect ip port (w, ok io) = connect_to_stream rdbuf w io

    unfoldable pub connect_to_ip : World → IpAddr → ℕ → World × Outcome net (Sender net)
    unfolding after_tcp_connect
    connect_to_ip w ip port = after_tcp_connect ip port (net.tcp_connect w ip port)

    -- `first_error.or(Some(e))`, and what follows the loop: `none` is the panic of `unwrap`.
    abbrev pub or_else :
        Option (TransportError net) → TransportError net → Option (TransportError net)
    or_else none e = some e
    or_else (some e') e = some e'

    abbrev pub unwrap_error : Option (TransportError net) → Outcome net (Sender net)
    unwrap_error none = panics
    unwrap_error (some e) = fails e

    -- One try of a list: the answer ends the loop, or its error is remembered if it is the first.
    unfoldable pub after_connect :
        (World → Option (TransportError net) → World × Outcome net (Sender net))
        → Option (TransportError net)
        → World × Outcome net (Sender net)
        → World × Outcome net (Sender net)
    after_connect again first_error (w, gives s) = (w, gives s)
    after_connect again first_error (w, fails e) = again w (or_else first_error e)
    after_connect again first_error (w, panics) = (w, panics)
    after_connect again first_error (w, unfinished) = (w, unfinished)

    unfoldable pub try_ips :
        ℕ → List IpAddr → World → Option (TransportError net) → World × Outcome net (Sender net)
    unfolding after_connect connect_to_ip
    try_ips port [] w first_error = (w, unwrap_error first_error)
    try_ips port (ip ∷ ips) w first_error =
        after_connect (try_ips port ips) first_error (connect_to_ip w ip port)

    unfoldable pub after_lookup :
        Name → ℕ → World × Result (List IpAddr) ResolveError → World × Outcome net (Sender net)
    unfolding try_ips
    after_lookup name port (w, err e) = (w, fails (dns_ip name e))
    after_lookup name port (w, ok ips) = try_ips port ips w none

    unfoldable pub connect_to_host : World → Name → ℕ → World × Outcome net (Sender net)
    unfolding after_lookup
    connect_to_host w name port = after_lookup name port (net.lookup_ip w name)

    unfoldable pub try_hosts :
        List Name
        → (World → Option (TransportError net) → World × Outcome net (Sender net))
        → World
        → Option (TransportError net)
        → World × Outcome net (Sender net)
    unfolding after_connect connect_to_host
    try_hosts [] after w first_error = after w first_error
    try_hosts (mx ∷ mxes) after w first_error =
        after_connect (try_hosts mxes after) first_error (connect_to_host w mx smtp_port)

    unfoldable pub try_preferences :
        List (ℕ × List Name)
        → World
        → Option (TransportError net)
        → World × Outcome net (Sender net)
    unfolding try_hosts
    try_preferences [] w first_error = (w, unwrap_error first_error)
    try_preferences ((preference, mxes) ∷ rs) w first_error =
        let shuffled = net.shuffle w mxes in
        let rest = try_preferences rs in try_hosts shuffled.1 rest shuffled.0 first_error

    unfoldable pub connect_to_name :
        Bytes → World → Result Name net.ProtoError → World × Outcome net (Sender net)
    unfolding connect_to_host
    connect_to_name host w (err e) = (w, fails (host_to_trust_dns host e))
    connect_to_name host w (ok name) = connect_to_host w name smtp_port

    unfoldable pub connect_by_preference :
        Bytes → World → List (ℕ × List Name) → World × Outcome net (Sender net)
    unfolding connect_to_name try_preferences
    connect_by_preference host w [] = connect_to_name host w (net.into_name host)
    connect_by_preference host w (r ∷ rs) = try_preferences (r ∷ rs) w none

    unfoldable pub after_mx_lookup :
        Bytes → World × Result (List (ℕ × Name)) ResolveError → World × Outcome net (Sender net)
    unfolding connect_to_name connect_by_preference mx_records
    after_mx_lookup host (w, err e) =
        if net.is_no_records_found e
        then connect_to_name host w (net.into_name host)
        else (w, fails (dns_mx host e))
    after_mx_lookup host (w, ok records) = connect_by_preference host w (mx_records [] records)

    unfoldable pub connect_to_mx : World → Bytes → World × Outcome net (Sender net)
    unfolding after_mx_lookup
    connect_to_mx w host = after_mx_lookup host (net.mx_lookup w host)

    unfoldable pub connect_host : World → Hostname → World × Outcome net (Sender net)
    unfolding connect_to_ip connect_to_mx
    connect_host w (ipv4 raw ip) = connect_to_ip w (v4 ip) smtp_port
    connect_host w (ipv6 raw ip) = connect_to_ip w (v6 ip) smtp_port
    connect_host w (ascii_domain raw) = connect_to_mx w raw
    connect_host w (utf8_domain raw punycode) = connect_to_mx w punycode

    -- `Client::connect`
    abbrev pub connect : World → Destination → World × Outcome net (Sender net)
    connect w dest = connect_host w dest.host
