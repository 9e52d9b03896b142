-- ===== src/Client/Encrypted.antt =====
-- smtp-client/src/lib.rs: `connect`, where TLS is required; and what is left of the buffer before TLS.
use kannader.Prelude.{ℕ, true, Option, none, some, List, [], ◌∷◌, Bytes, Bool-cases, inl, inr, ◌≡◌}
use kannader.Queue.Types.{Result, ok, err}
use kannader.Message.Address.{Hostname, ipv4, ipv6, ascii_domain, utf8_domain}
use kannader.Client.Types.{
  IpAddr, v4, v6, smtp_port, Net, Config, TransportError, Outcome, gives, fails, panics, unfinished,
  Sender,
}
use kannader.Client.Connect.{
  after_tcp_connect, connect_to_ip, unwrap_error, after_connect, try_ips, after_lookup,
  connect_to_host, try_hosts, try_preferences, connect_to_name, connect_by_preference,
  after_mx_lookup, connect_to_mx, connect_host, mx_records,
}
use kannader.Client.Connect.{Destination, connect}
use kannader.Client.Tls.{Gives, Encrypted, connect_to_stream-Gives}

module _ {World : Type 0} (net : Net World) (cfg : Config net) (fuel : ℕ) (rdbuf : Bytes) where
  open net use {Io, IoError, Name, ResolveError}

  module _ (must : cfg.must_do_tls ≡ true) where
    abbrev IsSafe : World × Outcome net (Sender net) → Type 0
    IsSafe = Gives net (Encrypted net cfg fuel)

    unwrap_error-IsSafe :
        (w : World) (e : Option (TransportError net))
        → IsSafe (w, unwrap_error net cfg fuel rdbuf e)
    unfolding Gives
    unwrap_error-IsSafe w none = tt
    unwrap_error-IsSafe w (some e) = tt

    after_connect-IsSafe :
        (again : World → Option (TransportError net) → World × Outcome net (Sender net))
        (first_error : Option (TransportError net)) (r : World × Outcome net (Sender net))
        → ((w : World) (e : Option (TransportError net)) → IsSafe (again w e))
        → IsSafe r
        → IsSafe (after_connect net cfg fuel rdbuf again first_error r)
    unfolding after_connect Gives
    after_connect-IsSafe again first_error (w, gives s) h safe = safe
    after_connect-IsSafe again first_error (w, fails e) h safe = h w _
    after_connect-IsSafe again first_error (w, panics) h safe = tt
    after_connect-IsSafe again first_error (w, unfinished) h safe = tt

    after_tcp_connect-IsSafe :
        (ip : IpAddr) (port : ℕ) (r : World × Result Io IoError)
        → IsSafe (after_tcp_connect net cfg fuel rdbuf ip port r)
    unfolding after_tcp_connect Gives
    after_tcp_connect-IsSafe ip port (w, err e) = tt
    after_tcp_connect-IsSafe ip port (w, ok io) =
        connect_to_stream-Gives net cfg fuel must rdbuf w io

    connect_to_ip-IsSafe :
        (w : World) (ip : IpAddr) (port : ℕ) → IsSafe (connect_to_ip net cfg fuel rdbuf w ip port)
    unfolding connect_to_ip
    connect_to_ip-IsSafe w ip port = after_tcp_connect-IsSafe ip port (net.tcp_connect w ip port)

    try_ips-IsSafe :
        (port : ℕ) (ips : List IpAddr) (w : World) (e : Option (TransportError net))
        → IsSafe (try_ips net cfg fuel rdbuf port ips w e)
    unfolding try_ips
    try_ips-IsSafe port [] w e = unwrap_error-IsSafe w e
    try_ips-IsSafe port (ip ∷ ips) w e =
        after_connect-IsSafe (try_ips net cfg fuel rdbuf port ips) e
          (connect_to_ip net cfg fuel rdbuf w ip port) (try_ips-IsSafe port ips)
          (connect_to_ip-IsSafe w ip port)

    after_lookup-IsSafe :
        (name : Name) (port : ℕ) (r : World × Result (List IpAddr) ResolveError)
        → IsSafe (after_lookup net cfg fuel rdbuf name port r)
    unfolding after_lookup Gives
    after_lookup-IsSafe name port (w, err e) = tt
    after_lookup-IsSafe name port (w, ok ips) = try_ips-IsSafe port ips w none

    connect_to_host-IsSafe :
        (w : World) (name : Name) (port : ℕ)
        → IsSafe (connect_to_host net cfg fuel rdbuf w name port)
    unfolding connect_to_host
    connect_to_host-IsSafe w name port = after_lookup-IsSafe name port (net.lookup_ip w name)

    try_hosts-IsSafe :
        (mxes : List Name)
        (after : World → Option (TransportError net) → World × Outcome net (Sender net)) (w : World)
        (e : Option (TransportError net))
        → ((w' : World) (e' : Option (TransportError net)) → IsSafe (after w' e'))
        → IsSafe (try_hosts net cfg fuel rdbuf mxes after w e)
    unfolding try_hosts
    try_hosts-IsSafe [] after w e h = h w e
    try_hosts-IsSafe (mx ∷ mxes) after w e h =
        after_connect-IsSafe (try_hosts net cfg fuel rdbuf mxes after) e
          (connect_to_host net cfg fuel rdbuf w mx smtp_port)
          (λ w' e'. try_hosts-IsSafe mxes after w' e' h) (connect_to_host-IsSafe w mx smtp_port)

    try_preferences-IsSafe :
        (rs : List (ℕ × List Name)) (w : World) (e : Option (TransportError net))
        → IsSafe (try_preferences net cfg fuel rdbuf rs w e)
    unfolding try_preferences
    try_preferences-IsSafe [] w e = unwrap_error-IsSafe w e
    try_preferences-IsSafe ((p, mxes) ∷ rs) w e =
        try_hosts-IsSafe (net.shuffle w mxes).1 (try_preferences net cfg fuel rdbuf rs)
          (net.shuffle w mxes).0 e (try_preferences-IsSafe rs)

    connect_to_name-IsSafe :
        (host : Bytes) (w : World) (r : Result Name net.ProtoError)
        → IsSafe (connect_to_name net cfg fuel rdbuf host w r)
    unfolding connect_to_name Gives
    connect_to_name-IsSafe host w (err e) = tt
    connect_to_name-IsSafe host w (ok name) = connect_to_host-IsSafe w name smtp_port

    connect_by_preference-IsSafe :
        (host : Bytes) (w : World) (rs : List (ℕ × List Name))
        → IsSafe (connect_by_preference net cfg fuel rdbuf host w rs)
    unfolding connect_by_preference
    connect_by_preference-IsSafe host w [] = connect_to_name-IsSafe host w (net.into_name host)
    connect_by_preference-IsSafe host w (r ∷ rs) = try_preferences-IsSafe (r ∷ rs) w none

    after_mx_lookup-IsSafe :
        (host : Bytes) (r : World × Result (List (ℕ × Name)) ResolveError)
        → IsSafe (after_mx_lookup net cfg fuel rdbuf host r)
    unfolding after_mx_lookup Gives
    after_mx_lookup-IsSafe host (w, err e) = elim (Bool-cases (net.is_no_records_found e)) [
      | inl none_found ↦ rw none_found (connect_to_name-IsSafe host w (net.into_name host))
      | inr other ↦ rw other tt
    ]
    after_mx_lookup-IsSafe host (w, ok records) =
        connect_by_preference-IsSafe host w (mx_records [] records)

    -- Where the configuration requires TLS, every connection that `connect` gives stands on one that
    -- `tls_connect` has given, whatever the servers and the resolver answer.
    pub connect-Encrypted :
        (w : World) (dest : Destination)
        → Gives net (Encrypted net cfg fuel) (connect net cfg fuel rdbuf w dest)
    unfolding connect_host connect_to_mx
    connect-Encrypted w dest = of_host dest.host
      where
        of_host : (h : Hostname) → IsSafe (connect_host net cfg fuel rdbuf w h)
        of_host (ipv4 raw ip) = connect_to_ip-IsSafe w (v4 ip) smtp_port
        of_host (ipv6 raw ip) = connect_to_ip-IsSafe w (v6 ip) smtp_port
        of_host (ascii_domain raw) = after_mx_lookup-IsSafe raw (net.mx_lookup w raw)
        of_host (utf8_domain raw punycode) =
            after_mx_lookup-IsSafe punycode (net.mx_lookup w punycode)
