-- ===== src/Message/Address.antt =====
-- smtp-message/src/misc.rs: host names, mailboxes and source routes, and how they are printed.
-- An IP address of the standard library is its number.
pub mod Quoting
use kannader.Prelude.{ℕ, true, false, Option, none, some, List, [], ◌∷◌, ◌==◌, Bytes}
use kannader.Message.Text.{MaybeUtf8}

pub data Hostname : Type 0 where
  utf8_domain : Bytes → Bytes → Hostname
  ascii_domain : Bytes → Hostname
  ipv6 : Bytes → ℕ → Hostname
  ipv4 : Bytes → ℕ → Hostname

-- `Hostname::raw`
abbrev pub raw_hostname : Hostname → Bytes
raw_hostname (utf8_domain raw punycode) = raw
raw_hostname (ascii_domain raw) = raw
raw_hostname (ipv4 raw ip) = raw
raw_hostname (ipv6 raw ip) = raw

pub data Localpart : Type 0 where
  ascii : Bytes → Localpart
  quoted_ascii : Bytes → Localpart
  utf8 : Bytes → Localpart
  quoted_utf8 : Bytes → Localpart

-- `Localpart::raw`
abbrev pub raw_localpart : Localpart → Bytes
raw_localpart (Localpart.ascii raw) = raw
raw_localpart (quoted_ascii raw) = raw
raw_localpart (Localpart.utf8 raw) = raw
raw_localpart (quoted_utf8 raw) = raw

-- The state of the scan in `unquoted`.
pub data Unquoting : Type 0 where
  start backslash : Unquoting

-- The scan of `unquoted`, byte by byte: no byte of a character beyond ASCII is a quote or a
-- backslash.
unfoldable pub unquote_from : Unquoting → Bytes → Bytes
unquote_from s [] = []
unquote_from backslash (x ∷ xs) = x ∷ unquote_from start xs
unquote_from start (x ∷ xs) = elim (x == b'"') [
  | true ↦ unquote_from start xs
  | false ↦ elim (x == b'\\') [
    | true ↦ unquote_from backslash xs
    | false ↦ x ∷ unquote_from start xs
  ]
]

unfoldable pub unquoted : Bytes → Bytes
unfolding unquote_from
unquoted [] = []
unquoted (q ∷ s) = unquote_from start s

-- `Localpart::unquote`
unfoldable pub unquote : Localpart → MaybeUtf8
unfolding unquoted
unquote (Localpart.ascii raw) = MaybeUtf8.ascii raw
unquote (Localpart.utf8 raw) = MaybeUtf8.utf8 raw
unquote (quoted_ascii raw) = MaybeUtf8.ascii (unquoted raw)
unquote (quoted_utf8 raw) = MaybeUtf8.utf8 (unquoted raw)

pub record Email : Type 0 where
  pub localpart : Localpart
  pub hostname : Option Hostname

abbrev pub hostname_slices : Option Hostname → List Bytes
hostname_slices none = []
hostname_slices (some h) = (b'@' ∷ []) ∷ raw_hostname h ∷ []

-- `Email::as_io_slices`
abbrev pub email_as_io_slices : Email → List Bytes
email_as_io_slices e = raw_localpart e.localpart ∷ hostname_slices e.hostname

-- A source route; the source calls it `Path`.
pub record SourceRoute : Type 0 where
  pub domains : List Hostname

abbrev pub later_domains : List Hostname → List Bytes
later_domains [] = []
later_domains (d ∷ ds) = (b',' ∷ b'@' ∷ []) ∷ raw_hostname d ∷ later_domains ds

abbrev pub domains_as_io_slices : List Hostname → List Bytes
domains_as_io_slices [] = []
domains_as_io_slices (d ∷ ds) = (b'@' ∷ []) ∷ raw_hostname d ∷ later_domains ds

-- `Path::as_io_slices`
abbrev pub route_as_io_slices : SourceRoute → List Bytes
route_as_io_slices p = domains_as_io_slices p.domains
