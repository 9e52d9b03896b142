-- ===== src/Message/Address/Quoting.antt =====
-- Quoted mailbox names.
use kannader.Prelude.{
  ℕ, Bool, false, [], ◌∷◌, ◌++◌, ◌≡◌, refl, ap, ◌||◌, inl, inr, Bool-cases, ◌==◌, if◌then◌else◌,
  Bytes, arith,
}
use kannader.Message.Address.{start, unquote_from, unquoted}

abbrev special : ℕ → Bool
special c = c == b'"' || c == b'\\'

-- The quoted form of a name: a backslash before each quote and backslash (RFC 5321, 4.1.2).
abbrev pub quote : Bytes → Bytes
quote [] = []
quote (c ∷ cs) = let rest = quote cs in if special c then b'\\' ∷ c ∷ rest else c ∷ rest

unquote_from-quote : (s : Bytes) → unquote_from start (quote s ++ b'"' ∷ []) ≡ s
unfolding unquote_from
unquote_from-quote [] = refl
unquote_from-quote (c ∷ cs) = elim (Bool-cases (special c)) [
  | inl marked ↦ rw marked (ap (◌∷◌ c) (unquote_from-quote cs))
  | inr plain ↦
      let not_quote : (c == b'"') ≡ false = ground arith in
      let not_backslash : (c == b'\\') ≡ false = ground arith in
      rw (plain, unquote_from, not_quote, not_backslash) (ap (◌∷◌ c) (unquote_from-quote cs))
]

-- Taking the quotes off a quoted name gives the name, whatever it holds.
pub unquoted-quote : (s : Bytes) → unquoted (b'"' ∷ (quote s ++ b'"' ∷ [])) ≡ s
unfolding unquoted
unquoted-quote s = unquote_from-quote s
