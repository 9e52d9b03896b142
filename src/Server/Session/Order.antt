-- ===== src/Server/Session/Order.antt =====
-- There is no transaction before a greeting.
pub mod Commands
pub mod Data
pub mod Steps
pub mod Reachable
use kannader.Prelude.{Bool, true, false, Option, none, some, List, ◌≡◌, refl, ap, ◌∙◌, Bytes, arith}
use kannader.Message.Io.{IoResult, ok, err}
use kannader.Message.Reply
use kannader.Message.Reply.{Reply}
use kannader.Server.Types.{Decision}
use kannader.Server.Config.{Transport, Config}
use kannader.Server.Session.{
  Session, Conn, after_write, send_slices, send_reply, answer, kill, dispatch, simple,
}
use kannader.Server.Session.Answers.{OnNext, OnNext-map, kill-stops}

abbrev pub is_some {ℓ} : {A : Type ℓ} → Option A → Bool
is_some none = false
is_some (some a) = true

unfoldable pub ordered {ℓ ℓ'} : {A : Type ℓ} {B : Type ℓ'} → Option A → Option B → Bool
ordered none h = true
ordered (some m) none = false
ordered (some m) (some h) = true

pub ordered_same {ℓ ℓ'} :
    {A : Type ℓ} {B : Type ℓ'} (m : Option A) (h h' : Option B)
    → is_some h' ≡ is_some h
    → ordered m h ≡ true
    → ordered m h' ≡ true
unfolding ordered
ordered_same none h h' e o = refl
ordered_same (some m) none h' e o = absurd (ground arith)
ordered_same (some m) (some h) none e o = absurd (ground arith)
ordered_same (some m) (some h) (some h') e o = refl

pub ordered_greeted {ℓ ℓ'} :
    {A : Type ℓ} {B : Type ℓ'} (m : Option A) (h : Option B) → is_some h ≡ true → ordered m h ≡ true
unfolding ordered
ordered_greeted none h e = refl
ordered_greeted (some m) none e = absurd (ground arith)
ordered_greeted (some m) (some h) e = refl

pub ordered_some {ℓ ℓ'} :
    {A : Type ℓ} {B : Type ℓ'} (m : A) (h : Option B) → ordered (some m) h ≡ true → is_some h ≡ true
unfolding ordered
ordered_some m none o = absurd (ground arith)
ordered_some m (some h) o = refl

pub ordered_none {ℓ ℓ'} :
    {A : Type ℓ} {B : Type ℓ'} (m : Option A) (h : Option B)
    → h ≡ none
    → ordered m h ≡ true
    → m ≡ none
unfolding ordered
ordered_none none h e o = refl
ordered_none (some m) none e o = absurd (ground arith)
ordered_none (some m) (some h) e o = absurd (ground arith)

module _ (net : Transport) (cfg : Config net) where
  open net use {source, write_all_vectored}

  -- While a mail transaction is open, the client has greeted.
  abbrev pub IsOrdered : Session net cfg → Type 0
  IsOrdered s = ordered s.mail s.conn.hello ≡ true

  -- The session but for the connection.
  pub Same : Session net cfg → Session net cfg → Type 0
  Same s s' = (s'.mail ≡ s.mail) × (s'.conn ≡ s.conn)

  after_write-Same :
      (s : Session net cfg) (w : source.Reader × IoResult (Unit {0}))
      → OnNext (Same s) (after_write net cfg s w)
  unfolding OnNext Same after_write
  after_write-Same s (io, ok u) = (refl, refl)
  after_write-Same s (io, err k) = tt

  send_slices-Same :
      (s : Session net cfg) (o : Option (List Bytes)) → OnNext (Same s) (send_slices net cfg s o)
  unfolding OnNext send_slices
  send_slices-Same s none = tt
  send_slices-Same s (some bufs) = after_write-Same s (write_all_vectored s.io bufs)

  -- What a property of the session's metadata does in the macros.
  module _ (P : Session net cfg → Type 0)
      (same : (s s' : Session net cfg) → Same s s' → P s → P s') where
    pub send_reply-holds :
        (s : Session net cfg) (r : Reply) → P s → OnNext P (send_reply net cfg s r)
    unfolding send_reply
    send_reply-holds s r p =
        OnNext-map (Same s) P (λ s' e. same s s' e p) (send_reply net cfg s r)
          (send_slices-Same s (Reply.as_io_slices r))

    pub answer-holds :
        (s : Session net cfg) (a : Reply × Conn net cfg)
        → P (record s { conn = a.1 })
        → OnNext P (answer net cfg s a)
    unfolding answer
    answer-holds s (reply, conn) p = send_reply-holds (record s { conn = conn }) reply p

    pub dispatch-holds {ℓ} :
        {A : Type ℓ} (s : Session net cfg) (d : Decision A) (f : A → Session net cfg)
        → P s
        → ((a : A) → P (f a))
        → OnNext P (dispatch net cfg s d f)
    unfolding dispatch
    dispatch-holds s (Decision.accept reply res) f p h = send_reply-holds (f res) reply (h res)
    dispatch-holds s (Decision.reject reply) f p h = send_reply-holds s reply p
    dispatch-holds s (Decision.kill reply res) f p h = kill-stops net cfg P s reply res

    pub simple-holds :
        (s : Session net cfg) (r : Decision (Unit {0}) × Conn net cfg)
        → P (record s { conn = r.1 })
        → OnNext P (simple net cfg s r)
    unfolding simple
    simple-holds s (d, conn) p =
        dispatch-holds (record s { conn = conn }) d (λ u. record s { conn = conn }) p (λ u. p)

  pub Same-IsOrdered : (s s' : Session net cfg) → Same s s' → IsOrdered s → IsOrdered s'
  unfolding Same
  Same-IsOrdered s s' (m, c) o =
      ap (λ mail. ordered mail s'.conn.hello) m ∙ (ap (λ conn. ordered s.mail conn.hello) c ∙ o)

  -- No transaction is open.
  pub NoMail : Session net cfg → Type 0
  NoMail s = s.mail ≡ none

  pub Same-NoMail : (s s' : Session net cfg) → Same s s' → NoMail s → NoMail s'
  unfolding Same NoMail
  Same-NoMail s s' (m, c) o = m ∙ o

  pub NoMail-IsOrdered : (s : Session net cfg) → NoMail s → IsOrdered s
  unfolding NoMail ordered
  NoMail-IsOrdered s o = ap (λ mail. ordered mail s.conn.hello) o
