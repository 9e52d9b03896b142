-- ===== src/Server/Config/Starttls.antt =====
-- smtp-server/src/lib.rs: what the default methods say of STARTTLS and what they do.
use kannader.Prelude.{
  Bool, true, false, not, ◌&&◌, ◌||◌, Option, List, [], ◌∷◌, ◌≡◌, refl, ◌==◌, Bytes, codes,
}
use kannader.Message.Address.{Hostname}
use kannader.Message.Text.{MaybeUtf8, ascii, utf8}
use kannader.Server.Types.{Decision, HelloInfo, ConnectionMetadata}
use kannader.Server.Config.Defaults.{can_do_tls_after, can_do_tls, filter_hello, handle_starttls}

abbrev same_bytes : Bytes → Bytes → Bool
same_bytes [] [] = true
same_bytes [] (y ∷ ys) = false
same_bytes (x ∷ xs) [] = false
same_bytes (x ∷ xs) (y ∷ ys) = x == y && same_bytes xs ys

-- Whether a keyword stands among the lines of a reply behind the first, which is the server's name.
abbrev keyword : Bytes → List MaybeUtf8 → Bool
keyword k [] = false
keyword k (ascii s ∷ ls) = same_bytes s k || keyword k ls
keyword k (utf8 s ∷ ls) = keyword k ls

abbrev later_lines : List MaybeUtf8 → List MaybeUtf8
later_lines [] = []
later_lines (l ∷ ls) = ls

abbrev pub advertises {ℓ} : {A : Type ℓ} → Bytes → Decision A → Bool
advertises k (Decision.accept reply res) = keyword k (later_lines reply.text)
advertises k (Decision.reject reply) = keyword k (later_lines reply.text)
advertises k (Decision.kill reply res) = false

abbrev pub accepts {ℓ} : {A : Type ℓ} → Decision A → Bool
accepts (Decision.accept reply res) = true
accepts (Decision.reject reply) = false
accepts (Decision.kill reply res) = false

each_case :
    {U : Type 0} (hostname : ConnectionMetadata U → Bytes) (is_extended : Bool) (name : Hostname)
    (user : U) (hello : Option HelloInfo) (is_encrypted : Bool)
    → let conn : ConnectionMetadata U = record {
      user = user;
      hello = hello;
      is_encrypted = is_encrypted;
    } in
      (advertises (codes "STARTTLS") (filter_hello hostname is_extended name conn).0
        ≡ (is_extended && not conn.is_encrypted))
      × (accepts (handle_starttls (filter_hello hostname is_extended name conn).1).0
          ≡ advertises (codes "STARTTLS") (filter_hello hostname is_extended name conn).0)
unfolding filter_hello handle_starttls can_do_tls can_do_tls_after
each_case hostname true name user hello true = (refl, refl)
each_case hostname true name user hello false = (refl, refl)
each_case hostname false name user hello true = (refl, refl)
each_case hostname false name user hello false = (refl, refl)

-- By default the answer to a greeting advertises STARTTLS exactly where the connection is not yet
-- encrypted and the greeting is EHLO, and exactly where STARTTLS, sent next, is accepted.
pub filter_hello_starttls :
    {U : Type 0} (hostname : ConnectionMetadata U → Bytes) (is_extended : Bool) (name : Hostname)
    (conn : ConnectionMetadata U)
    → (advertises (codes "STARTTLS") (filter_hello hostname is_extended name conn).0
        ≡ (is_extended && not conn.is_encrypted))
      × (accepts (handle_starttls (filter_hello hostname is_extended name conn).1).0
          ≡ advertises (codes "STARTTLS") (filter_hello hostname is_extended name conn).0)
filter_hello_starttls hostname is_extended name conn =
    each_case hostname is_extended name conn.user conn.hello conn.is_encrypted
