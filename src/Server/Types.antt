-- ===== src/Server/Types.antt =====
-- smtp-server-types/src/lib.rs and smtp-server/src/protocol.rs: decisions and metadata.
use kannader.Prelude.{Bool, Option, List, Bytes}
use kannader.Message.Io.{IoResult, ok, err, other}
use kannader.Message.Reply.{Reply}
use kannader.Message.Address.{Email, Hostname}

pub data Decision {ℓ} (A : Type ℓ) : Type ℓ where
  accept : Reply → A → Decision A
  reject : Reply → Decision A
  kill : Option Reply → IoResult (Unit {0}) → Decision A

-- The same over the wire to a configuration: an error is a message.
pub data KillResult : Type 0 where
  fine : KillResult
  message : Bytes → KillResult

pub data SerializableDecision {ℓ} (A : Type ℓ) : Type ℓ where
  accept : Reply → A → SerializableDecision A
  reject : Reply → SerializableDecision A
  kill : Option Reply → KillResult → SerializableDecision A

abbrev pub kill_result : KillResult → IoResult (Unit {0})
kill_result fine = ok tt
kill_result (message m) = err other

-- `Decision::from`
abbrev pub from_serializable {ℓ} : {A : Type ℓ} → SerializableDecision A → Decision A
from_serializable (SerializableDecision.accept reply res) = Decision.accept reply res
from_serializable (SerializableDecision.reject reply) = Decision.reject reply
from_serializable (SerializableDecision.kill reply res) = Decision.kill reply (kill_result res)

pub record MailMetadata (U : Type 0) : Type 0 where
  pub user : U
  pub from : Option Email
  pub to : List Email

pub record HelloInfo : Type 0 where
  pub is_extended : Bool
  pub hostname : Hostname

pub record ConnectionMetadata (U : Type 0) : Type 0 where
  pub user : U
  pub hello : Option HelloInfo
  pub is_encrypted : Bool

pub data ProtocolName : Type 0 where
  smtp lmtp : ProtocolName
