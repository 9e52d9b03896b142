-- ===== src/Client/Severity.antt =====
-- smtp-client/src/lib.rs and kannader/src/queue_transport.rs: what a reply means to the queue.
use kannader.Prelude.{if◌then◌else◌, Bool, true, false, Option, none, some, ◌≡◌, refl}
use kannader.Queue.Types.{TransportFailure}
use kannader.Message.Reply.{Reply}
use kannader.Message.Reply.Code.{
  ReplyCodeKind, positive_completion, positive_intermediate, transient_negative, permanent_negative,
  kind,
}
use kannader.Message.Reply.Enhanced.{EnhancedReplyCodeSubject}
use kannader.Client.Types.{Net, Outcome, gives, fails, severity}
use kannader.Client.Replies.{same_kind, subject_of, reply_error, verify_kind, verify_reply}
use kannader.Client.Transport.{transport_error_client_to_queue, severity_to_failure}

abbrev pub is_permanent : TransportFailure → Bool
is_permanent TransportFailure.mail_permanent = true
is_permanent TransportFailure.mailbox_permanent = true
is_permanent TransportFailure.mail_system_permanent = true
is_permanent TransportFailure.local = false
is_permanent TransportFailure.network_transient = false
is_permanent TransportFailure.mail_transient = false
is_permanent TransportFailure.mailbox_transient = false
is_permanent TransportFailure.mail_system_transient = false

module _ {World : Type 0} (net : Net World) where
  -- The check of a reply of the kind `k`.
  unfoldable pub Checked : ReplyCodeKind → ReplyCodeKind → Outcome net (Unit {0}) → Type 0
  Checked k expected (gives u) = same_kind k expected ≡ true
  Checked k expected (fails e) =
      (same_kind k expected ≡ false)
      × (is_permanent (transport_error_client_to_queue net e) ≡ same_kind k permanent_negative)
  Checked k expected _ = ⊥

  reply_error_permanent :
      (r : Reply) (k : ReplyCodeKind) (s : Option EnhancedReplyCodeSubject)
      → is_permanent (transport_error_client_to_queue net (reply_error net r k s))
        ≡ same_kind k permanent_negative
  unfolding reply_error transport_error_client_to_queue severity_to_failure severity
  reply_error_permanent r positive_completion s = refl
  reply_error_permanent r positive_intermediate s = refl
  reply_error_permanent r transient_negative none = refl
  reply_error_permanent r transient_negative (some EnhancedReplyCodeSubject.undefined) = refl
  reply_error_permanent r transient_negative (some EnhancedReplyCodeSubject.addressing) = refl
  reply_error_permanent r transient_negative (some EnhancedReplyCodeSubject.mailbox) = refl
  reply_error_permanent r transient_negative (some EnhancedReplyCodeSubject.mail_system) = refl
  reply_error_permanent r transient_negative (some EnhancedReplyCodeSubject.network) = refl
  reply_error_permanent r transient_negative (some EnhancedReplyCodeSubject.mail_delivery) = refl
  reply_error_permanent r transient_negative (some EnhancedReplyCodeSubject.content) = refl
  reply_error_permanent r transient_negative (some EnhancedReplyCodeSubject.policy) = refl
  reply_error_permanent r permanent_negative none = refl
  reply_error_permanent r permanent_negative (some EnhancedReplyCodeSubject.undefined) = refl
  reply_error_permanent r permanent_negative (some EnhancedReplyCodeSubject.addressing) = refl
  reply_error_permanent r permanent_negative (some EnhancedReplyCodeSubject.mailbox) = refl
  reply_error_permanent r permanent_negative (some EnhancedReplyCodeSubject.mail_system) = refl
  reply_error_permanent r permanent_negative (some EnhancedReplyCodeSubject.network) = refl
  reply_error_permanent r permanent_negative (some EnhancedReplyCodeSubject.mail_delivery) = refl
  reply_error_permanent r permanent_negative (some EnhancedReplyCodeSubject.content) = refl
  reply_error_permanent r permanent_negative (some EnhancedReplyCodeSubject.policy) = refl

  either_way :
      (r : Reply) (k expected : ReplyCodeKind) (b : Bool)
      → same_kind k expected ≡ b
      → Checked k expected
          (if b then gives tt else fails (reply_error net r k (subject_of r.ecode)))
  unfolding Checked
  either_way r k expected true e = e
  either_way r k expected false e = (e, reply_error_permanent r k (subject_of r.ecode))

  -- A reply whose code is valid passes the check just where its kind is the expected one; otherwise
  -- the queue is told of a failure, and of a permanent one just where the reply is a permanent
  -- negative one.
  pub verify_reply-Checked :
      (r : Reply) (k expected : ReplyCodeKind)
      → kind r.code ≡ some k
      → Checked k expected (verify_reply net r expected)
  unfolding verify_reply verify_kind
  verify_reply-Checked r k expected e = rw e (either_way r k expected (same_kind k expected) refl)
