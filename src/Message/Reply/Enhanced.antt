-- ===== src/Message/Reply/Enhanced.antt =====
-- smtp-message/src/reply.rs: enhanced reply codes (RFC 3463), and those that the server uses.
use kannader.Prelude.{ℕ, List, [], ◌∷◌, ◌==◌, if◌then◌else◌, Bytes, codes}

pub data EnhancedReplyCodeClass : Type 0 where
  success persistent_transient permanent_failure : EnhancedReplyCodeClass

pub data EnhancedReplyCodeSubject : Type 0 where
  undefined addressing mailbox mail_system network mail_delivery content policy :
      EnhancedReplyCodeSubject

pub record EnhancedReplyCode : Type 0 where
  pub raw : Bytes
  pub class : EnhancedReplyCodeClass
  pub raw_subject : ℕ
  pub raw_detail : ℕ

unfoldable pub subject : EnhancedReplyCode → EnhancedReplyCodeSubject
subject c =
    if c.raw_subject == 1
    then addressing
    else if c.raw_subject == 2
    then mailbox
    else if c.raw_subject == 3
    then mail_system
    else if c.raw_subject == 4
    then network
    else if c.raw_subject == 5
    then mail_delivery
    else if c.raw_subject == 6
    then content
    else if c.raw_subject == 7
    then policy
    else undefined

abbrev pub success_undefined : EnhancedReplyCode
success_undefined = record { raw = codes "2.0.0"; class = success; raw_subject = 0; raw_detail = 0 }

abbrev pub success_dest_valid : EnhancedReplyCode
success_dest_valid = record {
  raw = codes "2.1.5";
  class = success;
  raw_subject = 1;
  raw_detail = 5;
}

abbrev pub transient_undefined : EnhancedReplyCode
transient_undefined = record {
  raw = codes "4.0.0";
  class = persistent_transient;
  raw_subject = 0;
  raw_detail = 0;
}

abbrev pub transient_system_incorrectly_configured : EnhancedReplyCode
transient_system_incorrectly_configured = record {
  raw = codes "4.3.5";
  class = persistent_transient;
  raw_subject = 3;
  raw_detail = 5;
}

abbrev pub permanent_undefined : EnhancedReplyCode
permanent_undefined = record {
  raw = codes "5.0.0";
  class = permanent_failure;
  raw_subject = 0;
  raw_detail = 0;
}

abbrev pub permanent_invalid_command : EnhancedReplyCode
permanent_invalid_command = record {
  raw = codes "5.5.1";
  class = permanent_failure;
  raw_subject = 5;
  raw_detail = 1;
}

abbrev pub as_io_slices : EnhancedReplyCode → List Bytes
as_io_slices c = c.raw ∷ []
