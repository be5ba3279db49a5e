-- ===== src/Core/Draft.antt =====
-- crates/core/src/draft.rs: a message that is being written. Its times are chrono's, in nanoseconds
-- since 1970.
use qsl.Prelude.{ℕ, Bool, List, Option, Text, codes}
use qsl.Core.Ids.{AccountId, DraftId}
use qsl.Core.Message.{EmailAddress}

pub data DraftBodyKind : Type 0 where
  plain : DraftBodyKind
  markdown : DraftBodyKind

unfoldable pub body_kind_str : DraftBodyKind → Text
body_kind_str plain = codes "plain"
body_kind_str markdown = codes "markdown"

pub record DraftAttachment : Type 0 where
  pub file_path : Text
  pub filename : Text
  pub mime_type : Text
  pub size_bytes : ℕ
  pub inline : Bool

pub record Draft : Type 0 where
  pub id : DraftId
  pub account_id : AccountId
  pub in_reply_to : Option Text
  pub references : List Text
  pub to : List EmailAddress
  pub cc : List EmailAddress
  pub bcc : List EmailAddress
  pub subject : Text
  pub body : Text
  pub body_kind : DraftBodyKind
  pub attachments : List DraftAttachment
  pub created_at : ℕ
  pub updated_at : ℕ
