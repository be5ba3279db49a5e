-- ===== src/Core/Message.antt =====
-- crates/core/src/message.rs: addresses, flags and headers. Dates are UNIX seconds.
use qsl.Prelude.{ℕ, Bool, List, Option, Text}
use qsl.Core.Ids.{AccountId, FolderId, MessageId, ThreadId}

pub record EmailAddress : Type 0 where
  pub address : Text
  pub display_name : Option Text

pub record MessageFlags : Type 0 where
  pub seen : Bool
  pub flagged : Bool
  pub answered : Bool
  pub draft : Bool
  pub forwarded : Bool

pub record MessageHeaders : Type 0 where
  pub id : MessageId
  pub account_id : AccountId
  pub folder_id : FolderId
  pub thread_id : Option ThreadId
  pub rfc822_message_id : Option Text
  pub subject : Text
  pub from : List EmailAddress
  pub reply_to : List EmailAddress
  pub to : List EmailAddress
  pub cc : List EmailAddress
  pub bcc : List EmailAddress
  pub date : ℕ
  pub flags : MessageFlags
  pub labels : List Text
  pub snippet : Text
  pub size : ℕ
  pub has_attachments : Bool
  pub in_reply_to : Option Text
  pub references : List Text
