-- ===== src/Storage/Rows.antt =====
-- The rows of the tables, by the columns that the modelled statements read or write
-- (crates/storage/migrations). Times are UNIX seconds, not before 1970.
use qsl.Prelude.{ℕ, Bool, Option, Text}
use qsl.Prelude.Int.{ℤ}

pub record OutboxRow : Type 0 where
  pub id : Text
  pub account_id : Text
  pub op_kind : Text
  pub payload_json : Text
  pub created_at : ℕ
  pub attempts : ℕ
  pub next_attempt_at : Option ℕ
  pub last_error : Option Text
  pub dedup_key : Option Text

pub record DraftRow : Type 0 where
  pub id : Text
  pub account_id : Text
  pub in_reply_to : Option Text
  pub references_json : Text
  pub to_json : Text
  pub cc_json : Text
  pub bcc_json : Text
  pub subject : Text
  pub body : Text
  pub body_kind : Text
  pub attachments_json : Text
  pub created_at : ℕ
  pub updated_at : ℕ
  pub server_id : Option Text

pub record FolderRow : Type 0 where
  pub id : Text
  pub account_id : Text
  pub name : Text
  pub path : Text
  pub role : Option Text
  pub unread_count : ℕ
  pub total_count : ℕ
  pub parent_id : Option Text
  pub sync_state : Option Text

pub record OptInRow : Type 0 where
  pub account_id : Text
  pub email_address : Text
  pub created_at : ℕ

-- The table of messages; the columns in JSON hold the encoded text.
pub record MessageRow : Type 0 where
  pub id : Text
  pub account_id : Text
  pub folder_id : Text
  pub thread_id : Option Text
  pub rfc822_message_id : Option Text
  pub subject : Text
  pub from_json : Text
  pub reply_to_json : Text
  pub to_json : Text
  pub cc_json : Text
  pub bcc_json : Text
  pub date : ℕ
  pub flags_json : Text
  pub labels_json : Text
  pub snippet : Text
  pub size : ℕ
  pub has_attachments : Bool
  pub body_path : Option Text
  pub in_reply_to : Option Text
  pub references_json : Text
  pub unread : Bool

-- crates/storage/src/repos/threads.rs, `Thread`: the row as it is written and read.
pub record Thread : Type 0 where
  pub id : Text
  pub account_id : Text
  pub root_message_id : Option Text
  pub subject_normalized : Text
  pub last_date : ℕ
  pub message_count : ℕ

-- `status` is the text of the column; the integers are an i64 each.
pub record HistoryRow : Type 0 where
  pub account_id : Text
  pub folder_id : Text
  pub status : Text
  pub anchor_uid : Option ℤ
  pub total_estimate : Option ℤ
  pub fetched : ℕ
  pub started_at : ℕ
  pub updated_at : ℕ
  pub completed_at : Option ℕ
  pub last_error : Option Text

pub record ContactRow : Type 0 where
  pub address : Text
  pub display_name : Option Text
  pub last_seen_at : ℕ
  pub seen_count : ℕ
  pub source : Text
