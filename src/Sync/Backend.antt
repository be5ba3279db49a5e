-- ===== src/Sync/Backend.antt =====
-- What the sync engine calls and the sources do not implement: the mail servers behind
-- `MailBackend` (crates/core/src/mail_backend.rs), the resolver of the engine, JSON and base64.
-- `S` is the state of the servers.
use qsl.Prelude.{ℕ, Bool, List, Option, Text}
use qsl.Prelude.Result.{Result}
use qsl.Core.Ids.{AccountId, FolderId, MessageId}
use qsl.Core.Error.{MailError}
use qsl.Core.Message.{MessageFlags}

-- The methods of `MailBackend` that the drain calls.
pub record MailBackend (S : Type 0) : Type 0 where
  pub update_flags :
      List MessageId → MessageFlags → MessageFlags → S → Result MailError (Unit {0}) × S
  pub move_messages : List MessageId → FolderId → S → Result MailError (Unit {0}) × S
  pub delete_messages : List MessageId → S → Result MailError (Unit {0}) × S
  pub submit_message : List ℕ → S → Result MailError (Option MessageId) × S
  pub save_draft : List ℕ → Option MessageId → S → Result MailError MessageId × S

-- The payloads of crates/sync/src/outbox_drain.rs.
pub record UpdateFlagsPayload : Type 0 where
  pub ids : List MessageId
  pub add : MessageFlags
  pub remove : MessageFlags

pub record MovePayload : Type 0 where
  pub ids : List MessageId
  pub target : FolderId

pub record DeletePayload : Type 0 where
  pub ids : List MessageId

pub record SaveDraftPayload : Type 0 where
  pub draft_id : Text
  pub raw_b64 : Text

pub record SubmitMessagePayload : Type 0 where
  pub message_id : Text
  pub raw_b64 : Text

-- `serde_json::from_str` at each payload and the base64 engine, with the text of an error, chrono's
-- range check, and the resolver.
pub record Externals (S : Type 0) : Type 0 where
  pub open_backend : AccountId → S → Result MailError (MailBackend S) × S
  pub parse_update_flags : Text → Result Text UpdateFlagsPayload
  pub parse_move : Text → Result Text MovePayload
  pub parse_delete : Text → Result Text DeletePayload
  pub parse_submit : Text → Result Text SubmitMessagePayload
  pub parse_save_draft : Text → Result Text SaveDraftPayload
  pub decode_base64 : Text → Result Text (List ℕ)
  pub valid_timestamp : ℕ → Bool
