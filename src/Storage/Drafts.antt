-- ===== src/Storage/Drafts.antt =====
-- crates/storage/src/repos/drafts.rs: the drafts, and their ids on the server. JSON is an argument,
-- and so is the range of chrono's times.
pub mod Decoded
pub mod Saved
mod Codec
mod Examples
use qsl.Prelude.{
  ℕ, ◌*◌, ◌/◌, Option, none, some, List, [], ◌∷◌, ◌++◌, map, filter, any, Bool, not, ◌&&◌, Text,
  codes, eq_text, if◌then◌else◌,
}
use qsl.Prelude.Result
use qsl.Prelude.Result.{Result, ok, err}
use qsl.Core.Error.{StorageError}
use qsl.Core.Ids.{DraftId, MessageId}
use qsl.Core.Message.{EmailAddress}
use qsl.Core.Draft.{Draft, DraftAttachment, DraftBodyKind, plain, markdown, body_kind_str}
use qsl.Storage.Rows.{DraftRow}
use qsl.Storage.Db.{Db, Action, statement}

unfoldable pub find_server_id : DraftId → List DraftRow → Option MessageId
find_server_id id [] = none
find_server_id id (r ∷ rows) = if eq_text r.id id then r.server_id else find_server_id id rows

unfoldable pub get_server_id : DraftId → Action (Option MessageId)
unfolding find_server_id statement
get_server_id id = statement λ d. (ok (find_server_id id d.drafts), d)

unfoldable pub set_server_id : DraftId → MessageId → Action (Unit {0})
unfolding statement
set_server_id id server_id = statement λ d. (
  ok tt,
  record d {
    drafts =
        map (λ r. if eq_text r.id id then record r { server_id = some server_id } else r) d.drafts;
  },
)

-- `json::encode` and `json::decode` at the types of the columns.
pub record DraftJson : Type 0 where
  pub encode_addresses : List EmailAddress → Result StorageError Text
  pub encode_texts : List Text → Result StorageError Text
  pub encode_attachments : List DraftAttachment → Result StorageError Text
  pub decode_addresses : Text → Result StorageError (List EmailAddress)
  pub decode_texts : Text → Result StorageError (List Text)
  pub decode_attachments : Text → Result StorageError (List DraftAttachment)

abbrev pub has_draft_id : DraftId → DraftRow → Bool
has_draft_id id r = eq_text r.id id

-- SELECT_BY_ID
unfoldable pub draft_with_id : DraftId → List DraftRow → Option DraftRow
draft_with_id id [] = none
draft_with_id id (r ∷ rows) = if has_draft_id id r then some r else draft_with_id id rows

-- chrono's `timestamp`, which drops what is below a second, and `timestamp_opt(secs, 0)`.
abbrev pub nanos_per_second : ℕ
nanos_per_second = 1000000000

unfoldable pub timestamp : ℕ → ℕ
timestamp t = t / nanos_per_second

unfoldable pub from_timestamp : ℕ → ℕ
from_timestamp secs = secs * nanos_per_second

unfoldable pub read_body_kind : Text → DraftBodyKind
read_body_kind t = if eq_text t (codes "markdown") then markdown else plain

-- UPDATE leaves the id, the time of creation and the server's id alone.
abbrev pub updated_draft : DraftRow → DraftRow → DraftRow
updated_draft new r = record new { id = r.id; created_at = r.created_at; server_id = r.server_id }

unfoldable pub insert_row : DraftRow → Action (Unit {0})
unfolding statement
insert_row row = statement λ d.
    if any (has_draft_id row.id) d.drafts
    then (err (StorageError.db (codes "UNIQUE constraint failed")), d)
    else (ok tt, record d { drafts = d.drafts ++ row ∷ [] })

unfoldable pub delete : DraftId → Action (Unit {0})
unfolding statement
delete id =
    statement λ d. (ok tt, record d { drafts = filter (λ r. not (has_draft_id id r)) d.drafts })

module _ (json : DraftJson) where
  unfoldable pub to_params : Draft → Result StorageError DraftRow
  unfolding body_kind_str timestamp
  to_params d = Result.◌>>=◌ (json.encode_addresses d.to) λ to.
      Result.◌>>=◌ (json.encode_addresses d.cc) λ cc'.
        Result.◌>>=◌ (json.encode_addresses d.bcc) λ bcc.
          Result.◌>>=◌ (json.encode_texts d.references) λ references.
            Result.◌>>=◌ (json.encode_attachments d.attachments) λ attachments. ok (record {
              id = d.id;
              account_id = d.account_id;
              in_reply_to = d.in_reply_to;
              references_json = references;
              to_json = to;
              cc_json = cc';
              bcc_json = bcc;
              subject = d.subject;
              body = d.body;
              body_kind = body_kind_str d.body_kind;
              attachments_json = attachments;
              created_at = timestamp d.created_at;
              updated_at = timestamp d.updated_at;
              server_id = none;
            })

  -- `row_to_draft` but for the range of chrono.
  unfoldable pub decode_row : DraftRow → Result StorageError Draft
  unfolding read_body_kind from_timestamp
  decode_row r = Result.◌>>=◌ (json.decode_addresses r.to_json) λ to.
      Result.◌>>=◌ (json.decode_addresses r.cc_json) λ cc'.
        Result.◌>>=◌ (json.decode_addresses r.bcc_json) λ bcc.
          Result.◌>>=◌ (json.decode_texts r.references_json) λ references.
            Result.◌>>=◌ (json.decode_attachments r.attachments_json) λ attachments. ok (record {
              id = r.id;
              account_id = r.account_id;
              in_reply_to = r.in_reply_to;
              references = references;
              to = to;
              cc = cc';
              bcc = bcc;
              subject = r.subject;
              body = r.body;
              body_kind = read_body_kind r.body_kind;
              attachments = attachments;
              created_at = from_timestamp r.created_at;
              updated_at = from_timestamp r.updated_at;
            })

  -- `none` is the panic of `unwrap` on a time that chrono does not have; a column that cannot be decoded
  -- returns before it.
  unfoldable pub row_to_draft : (ℕ → Bool) → DraftRow → Option (Result StorageError Draft)
  unfolding decode_row
  row_to_draft valid r = elim (decode_row r) [
    | err e ↦ some (err e)
    | ok draft ↦ if valid r.created_at && valid r.updated_at then some (ok draft) else none
  ]

  unfoldable pub insert : Draft → Action (Unit {0})
  unfolding to_params insert_row
  insert draft = elim (to_params draft) [ err e ↦ λ d. (err e, d) | ok row ↦ insert_row row ]

  unfoldable pub update : Draft → Action (Unit {0})
  unfolding to_params statement
  update draft = elim (to_params draft) [
    | err e ↦ λ d. (err e, d)
    | ok row ↦ statement λ d.
        if any (has_draft_id row.id) d.drafts
        then (
          ok tt,
          record d {
            drafts = map (λ r. if has_draft_id row.id r then updated_draft row r else r) d.drafts;
          },
        )
        else (err StorageError.row_not_found, d)
  ]

  unfoldable pub save : Draft → Action (Unit {0})
  unfolding update insert
  save draft d =
      let (r, d') = update draft d in
      elim r [
        | ok _ ↦ (ok tt, d')
        | err e ↦ elim e [
          | StorageError.row_not_found ↦ insert draft d'
          | StorageError.db m ↦ (err (StorageError.db m), d')
          | StorageError.migration m ↦ (err (StorageError.migration m), d')
          | StorageError.conflict m ↦ (err (StorageError.conflict m), d')
          | StorageError.serde m ↦ (err (StorageError.serde m), d')
        ]
      ]

  unfoldable pub get : (ℕ → Bool) → DraftId → Db → Option (Result StorageError Draft) × Db
  unfolding draft_with_id row_to_draft statement
  get valid id d =
      let (r, d') = statement (λ (e : Db). (ok (draft_with_id id e.drafts), e)) d in
      elim r [
        | err e ↦ (some (err e), d')
        | ok row ↦ (
          elim row [ none ↦ some (err StorageError.row_not_found) | some r ↦ row_to_draft valid r ],
          d',
        )
      ]
