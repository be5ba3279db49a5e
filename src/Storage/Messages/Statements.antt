-- ===== src/Storage/Messages/Statements.antt =====
-- crates/storage/src/repos/messages.rs: the statements on single messages, and the batched updates.
-- The functions for a transaction make the same statements on it.
use qsl.Prelude.{
  ◌%◌, length, ℕ, ◌+◌, min, ◌-◌, ◌^◌, List, [], ◌∷◌, map, filter, any, Option, none, Bool, not,
  Text, eq_text, if◌then◌else◌,
}
use qsl.Prelude.Result.{ok, err}
use qsl.Core.Ids.{FolderId, MessageId}
use qsl.Core.Error.{StorageError}
use qsl.Core.Message.{MessageFlags, MessageHeaders}
use qsl.Storage.Rows.{MessageRow}
use qsl.Storage.Db.{Action, statement, transaction, pure, ◌>>=◌}
use qsl.Storage.Messages.{Json, has_id, to_params, to_rows, chunks, group_size, insert_group}

-- DELETE_BY_ID
unfoldable pub delete_message : MessageId → Action (Unit {0})
unfolding statement
delete_message id =
    statement λ d. (ok tt, record d { messages = filter (λ m. not (has_id id m)) d.messages })

abbrev pub in_folder : FolderId → MessageRow → Bool
in_folder folder m = eq_text m.folder_id folder

unfoldable pub list_ids_by_folder : FolderId → Action (List MessageId)
unfolding statement
list_ids_by_folder folder =
    statement λ d. (ok (map (λ m. m.id) (filter (in_folder folder) d.messages)), d)

-- UPDATE … WHERE id = ?1, with an error where no row has the id.
unfoldable pub update_existing : MessageId → (MessageRow → MessageRow) → Action (Unit {0})
unfolding statement
update_existing id f = statement λ d.
    if any (has_id id) d.messages
    then (ok tt, record d { messages = map (λ m. if has_id id m then f m else m) d.messages })
    else (err StorageError.row_not_found, d)

unfoldable pub set_folder : MessageId → FolderId → Action (Unit {0})
unfolding update_existing
set_folder id folder = update_existing id λ m. record m { folder_id = folder }

unfoldable pub set_body_path : MessageId → Option Text → Action (Unit {0})
unfolding update_existing
set_body_path id path = update_existing id λ m. record m { body_path = path }

-- UPDATE leaves the thread and the path of the body alone.
abbrev pub updated_row : MessageRow → MessageRow → MessageRow
updated_row new m = record new { id = m.id; thread_id = m.thread_id; body_path = m.body_path }

module _ (json : Json) where
  -- Each group is encoded before its statement.
  unfoldable pub insert_header_groups : List (List MessageHeaders) → Action ℕ
  unfolding to_rows insert_group ◌>>=◌ pure
  insert_header_groups [] = pure 0
  insert_header_groups (group ∷ groups) = elim (to_rows json group) [
    | err e ↦ λ d. (err e, d)
    | ok rows ↦ (do n ← insert_group rows; rest ← insert_header_groups groups; pure (n + rest))
  ]

  unfoldable pub batch_insert_skip_existing_in_tx : List MessageHeaders → Action ℕ
  unfolding insert_header_groups chunks ◌>>=◌ pure
  batch_insert_skip_existing_in_tx headers = do
    n ← insert_header_groups (chunks (length headers) group_size headers)
    pure (n % 2 ^ 32)

  unfoldable pub update_flags : MessageId → MessageFlags → Action (Unit {0})
  unfolding update_existing
  update_flags id flags = elim (json.encode_flags flags) [
    | err e ↦ λ d. (err e, d)
    | ok text ↦ update_existing id λ m. record m { flags_json = text; unread = not flags.seen }
  ]

  unfoldable pub update : MessageHeaders → Option Text → Action (Unit {0})
  unfolding to_params update_existing
  update h body_path = elim (to_params json h body_path) [
    | err e ↦ λ d. (err e, d)
    | ok row ↦ update_existing row.id (updated_row row)
  ]

  -- UPDATE of one row of a batch: whether there was one.
  unfoldable pub update_row : MessageHeaders → Action ℕ
  unfolding to_params statement
  update_row h = elim (to_params json h none) [
    | err e ↦ λ d. (err e, d)
    | ok row ↦ statement λ d. (
      ok (if any (has_id row.id) d.messages then 1 else 0),
      record d {
        messages = map (λ m. if has_id row.id m then updated_row row m else m) d.messages;
      },
    )
  ]

  unfoldable pub batch_update_in_tx : List MessageHeaders → Action ℕ
  unfolding update_row ◌>>=◌ pure
  batch_update_in_tx [] = pure 0
  batch_update_in_tx (h ∷ headers) = do
    affected ← update_row h
    updated ← batch_update_in_tx headers
    pure (min (affected + updated) (2 ^ 32 - 1))

  unfoldable pub batch_update : List MessageHeaders → Action ℕ
  unfolding batch_update_in_tx transaction pure
  batch_update [] = pure 0
  batch_update (h ∷ headers) = transaction (batch_update_in_tx (h ∷ headers))
