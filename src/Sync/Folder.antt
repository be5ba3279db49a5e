-- ===== src/Sync/Folder.antt =====
-- crates/sync/src/lib.rs, `sync_folder`: the passes behind the chunk of headers, which remove what the
-- server has removed and take over its flags. The servers and the blob store are arguments; `S` is
-- their state. An error here is the storage error that `sync_folder` wraps.
pub mod Stale
pub mod Reconcile
mod Examples
use qsl.Prelude.{
  ℕ, ◌+◌, List, [], ◌∷◌, any, Option, none, some, Bool, true, false, Text, eq_text, if◌then◌else◌,
}
use qsl.Prelude.Result.{Result, ok, err}
use qsl.Core.Ids.{FolderId, MessageId}
use qsl.Core.Error.{StorageError, MailError}
use qsl.Core.Message.{MessageFlags}
use qsl.Storage.Db.{Db}
use qsl.Storage.Messages.{Json}
use qsl.Storage.Messages.Statements.{delete_message, list_ids_by_folder, update_flags}

pub record SyncReport : Type 0 where
  pub added : ℕ
  pub updated : ℕ
  pub flag_updates : ℕ
  pub removed : ℕ
  pub bodies_fetched : ℕ
  pub bodies_failed : ℕ

-- A cycle: the database, the servers and blobs, and the report so far.
pub record Cycle (S : Type 0) : Type 0 where
  pub db : Db
  pub outside : S
  pub report : SyncReport

abbrev pub contains_id : List MessageId → MessageId → Bool
contains_id ids id = any (eq_text id) ids

abbrev pub is_not_found : StorageError → Bool
is_not_found StorageError.row_not_found = true
is_not_found (StorageError.db message) = false
is_not_found (StorageError.migration message) = false
is_not_found (StorageError.conflict message) = false
is_not_found (StorageError.serde message) = false

module _ {S : Type 0} (blobs : Option (MessageId → S → S)) where
  -- `delete_body_blob`, whose errors are logged only.
  unfoldable pub delete_body_blob : MessageId → S → S
  delete_body_blob id s = elim blobs [ none ↦ s | some delete ↦ delete id s ]

  -- The match on `messages::delete`.
  unfoldable pub remove_message : MessageId → Cycle S → Result StorageError (Unit {0}) × Cycle S
  unfolding delete_body_blob
  remove_message id c =
      let (r, d) = delete_message id c.db in
      elim r [
        | ok _ ↦ (
          ok tt,
          record c {
            db = d;
            outside = delete_body_blob id c.outside;
            report = record c.report { removed = c.report.removed + 1 };
          },
        )
        | err e ↦ (if is_not_found e then ok tt else err e, record c { db = d })
      ]

  -- The loop over the ids that the server reports as removed.
  unfoldable pub remove_reported :
      List MessageId → Cycle S → Result StorageError (Unit {0}) × Cycle S
  unfolding remove_message
  remove_reported [] c = (ok tt, c)
  remove_reported (id ∷ ids) c =
      let (r, c') = remove_message id c in
      elim r [ err e ↦ (err e, c') | ok _ ↦ remove_reported ids c' ]

  -- The loop over the local ids.
  unfoldable pub prune :
      List MessageId → List MessageId → Cycle S → Result StorageError (Unit {0}) × Cycle S
  unfolding remove_message
  prune live [] c = (ok tt, c)
  prune live (id ∷ local) c =
      let (r, c') = if contains_id live id then (ok tt, c) else remove_message id c in
      elim r [ err e ↦ (err e, c') | ok _ ↦ prune live local c' ]

  -- The match on the answer of `list_known_ids`; without a prior cursor there is no such call.
  unfoldable pub reconcile :
      FolderId
      → Bool
      → Result MailError (List MessageId)
      → Cycle S
      → Result StorageError (Unit {0}) × Cycle S
  unfolding prune
  reconcile folder false answer c = (ok tt, c)
  reconcile folder true (err e) c = (ok tt, c)
  reconcile folder true (ok []) c = (ok tt, c)
  reconcile folder true (ok (id ∷ live)) c =
      let (r, d) = list_ids_by_folder folder c.db in
      elim r [
        | err e ↦ (err e, record c { db = d })
        | ok local ↦ prune (id ∷ live) local (record c { db = d })
      ]

-- The loop over the flag updates.
unfoldable pub apply_flag_updates :
    {S : Type 0}
    → Json
    → List (MessageId × MessageFlags)
    → Cycle S
    → Result StorageError (Unit {0}) × Cycle S
apply_flag_updates json [] c = (ok tt, c)
apply_flag_updates json ((id, flags) ∷ updates) c =
    let (r, d) = update_flags json id flags c.db in
    let counted = record c {
      db = d;
      report = record c.report { flag_updates = c.report.flag_updates + 1 };
    } in
    let after = apply_flag_updates json updates counted in
    let skipped = apply_flag_updates json updates (record c { db = d }) in
    elim r [
      | ok _ ↦ after
      | err e ↦ if is_not_found e then skipped else (err e, record c { db = d })
    ]
