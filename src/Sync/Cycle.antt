-- ===== src/Sync/Cycle.antt =====
-- crates/sync/src/lib.rs, `sync_folder` and `sync_account`: one cycle of a folder, and of every folder of
-- an account. The servers, the blob store and the randomness are arguments; `S` is their state.
pub mod Steps
pub mod Writes
pub mod Passes
pub mod Cursor
pub mod Account
mod Examples
use qsl.Prelude.{ℕ, ◌+◌, List, [], ◌∷◌, Option, none, some, Bool, true, false, Text, if◌then◌else◌}
use qsl.Prelude.Result.{Result, ok, err}
use qsl.Core.Error.{StorageError, MailError}
use qsl.Core.Folder.{Folder, SyncState}
use qsl.Core.Ids.{AccountId, FolderId, MessageId}
use qsl.Core.Message.{MessageFlags, MessageHeaders}
use qsl.Storage.Db.{Db, Action}
use qsl.Storage.Folders
use qsl.Storage.Folders.{get_sync_state, put_sync_state, clear_sync_state}
use qsl.Storage.Messages.Statements.{set_body_path}
use qsl.Sync.History.{SyncError}
use qsl.Sync.Folder.{Cycle, SyncReport, remove_reported, reconcile, apply_flag_updates}
use qsl.Sync.Plan.{Outside}
use qsl.Sync.Chunk.{Applied, apply_chunk}

pub record MessageList : Type 0 where
  pub messages : List MessageHeaders
  pub flag_updates : List (MessageId × MessageFlags)
  pub new_state : SyncState
  pub removed : List MessageId

-- The methods of `MailBackend` that a cycle calls, and the blob store with the path of a blob as text.
pub record Reader (S : Type 0) : Type 0 where
  pub list_folders : S → Result MailError (List Folder) × S
  pub list_messages : FolderId → Option SyncState → Option ℕ → S → Result MailError MessageList × S
  pub list_known_ids : FolderId → S → Result MailError (List MessageId) × S
  pub fetch_raw_message : MessageId → S → Result MailError (List ℕ) × S

pub record BlobStore (S : Type 0) : Type 0 where
  pub put : AccountId → FolderId → MessageId → List ℕ → S → Result StorageError Text × S
  pub delete : AccountId → FolderId → MessageId → S → S

abbrev pub is_uid_validity_changed : MailError → Bool
is_uid_validity_changed (MailError.network m) = false
is_uid_validity_changed (MailError.auth m) = false
is_uid_validity_changed (MailError.protocol m) = false
is_uid_validity_changed (MailError.uid_validity_changed folder cached observed) = true
is_uid_validity_changed (MailError.not_found m) = false
is_uid_validity_changed (MailError.server_rejected m) = false
is_uid_validity_changed (MailError.storage e) = false
is_uid_validity_changed (MailError.parse m) = false
is_uid_validity_changed MailError.cancelled = false
is_uid_validity_changed (MailError.other m) = false

-- Steps of a cycle.
abbrev pub Run : Type 0 → Type 0 → Type 0
Run S A = Cycle S → Result SyncError A × Cycle S

-- A result of the storage, or of the server, with `?`.
abbrev pub from_storage : {A : Type 0} → Result StorageError A → Result SyncError A
from_storage (ok a) = ok a
from_storage (err e) = err (SyncError.storage e)

abbrev pub from_mail : {A : Type 0} → Result MailError A → Result SyncError A
from_mail (ok a) = ok a
from_mail (err e) = err (SyncError.mail e)

abbrev pub no_report : SyncReport
no_report = record {
  added = 0;
  updated = 0;
  flag_updates = 0;
  removed = 0;
  bodies_fetched = 0;
  bodies_failed = 0;
}

module _ {S : Type 0} where
  unfoldable pub return : {A : Type 0} → A → Run S A
  return a c = (ok a, c)

  infixl 5 ◌>>=◌
  unfoldable pub ◌>>=◌ : {A B : Type 0} → Run S A → (A → Run S B) → Run S B
  ◌>>=◌ m f c = let (r, c') = m c in elim r [ ok a ↦ f a c' | err e ↦ (err e, c') ]

  infixl 5 ◌>>◌
  abbrev pub ◌>>◌ : {A B : Type 0} → Run S A → Run S B → Run S B
  first >> next = first >>= λ done. next

  unfoldable pub in_db : {A : Type 0} → Action A → Run S A
  in_db m c = let (r, d) = m c.db in (from_storage r, record c { db = d })

  -- A pass over the cycle, whose errors are of the storage.
  unfoldable pub pass : {A : Type 0} → (Cycle S → Result StorageError A × Cycle S) → Run S A
  pass m c = let (r, c') = m c in (from_storage r, c')

  -- A call of the server.
  unfoldable pub ask : {A : Type 0} → (S → A × S) → Run S A
  ask call c = let (a, s) = call c.outside in (ok a, record c { outside = s })

  abbrev pub get_report : Run S SyncReport
  get_report c = (ok c.report, c)

  unfoldable pub count : (SyncReport → SyncReport) → Run S (Unit {0})
  count f c = (ok tt, record c { report = f c.report })

  -- A result as a step: `err` ends the cycle.
  unfoldable pub lift : {A : Type 0} → Result SyncError A → Run S A
  lift r c = (r, c)

  module _ (reader : Reader S) where
    unfoldable pub list_again : FolderId → Option ℕ → Run S MessageList
    unfolding in_db ask lift ◌>>=◌ clear_sync_state
    list_again folder limit = do
      in_db (clear_sync_state folder)
      answer ← ask (reader.list_messages folder none limit)
      lift (from_mail answer)

    -- The match on `list_messages`, with the recovery from a changed UIDVALIDITY.
    unfoldable pub list_or_recover : FolderId → Option SyncState → Option ℕ → Run S MessageList
    unfolding in_db ask lift ◌>>=◌ list_again
    list_or_recover folder prior limit = do
      answer ← ask (reader.list_messages folder prior limit)
      elim answer [
        | ok list ↦ return list
        | err e ↦
            if is_uid_validity_changed e
            then list_again folder limit
            else lift (err (SyncError.mail e))
      ]

    unfoldable pub fetch_and_store_body : BlobStore S → MessageHeaders → Run S (Unit {0})
    unfolding in_db ask lift ◌>>=◌ set_body_path
    fetch_and_store_body blobs h = do
      fetched ← ask (reader.fetch_raw_message h.id)
      raw ← lift (from_mail fetched)
      stored ← ask (blobs.put h.account_id h.folder_id h.id raw)
      path ← lift (from_storage stored)
      in_db (set_body_path h.id (some path))

    -- A body that cannot be fetched or stored is counted, and the cycle goes on.
    unfoldable pub fetch_bodies : BlobStore S → List MessageHeaders → Run S (Unit {0})
    unfolding fetch_and_store_body
    fetch_bodies blobs [] c = (ok tt, c)
    fetch_bodies blobs (h ∷ headers) c =
        let (r, c') = fetch_and_store_body blobs h c in
        let report : SyncReport = elim r [
          | ok _ ↦ record c'.report { bodies_fetched = c'.report.bodies_fetched + 1 }
          | err e ↦ record c'.report { bodies_failed = c'.report.bodies_failed + 1 }
        ] in
        fetch_bodies blobs headers (record c' { report = report })

    module _ (outside : Outside) (blobs : Option (BlobStore S)) where
      abbrev pub deleting : Folder → Option (MessageId → S → S)
      deleting folder = elim blobs [
        | none ↦ none
        | some store ↦ some (store.delete folder.account_id folder.id)
      ]

      unfoldable pub upsert_folder : Folder → Run S (Unit {0})
      unfolding in_db ◌>>=◌ Folders.find Folders.update Folders.insert
      upsert_folder folder = do
        found ← in_db (Folders.find folder.id)
        elim found [ some _ ↦ in_db (Folders.update folder) | none ↦ in_db (Folders.insert folder) ]

      unfoldable pub reconcile_folder : Folder → Option SyncState → Run S (Unit {0})
      unfolding ask pass return ◌>>=◌ reconcile
      reconcile_folder folder prior = elim prior [
        | none ↦ return tt
        | some state ↦ (do
          answer ← ask (reader.list_known_ids folder.id)
          pass (reconcile (deleting folder) folder.id true answer))
      ]

      -- What the cycle writes of a delta, up to the cursor.
      unfoldable pub apply_delta :
          Folder → Option SyncState → MessageList → Run S (List MessageHeaders)
      unfolding in_db count pass return ◌>>=◌ apply_chunk remove_reported reconcile_folder
          apply_flag_updates put_sync_state
      apply_delta folder prior list = do
        a ← in_db (apply_chunk outside list.messages)
        count λ r. record r { added = r.added + a.added; updated = r.updated + a.updated }
        pass (remove_reported (deleting folder) list.removed)
        reconcile_folder folder prior
        pass (apply_flag_updates outside.json list.flag_updates)
        in_db (put_sync_state list.new_state)
        return a.new_headers

      unfoldable pub sync_folder : Folder → Option ℕ → Run S SyncReport
      unfolding upsert_folder in_db return ◌>>=◌ get_sync_state list_or_recover apply_delta
          fetch_bodies
      sync_folder folder limit = do
        upsert_folder folder
        prior ← in_db (get_sync_state folder.id)
        list ← list_or_recover folder.id prior limit
        new_headers ← apply_delta folder prior list
        elim blobs [ none ↦ return tt | some store ↦ fetch_bodies store new_headers ]
        get_report

      -- Every folder has its own report, from zero, and its own outcome.
      unfoldable pub sync_folders :
          Option ℕ → List Folder → Db → S → List (FolderId × Result SyncError SyncReport) × (Db × S)
      unfolding sync_folder
      sync_folders limit [] d s = ([], (d, s))
      sync_folders limit (folder ∷ folders) d s =
          let (r, c) =
            sync_folder folder limit (record { db = d; outside = s; report = no_report }) in
          let (outcomes, after) = sync_folders limit folders c.db c.outside in
          ((folder.id, r) ∷ outcomes, after)

      unfoldable pub sync_account :
          Option ℕ
          → Db
          → S
          → Result SyncError (List (FolderId × Result SyncError SyncReport)) × (Db × S)
      unfolding sync_folders
      sync_account limit d s =
          let (listed, s') = reader.list_folders s in
          elim listed [
            | err e ↦ (err (SyncError.mail e), (d, s'))
            | ok folders ↦
                let (outcomes, after) = sync_folders limit folders d s' in (ok outcomes, after)
          ]
