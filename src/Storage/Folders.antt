-- ===== src/Storage/Folders.antt =====
-- crates/storage/src/repos/folders.rs: the table of folders. crates/storage/src/repos/sync_states.rs: the
-- cursors, in a column of it. A column of counts holds numbers from 0 on. The constraints on the
-- table itself are the primary key and the index of 0001_initial.sql on account and path; the foreign
-- key to the accounts, a table that is not modelled, fails as an entry of `faults` does.
pub mod Cursors
pub mod Roundtrip
mod Examples
use qsl.Prelude.{
  ℕ, ◌^◌, List, [], ◌∷◌, ◌++◌, map, filter, any, Option, none, some, Bool, not, ◌&&◌, ◌||◌, Text,
  codes, eq_text, ltb, if◌then◌else◌,
}
use qsl.Prelude.Result
use qsl.Prelude.Result.{Result, ok, err}
use qsl.Core.Error.{StorageError}
use qsl.Core.Ids.{AccountId, FolderId}
use qsl.Core.Folder.{Folder, FolderRole, SyncState}
use qsl.Storage.Rows.{FolderRow}
use qsl.Storage.Db.{Action, pure, ◌>>=◌, statement}

-- The roles that the enumeration has; the wildcard is for roles to come.
unfoldable pub role_str : FolderRole → Text
role_str FolderRole.inbox = codes "inbox"
role_str FolderRole.sent = codes "sent"
role_str FolderRole.drafts = codes "drafts"
role_str FolderRole.trash = codes "trash"
role_str FolderRole.spam = codes "spam"
role_str FolderRole.archive = codes "archive"
role_str FolderRole.important = codes "important"
role_str FolderRole.all_mail = codes "all"
role_str FolderRole.flagged = codes "flagged"

unfoldable pub role_from_str : Text → Result StorageError FolderRole
role_from_str s =
    if eq_text s (codes "inbox")
    then ok FolderRole.inbox
    else if eq_text s (codes "sent")
    then ok FolderRole.sent
    else if eq_text s (codes "drafts")
    then ok FolderRole.drafts
    else if eq_text s (codes "trash")
    then ok FolderRole.trash
    else if eq_text s (codes "spam")
    then ok FolderRole.spam
    else if eq_text s (codes "archive")
    then ok FolderRole.archive
    else if eq_text s (codes "important")
    then ok FolderRole.important
    else if eq_text s (codes "all")
    then ok FolderRole.all_mail
    else if eq_text s (codes "flagged")
    then ok FolderRole.flagged
    else err (StorageError.db (codes "unknown folder role: " ++ s))

-- The columns of a folder, without the cursor.
unfoldable pub to_params : Folder → FolderRow
unfolding role_str
to_params f = record {
  id = f.id;
  account_id = f.account_id;
  name = f.name;
  path = f.path;
  role = elim f.role [ none ↦ none | some r ↦ some (role_str r) ];
  unread_count = f.unread_count;
  total_count = f.total_count;
  parent_id = f.parent;
  sync_state = none;
}

-- `u32::try_from`, with `counter_err`.
abbrev counter : ℕ → Result StorageError ℕ
counter n =
    if ltb n (2 ^ 32) then ok n else err (StorageError.db (codes "folder counter out of range"))

unfoldable pub row_to_folder : FolderRow → Result StorageError Folder
unfolding role_from_str
row_to_folder r =
    Result.◌>>=◌
      (elim r.role [
        | none ↦ ok none
        | some s ↦ Result.◌>>=◌ (role_from_str s) λ role. ok (some role)
      ])
      λ role. Result.◌>>=◌ (counter r.unread_count) λ unread.
        Result.◌>>=◌ (counter r.total_count) λ total. ok (record {
          id = r.id;
          account_id = r.account_id;
          name = r.name;
          path = r.path;
          role = role;
          unread_count = unread;
          total_count = total;
          parent = r.parent_id;
        })

abbrev pub has_folder_id : FolderId → FolderRow → Bool
has_folder_id id r = eq_text r.id id

-- UNIQUE INDEX folders_account_path ON folders(account_id, path)
abbrev pub has_path : Folder → FolderRow → Bool
has_path f r = eq_text r.account_id f.account_id && eq_text r.path f.path

-- Another row than the folder's has its account and path.
abbrev pub path_taken : Folder → List FolderRow → Bool
path_taken f = any (λ r. not (has_folder_id f.id r) && has_path f r)

abbrev pub unique_failed : StorageError
unique_failed = StorageError.db (codes "UNIQUE constraint failed")

unfoldable pub insert : Folder → Action (Unit {0})
unfolding to_params statement
insert f = statement λ d.
    if any (has_folder_id f.id) d.folders || path_taken f d.folders
    then (err unique_failed, d)
    else (ok tt, record d { folders = d.folders ++ to_params f ∷ [] })

-- UPDATE leaves the id and the cursor alone.
unfoldable pub updated_folder : Folder → FolderRow → FolderRow
unfolding to_params
updated_folder f r =
    if has_folder_id f.id r
    then record (to_params f) { id = r.id; sync_state = r.sync_state }
    else r

unfoldable pub update : Folder → Action (Unit {0})
unfolding updated_folder statement
update f = statement λ d.
    if not (any (has_folder_id f.id) d.folders)
    then (err StorageError.row_not_found, d)
    else if path_taken f d.folders
    then (err unique_failed, d)
    else (ok tt, record d { folders = map (updated_folder f) d.folders })

-- SELECT … WHERE id = ?1
unfoldable pub folder_with_id : FolderId → List FolderRow → Option FolderRow
folder_with_id id [] = none
folder_with_id id (r ∷ rows) = if has_folder_id id r then some r else folder_with_id id rows

unfoldable pub get : FolderId → Action Folder
unfolding folder_with_id row_to_folder statement ◌>>=◌
get id = do
  row ← statement λ d. (
    elim (folder_with_id id d.folders) [ none ↦ err StorageError.row_not_found | some r ↦ ok r ],
    d,
  )
  λ d. (row_to_folder row, d)

unfoldable pub read_folder : Option FolderRow → Result StorageError (Option Folder)
unfolding row_to_folder
read_folder none = ok none
read_folder (some r) = Result.◌>>=◌ (row_to_folder r) λ f. ok (some f)

unfoldable pub find : FolderId → Action (Option Folder)
unfolding folder_with_id read_folder statement ◌>>=◌
find id = do row ← statement λ d. (ok (folder_with_id id d.folders), d); λ d. (read_folder row, d)

unfoldable pub delete : FolderId → Action (Unit {0})
unfolding statement
delete id =
    statement λ d. (ok tt, record d { folders = filter (λ r. not (has_folder_id id r)) d.folders })

-- crates/storage/src/repos/sync_states.rs
unfoldable pub get_sync_state : FolderId → Action (Option SyncState)
unfolding folder_with_id statement
get_sync_state folder = statement λ d. (
  elim (folder_with_id folder d.folders) [
    | none ↦ err StorageError.row_not_found
    | some r ↦ ok (elim r.sync_state [
      | none ↦ none
      | some state ↦ some (record { folder_id = folder; backend_state = state })
    ])
  ],
  d,
)

abbrev pub set_cursor : FolderId → Option Text → List FolderRow → List FolderRow
set_cursor folder state rows =
    map (λ r. if has_folder_id folder r then record r { sync_state = state } else r) rows

unfoldable pub put_sync_state : SyncState → Action (Unit {0})
unfolding statement
put_sync_state state = statement λ d.
    if any (has_folder_id state.folder_id) d.folders
    then (
      ok tt,
      record d { folders = set_cursor state.folder_id (some state.backend_state) d.folders },
    )
    else (err StorageError.row_not_found, d)

unfoldable pub clear_sync_state : FolderId → Action (Unit {0})
unfolding statement
clear_sync_state folder =
    statement λ d. (ok tt, record d { folders = set_cursor folder none d.folders })
