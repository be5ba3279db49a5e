-- ===== src/Core/Folder.antt =====
-- crates/core/src/folder.rs: folders and their roles. crates/core/src/sync_state.rs: the cursor of a folder.
use qsl.Prelude.{ℕ, Option, Text}
use qsl.Core.Ids.{AccountId, FolderId}

pub data FolderRole : Type 0 where
  inbox : FolderRole
  sent : FolderRole
  drafts : FolderRole
  trash : FolderRole
  spam : FolderRole
  archive : FolderRole
  important : FolderRole
  all_mail : FolderRole
  flagged : FolderRole

pub record Folder : Type 0 where
  pub id : FolderId
  pub account_id : AccountId
  pub name : Text
  pub path : Text
  pub role : Option FolderRole
  pub unread_count : ℕ
  pub total_count : ℕ
  pub parent : Option FolderId

pub record SyncState : Type 0 where
  pub folder_id : FolderId
  pub backend_state : Text
