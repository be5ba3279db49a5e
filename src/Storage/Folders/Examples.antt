-- ===== src/Storage/Folders/Examples.antt =====
-- Tests of the table of folders, with an inbox of three messages.
use qsl.Prelude.{◌≡◌, refl, codes, [], ◌∷◌, none, some}
use qsl.Prelude.Result.{err}
use qsl.Core.Folder.{Folder, FolderRole}
use qsl.Storage.Db.{Db, ◌>>◌}
use qsl.Storage.Samples.{empty_db}
use qsl.Storage.Folders.{to_params, insert, find, unique_failed}

abbrev inbox : Folder
inbox = record {
  id = codes "gmail:a@b|INBOX";
  account_id = codes "gmail:a@b";
  name = codes "INBOX";
  path = codes "INBOX";
  role = some FolderRole.inbox;
  unread_count = 1;
  total_count = 3;
  parent = none;
}

-- A folder of the same account with another path is there.
abbrev db : Db
db = record empty_db {
  folders =
      to_params (record inbox { id = codes "gmail:a@b|Sent"; path = codes "Sent"; role = none })
      ∷ [];
}

-- A folder of another id with the path of one that is there is refused.
path_refused :
    (insert (record inbox { path = codes "Sent" }) >> find inbox.id) db ≡ (err unique_failed, db)
unfolding insert qsl.Storage.Db.◌>>=◌ qsl.Prelude.eq_text
path_refused = refl
