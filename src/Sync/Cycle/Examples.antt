-- ===== src/Sync/Cycle/Examples.antt =====
-- Tests of a cycle: a server whose cursor has changed and that is then unreachable, and an account of
-- two such folders.
use qsl.Prelude.{ℕ, ◌≡◌, refl, codes, Bool, suc, true, List, [], ◌∷◌, ◌++◌, map, Option, none, some}
use qsl.Prelude.Result.{Result, ok, err}
use qsl.Core.Error.{MailError}
use qsl.Core.Folder.{Folder, FolderRole}
use qsl.Core.Ids.{FolderId}
use qsl.Storage.Folders.{to_params}
use qsl.Storage.Folders.Cursors.{Held, cursor}
use qsl.Storage.Samples.{empty_db}
use qsl.Sync.Folder.{Cycle, SyncReport}
use qsl.Sync.Plan.{Outside}
use qsl.Sync.History.{SyncError}
use qsl.Sync.Cycle.{Reader, no_report, sync_folder, sync_account}
use qsl.Sync.Cycle.Cursor.{sync_folder-cursor}
use qsl.Sync.Cycle.Account.{sync_account-outcomes}

abbrev folder : Folder
folder = record {
  id = codes "INBOX";
  account_id = codes "gmail:a@b";
  name = codes "INBOX";
  path = codes "INBOX";
  role = some FolderRole.inbox;
  unread_count = 0;
  total_count = 0;
  parent = none;
}

abbrev sent : Folder
sent = record folder { id = codes "Sent"; role = some FolderRole.sent }

abbrev outside : Outside
outside = record {
  json = record {
    encode_addresses = λ addresses. ok (codes "[…]");
    encode_texts = λ texts. ok (codes "[…]");
    encode_flags = λ flags. ok (codes "{}");
  };
  valid = λ n. true;
  clock = λ n. n;
  fresh = λ n. codes "t" ++ n ∷ [];
  order = λ attachments. attachments;
}

-- The servers count the calls.
abbrev reader : Reader ℕ
reader = record {
  list_folders = λ n. (ok (folder ∷ sent ∷ []), suc n);
  list_messages = λ id since limit n. (
    elim since [
      | none ↦ err (MailError.network (codes "unreachable"))
      | some state ↦ err (MailError.uid_validity_changed (codes "INBOX") 1 2)
    ],
    suc n,
  );
  list_known_ids = λ id n. (ok [], suc n);
  fetch_raw_message = λ id n. (ok [], suc n);
}

abbrev stored : Cycle ℕ
stored = record {
  db = record empty_db {
    folders = record (to_params folder) { sync_state = some (codes "1:7:9") } ∷ [];
  };
  outside = 0;
  report = no_report;
}

unreachable :
    (sync_folder reader outside none folder none stored).0
    ≡ err (SyncError.mail (MailError.network (codes "unreachable")))
unfolding sync_folder qsl.Prelude.eq_text
unreachable = refl

sync_folder-cursor_example :
    Held
      (cursor (codes "INBOX") stored.db.folders)
      (cursor (codes "INBOX") (sync_folder reader outside none folder none stored).1.db.folders)
sync_folder-cursor_example =
    sync_folder-cursor reader outside none folder none stored
      (SyncError.mail (MailError.network (codes "unreachable"))) unreachable (codes "INBOX")

sync_account-outcomes_example :
    (outcomes : List (FolderId × Result SyncError SyncReport)) × ((sync_account reader outside none
        none empty_db 0).0
      ≡ ok outcomes)
    × (map (λ o. o.0) outcomes ≡ codes "INBOX" ∷ codes "Sent" ∷ [])
sync_account-outcomes_example =
    sync_account-outcomes reader outside none none empty_db 0 (folder ∷ sent ∷ []) refl
