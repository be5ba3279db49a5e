-- ===== src/Sync/Cycle/Account.antt =====
-- crates/sync/src/lib.rs, `sync_account`: the folders of an account.
use qsl.Prelude.{ℕ, ◌≡◌, refl, ap, ◌∙◌, List, [], ◌∷◌, map, Option}
use qsl.Prelude.Result.{Result, ok, err, ok_unique}
use qsl.Core.Error.{MailError}
use qsl.Core.Folder.{Folder}
use qsl.Core.Ids.{FolderId}
use qsl.Storage.Db.{Db}
use qsl.Sync.Folder.{SyncReport}
use qsl.Sync.Plan.{Outside}
use qsl.Sync.History.{SyncError}
use qsl.Sync.Cycle.{Reader, BlobStore, sync_folders, sync_account}

module _ {S : Type 0} (reader : Reader S) (outside : Outside) (blobs : Option (BlobStore S))
    (limit : Option ℕ) where
  sync_folders-ids :
      (folders : List Folder) (d : Db) (s : S)
      → map (λ o. o.0) (sync_folders reader outside blobs limit folders d s).0
        ≡ map (λ f. f.id) folders
  unfolding sync_folders
  sync_folders-ids [] d s = refl
  sync_folders-ids (folder ∷ folders) d s =
      ap (λ ids. folder.id ∷ ids) (sync_folders-ids folders _ _)

  -- Where the server lists its folders, the account's cycle succeeds, whatever fails in the cycle of a
  -- folder: there is one outcome for each folder, in the order of the list.
  pub sync_account-outcomes :
      (d : Db) (s : S) (folders : List Folder)
      → (reader.list_folders s).0 ≡ ok folders
      → (outcomes : List (FolderId × Result SyncError SyncReport)) × ((sync_account reader outside
            blobs limit d s).0
          ≡ ok outcomes)
        × (map (λ o. o.0) outcomes ≡ map (λ f. f.id) folders)
  unfolding sync_account
  sync_account-outcomes d s folders listed = go (reader.list_folders s).0 listed
    where
      after : S
      after = (reader.list_folders s).1

      go :
          (answer : Result MailError (List Folder))
          → answer ≡ ok folders
          → (outcomes : List (FolderId × Result SyncError SyncReport)) × ((elim answer
                as (λ _.
                  Result SyncError (List (FolderId × Result SyncError SyncReport)) × (Db × S)) [
                    | err e ↦ (err (SyncError.mail e), (d, after))
                    | ok fs ↦ (
                      ok (sync_folders reader outside blobs limit fs d after).0,
                      (sync_folders reader outside blobs limit fs d after).1,
                    )
                  ]).0
              ≡ ok outcomes)
            × (map (λ o. o.0) outcomes ≡ map (λ f. f.id) folders)
      go (err e) h = absurd cc
      go (ok fs) h = (
        _,
        refl,
        sync_folders-ids fs d after ∙ ap (map (λ f. f.id)) (ok_unique (ok fs) fs folders refl h),
      )
