-- ===== src/Sync/Cycle/Cursor.antt =====
-- crates/sync/src/lib.rs, `sync_folder`: the cursor is the last that a cycle writes.
use qsl.Prelude.{
  Bool, true, false, if◌then◌else◌, ℕ, ◌+◌, ◌≡◌, refl, inl, List, [], ◌∷◌, Option, none, some,
}
use qsl.Prelude.Result.{Result, ok, err}
use qsl.Core.Error.{MailError}
use qsl.Core.Ids.{FolderId}
use qsl.Core.Folder.{Folder, SyncState}
use qsl.Core.Message.{MessageHeaders}
use qsl.Storage.Db.Moves.{Moves-ReadOnly}
use qsl.Storage.Folders.Cursors.{
  Cursors, cursors, insert-Moves, update-Moves, clear-Moves, find-ReadOnly, get-ReadOnly,
  put_sync_state-Atomic,
}
use qsl.Sync.Folder.{Cycle, SyncReport}
use qsl.Sync.Plan.{Outside}
use qsl.Storage.Folders
use qsl.Storage.Folders.{clear_sync_state}
use qsl.Sync.History.{SyncError}
use qsl.Sync.Cycle.{
  MessageList, Reader, BlobStore, Run, return, ◌>>=◌, lift, count, in_db, from_mail,
  is_uid_validity_changed, list_or_recover, list_again, get_report, fetch_bodies, deleting,
  upsert_folder, reconcile_folder, apply_delta, sync_folder,
}
use qsl.Sync.Cycle.Steps.{
  Steady, Guarded, Sure, Steady-return, Steady-in_db, Steady-pass, Steady-ask, Steady-lift,
  Guarded-in_db, Steady-bind, Guarded-bind, Guarded-then, Sure-bind,
}
use qsl.Sync.Cycle.Writes.{chunk-Moves}
use qsl.Sync.Cycle.Passes.{remove_reported-Steady, reconcile-Steady, flag_updates-Steady}

module _ {S : Type 0} where
  Steady-count : (f : SyncReport → SyncReport) → Steady (count {S = S} f)
  unfolding count
  Steady-count f = record { at = λ c id. inl refl }

  Sure-return : {A : Type 0} (a : A) → Sure (return {S = S} a)
  unfolding return
  Sure-return a = record { at = λ c. (a, refl) }

  module _ (reader : Reader S) where
    list_again-Steady :
        (folder : FolderId) (limit : Option ℕ) → Steady (list_again reader folder limit)
    unfolding list_again
    list_again-Steady folder limit = Steady-bind _ _ (Steady-in_db _ (clear-Moves folder)) λ u.
        Steady-bind _ _ (Steady-ask (reader.list_messages folder none limit))
          λ answer. Steady-lift (from_mail answer)

    list_or_recover-Steady :
        (folder : FolderId) (prior : Option SyncState) (limit : Option ℕ)
        → Steady (list_or_recover reader folder prior limit)
    unfolding list_or_recover
    list_or_recover-Steady folder prior limit = Steady-bind _ _ (Steady-ask _) go
      where
        pick :
            (e : MailError) (b : Bool)
            → Steady (
                if◌then◌else◌ {A = Run S MessageList} b
                  (list_again reader folder limit)
                  (lift (err (SyncError.mail e))))
        pick e true = list_again-Steady folder limit
        pick e false = Steady-lift (err (SyncError.mail e))

        go :
            (answer : Result MailError MessageList)
            → Steady (elim answer as (λ _. Run S MessageList) [
              | ok list ↦ return list
              | err e ↦
                  if is_uid_validity_changed e
                  then list_again reader folder limit
                  else lift (err (SyncError.mail e))
            ])
        go (ok list) = Steady-return list
        go (err e) = pick e (is_uid_validity_changed e)

    fetch_bodies-Sure :
        (blobs : BlobStore S) (headers : List MessageHeaders)
        → Sure (fetch_bodies reader blobs headers)
    unfolding fetch_bodies
    fetch_bodies-Sure blobs [] = record { at = λ c. (tt, refl) }
    fetch_bodies-Sure blobs (h ∷ headers) = record {
      at = λ c. (fetch_bodies-Sure blobs headers).at _;
    }

    module _ (outside : Outside) (blobs : Option (BlobStore S)) where
      upsert_folder-Steady : (folder : Folder) → Steady (upsert_folder reader outside blobs folder)
      unfolding upsert_folder
      upsert_folder-Steady folder =
          Steady-bind _ _ (Steady-in_db _ (Moves-ReadOnly cursors _ (find-ReadOnly folder.id))) go
        where
          go :
              (found : Option Folder)
              → Steady (elim found as (λ _. Run S (Unit {0})) [
                | some _ ↦ in_db (Folders.update folder)
                | none ↦ in_db (Folders.insert folder)
              ])
          go none = Steady-in_db _ (insert-Moves folder)
          go (some f) = Steady-in_db _ (update-Moves folder)

      reconcile_folder-Steady :
          (folder : Folder) (prior : Option SyncState)
          → Steady (reconcile_folder reader outside blobs folder prior)
      unfolding reconcile_folder
      reconcile_folder-Steady folder none = Steady-return tt
      reconcile_folder-Steady folder (some state) = Steady-bind _ _ (Steady-ask _) λ answer.
          Steady-pass _ (reconcile-Steady (deleting reader outside blobs folder) folder.id answer)

      apply_delta-Guarded :
          (folder : Folder) (prior : Option SyncState) (list : MessageList)
          → Guarded (apply_delta reader outside blobs folder prior list)
      unfolding apply_delta
      apply_delta-Guarded folder prior list =
          Guarded-bind _ _ (Steady-in_db _ (chunk-Moves outside list.messages)) λ a.
            Guarded-bind _ _
              (Steady-count
                (λ r. record r { added = r.added + a.added; updated = r.updated + a.updated }))
              λ u.
                Guarded-bind _ _
                  (Steady-pass _
                    (remove_reported-Steady (deleting reader outside blobs folder) list.removed))
                  λ v. Guarded-bind _ _ (reconcile_folder-Steady folder prior) λ w.
                    Guarded-bind _ _
                      (Steady-pass _ (flag_updates-Steady outside.json list.flag_updates))
                      λ x.
                        Guarded-then _ _ (Guarded-in_db _ (put_sync_state-Atomic list.new_state))
                          λ y. Sure-return a.new_headers

      sync_folder-Guarded :
          (folder : Folder) (limit : Option ℕ)
          → Guarded (sync_folder reader outside blobs folder limit)
      unfolding sync_folder
      sync_folder-Guarded folder limit = Guarded-bind _ _ (upsert_folder-Steady folder) λ u.
          Guarded-bind _ _ (Steady-in_db _ (Moves-ReadOnly cursors _ (get-ReadOnly folder.id)))
            λ prior. Guarded-bind _ _ (list_or_recover-Steady folder.id prior limit) λ list.
              Guarded-then _ _ (apply_delta-Guarded folder prior list)
                λ new_headers. finished new_headers blobs
        where
          finished :
              (headers : List MessageHeaders) (o : Option (BlobStore S))
              → Sure (
                  elim o as (λ _. Run S (Unit {0})) [
                    | none ↦ return tt
                    | some store ↦ fetch_bodies reader store headers
                  ]
                  >>= λ _. get_report)
          finished headers none =
              Sure-bind (return tt) (λ _. get_report) (Sure-return tt)
                λ u. record { at = λ c. (c.report, refl) }
          finished headers (some store) =
              Sure-bind (fetch_bodies reader store headers) (λ _. get_report)
                (fetch_bodies-Sure store headers) λ u. record { at = λ c. (c.report, refl) }

-- A cycle that fails, in whichever of its steps, has advanced no cursor: that of each folder is the
-- one from before, or is cleared.
pub sync_folder-cursor :
    {S : Type 0} (reader : Reader S) (outside : Outside) (blobs : Option (BlobStore S))
    (folder : Folder) (limit : Option ℕ) (c : Cycle S) (e : SyncError)
    → (sync_folder reader outside blobs folder limit c).0 ≡ err e
    → Cursors c.db.folders (sync_folder reader outside blobs folder limit c).1.db.folders
sync_folder-cursor reader outside blobs folder limit c e failed =
    (sync_folder-Guarded reader outside blobs folder limit).at c e failed
