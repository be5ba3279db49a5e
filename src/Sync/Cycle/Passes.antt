-- ===== src/Sync/Cycle/Passes.antt =====
-- crates/sync/src/lib.rs: the passes of a cycle keep the cursors.
use qsl.Prelude.{◌+◌, refl, inl, Bool, true, false, List, [], ◌∷◌, Option, if◌then◌else◌}
use qsl.Prelude.Result.{Result, ok, err}
use qsl.Core.Error.{StorageError, MailError}
use qsl.Core.Ids.{FolderId, MessageId}
use qsl.Core.Message.{MessageFlags}
use qsl.Storage.Db.{Db}
use qsl.Storage.Db.Moves.{Moves, Moves-ReadOnly}
use qsl.Storage.Db.ReadOnly.{ReadOnly-query}
use qsl.Storage.Folders.Cursors.{Cursors, Held-trans, cursors}
use qsl.Storage.Messages.{Json}
use qsl.Storage.Messages.Statements.{delete_message, list_ids_by_folder, update_flags}
use qsl.Sync.Folder.{
  Cycle, contains_id, is_not_found, remove_message, remove_reported, prune, reconcile,
  apply_flag_updates, delete_body_blob,
}
use qsl.Sync.Cycle.Steps.{Steady}
use qsl.Sync.Cycle.Writes.{delete-Moves, update_flags-Moves}

module _ {S : Type 0} (blobs : Option (MessageId → S → S)) where
  remove_message-Steady : (id : MessageId) → Steady (remove_message blobs id)
  unfolding remove_message
  remove_message-Steady id = record {
    at = λ c. go c (delete_message id c.db) ((delete-Moves id).at c.db);
  }
    where
      go :
          (c : Cycle S) (t : Result StorageError (Unit {0}) × Db)
          → Cursors c.db.folders t.1.folders
          → Cursors c.db.folders
              (elim t.0 as (λ _. Result StorageError (Unit {0}) × Cycle S) [
                | ok _ ↦ (
                  ok tt,
                  record c {
                    db = t.1;
                    outside = delete_body_blob blobs id c.outside;
                    report = record c.report { removed = c.report.removed + 1 };
                  },
                )
                | err e ↦ (if is_not_found e then ok tt else err e, record c { db = t.1 })
              ]).1.db.folders
      go c (ok u, d) g = g
      go c (err e, d) g = g

  -- One step, then the others unless it failed.
  then-Cursors :
      (c : Cycle S) (t : Result StorageError (Unit {0}) × Cycle S)
      (rest : Cycle S → Result StorageError (Unit {0}) × Cycle S)
      → Cursors c.db.folders t.1.db.folders
      → ((c' : Cycle S) → Cursors c'.db.folders (rest c').1.db.folders)
      → Cursors c.db.folders
          (elim t.0 as (λ _. Result StorageError (Unit {0}) × Cycle S) [
            | err e ↦ (err e, t.1)
            | ok _ ↦ rest t.1
          ]).1.db.folders
  then-Cursors c (ok u, c') rest g h = λ id. Held-trans _ _ _ (g id) (h c' id)
  then-Cursors c (err e, c') rest g h = g

  remove_reported-at :
      (ids : List MessageId) (c : Cycle S)
      → Cursors c.db.folders (remove_reported blobs ids c).1.db.folders
  unfolding remove_reported
  remove_reported-at [] c = λ id. inl refl
  remove_reported-at (id ∷ ids) c =
      then-Cursors c (remove_message blobs id c) (remove_reported blobs ids)
        ((remove_message-Steady id).at c) (remove_reported-at ids)

  prune-at :
      (live local : List MessageId) (c : Cycle S)
      → Cursors c.db.folders (prune blobs live local c).1.db.folders
  unfolding prune
  prune-at live [] c = λ id. inl refl
  prune-at live (id ∷ local) c =
      then-Cursors c (if contains_id live id then (ok tt, c) else remove_message blobs id c)
        (prune blobs live local) (skipped (contains_id live id)) (prune-at live local)
    where
      skipped :
          (b : Bool)
          → Cursors c.db.folders
              (if◌then◌else◌ {A = Result StorageError (Unit {0}) × Cycle S} b
                (ok tt, c)
                (remove_message blobs id c)).1.db.folders
      skipped true = λ id'. inl refl
      skipped false = (remove_message-Steady id).at c

  pub remove_reported-Steady : (ids : List MessageId) → Steady (remove_reported blobs ids)
  remove_reported-Steady ids = record { at = remove_reported-at ids }

  pub reconcile-Steady :
      (folder : FolderId) (answer : Result MailError (List MessageId))
      → Steady (reconcile blobs folder true answer)
  unfolding reconcile list_ids_by_folder
  reconcile-Steady folder (err e) = record { at = λ c id. inl refl }
  reconcile-Steady folder (ok []) = record { at = λ c id. inl refl }
  reconcile-Steady folder (ok (id ∷ live)) = record {
    at = λ c. go c (list_ids_by_folder folder c.db) (listed.at c.db);
  }
    where
      listed : Moves cursors (list_ids_by_folder folder)
      listed = Moves-ReadOnly cursors _ (ReadOnly-query _)

      go :
          (c : Cycle S) (t : Result StorageError (List MessageId) × Db)
          → Cursors c.db.folders t.1.folders
          → Cursors c.db.folders
              (elim t.0 as (λ _. Result StorageError (Unit {0}) × Cycle S) [
                | err e ↦ (err e, record c { db = t.1 })
                | ok local ↦ prune blobs (id ∷ live) local (record c { db = t.1 })
              ]).1.db.folders
      go c (err e, d) g = g
      go c (ok local, d) g =
          λ i. Held-trans _ _ _ (g i) (prune-at (id ∷ live) local (record c { db = d }) i)

module _ {S : Type 0} (json : Json) where
  flag_updates-at :
      (updates : List (MessageId × MessageFlags)) (c : Cycle S)
      → Cursors c.db.folders (apply_flag_updates json updates c).1.db.folders
  unfolding apply_flag_updates
  flag_updates-at [] c = λ id. inl refl
  flag_updates-at ((id, flags) ∷ updates) c =
      go (update_flags json id flags c.db) ((update_flags-Moves json id flags).at c.db)
        (flag_updates-at updates)
    where
      pick :
          (e : StorageError) (d : Db) (b : Bool)
          → Cursors c.db.folders d.folders
          → ((c' : Cycle S)
              → Cursors c'.db.folders (apply_flag_updates json updates c').1.db.folders)
          → Cursors c.db.folders
              (if◌then◌else◌ {A = Result StorageError (Unit {0}) × Cycle S} b
                (apply_flag_updates json updates (record c { db = d }))
                (err e, record c { db = d })).1.db.folders
      pick e d true g h = λ i. Held-trans _ _ _ (g i) (h _ i)
      pick e d false g h = g

      go :
          (t : Result StorageError (Unit {0}) × Db)
          → Cursors c.db.folders t.1.folders
          → ((c' : Cycle S)
              → Cursors c'.db.folders (apply_flag_updates json updates c').1.db.folders)
          → Cursors c.db.folders
              (elim t.0 as (λ _. Result StorageError (Unit {0}) × Cycle S) [
                | ok _ ↦ apply_flag_updates json updates (record c {
                  db = t.1;
                  report = record c.report { flag_updates = c.report.flag_updates + 1 };
                })
                | err e ↦
                    if is_not_found e
                    then apply_flag_updates json updates (record c { db = t.1 })
                    else (err e, record c { db = t.1 })
              ]).1.db.folders
      go (ok u, d) g h = λ i. Held-trans _ _ _ (g i) (h _ i)
      go (err e, d) g h = pick e d (is_not_found e) g h

  pub flag_updates-Steady :
      (updates : List (MessageId × MessageFlags)) → Steady (apply_flag_updates {S = S} json updates)
  flag_updates-Steady updates = record { at = flag_updates-at updates }
