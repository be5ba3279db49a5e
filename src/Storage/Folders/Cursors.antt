-- ===== src/Storage/Folders/Cursors.antt =====
-- crates/storage/src/repos/folders.rs, sync_states.rs: what the statements do to the stored cursors.
use qsl.Prelude.{
  fun_ext, ◌≡◌, refl, sym, ap, subst, ◌∙◌, arith, ◌⊎◌, inl, inr, Bool, true, false, not, ◌||◌, List,
  [], ◌∷◌, ◌++◌, map, any, Option, none, some, Text, eq_text, if◌then◌else◌,
}
use qsl.Prelude.Result.{Result, ok, err}
use qsl.Core.Error.{StorageError}
use qsl.Core.Ids.{FolderId}
use qsl.Core.Folder.{Folder, SyncState}
use qsl.Storage.Rows.{FolderRow}
use qsl.Storage.Db.{Db, Action, statement}
use qsl.Storage.Db.Moves.{Order, Moves, Moves-statement}
use qsl.Storage.Db.Atomic.{Atomic, Atomic-statement}
use qsl.Storage.Db.Success.{statement-ok}
use qsl.Storage.Db.ReadOnly.{with_faults, ReadOnly, ReadOnly-query, ReadOnly-bind, ReadOnly-lift}
use qsl.Storage.Folders
use qsl.Storage.Folders.{
  folder_with_id, has_folder_id, set_cursor, get_sync_state, clear_sync_state, put_sync_state,
  read_folder, path_taken, unique_failed, updated_folder,
}

-- The cursor of a folder, where it is stored with one.
abbrev pub cursor : FolderId → List FolderRow → Option Text
cursor id rows = elim (folder_with_id id rows) [ none ↦ none | some r ↦ r.sync_state ]

-- A cursor stays, or is cleared.
abbrev pub Held : Option Text → Option Text → Type 0
Held before after = (after ≡ before) ⊎ (after ≡ none)

abbrev pub Cursors : List FolderRow → List FolderRow → Type 0
Cursors before after = (id : FolderId) → Held (cursor id before) (cursor id after)

pub Held-trans : (a b c : Option Text) → Held a b → Held b c → Held a c
Held-trans a b c (inl f) (inl g) = inl (g ∙ f)
Held-trans a b c (inr f) (inl g) = inr (g ∙ f)
Held-trans a b c f (inr g) = inr g

Held-if :
    (b : Bool) (x x' y y' : Option Text)
    → Held x x'
    → Held y y'
    → Held (if b then x else y) (if b then x' else y')
Held-if true x x' y y' h k = h
Held-if false x x' y y' h k = k

abbrev pub cursors : Order
cursors = record {
  rel = λ d e. Cursors d.folders e.folders;
  refl_at = λ d faults id. inl refl;
  trans = λ d e f g h id. Held-trans _ _ _ (g id) (h id);
}

-- A new row has no cursor.
cursor-append :
    (id : FolderId) (rows : List FolderRow) (r : FolderRow)
    → r.sync_state ≡ none
    → cursor id (rows ++ r ∷ []) ≡ cursor id rows
unfolding folder_with_id
cursor-append id [] r e = ground (arith, e)
cursor-append id (m ∷ rows) r e = ground (arith, cursor-append id rows r e)

cursor-cons :
    (id : FolderId) (r : FolderRow) (rows : List FolderRow)
    → cursor id (r ∷ rows) ≡ (if eq_text r.id id then r.sync_state else cursor id rows)
unfolding folder_with_id
cursor-cons id r rows = ground arith

-- Rows that are rewritten in place, each with its cursor or none.
cursor-map :
    (id : FolderId) (f : FolderRow → FolderRow) (rows : List FolderRow)
    → ((r : FolderRow) → (f r).id ≡ r.id)
    → ((r : FolderRow) → Held r.sync_state (f r).sync_state)
    → Held (cursor id rows) (cursor id (map f rows))
unfolding folder_with_id
cursor-map id f [] same held = inl refl
cursor-map id f (r ∷ rows) same held =
    subst (λ x. Held x (cursor id (f r ∷ map f rows))) (sym (cursor-cons id r rows))
      (subst (Held (if eq_text r.id id then r.sync_state else cursor id rows))
        (sym (
          cursor-cons id (f r) (map f rows)
          ∙ ap (λ i. if eq_text i id then (f r).sync_state else cursor id (map f rows)) (same r)))
        (Held-if (eq_text r.id id) _ _ _ _ (held r) (cursor-map id f rows same held)))

pub insert-Moves : (f : Folder) → Moves cursors (Folders.insert f)
unfolding Folders.insert Folders.to_params
insert-Moves f =
    Moves-statement cursors _ (record {
      at = λ d id. go d id (any (has_folder_id f.id) d.folders || path_taken f d.folders);
    })
  where
    go :
        (d : Db) (id : FolderId) (b : Bool)
        → Held (cursor id d.folders) (
            cursor id
              (if◌then◌else◌ {A = Result StorageError (Unit {0}) × Db} b
                (err unique_failed, d)
                (
                  ok (tt {0}),
                  record d { folders = d.folders ++ Folders.to_params f ∷ [] },
                )).1.folders)
    go d id true = inl refl
    go d id false = inl (cursor-append id d.folders (Folders.to_params f) refl)

pub update-Moves : (f : Folder) → Moves cursors (Folders.update f)
unfolding Folders.update
update-Moves f =
    Moves-statement cursors _ (record {
      at = λ d id. go d id (any (has_folder_id f.id) d.folders) (path_taken f d.folders);
    })
  where
    go :
        (d : Db) (id : FolderId) (b taken : Bool)
        → Held (cursor id d.folders) (
            cursor id
              (if◌then◌else◌ {A = Result StorageError (Unit {0}) × Db}
                (not b)
                (err StorageError.row_not_found, d)
                (if◌then◌else◌ {A = Result StorageError (Unit {0}) × Db} taken
                  (err unique_failed, d)
                  (
                    ok (tt {0}),
                    record d { folders = map (updated_folder f) d.folders },
                  ))).1.folders)
    go d id true true = inl refl
    go d id true false =
        cursor-map id (updated_folder f) d.folders (λ r. ground arith) (λ r. inl (ground arith))
    go d id false taken = inl refl

pub clear-Moves : (id : FolderId) → Moves cursors (clear_sync_state id)
unfolding clear_sync_state
clear-Moves folder = Moves-statement cursors _ (record {
  at = λ d id. cursor-map id _ d.folders (λ r. ground arith) λ r. cleared (eq_text r.id folder) r;
})
  where
    cleared :
        (b : Bool) (r : FolderRow)
        → Held r.sync_state (if b then record r { sync_state = none } else r).sync_state
    cleared true r = inr refl
    cleared false r = inl refl

pub find-ReadOnly : (id : FolderId) → ReadOnly (Folders.find id)
unfolding Folders.find
find-ReadOnly id =
    ReadOnly-bind _ (λ row d. (read_folder row, d)) (ReadOnly-query _)
      λ row. ReadOnly-lift (read_folder row)

pub get-ReadOnly : (id : FolderId) → ReadOnly (get_sync_state id)
unfolding get_sync_state
get-ReadOnly id = ReadOnly-query _

module _ (state : SyncState) where
  set_cursor-stored :
      (rows : List FolderRow)
      → any (has_folder_id state.folder_id) rows ≡ true
      → cursor state.folder_id (set_cursor state.folder_id (some state.backend_state) rows)
        ≡ some state.backend_state
  unfolding folder_with_id
  set_cursor-stored [] there = absurd cc
  set_cursor-stored (r ∷ rows) there = ground (arith, set_cursor-stored rows)

  -- The statement, on whether there is such a folder.
  abbrev put_row : Bool → Action (Unit {0})
  put_row true d = (
    ok tt,
    record d { folders = set_cursor state.folder_id (some state.backend_state) d.folders },
  )
  put_row false d = (err StorageError.row_not_found, d)

  put_row-same :
      put_sync_state state
      ≡ statement λ d. put_row (any (has_folder_id state.folder_id) d.folders) d
  unfolding put_sync_state
  put_row-same = ap statement (fun_ext λ d. go d (any (has_folder_id state.folder_id) d.folders))
    where
      go :
          (d : Db) (b : Bool)
          → ◌≡◌ {A = Result StorageError (Unit {0}) × Db}
              (if b
                then (
                  ok tt,
                  record d {
                    folders = set_cursor state.folder_id (some state.backend_state) d.folders;
                  },
                )
                else (err StorageError.row_not_found, d))
              (put_row b d)
      go d true = refl
      go d false = refl

  -- Where it fails, no table changes.
  pub put_sync_state-Atomic : Atomic (put_sync_state state)
  put_sync_state-Atomic = subst Atomic (sym put_row-same) (
      Atomic-statement _
        (record { at = λ d e. go d e (any (has_folder_id state.folder_id) d.folders) }))
    where
      go :
          (d : Db) (e : StorageError) (b : Bool)
          → (put_row b d).0 ≡ err e
          → (put_row b d).1 ≡ with_faults d (put_row b d).1.faults
      go d e true failed = absurd cc
      go d e false failed = refl

  -- Where it succeeds, the cursor is stored.
  pub put_sync_state-stored :
      (d : Db)
      → (put_sync_state state d).0 ≡ ok tt
      → cursor state.folder_id (put_sync_state state d).1.folders ≡ some state.backend_state
  put_sync_state-stored d went =
      let (faults, ran) =
        statement-ok (λ e. put_row (any (has_folder_id state.folder_id) e.folders) e) d tt
          (sym (ap (λ m. (m d).0) put_row-same) ∙ went) in
      subst
        (λ (t : Result StorageError (Unit {0}) × Db).
          cursor state.folder_id t.1.folders ≡ some state.backend_state)
        (sym (ap (λ m. m d) put_row-same ∙ ran))
        (go (with_faults d faults) (any (has_folder_id state.folder_id) d.folders) refl
          (sym (ap (λ t. t.0) (ap (λ m. m d) put_row-same ∙ ran)) ∙ went))
    where
      go :
          (e : Db) (b : Bool)
          → any (has_folder_id state.folder_id) e.folders ≡ b
          → (put_row b e).0 ≡ ok tt
          → cursor state.folder_id (put_row b e).1.folders ≡ some state.backend_state
      go e true there went = set_cursor-stored e.folders there
      go e false there went = absurd cc
