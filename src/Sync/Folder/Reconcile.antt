-- ===== src/Sync/Folder/Reconcile.antt =====
-- crates/sync/src/lib.rs: what the removals and the reconciliation pass of `sync_folder` leave behind.
use qsl.Prelude.{
  subst, ◌+◌, ◌≡◌, refl, sym, ap, ◌∙◌, arith, List, [], ◌∷◌, filter, any, length, Option, true,
  false, not, if◌then◌else◌, Bool-cases, inl, inr,
}
use qsl.Prelude.Result.{Result, ok, err}
use qsl.Core.Ids.{FolderId, MessageId}
use qsl.Core.Error.{StorageError}
use qsl.Storage.Db.{statement}
use qsl.Storage.Messages.{has_id}
use qsl.Storage.Messages.Statements.{delete_message, list_ids_by_folder}
use qsl.Sync.Folder.Stale.{
  without, stale, without-cons, without-nil, stale-kept, stale-removed, ids_of, is_stale,
  without-stale,
}
use qsl.Sync.Folder.{
  Cycle, contains_id, delete_body_blob, remove_message, remove_reported, prune, reconcile,
}

module _ {S : Type 0} (blobs : Option (MessageId → S → S)) where
  -- The cycle after one message was removed.
  abbrev removed_one : MessageId → Cycle S → Cycle S
  removed_one id c = record c {
    db = record c.db { messages = filter (λ m. not (has_id id m)) c.db.messages };
    outside = delete_body_blob blobs id c.outside;
    report = record c.report { removed = c.report.removed + 1 };
  }

  remove_message-quiet :
      (id : MessageId) (c : Cycle S)
      → c.db.faults ≡ []
      → remove_message blobs id c ≡ (ok tt, removed_one id c)
  unfolding remove_message delete_message statement
  remove_message-quiet id c quiet = ground arith

  -- What is said of a loop that removes `ids` from the cycle `c`.
  abbrev pub Removes : List MessageId → Cycle S → Result StorageError (Unit {0}) × Cycle S → Type 0
  Removes ids c t =
      (t.0 ≡ ok tt)
      × (t.1.db ≡ record c.db { messages = without ids c.db.messages })
      × (t.1.report.removed ≡ c.report.removed + length ids)

  Removes-nil : (c : Cycle S) → Removes [] c (ok tt, c)
  Removes-nil c = (
    refl,
    ap (λ ms. record c.db { messages = ms }) (sym (without-nil c.db.messages)),
    omega arith,
  )

  Removes-cons :
      (id : MessageId) (ids : List MessageId) (c : Cycle S)
      (t : Result StorageError (Unit {0}) × Cycle S)
      → Removes ids (removed_one id c) t
      → Removes (id ∷ ids) c t
  Removes-cons id ids c t (r, d, n) = (
    r,
    d ∙ ap (λ ms. record c.db { messages = ms }) (without-cons id ids c.db.messages),
    n ∙ omega arith,
  )

  prune-kept :
      (live local : List MessageId) (id : MessageId) (c : Cycle S)
      → contains_id live id ≡ true
      → prune blobs live (id ∷ local) c ≡ prune blobs live local c
  unfolding prune
  prune-kept live local id c e = ground arith

  prune-removed :
      (live local : List MessageId) (id : MessageId) (c : Cycle S)
      → contains_id live id ≡ false
      → c.db.faults ≡ []
      → prune blobs live (id ∷ local) c ≡ prune blobs live local (removed_one id c)
  unfolding prune
  prune-removed live local id c e quiet =
      ap (λ b. after (if b then (ok tt, c) else remove_message blobs id c)) e
      ∙ ap after (remove_message-quiet id c quiet)
    where
      after : Result StorageError (Unit {0}) × Cycle S → Result StorageError (Unit {0}) × Cycle S
      after t = elim t.0 [ err e' ↦ (err e', t.1) | ok _ ↦ prune blobs live local t.1 ]

  prune-Removes :
      (live local : List MessageId) (c : Cycle S)
      → c.db.faults ≡ []
      → Removes (stale live local) c (prune blobs live local c)
  prune-Removes live [] c quiet = unfold prune in Removes-nil c
  prune-Removes live (id ∷ local) c quiet = elim (Bool-cases (contains_id live id)) [
    | inl e ↦
        subst (λ ids. Removes ids c (prune blobs live (id ∷ local) c))
          (sym (stale-kept live local id e))
          (subst (Removes (stale live local) c) (sym (prune-kept live local id c e))
            (prune-Removes live local c quiet))
    | inr e ↦
        subst (λ ids. Removes ids c (prune blobs live (id ∷ local) c))
          (sym (stale-removed live local id e))
          (subst (Removes (id ∷ stale live local) c) (sym (prune-removed live local id c e quiet)) (
            Removes-cons id (stale live local) c (prune blobs live local (removed_one id c))
              (prune-Removes live local (removed_one id c) quiet)))
  ]

  reported-removed :
      (ids : List MessageId) (id : MessageId) (c : Cycle S)
      → c.db.faults ≡ []
      → remove_reported blobs (id ∷ ids) c ≡ remove_reported blobs ids (removed_one id c)
  unfolding remove_reported
  reported-removed ids id c quiet = ap after (remove_message-quiet id c quiet)
    where
      after : Result StorageError (Unit {0}) × Cycle S → Result StorageError (Unit {0}) × Cycle S
      after t = elim t.0 [ err e ↦ (err e, t.1) | ok _ ↦ remove_reported blobs ids t.1 ]

  -- Where no statement fails: the loop over the ids that the server reports as removed succeeds, takes
  -- away the rows with these ids and no other, and counts every id of the report as removed, also one
  -- that no row has.
  pub remove_reported-Removes :
      (ids : List MessageId) (c : Cycle S)
      → c.db.faults ≡ []
      → Removes ids c (remove_reported blobs ids c)
  remove_reported-Removes [] c quiet = unfold remove_reported in Removes-nil c
  remove_reported-Removes (id ∷ ids) c quiet =
      subst (Removes (id ∷ ids) c) (sym (reported-removed ids id c quiet)) (
        Removes-cons id ids c (remove_reported blobs ids (removed_one id c))
          (remove_reported-Removes ids (removed_one id c) quiet))

  -- Where no statement fails: a reconciliation with a non-empty list of ids succeeds, takes away just
  -- the rows with the ids of the folder's rows that are not on the list, counts them, and leaves no row
  -- of the folder whose id is not on the list.
  pub reconcile-Removes :
      (folder : FolderId) (id : MessageId) (live : List MessageId) (c : Cycle S)
      → c.db.faults ≡ []
      → Removes
          (stale (id ∷ live) (ids_of folder c.db.messages))
          c
          (reconcile blobs folder true (ok (id ∷ live)) c)
        × (any
              (is_stale (id ∷ live) folder)
              (reconcile blobs folder true (ok (id ∷ live)) c).1.db.messages
            ≡ false)
  reconcile-Removes folder id live c quiet = (
    removes,
    ap (λ d. any (is_stale (id ∷ live) folder) d.messages) removes.1
        ∙ without-stale (id ∷ live) folder c.db.messages,
  )
    where
      local : List MessageId
      local = ids_of folder c.db.messages

      turn : reconcile blobs folder true (ok (id ∷ live)) c ≡ prune blobs (id ∷ live) local c
      turn = unfold reconcile list_ids_by_folder statement in ground arith

      removes : Removes (stale (id ∷ live) local) c (reconcile blobs folder true (ok (id ∷ live)) c)
      removes =
          subst (Removes (stale (id ∷ live) local) c) (sym turn)
            (prune-Removes (id ∷ live) local c quiet)
