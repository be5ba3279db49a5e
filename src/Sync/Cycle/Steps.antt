-- ===== src/Sync/Cycle/Steps.antt =====
-- crates/sync/src/lib.rs: the steps of a cycle that advance no cursor, one rule for each way to build a step.
use qsl.Prelude.{◌≡◌, refl, ap, inl, List}
use qsl.Prelude.Result.{Result, ok, err}
use qsl.Core.Error.{StorageError}
use qsl.Storage.Rows.{FolderRow}
use qsl.Storage.Db.{Db, Action}
use qsl.Storage.Db.Moves.{Moves}
use qsl.Storage.Db.Atomic.{Atomic}
use qsl.Storage.Folders.Cursors.{Cursors, Held-trans, cursor, cursors}
use qsl.Sync.Folder.{Cycle}
use qsl.Sync.History.{SyncError}
use qsl.Sync.Cycle.{Run, return, ◌>>=◌, in_db, pass, ask, lift, from_storage}

Cursors-trans : (a b c : List FolderRow) → Cursors a b → Cursors b c → Cursors a c
Cursors-trans a b c g h id = Held-trans _ _ _ (g id) (h id)

-- Every cursor stays or is cleared, whatever comes of the step.
pub record Steady {S E A : Type 0} (m : Cycle S → Result E A × Cycle S) : Type 0 where
  pub at : (c : Cycle S) → Cursors c.db.folders (m c).1.db.folders

-- Where the step fails, every cursor stays or is cleared.
pub record Guarded {S A : Type 0} (m : Run S A) : Type 0 where
  pub at : (c : Cycle S) (e : SyncError) → (m c).0 ≡ err e → Cursors c.db.folders (m c).1.db.folders

-- The step does not fail.
pub record Sure {S A : Type 0} (m : Run S A) : Type 0 where
  pub at : (c : Cycle S) → (a : A) × ((m c).0 ≡ ok a)

module _ {S A : Type 0} where
  pub Steady-return : (a : A) → Steady (return {S = S} a)
  unfolding return
  Steady-return a = record { at = λ c id. inl refl }

  pub Steady-in_db : (m : Action A) → Moves cursors m → Steady (in_db {S = S} m)
  unfolding in_db
  Steady-in_db m h = record { at = λ c. h.at c.db }

  pub Steady-pass : (m : Cycle S → Result StorageError A × Cycle S) → Steady m → Steady (pass m)
  unfolding pass
  Steady-pass m h = record { at = λ c. h.at c }

  pub Steady-ask : (call : S → A × S) → Steady (ask call)
  unfolding ask
  Steady-ask call = record { at = λ c id. inl refl }

  pub Steady-lift : (r : Result SyncError A) → Steady (lift {S = S} r)
  unfolding lift
  Steady-lift r = record { at = λ c id. inl refl }

  pub Guarded-Steady : (m : Run S A) → Steady m → Guarded m
  Guarded-Steady m h = record { at = λ c e failed. h.at c }

  -- A statement that changes nothing where it fails.
  pub Guarded-in_db : (m : Action A) → Atomic m → Guarded (in_db {S = S} m)
  unfolding in_db
  Guarded-in_db m h = record { at = λ c e failed. go c e (m c.db) (h.at c.db) failed }
    where
      go :
          (c : Cycle S) (e : SyncError) (t : Result StorageError A × Db)
          → ((e' : StorageError) → t.0 ≡ err e' → t.1 ≡ record c.db { faults = t.1.faults })
          → from_storage t.0 ≡ err e
          → Cursors c.db.folders t.1.folders
      go c e (ok a, d) same failed = absurd cc
      go c e (err e', d) same failed = λ id. inl (ap (λ x. cursor id x.folders) (same e' refl))

module _ {S A B : Type 0} (m : Run S A) (f : A → Run S B) where
  abbrev next : Result SyncError A × Cycle S → Result SyncError B × Cycle S
  next t = elim t.0 as (λ _. Result SyncError B × Cycle S) [ ok a ↦ f a t.1 | err e ↦ (err e, t.1) ]

  pub Steady-bind : Steady m → ((a : A) → Steady (f a)) → Steady (m >>= f)
  unfolding ◌>>=◌
  Steady-bind h k = record { at = λ c. go c (m c) (h.at c) }
    where
      go :
          (c : Cycle S) (t : Result SyncError A × Cycle S)
          → Cursors c.db.folders t.1.db.folders
          → Cursors c.db.folders (next t).1.db.folders
      go c (ok a, c') g = Cursors-trans _ _ _ g ((k a).at c')
      go c (err e, c') g = g

  pub Guarded-bind : Steady m → ((a : A) → Guarded (f a)) → Guarded (m >>= f)
  unfolding ◌>>=◌
  Guarded-bind h k = record { at = λ c e. go c e (m c) (h.at c) }
    where
      go :
          (c : Cycle S) (e : SyncError) (t : Result SyncError A × Cycle S)
          → Cursors c.db.folders t.1.db.folders
          → (next t).0 ≡ err e
          → Cursors c.db.folders (next t).1.db.folders
      go c e (ok a, c') g failed = Cursors-trans _ _ _ g ((k a).at c' e failed)
      go c e (err e', c') g failed = g

  -- After the last step that can fail.
  pub Guarded-then : Guarded m → ((a : A) → Sure (f a)) → Guarded (m >>= f)
  unfolding ◌>>=◌
  Guarded-then h k = record { at = λ c e. go c e (m c) (h.at c) }
    where
      go :
          (c : Cycle S) (e : SyncError) (t : Result SyncError A × Cycle S)
          → ((e' : SyncError) → t.0 ≡ err e' → Cursors c.db.folders t.1.db.folders)
          → (next t).0 ≡ err e
          → Cursors c.db.folders (next t).1.db.folders
      go c e (ok a, c') g failed = let (b, e1) = (k a).at c' in absurd (cc)
      go c e (err e', c') g failed = g e' refl

  pub Sure-bind : Sure m → ((a : A) → Sure (f a)) → Sure (m >>= f)
  unfolding ◌>>=◌
  Sure-bind h k = record { at = λ c. go (m c) ((h.at c).0) ((h.at c).1) }
    where
      go : (t : Result SyncError A × Cycle S) (a : A) → t.0 ≡ ok a → (b : B) × ((next t).0 ≡ ok b)
      go (ok a', c') a e = (k a').at c'
      go (err e', c') a e = absurd cc
