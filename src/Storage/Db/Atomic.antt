-- ===== src/Storage/Db/Atomic.antt =====
-- Actions that leave the tables alone where they fail: queries, then one transaction.
use qsl.Prelude.{Option, none, some, List, [], ◌∷◌, Text, ◌≡◌, refl, ap, ◌∙◌}
use qsl.Prelude.Result.{Result, ok, err}
use qsl.Core.Error.{StorageError}
use qsl.Storage.Db.{Db, Action, pure, ◌>>=◌, rolled_back, transaction, statement}
use qsl.Storage.Db.ReadOnly.{ReadOnly, with_faults}

pub record Atomic {ℓ} {A : Type ℓ} (m : Action A) : Type ℓ where
  pub at : (d : Db) (e : StorageError) → (m d).0 ≡ err e → (m d).1 ≡ with_faults d (m d).1.faults

module _ {ℓ} {A : Type ℓ} where
  pub Atomic-ReadOnly : (m : Action A) → ReadOnly m → Atomic m
  Atomic-ReadOnly m h = record { at = λ d e failed. h.at d }

  pub Atomic-statement : (m : Action A) → Atomic m → Atomic (statement m)
  unfolding statement
  Atomic-statement m h = record { at = λ d e failed. go d e d.faults failed }
    where
      run : Db → List (Option Text) → Result StorageError A × Db
      run d faults = elim faults [
        | [] ↦ m d
        | fault ∷ rest ↦ elim fault [
          | none ↦ m (with_faults d rest)
          | some message ↦ (err (StorageError.db message), with_faults d rest)
        ]
      ]

      go :
          (d : Db) (e : StorageError) (faults : List (Option Text))
          → (run d faults).0 ≡ err e
          → (run d faults).1 ≡ with_faults d (run d faults).1.faults
      go d e [] failed = h.at d e failed
      go d e (none ∷ rest) failed = h.at (with_faults d rest) e failed
      go d e (some message ∷ rest) failed = refl

  -- Whatever the body did, it is rolled back.
  pub Atomic-transaction : (body : Action A) → Atomic (transaction body)
  unfolding transaction rolled_back
  Atomic-transaction body = record { at = λ d e failed. go d e _ failed }
    where
      go :
          (d : Db) (e : StorageError) (t : Result StorageError A × Db)
          → (rolled_back d t).0 ≡ err e
          → (rolled_back d t).1 ≡ with_faults d (rolled_back d t).1.faults
      go d e (ok a, d') h = absurd cc
      go d e (err e', d') h = refl

module _ {ℓ κ} {A : Type ℓ} {B : Type κ} where
  pub Atomic-bind :
      (m : Action A) (f : A → Action B) → ReadOnly m → ((a : A) → Atomic (f a)) → Atomic (m >>= f)
  unfolding ◌>>=◌
  Atomic-bind m f h k = record { at = λ d e failed. go d e (m d) (h.at d) failed }
    where
      run : Result StorageError A × Db → Result StorageError B × Db
      run t = elim t.0 as (λ _. Result StorageError B × Db) [
        | ok a ↦ f a t.1
        | err e ↦ (err e, t.1)
      ]

      go :
          (d : Db) (e : StorageError) (t : Result StorageError A × Db)
          → t.1 ≡ with_faults d t.1.faults
          → (run t).0 ≡ err e
          → (run t).1 ≡ with_faults d (run t).1.faults
      go d e (ok a, d') same failed =
          (k a).at d' e failed ∙ ap (λ d''. with_faults d'' (f a d').1.faults) same
      go d e (err e', d') same failed = same

  pub Atomic-map : (m : Action A) (f : A → B) → Atomic m → Atomic (m >>= λ a. pure (f a))
  unfolding ◌>>=◌ pure
  Atomic-map m f h = record { at = λ d e failed. go d e (m d) (h.at d) failed }
    where
      run : Result StorageError A × Db → Result StorageError B × Db
      run t = elim t.0 as (λ _. Result StorageError B × Db) [
        | ok a ↦ (ok (f a), t.1)
        | err e ↦ (err e, t.1)
      ]

      go :
          (d : Db) (e : StorageError) (t : Result StorageError A × Db)
          → ((e' : StorageError) → t.0 ≡ err e' → t.1 ≡ with_faults d t.1.faults)
          → (run t).0 ≡ err e
          → (run t).1 ≡ with_faults d (run t).1.faults
      go d e (ok a, d') same failed = absurd cc
      go d e (err e', d') same failed = same e' refl
