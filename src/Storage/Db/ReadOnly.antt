-- ===== src/Storage/Db/ReadOnly.antt =====
-- Actions that write no table, one rule for each way to build an action.
use qsl.Prelude.{
  ◌≡◌, refl, ap, ◌∙◌, Option, none, some, List, [], ◌∷◌, Bool, true, false, Text, if◌then◌else◌,
}
use qsl.Prelude.Result.{Result, ok, err}
use qsl.Core.Error.{StorageError}
use qsl.Storage.Db.{Db, Action, pure, ◌>>=◌, statement}

-- The tables of a database, with other faults to come.
abbrev pub with_faults : Db → List (Option Text) → Db
with_faults d faults = record d { faults = faults }

pub record ReadOnly {ℓ} {A : Type ℓ} (m : Action A) : Type 0 where
  pub at : (d : Db) → (m d).1 ≡ with_faults d (m d).1.faults

module _ {ℓ} {A : Type ℓ} where
  pub ReadOnly-pure : (a : A) → ReadOnly (pure a)
  unfolding pure
  ReadOnly-pure a = record { at = λ d. refl }

  pub ReadOnly-lift : (r : Result StorageError A) → ReadOnly (λ d. (r, d))
  ReadOnly-lift r = record { at = λ d. refl }

  -- A query answers from the tables.
  pub ReadOnly-query : (f : Db → Result StorageError A) → ReadOnly (statement λ d. (f d, d))
  unfolding statement
  ReadOnly-query f = record { at = λ d. go d d.faults }
    where
      go :
          (d : Db) (faults : List (Option Text))
          → (let t : Result StorageError A × Db = elim faults as (λ _. Result StorageError A × Db) [
            | [] ↦ (f d, d)
            | fault ∷ rest ↦ elim fault as (λ _. Result StorageError A × Db) [
              | none ↦ (f (with_faults d rest), with_faults d rest)
              | some message ↦ (err (StorageError.db message), with_faults d rest)
            ]
          ] in
              t.1 ≡ with_faults d t.1.faults)
      go d [] = refl
      go d (none ∷ rest) = refl
      go d (some message ∷ rest) = refl

  pub ReadOnly-if :
      (b : Bool) (m n : Action A) → ReadOnly m → ReadOnly n → ReadOnly (if b then m else n)
  ReadOnly-if true m n h k = h
  ReadOnly-if false m n h k = k

module _ {ℓ κ} {A : Type ℓ} {B : Type κ} where
  pub ReadOnly-option :
      (o : Option A) (m : Action B) (f : A → Action B)
      → ReadOnly m
      → ((a : A) → ReadOnly (f a))
      → ReadOnly (elim o as (λ _. Action B) [ none ↦ m | some a ↦ f a ])
  ReadOnly-option none m f h k = h
  ReadOnly-option (some a) m f h k = k a

  pub ReadOnly-bind :
      (m : Action A) (f : A → Action B)
      → ReadOnly m
      → ((a : A) → ReadOnly (f a))
      → ReadOnly (m >>= f)
  unfolding ◌>>=◌
  ReadOnly-bind m f h k = record { at = λ d. go d (m d) (h.at d) }
    where
      go :
          (d : Db) (t : Result StorageError A × Db)
          → t.1 ≡ with_faults d t.1.faults
          → (let u : Result StorageError B × Db = elim t.0 as (λ _. Result StorageError B × Db) [
            | ok a ↦ f a t.1
            | err e ↦ (err e, t.1)
          ] in
              u.1 ≡ with_faults d u.1.faults)
      go d (ok a, d') same = (k a).at d' ∙ ap (λ d''. with_faults d'' (f a d').1.faults) same
      go d (err e, d') same = same

pub ruleset read_only_rules =
    (ReadOnly-pure, ReadOnly-lift, ReadOnly-query, ReadOnly-if, ReadOnly-option, ReadOnly-bind)
