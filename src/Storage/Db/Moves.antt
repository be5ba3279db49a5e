-- ===== src/Storage/Db/Moves.antt =====
-- What an action does to the database, as a relation between before and after, whatever fails: one
-- rule for each way to build an action, over a preorder that does not see the faults.
use qsl.Prelude.{
  sym, subst, Option, none, some, List, [], ◌∷◌, Bool, true, false, Text, if◌then◌else◌,
}
use qsl.Prelude.Result.{Result, ok, err}
use qsl.Core.Error.{StorageError}
use qsl.Storage.Db.{Db, Action, pure, ◌>>=◌, statement, rolled_back, transaction}
use qsl.Storage.Db.ReadOnly.{with_faults, ReadOnly}

pub record Order : Type 1 where
  pub rel : Db → Db → Type 0
  pub refl_at : (d : Db) (faults : List (Option Text)) → rel d (with_faults d faults)
  pub trans : (d e f : Db) → rel d e → rel e f → rel d f

pub record Moves {ℓ} {A : Type ℓ} (r : Order) (m : Action A) : Type 0 where
  pub at : (d : Db) → r.rel d (m d).1

module _ {ℓ} {A : Type ℓ} (r : Order) where
  pub Moves-pure : (a : A) → Moves r (pure a)
  unfolding pure
  Moves-pure a = record { at = λ d. r.refl_at d d.faults }

  pub Moves-lift : (x : Result StorageError A) → Moves r (λ d. (x, d))
  Moves-lift x = record { at = λ d. r.refl_at d d.faults }

  pub Moves-statement : (m : Action A) → Moves r m → Moves r (statement m)
  unfolding statement
  Moves-statement m h = record { at = λ d. go d d.faults }
    where
      go :
          (d : Db) (faults : List (Option Text))
          → r.rel d
              (elim faults as (λ _. Result StorageError A × Db) [
                | [] ↦ m d
                | fault ∷ rest ↦ elim fault as (λ _. Result StorageError A × Db) [
                  | none ↦ m (with_faults d rest)
                  | some message ↦ (err (StorageError.db message), with_faults d rest)
                ]
              ]).1
      go d [] = h.at d
      go d (none ∷ rest) =
          r.trans d (with_faults d rest) (m (with_faults d rest)).1 (r.refl_at d rest)
            (h.at (with_faults d rest))
      go d (some message ∷ rest) = r.refl_at d rest

  pub Moves-if : (b : Bool) (m n : Action A) → Moves r m → Moves r n → Moves r (if b then m else n)
  Moves-if true m n h k = h
  Moves-if false m n h k = k

  pub Moves-ReadOnly : (m : Action A) → ReadOnly m → Moves r m
  Moves-ReadOnly m h = record {
    at = λ d. subst (r.rel d) (sym (h.at d)) (r.refl_at d (m d).1.faults);
  }

module _ {ℓ κ} {A : Type ℓ} {B : Type κ} (r : Order) where
  pub Moves-option :
      (o : Option A) (m : Action B) (f : A → Action B)
      → Moves r m
      → ((a : A) → Moves r (f a))
      → Moves r (elim o as (λ _. Action B) [ none ↦ m | some a ↦ f a ])
  Moves-option none m f h k = h
  Moves-option (some a) m f h k = k a

  pub Moves-bind :
      (m : Action A) (f : A → Action B) → Moves r m → ((a : A) → Moves r (f a)) → Moves r (m >>= f)
  unfolding ◌>>=◌
  Moves-bind m f h k = record { at = λ d. go d (m d) (h.at d) }
    where
      go :
          (d : Db) (t : Result StorageError A × Db)
          → r.rel d t.1
          → r.rel d
              (elim t.0 as (λ _. Result StorageError B × Db) [
                | ok a ↦ f a t.1
                | err e ↦ (err e, t.1)
              ]).1
      go d (ok a, d') g = r.trans d d' (f a d').1 g ((k a).at d')
      go d (err e, d') g = g

module _ {ℓ} {A : Type ℓ} (r : Order) where
  -- A transaction that fails is rolled back.
  pub Moves-transaction : (body : Action A) → Moves r body → Moves r (transaction body)
  unfolding transaction rolled_back
  Moves-transaction body h = record { at = λ d. go d (inner d) (steps.at d) }
    where
      nothing : Action (Unit {0})
      nothing = statement λ e. (ok (tt {0}), e)

      inner : Action A
      inner = nothing >>= λ u. body >>= λ a. nothing >>= λ v. pure a

      nothing-Moves : Moves r nothing
      nothing-Moves = Moves-statement r _ (record { at = λ d. r.refl_at d d.faults })

      steps : Moves r inner
      steps =
          Moves-bind r nothing _ nothing-Moves
            λ u. Moves-bind r body _ h λ a. Moves-bind r nothing _ nothing-Moves λ v. Moves-pure r a

      go : (d : Db) (t : Result StorageError A × Db) → r.rel d t.1 → r.rel d (rolled_back d t).1
      go d (ok a, d') g = g
      go d (err e, d') g = r.refl_at d d'.faults
