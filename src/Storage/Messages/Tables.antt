-- ===== src/Storage/Messages/Tables.antt =====
-- crates/storage/src/repos/messages.rs: what the batched insert does to the other tables.
use qsl.Prelude.{ℕ, ◌%◌, ◌^◌, length, ◌+◌, Text, ◌≡◌, refl, ◌∙◌, List, [], ◌∷◌, Option, none, some}
use qsl.Prelude.Result.{Result, ok, err}
use qsl.Core.Error.{StorageError}
use qsl.Core.Message.{MessageHeaders}
use qsl.Storage.Rows.{MessageRow}
use qsl.Storage.Db.{Db, Action, statement, transaction, rolled_back, pure, ◌>>=◌}
use qsl.Storage.Messages.{
  Json, insert_group, insert_groups, batch_insert_skip_existing, to_rows, chunks, group_size,
}

-- An action that leaves the table of the pulls alone, whatever fails.
abbrev pub KeepsHistory {ℓ} : {A : Type ℓ} → Action A → Type 0
KeepsHistory m = (d : Db) → (m d).1.history ≡ d.history

pure-KeepsHistory {ℓ} : {A : Type ℓ} (a : A) → KeepsHistory (pure a)
unfolding pure
pure-KeepsHistory a d = refl

statement-KeepsHistory {ℓ} :
    {A : Type ℓ} (m : Action A) → KeepsHistory m → KeepsHistory (statement m)
unfolding statement
statement-KeepsHistory {A = A} m h d = go d.faults
  where
    go :
        (faults : List (Option Text))
        → (elim faults as (λ _. Result StorageError A × Db) [
          | [] ↦ m d
          | fault ∷ rest ↦ elim fault as (λ _. Result StorageError A × Db) [
            | none ↦ m (record d { faults = rest })
            | some message ↦ (err (StorageError.db message), record d { faults = rest })
          ]
        ]).1.history
          ≡ d.history
    go [] = h d
    go (none ∷ rest) = h (record d { faults = rest })
    go (some message ∷ rest) = refl

bind-KeepsHistory {ℓ κ} :
    {A : Type ℓ} {B : Type κ} (m : Action A) (f : A → Action B)
    → KeepsHistory m
    → ((a : A) → KeepsHistory (f a))
    → KeepsHistory (m >>= f)
unfolding ◌>>=◌
bind-KeepsHistory {A = A} {B = B} m f h k d = go (m d) (h d)
  where
    go :
        (t : Result StorageError A × Db)
        → t.1.history ≡ d.history
        → (let (r, d') = t in
            elim r as (λ _. Result StorageError B × Db) [
              | ok a ↦ f a d'
              | err e ↦ (err e, d')
            ]).1.history
          ≡ d.history
    go (ok a, d') e = k a d' ∙ e
    go (err e', d') e = e

rolled_back-KeepsHistory {ℓ} :
    {A : Type ℓ} (d : Db) (t : Result StorageError A × Db)
    → t.1.history ≡ d.history
    → (rolled_back d t).1.history ≡ d.history
unfolding rolled_back
rolled_back-KeepsHistory d (ok a, d') e = e
rolled_back-KeepsHistory d (err e', d') e = refl

transaction-KeepsHistory {ℓ} :
    {A : Type ℓ} (m : Action A) → KeepsHistory m → KeepsHistory (transaction m)
transaction-KeepsHistory m h d = unfold transaction in rolled_back-KeepsHistory d _ (body d)
  where
    nothing : KeepsHistory (statement λ e. (ok (tt {0}), e))
    nothing = statement-KeepsHistory _ λ e. refl

    body : KeepsHistory (
        statement (λ e. (ok (tt {0}), e)) >>= λ _.
        m >>= λ result. statement (λ e. (ok (tt {0}), e)) >>= λ _. pure result)
    body = bind-KeepsHistory _ _ nothing λ _.
        bind-KeepsHistory _ _ h
          λ result. bind-KeepsHistory _ _ nothing λ _. pure-KeepsHistory result

insert_group-KeepsHistory : (rows : List MessageRow) → KeepsHistory (insert_group rows)
unfolding insert_group
insert_group-KeepsHistory rows = statement-KeepsHistory _ λ e. refl

insert_groups-KeepsHistory : (groups : List (List MessageRow)) → KeepsHistory (insert_groups groups)
unfolding insert_groups
insert_groups-KeepsHistory [] = pure-KeepsHistory {A = ℕ} 0
insert_groups-KeepsHistory (group ∷ groups) = steps (insert_groups-KeepsHistory groups)
  where
    steps :
        KeepsHistory (insert_groups groups)
        → KeepsHistory
            (insert_group group >>= λ n. insert_groups groups >>= λ rest. pure (n + rest))
    steps h =
        bind-KeepsHistory (insert_group group)
          (λ n. insert_groups groups >>= λ rest. pure (n + rest)) (insert_group-KeepsHistory group)
          λ n.
            bind-KeepsHistory (insert_groups groups) (λ rest. pure (n + rest)) h
              λ rest. pure-KeepsHistory (n + rest)

pub batch_insert-KeepsHistory :
    (json : Json) (headers : List MessageHeaders)
    → KeepsHistory (batch_insert_skip_existing json headers)
batch_insert-KeepsHistory json [] d = unfold batch_insert_skip_existing pure in refl
batch_insert-KeepsHistory json (h ∷ headers) d =
    unfold batch_insert_skip_existing in go (to_rows json (h ∷ headers))
  where
    go :
        (rows : Result StorageError (List MessageRow))
        → (elim rows as (λ _. Action ℕ) [
          | err e ↦ λ e'. (err e, e')
          | ok rows ↦ transaction (insert_groups (chunks (length rows) group_size rows)) >>= λ n.
              pure (n % 2 ^ 32)
        ]
            d).1.history
          ≡ d.history
    go (err e) = refl
    go (ok rows) =
        bind-KeepsHistory _ _
          (transaction-KeepsHistory _
            (insert_groups-KeepsHistory (chunks (length rows) group_size rows)))
          (λ n. pure-KeepsHistory (n % 2 ^ 32)) d
