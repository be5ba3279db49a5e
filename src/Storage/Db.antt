-- ===== src/Storage/Db.antt =====
-- The database as the repositories use it through `DbConn` (crates/storage/src/conn.rs): tables as
-- lists of rows in rowid order, and statements that may fail. The environment chooses which
-- statements fail: `faults` has an entry for each statement to come, `some` message for a failure.
-- A statement that fails changes no table. It also chooses which row a query without an order takes:
-- of the rows that match, the one at `choice`, modulo their number.
pub mod ReadOnly
pub mod Atomic
pub mod Success
pub mod Moves
use qsl.Prelude.{ℕ, Option, none, some, List, [], ◌∷◌, Text}
use qsl.Prelude.Result.{Result, ok, err}
use qsl.Core.Error.{StorageError}
use qsl.Storage.Rows.{
  OutboxRow, DraftRow, MessageRow, Thread, HistoryRow, ContactRow, FolderRow, OptInRow,
}

pub record Db : Type 0 where
  pub outbox : List OutboxRow
  pub drafts : List DraftRow
  pub messages : List MessageRow
  pub threads : List Thread
  pub history : List HistoryRow
  pub contacts : List ContactRow
  pub folders : List FolderRow
  pub opt_ins : List OptInRow
  pub faults : List (Option Text)
  pub choice : List MessageRow → ℕ

-- An asynchronous repository function: run against the database, with its result.
abbrev pub Action {ℓ} : Type ℓ → Type ℓ
Action A = Db → Result StorageError A × Db

unfoldable pub pure {ℓ} : {A : Type ℓ} → A → Action A
pure a d = (ok a, d)

infixl 5 ◌>>=◌
unfoldable pub ◌>>=◌ {ℓ κ} : {A : Type ℓ} {B : Type κ} → Action A → (A → Action B) → Action B
◌>>=◌ m f d = let (r, d') = m d in elim r [ ok a ↦ f a d' | err e ↦ (err e, d') ]

-- One statement: `execute`, `query` or `query_opt`, with what it does when it runs.
unfoldable pub statement {ℓ} : {A : Type ℓ} → Action A → Action A
statement run d = elim d.faults [
  | [] ↦ run d
  | fault ∷ rest ↦ elim fault [
    | none ↦ run (record d { faults = rest })
    | some message ↦ (err (StorageError.db message), record d { faults = rest })
  ]
]

-- A statement whose result is not read.
infixl 5 ◌>>◌
abbrev pub ◌>>◌ {ℓ κ} : {A : Type ℓ} {B : Type κ} → Action A → Action B → Action B
first >> next = first >>= λ done. next

-- `begin`, the statements on the transaction, `commit`. A transaction that is dropped after an error
-- is rolled back: the tables are those before `begin`.
unfoldable pub rolled_back {ℓ} :
    {A : Type ℓ} → Db → Result StorageError A × Db → Result StorageError A × Db
rolled_back before (ok a, d) = (ok a, d)
rolled_back before (err e, d) = (err e, record before { faults = d.faults })

unfoldable pub transaction {ℓ} : {A : Type ℓ} → Action A → Action A
unfolding statement rolled_back ◌>>=◌ pure
transaction body d = rolled_back d (
    (do
      statement (λ e. (ok (tt {0}), e))
      result ← body
      statement (λ e. (ok (tt {0}), e))
      pure result)
      d)
