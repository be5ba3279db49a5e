-- ===== src/Sync/History/Updates.antt =====
-- crates/sync/src/history.rs: what the writes of a pull do to the history table.
use qsl.Prelude.{ℕ, ◌≡◌, ◌⊎◌, inl, inr, refl, ap, ◌∙◌, Option, none, some, List, [], ◌∷◌, Text}
use qsl.Prelude.Int.{ℤ}
use qsl.Prelude.Result.{Result, ok, err}
use qsl.Core.Error.{StorageError}
use qsl.Storage.Rows.{HistoryRow}
use qsl.Storage.Db.{Db, Action, statement, ◌>>=◌, pure}
use qsl.Storage.HistorySync.{
  HistorySyncStatus, update_rows, progressed, with_status, update_progress, set_status,
}
use qsl.Storage.Messages.{batch_insert_skip_existing}
use qsl.Storage.Messages.Tables.{batch_insert-KeepsHistory}
use qsl.Sync.History.{HistoryChunk, as_i64, store_chunk}
use qsl.Sync.History.Pipeline.{Pull}

module _ {S : Type 0} (x : Pull S) where
  -- A result on the row: an update of it, or an error that changes nothing.
  abbrev pub Updated :
      {A : Type 0} → (A → HistoryRow → HistoryRow) → Db → Result StorageError A × Db → Type 0
  Updated {A} f d t =
      ((a : A) × (t.0 ≡ ok a) × (t.1.history ≡ update_rows x.account x.folder (f a) d.history))
      ⊎ ((e : StorageError) × (t.0 ≡ err e) × (t.1.history ≡ d.history))

  abbrev update : (HistoryRow → HistoryRow) → Action (Unit {0})
  update f d = (ok tt, record d { history = update_rows x.account x.folder f d.history })

  statement-Updated :
      (f : HistoryRow → HistoryRow) (d : Db)
      → Updated {A = Unit {0}} (λ _. f) d (statement (update f) d)
  unfolding statement
  statement-Updated f d = go d.faults
    where
      Outcome : Type 0
      Outcome = Result StorageError (Unit {0}) × Db

      go :
          (faults : List (Option Text))
          → Updated {A = Unit {0}}
              (λ _. f)
              d
              (elim faults as (λ _. Outcome) [
                | [] ↦ update f d
                | fault ∷ rest ↦ elim fault as (λ _. Outcome) [
                  | none ↦ update f (record d { faults = rest })
                  | some message ↦ (err (StorageError.db message), record d { faults = rest })
                ]
              ])
      go [] = inl (tt, refl, refl)
      go (none ∷ rest) = inl (tt, refl, refl)
      go (some message ∷ rest) = inr (StorageError.db message, refl, refl)

  pub set_status-Updated :
      (now : ℕ) (status : HistorySyncStatus) (last : Option Text) (d : Db)
      → Updated {A = Unit {0}}
          (λ _. with_status x.account x.folder now status last)
          d
          (set_status x.account x.folder now status last d)
  unfolding set_status
  set_status-Updated now status last d =
      statement-Updated (with_status x.account x.folder now status last) d

  update_progress-Updated :
      (now : ℕ) (anchor : ℤ) (delta : ℕ) (d : Db)
      → Updated {A = Unit {0}}
          (λ _. progressed x.account x.folder now anchor delta)
          d
          (update_progress x.account x.folder now anchor delta d)
  unfolding update_progress
  update_progress-Updated now anchor delta d =
      statement-Updated (progressed x.account x.folder now anchor delta) d

  pub store_chunk-Updated :
      (now : ℕ) (ch : HistoryChunk) (d : Db)
      → Updated
          (λ inserted. progressed x.account x.folder now (as_i64 ch.next_anchor) inserted)
          d
          (store_chunk x.json x.account x.folder x.total_estimate x.clock now ch d)
  unfolding store_chunk ◌>>=◌ pure
  store_chunk-Updated now ch d =
      go (batch_insert_skip_existing x.json ch.headers d)
        (batch_insert-KeepsHistory x.json ch.headers d)
    where
      Outcome : Type 0
      Outcome = Result StorageError ℕ × Db

      f : ℕ → HistoryRow → HistoryRow
      f inserted = progressed x.account x.folder now (as_i64 ch.next_anchor) inserted

      told :
          (inserted : ℕ) (e : Db) (t : Result StorageError (Unit {0}) × Db)
          → e.history ≡ d.history
          → Updated {A = Unit {0}} (λ _. f inserted) e t
          → Updated f d
              (elim t.0 as (λ _. Outcome) [ ok _ ↦ (ok inserted, t.1) | err e' ↦ (err e', t.1) ])
      told inserted e (ok done, e1) same (inl (_, _, h)) =
          inl (inserted, refl, h ∙ ap (update_rows x.account x.folder (f inserted)) same)
      told inserted e (ok done, e1) same (inr (_, h, _)) = absurd cc
      told inserted e (err e', e1) same (inl (_, h, _)) = absurd cc
      told inserted e (err e', e1) same (inr (_, _, h)) = inr (e', refl, h ∙ same)

      go :
          (t : Outcome)
          → t.1.history ≡ d.history
          → Updated f d (elim t.0 as (λ _. Outcome) [
            | ok inserted ↦
                (update_progress x.account x.folder now (as_i64 ch.next_anchor) inserted >>= λ _.
                pure inserted)
                  t.1
            | err e ↦ (err e, t.1)
          ])
      go (ok inserted, e) same =
          told inserted e
            (update_progress x.account x.folder now (as_i64 ch.next_anchor) inserted e) same
            (update_progress-Updated now (as_i64 ch.next_anchor) inserted e)
      go (err e', e) same = inr (e', refl, same)
