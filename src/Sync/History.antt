-- ===== src/Sync/History.antt =====
-- crates/sync/src/history.rs: the pull of a folder's whole history. A producer fetches chunks and a
-- consumer stores them, over a channel that holds one chunk; here are the steps of each, and in
-- Sync/History/Pipeline.antt their interleavings. The clock, the servers and JSON are arguments.
pub mod Pipeline
pub mod Drained
pub mod Simulation
pub mod Refinement
pub mod Updates
pub mod Row
pub mod Terminal
pub mod Termination
mod Examples
use qsl.Prelude.{
  ℕ, suc, ◌+◌, ◌%◌, ◌^◌, ◌-◌, min, Option, none, some, List, [], ◌∷◌, ◌++◌, Bool, true, false, not,
  ◌&&◌, ◌||◌, Text, codes, ltb, leb, if◌then◌else◌,
}
use qsl.Prelude.Decimal.{format_u32}
use qsl.Prelude.Int.{ℤ, pos, wrap_i64}
use qsl.Prelude.Result
use qsl.Prelude.Result.{Result, ok, err, map_err}
use qsl.Core.Ids.{AccountId, FolderId}
use qsl.Core.Error.{StorageError, MailError, format_mail_error, format_storage_error}
use qsl.Core.Message.{MessageHeaders}
use qsl.Storage.Db.{Db, Action, ◌>>=◌, ◌>>◌, pure, statement}
use qsl.Storage.HistorySync
use qsl.Storage.HistorySync.{HistorySyncStatus, update_progress, set_status}
use qsl.Storage.Messages.{Json, batch_insert_skip_existing}

abbrev pub history_chunk_size : ℕ
history_chunk_size = 1500

abbrev pub max_chunk_retries : ℕ
max_chunk_retries = 5

-- crates/sync/src/lib.rs, `SyncError`.
pub data SyncError : Type 0 where
  mail : MailError → SyncError
  storage : StorageError → SyncError

unfoldable pub format_sync_error : SyncError → Text
format_sync_error (mail e) = format_mail_error e
format_sync_error (storage e) = format_storage_error e

pub record HistoryProgress : Type 0 where
  pub fetched_total : ℕ
  pub anchor_uid : ℤ
  pub total_estimate : Option ℤ
  pub finished : Bool

-- crates/core/src/mail_backend.rs, `HistoryChunk`.
pub record HistoryChunk : Type 0 where
  pub headers : List MessageHeaders
  pub next_anchor : ℕ

pub data FetchOutcome : Type 0 where
  chunk : HistoryChunk → FetchOutcome
  failed : SyncError → FetchOutcome

-- `as i64` of a u64.
abbrev pub as_i64 : ℕ → ℤ
as_i64 n = wrap_i64 (pos n)

abbrev pub is_empty {ℓ} : {A : Type ℓ} → List A → Bool
is_empty [] = true
is_empty (x ∷ xs) = false

-- `a.saturating_add(b)` on a u32.
abbrev pub saturating_add : ℕ → ℕ → ℕ
saturating_add a b = min (a + b) (2 ^ 32 - 1)

-- The database, the local variables of `run_consumer`, the progress reports, and its result once it
-- has returned. Its n-th write reads the clock as `clock n`.
pub record Consumer : Type 0 where
  pub db : Db
  pub fetched_total : ℕ
  pub last_anchor : ℕ
  pub writes : ℕ
  pub progress : List HistoryProgress
  pub result : Option (Result SyncError (Unit {0}))

-- The status for a channel that was closed with no failure.
unfoldable pub final_status : Bool → Bool → ℕ → HistorySyncStatus
final_status cancel stuck last_anchor =
    if cancel
    then HistorySyncStatus.canceled
    else if leb last_anchor 1 || stuck
    then HistorySyncStatus.completed
    else HistorySyncStatus.canceled

abbrev pub final_anchor : HistorySyncStatus → ℕ → ℤ
final_anchor HistorySyncStatus.completed last_anchor = pos 0
final_anchor HistorySyncStatus.pending last_anchor = as_i64 last_anchor
final_anchor HistorySyncStatus.running last_anchor = as_i64 last_anchor
final_anchor HistorySyncStatus.canceled last_anchor = as_i64 last_anchor
final_anchor HistorySyncStatus.error last_anchor = as_i64 last_anchor

abbrev pub retries_text : SyncError → Text
retries_text e =
    format_u32 max_chunk_retries ++ (codes " consecutive failures: " ++ format_sync_error e)

module _ (json : Json) (account : AccountId) (folder : FolderId) (total_estimate : Option ℕ)
    (clock : ℕ → ℕ) where
  abbrev estimate : Option ℤ
  estimate = elim total_estimate [ none ↦ none | some n ↦ some (as_i64 n) ]

  unfoldable pub report : ℤ → Bool → Consumer → Consumer
  report anchor finished c = record c {
    progress =
        c.progress
        ++ record {
          fetched_total = c.fetched_total;
          anchor_uid = anchor;
          total_estimate = estimate;
          finished = finished;
        }
          ∷ [];
  }

  -- `persist_chunk`, then the row of the pull.
  unfoldable pub store_chunk : ℕ → HistoryChunk → Action ℕ
  unfolding ◌>>=◌ pure
  store_chunk now c = do
    inserted ← batch_insert_skip_existing json c.headers
    update_progress account folder now (as_i64 c.next_anchor) inserted
    pure inserted

  -- What `set_status(…).await?` and the last report do, with the result for success.
  unfoldable pub conclude :
      HistorySyncStatus → Option Text → ℤ → Result SyncError (Unit {0}) → Consumer → Consumer
  unfolding report
  conclude status last anchor result c =
      let (r, d) = set_status account folder (clock c.writes) status last c.db in
      let c' = record c { db = d; writes = c.writes + 1 } in
      elim r [
        | err e ↦ record c' { result = some (err (SyncError.storage e)) }
        | ok _ ↦ record (report anchor true c') { result = some result }
      ]

  -- `run_consumer` behind its loop.
  unfoldable pub finish : Bool → Bool → Consumer → Consumer
  unfolding final_status conclude
  finish cancel stuck c =
      let status = final_status cancel stuck c.last_anchor in
      conclude status none (final_anchor status c.last_anchor) (ok tt) c

  -- The arm of a chunk; a failed write ends the consumer at once. `cancel` is the flag behind the
  -- writes.
  unfoldable pub consume_chunk : Bool → HistoryChunk → Consumer → Consumer
  unfolding store_chunk report finish
  consume_chunk cancel ch c =
      let (r, d) = store_chunk (clock c.writes) ch c.db in
      elim r [
        | err e ↦ record c {
          db = d;
          writes = c.writes + 1;
          result = some (err (SyncError.storage e));
        }
        | ok inserted ↦
            let c' = report (as_i64 ch.next_anchor) false (record c {
              db = d;
              writes = c.writes + 1;
              fetched_total = saturating_add c.fetched_total inserted;
              last_anchor = ch.next_anchor;
            }) in
            if not (ltb ch.next_anchor c.last_anchor) && is_empty ch.headers
            then finish cancel true c'
            else c'
      ]

  -- The body of the loop, at an outcome that was received while nothing was canceled.
  unfoldable pub consume : Bool → FetchOutcome → Consumer → Consumer
  unfolding consume_chunk conclude
  consume cancel (chunk ch) c = consume_chunk cancel ch c
  consume cancel (failed e) c =
      conclude HistorySyncStatus.error (some (retries_text e)) (as_i64 c.last_anchor) (err e) c

-- The index on the texts is no table of the model: the two statements may fail, and change nothing.
unfoldable pub drop_fts_index : Action (Unit {0})
unfolding statement
drop_fts_index = statement λ d. (ok tt, d)

unfoldable pub create_fts_index : Action (Unit {0})
unfolding statement
create_fts_index = statement λ d. (ok tt, d)

-- The local variables of `run_producer`, and where it stands: at the top of its loop, at a send with
-- whether it returns after it, or returned.
pub data Phase : Type 0 where
  looping : Phase
  sending : FetchOutcome → Bool → Phase
  returned : Phase

pub record Producer (S : Type 0) : Type 0 where
  pub anchor : ℕ
  pub failures : ℕ
  pub phase : Phase
  pub server : S

module _ {S : Type 0}
    (pull_history_chunk : FolderId → ℕ → ℕ → S → Result MailError HistoryChunk × S)
    (folder : FolderId) where
  -- The match on the answer of the backend; the wait after a failure is left out.
  unfoldable pub take_answer : Result MailError HistoryChunk → Producer S → Producer S
  take_answer (ok ch) p = record p {
    failures = 0;
    anchor = ch.next_anchor;
    phase = sending (chunk ch) (leb p.anchor ch.next_anchor && is_empty ch.headers);
  }
  take_answer (err e) p = record p {
    failures = p.failures + 1;
    phase =
        if leb max_chunk_retries (p.failures + 1)
        then sending (failed (SyncError.mail e)) true
        else looping;
  }

  -- One round of the loop up to its send.
  unfoldable pub produce : Bool → Producer S → Producer S
  unfolding take_answer
  produce cancel p =
      if cancel || leb p.anchor 1
      then record p { phase = returned }
      else let (r, s) = pull_history_chunk folder p.anchor history_chunk_size p.server in
        take_answer r (record p { server = s })
