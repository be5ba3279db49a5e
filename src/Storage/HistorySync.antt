-- ===== src/Storage/HistorySync.antt =====
-- crates/storage/src/repos/history_sync.rs: how far the history of a folder has been pulled. The
-- clock and chrono's range check are arguments; `none` as the result of a read is the panic of an
-- `unwrap` on a time out of chrono's range.
pub mod Progress
mod Examples
use qsl.Prelude.{
  ℕ, ◌+◌, ◌^◌, Bool, true, false, not, ◌&&◌, List, [], ◌∷◌, ◌++◌, map, filter, any, Option, none,
  some, Text, codes, eq_text, ltb, if◌then◌else◌,
}
use qsl.Prelude.Int.{ℤ}
use qsl.Prelude.Result.{Result, ok, err}
use qsl.Core.Ids.{AccountId, FolderId}
use qsl.Core.Error.{StorageError}
use qsl.Storage.Rows.{HistoryRow}
use qsl.Storage.Db.{Db, Action, statement}

pub data HistorySyncStatus : Type 0 where
  pending running completed canceled error : HistorySyncStatus

pub record HistorySyncRow : Type 0 where
  pub account_id : AccountId
  pub folder_id : FolderId
  pub status : HistorySyncStatus
  pub anchor_uid : Option ℤ
  pub total_estimate : Option ℤ
  pub fetched : ℕ
  pub started_at : ℕ
  pub updated_at : ℕ
  pub completed_at : Option ℕ
  pub last_error : Option Text

unfoldable pub as_str : HistorySyncStatus → Text
as_str pending = codes "pending"
as_str running = codes "running"
as_str completed = codes "completed"
as_str canceled = codes "canceled"
as_str error = codes "error"

unfoldable pub parse : Text → Option HistorySyncStatus
parse s =
    if eq_text s (codes "pending")
    then some pending
    else if eq_text s (codes "running")
    then some running
    else if eq_text s (codes "completed")
    then some completed
    else if eq_text s (codes "canceled")
    then some canceled
    else if eq_text s (codes "error")
    then some error
    else none

module _ (account : AccountId) (folder : FolderId) where
  unfoldable pub is_row : HistoryRow → Bool
  is_row r = eq_text r.account_id account && eq_text r.folder_id folder

  -- The row that UPSERT leaves, inserted or updated.
  unfoldable pub started_row : ℤ → Option ℤ → ℕ → HistoryRow
  unfolding as_str
  started_row anchor total now = record {
    account_id = account;
    folder_id = folder;
    status = as_str running;
    anchor_uid = some anchor;
    total_estimate = total;
    fetched = 0;
    started_at = now;
    updated_at = now;
    completed_at = none;
    last_error = none;
  }

  -- UPSERT
  unfoldable pub upsert_rows : HistoryRow → List HistoryRow → List HistoryRow
  unfolding is_row
  upsert_rows row rows =
      if any is_row rows then map (λ r. if is_row r then row else r) rows else rows ++ row ∷ []

  unfoldable pub start : ℕ → ℤ → Option ℤ → Action (Unit {0})
  unfolding upsert_rows started_row statement
  start now anchor total =
      statement
        λ d. (ok tt, record d { history = upsert_rows (started_row anchor total now) d.history })

  -- UPDATE … WHERE account_id = ?1 AND folder_id = ?2.
  unfoldable pub update_rows : (HistoryRow → HistoryRow) → List HistoryRow → List HistoryRow
  unfolding is_row
  update_rows f = map (λ r. if is_row r then f r else r)

  -- UPDATE_PROGRESS
  unfoldable pub progressed : ℕ → ℤ → ℕ → HistoryRow → HistoryRow
  progressed now anchor delta r = record r {
    anchor_uid = some anchor;
    fetched = r.fetched + delta;
    updated_at = now;
  }

  unfoldable pub update_progress : ℕ → ℤ → ℕ → Action (Unit {0})
  unfolding update_rows progressed statement
  update_progress now anchor delta =
      statement
        λ d. (ok tt, record d { history = update_rows (progressed now anchor delta) d.history })

  unfoldable pub is_terminal : HistorySyncStatus → Bool
  is_terminal pending = false
  is_terminal running = false
  is_terminal completed = true
  is_terminal canceled = true
  is_terminal error = true

  -- SET_STATUS
  unfoldable pub with_status : ℕ → HistorySyncStatus → Option Text → HistoryRow → HistoryRow
  unfolding is_terminal as_str
  with_status now status last r = record r {
    status = as_str status;
    updated_at = now;
    completed_at = if is_terminal status then some now else none;
    last_error = last;
  }

  unfoldable pub set_status : ℕ → HistorySyncStatus → Option Text → Action (Unit {0})
  unfolding update_rows with_status statement
  set_status now status last =
      statement
        λ d. (ok tt, record d { history = update_rows (with_status now status last) d.history })

  unfoldable pub delete : Action (Unit {0})
  unfolding is_row statement
  delete = statement λ d. (ok tt, record d { history = filter (λ r. not (is_row r)) d.history })

  -- SELECT_ONE
  unfoldable pub find_row : List HistoryRow → Option HistoryRow
  unfolding is_row
  find_row [] = none
  find_row (r ∷ rows) = if is_row r then some r else find_row rows

unfoldable pub row_to_state : (ℕ → Bool) → HistoryRow → Option (Result StorageError HistorySyncRow)
unfolding parse
row_to_state valid r = elim (parse r.status) [
  | none ↦ some (err (StorageError.db (codes "unknown history_sync status: " ++ r.status)))
  | some status ↦
      if valid r.started_at
        && valid r.updated_at
        && elim r.completed_at [ none ↦ true | some t ↦ valid t ]
      then some (
          ok (record {
            account_id = r.account_id;
            folder_id = r.folder_id;
            status = status;
            anchor_uid = r.anchor_uid;
            total_estimate = r.total_estimate;
            fetched = if ltb r.fetched (2 ^ 32) then r.fetched else 0;
            started_at = r.started_at;
            updated_at = r.updated_at;
            completed_at = r.completed_at;
            last_error = r.last_error;
          }))
      else none
]

-- `.as_ref().map(row_to_state).transpose()`
unfoldable pub read_row :
    (ℕ → Bool) → Option HistoryRow → Option (Result StorageError (Option HistorySyncRow))
unfolding row_to_state
read_row valid none = some (ok none)
read_row valid (some r) = elim (row_to_state valid r) [
  | none ↦ none
  | some state ↦ some (elim state [ ok row ↦ ok (some row) | err e ↦ err e ])
]

unfoldable pub get :
    (ℕ → Bool)
    → AccountId
    → FolderId
    → Db
    → Option (Result StorageError (Option HistorySyncRow)) × Db
unfolding find_row read_row statement
get valid account folder d =
    let (r, d') = statement (λ (e : Db). (ok (find_row account folder e.history), e)) d in
    elim r [ err e ↦ (some (err e), d') | ok row ↦ (read_row valid row, d') ]
