-- ===== src/Storage/Threads.antt =====
-- crates/storage/src/repos/threads.rs: the threads table. chrono's range check is an argument. The
-- functions for a transaction make the same statements on it.
pub mod Attach
mod Examples
use qsl.Prelude.{
  ℕ, ◌+◌, ◌^◌, max, Option, none, some, List, [], ◌∷◌, ◌++◌, map, Bool, not, ◌&&◌, any, Text, codes,
  eq_text, ltb, leb, if◌then◌else◌,
}
use qsl.Prelude.Result.{Result, ok, err}
use qsl.Core.Error.{StorageError}
use qsl.Core.Ids.{AccountId, MessageId, ThreadId}
use qsl.Storage.Rows.{Thread, MessageRow}
use qsl.Storage.Db.{Action, ◌>>=◌, ◌>>◌, statement}

-- INSERT INTO threads; the primary key refuses a second row of one id.
unfoldable pub insert : Thread → Action (Unit {0})
unfolding statement
insert t = statement λ d.
    if any (λ (u : Thread). eq_text u.id t.id) d.threads
    then (err (StorageError.db (codes "UNIQUE constraint failed")), d)
    else (ok tt, record d { threads = d.threads ++ t ∷ [] })

abbrev pub insert_in_tx : Thread → Action (Unit {0})
insert_in_tx t = insert t

unfoldable pub row_to_thread : (ℕ → Bool) → Thread → Result StorageError Thread
row_to_thread valid t =
    if not (valid t.last_date)
    then err (StorageError.db (codes "invalid thread last_date"))
    else if not (ltb t.message_count (2 ^ 32))
    then err (StorageError.db (codes "message_count out of range"))
    else ok t

-- `.map(row_to_thread).transpose()`
unfoldable pub read_thread : (ℕ → Bool) → Option Thread → Result StorageError (Option Thread)
unfolding row_to_thread
read_thread valid none = ok none
read_thread valid (some t) = elim (row_to_thread valid t) [ ok u ↦ ok (some u) | err e ↦ err e ]

-- The WHERE clause of SELECT_BY_SUBJECT_RECENT.
unfoldable pub matches_subject : AccountId → Text → ℕ → Thread → Bool
matches_subject account subject since t =
    eq_text t.account_id account && eq_text t.subject_normalized subject && leb since t.last_date

-- ORDER BY last_date DESC LIMIT 1; the first of the rows with one date.
unfoldable pub most_recent : AccountId → Text → ℕ → List Thread → Option Thread
unfolding matches_subject
most_recent account subject since [] = none
most_recent account subject since (t ∷ rows) =
    let rest = most_recent account subject since rows in
    if matches_subject account subject since t
    then elim rest [
      | none ↦ some t
      | some u ↦ if leb u.last_date t.last_date then some t else some u
    ]
    else rest

unfoldable pub find_recent_by_subject : (ℕ → Bool) → AccountId → Text → ℕ → Action (Option Thread)
unfolding read_thread statement ◌>>=◌
find_recent_by_subject valid account subject since = do
  row ← statement (λ d. (ok (most_recent account subject since d.threads), d))
  λ d. (read_thread valid row, d)

-- TOUCH_FOR_MESSAGE
unfoldable pub touch : ℕ → Thread → Thread
touch date t = record t { message_count = t.message_count + 1; last_date = max t.last_date date }

unfoldable pub touch_rows : ThreadId → ℕ → List Thread → List Thread
unfolding touch
touch_rows thread date = map (λ t. if eq_text t.id thread then touch date t else t)

-- ATTACH_MESSAGE
unfoldable pub attach_rows : MessageId → ThreadId → List MessageRow → List MessageRow
attach_rows message thread =
    map (λ m. if eq_text m.id message then record m { thread_id = some thread } else m)

-- `touch_for_message_in_tx`, and the first statement of `attach_message`.
unfoldable pub touch_for_message : ThreadId → ℕ → Action (Unit {0})
unfolding touch_rows statement
touch_for_message thread date =
    statement λ d. (ok tt, record d { threads = touch_rows thread date d.threads })

-- `set_message_thread_id_in_tx`, and the second statement of `attach_message`.
unfoldable pub set_message_thread_id : MessageId → ThreadId → Action (Unit {0})
unfolding attach_rows statement
set_message_thread_id message thread =
    statement λ d. (ok tt, record d { messages = attach_rows message thread d.messages })

unfoldable pub attach_message : ThreadId → MessageId → ℕ → Action (Unit {0})
unfolding touch_for_message set_message_thread_id ◌>>=◌
attach_message thread message date = do
  touch_for_message thread date
  set_message_thread_id message thread
