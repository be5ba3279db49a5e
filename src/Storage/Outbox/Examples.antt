-- ===== src/Storage/Outbox/Examples.antt =====
-- Tests of the outbox: a table with one dead-lettered row under a key.
use qsl.Prelude.{
  All, ℕ, ◌+◌, ◌*◌, ◌^◌, ◌<◌, ◌≤◌, ◌≡◌, true, refl, arith, Text, codes, List, [], ◌∷◌, Option, none,
  some,
}
use qsl.Prelude.Result.{ok}
use qsl.Storage.Rows.{OutboxRow}
use qsl.Storage.Samples.{empty_db}
use qsl.Storage.Db.{Db}
use qsl.Storage.Outbox.{
  OutboxEntry, max_attempts, select_due, rows_to_entries, backoff_seconds, enqueue, enqueue_dedup,
  fresh_row,
}
use qsl.Storage.Outbox.Invariant.{TableInv}
use qsl.Storage.Outbox.Order.{IsSelection, select_due-IsSelection}
use qsl.Storage.Outbox.Backoff.{backoff_bounds}
use qsl.Storage.Outbox.Enqueue.{enqueue-TableInv, enqueue_dedup-TableInv}
use qsl.Storage.Outbox.Dlq.{list_dlq, list_dlq-exhausted}
use qsl.Storage.Outbox.Dedup.{IsLatest, enqueue_dedup-IsLatest}

abbrev dead : OutboxRow
dead =
    record (fresh_row 20 (codes "ob-1") (codes "gmail:a@b") (codes "save_draft") (codes "old")
      (some (codes "d-1"))) { attempts = 5; next_attempt_at = none }

abbrev db : Db
db = record empty_db { outbox = dead ∷ [] }

db-TableInv : TableInv db.outbox
db-TableInv = record { counted = (refl, tt); unique = (refl, tt) }

backoff_bounds_example : (24 * 4 ^ 1 ≤ backoff_seconds 2 200) × (backoff_seconds 2 200 ≤ 36 * 4 ^ 1)
backoff_bounds_example = backoff_bounds 1 200 (omega arith)

enqueue-TableInv_example :
    TableInv (enqueue 90 255 (codes "gmail:a@b") (codes "move_messages") (codes "{}") db).1.outbox
enqueue-TableInv_example =
    enqueue-TableInv 90 255 (codes "gmail:a@b") (codes "move_messages") (codes "{}") db db-TableInv

enqueue_dedup-TableInv_example :
    TableInv
      (enqueue_dedup 90 255
        (codes "gmail:a@b")
        (codes "save_draft")
        (codes "new")
        (codes "d-1")
        db).1.outbox
enqueue_dedup-TableInv_example =
    enqueue_dedup-TableInv 90 255 (codes "gmail:a@b") (codes "save_draft") (codes "new")
      (codes "d-1") db db-TableInv

enqueue_dedup-IsLatest_example :
    IsLatest
      (codes "gmail:a@b")
      (codes "save_draft")
      (codes "d-1")
      (codes "ob-1")
      (codes "new")
      90
      (enqueue_dedup 90 255
        (codes "gmail:a@b")
        (codes "save_draft")
        (codes "new")
        (codes "d-1")
        db).1.outbox
unfolding qsl.Storage.Outbox.same_key qsl.Prelude.eq_text
enqueue_dedup-IsLatest_example =
    enqueue_dedup-IsLatest 90 255 (codes "gmail:a@b") (codes "save_draft") (codes "new")
      (codes "d-1") db (codes "ob-1") (omega arith) (unfold enqueue_dedup in refl)

abbrev dead_entries : List OutboxEntry
dead_entries =
    record {
      id = codes "ob-1";
      account_id = codes "gmail:a@b";
      op_kind = codes "save_draft";
      payload_json = codes "old";
      created_at = 20;
      attempts = 5;
      next_attempt_at = none;
      last_error = none;
    }
    ∷ []

listed : (list_dlq (λ t. true) db).0 ≡ ok dead_entries
unfolding list_dlq rows_to_entries
listed = refl

list_dlq-exhausted_example : All (λ e. e.attempts ≡ max_attempts) dead_entries
list_dlq-exhausted_example = list_dlq-exhausted (λ t. true) db dead_entries db-TableInv listed

abbrev late : OutboxRow
late = fresh_row 80 (codes "ob-2") (codes "gmail:a@b") (codes "move_messages") (codes "{}") none

abbrev early : OutboxRow
early = fresh_row 30 (codes "ob-3") (codes "gmail:a@b") (codes "move_messages") (codes "{}") none

two_selected : select_due 90 2 (late ∷ dead ∷ early ∷ []) ≡ early ∷ late ∷ []
unfolding select_due
two_selected = refl

select_due-IsSelection_example :
    IsSelection 90 1 (late ∷ dead ∷ early ∷ []) (select_due 90 1 (late ∷ dead ∷ early ∷ []))
select_due-IsSelection_example = select_due-IsSelection 90 1 (late ∷ dead ∷ early ∷ [])
