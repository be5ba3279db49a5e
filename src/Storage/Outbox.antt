-- ===== src/Storage/Outbox.antt =====
-- crates/storage/src/repos/outbox.rs: the queue of operations that the server has not seen yet.
-- The time, the random numbers and chrono's range check are arguments.
pub mod Backoff
pub mod Invariant
pub mod Select
pub mod Entries
pub mod Enqueue
pub mod Dedup
pub mod Dlq
pub mod Order
mod Examples
use qsl.Prelude.{
  ℕ, zero, suc, ◌+◌, ◌-◌, ◌*◌, ◌/◌, ◌%◌, ◌^◌, min, Bool, true, false, ◌&&◌, not, ◌||◌, List, [],
  ◌∷◌, ◌++◌, map, Option, none, some, Text, codes, eq_text, ltb, leb, if◌then◌else◌, length, take,
  filter, any,
}
use qsl.Prelude.Int.{pos, pos_part, sub_ℕ, ◌+ℤ◌, ◌*ℤ◌, wrap_i64, saturate_i64, div_trunc, i64_max}
use qsl.Prelude.Result
use qsl.Prelude.Result.{Result, ok, err}
use qsl.Core.Ids.{AccountId}
use qsl.Core.Error.{StorageError}
use qsl.Storage.Rows.{OutboxRow}
use qsl.Storage.Db.{Action, ◌>>=◌, ◌>>◌, pure, statement}

pub record OutboxEntry : Type 0 where
  pub id : Text
  pub account_id : AccountId
  pub op_kind : Text
  pub payload_json : Text
  pub created_at : ℕ
  pub attempts : ℕ
  pub next_attempt_at : Option ℕ
  pub last_error : Option Text

abbrev pub max_attempts : ℕ
max_attempts = 5

-- `attempts + 1` on a `u32`.
abbrev pub succ_u32 : ℕ → ℕ
succ_u32 n = (n + 1) % 2 ^ 32

abbrev hex_digit : ℕ → ℕ
hex_digit d = if ltb d 10 then 48 + d else 87 + d

-- `{n:0width$x}`, for an `n` of at most `width` hexadecimal digits.
unfoldable pub hex : ℕ → ℕ → Text
hex zero n = []
hex (suc width) n = hex width (n / 16) ++ hex_digit (n % 16) ∷ []

-- The random number is an argument.
unfoldable pub new_id : ℕ → Text
unfolding hex
new_id n = codes "ob-" ++ hex 16 n

-- The unique index on (account_id, op_kind, dedup_key), rows without a key aside.
unfoldable pub same_key : Text → Text → Text → OutboxRow → Bool
same_key account op key r =
    eq_text r.account_id account
    && eq_text r.op_kind op
    && elim r.dedup_key [ none ↦ false | some k ↦ eq_text k key ]

-- The primary key, or the unique index, refuses the row.
unfoldable pub clashes : OutboxRow → OutboxRow → Bool
unfolding same_key
clashes new r =
    eq_text r.id new.id
    || elim new.dedup_key [ none ↦ false | some key ↦ same_key new.account_id new.op_kind key r ]

-- INSERT INTO outbox; the connection hands a violated constraint on as a `Db` error.
unfoldable pub insert_row : OutboxRow → Action (Unit {0})
unfolding clashes statement
insert_row row = statement λ d.
    if any (clashes row) d.outbox
    then (err (StorageError.db (codes "UNIQUE constraint failed")), d)
    else (ok tt, record d { outbox = d.outbox ++ row ∷ [] })

-- UPDATE outbox SET … WHERE id = ?1.
unfoldable pub update_rows : (OutboxRow → OutboxRow) → Text → List OutboxRow → List OutboxRow
update_rows f id rows = map (λ r. if eq_text r.id id then f r else r) rows

unfoldable pub update_row : (OutboxRow → OutboxRow) → Text → Action (Unit {0})
unfolding update_rows statement
update_row f id = statement λ d. (ok tt, record d { outbox = update_rows f id d.outbox })

-- The columns that both INSERTs bind.
abbrev pub fresh_row : ℕ → Text → AccountId → Text → Text → Option Text → OutboxRow
fresh_row now id account op payload key = record {
  id = id;
  account_id = account;
  op_kind = op;
  payload_json = payload;
  created_at = now;
  attempts = 0;
  next_attempt_at = some now;
  last_error = none;
  dedup_key = key;
}

unfoldable pub enqueue : ℕ → ℕ → AccountId → Text → Text → Action Text
unfolding insert_row new_id ◌>>=◌ pure
enqueue now random account op payload = do
  let id = new_id random
  insert_row (fresh_row now id account op payload none)
  pure id

-- SELECT id … WHERE account_id, op_kind and dedup_key match, for `query_opt`: the first such row.
unfoldable pub find_key : Text → Text → Text → List OutboxRow → Option Text
unfolding same_key
find_key account op key [] = none
find_key account op key (r ∷ rows) =
    if same_key account op key r then some r.id else find_key account op key rows

-- A pending or dead row takes the new payload and one more round of attempts.
unfoldable pub refresh : ℕ → Text → OutboxRow → OutboxRow
refresh now payload r = record r {
  payload_json = payload;
  attempts = 0;
  next_attempt_at = some now;
  last_error = none;
}

-- `enqueue_dedup` behind its SELECT.
unfoldable pub enqueue_over : ℕ → ℕ → AccountId → Text → Text → Text → Option Text → Action Text
unfolding insert_row update_row refresh new_id ◌>>=◌ pure
enqueue_over now random account op payload key (some id) = do
  update_row (refresh now payload) id
  pure id
enqueue_over now random account op payload key none = do
  let id = new_id random
  insert_row (fresh_row now id account op payload (some key))
  pure id

unfoldable pub enqueue_dedup : ℕ → ℕ → AccountId → Text → Text → Text → Action Text
unfolding find_key enqueue_over ◌>>=◌ statement
enqueue_dedup now random account op payload key = do
  existing ← statement (λ d. (ok (find_key account op key d.outbox), d))
  enqueue_over now random account op payload key existing

-- `next_attempt_at IS NOT NULL AND next_attempt_at <= now`.
unfoldable pub is_due : ℕ → OutboxRow → Bool
is_due now r = elim r.next_attempt_at [ none ↦ false | some t ↦ leb t now ]

abbrev pub due_time : OutboxRow → ℕ
due_time r = elim r.next_attempt_at [ none ↦ 0 | some t ↦ t ]

-- ORDER BY next_attempt_at ASC; rows of one time stay in rowid order.
unfoldable pub insert_by_time : OutboxRow → List OutboxRow → List OutboxRow
insert_by_time r [] = r ∷ []
insert_by_time r (s ∷ rows) =
    if leb (due_time r) (due_time s) then r ∷ s ∷ rows else s ∷ insert_by_time r rows

unfoldable pub sort_by_time : List OutboxRow → List OutboxRow
unfolding insert_by_time
sort_by_time [] = []
sort_by_time (r ∷ rows) = insert_by_time r (sort_by_time rows)

unfoldable pub select_due : ℕ → ℕ → List OutboxRow → List OutboxRow
unfolding is_due sort_by_time
select_due now limit rows = take limit (sort_by_time (filter (is_due now) rows))

-- `valid t` is whether chrono's `timestamp_opt(t, 0)` has a value.
unfoldable pub row_to_entry : (ℕ → Bool) → OutboxRow → Result StorageError OutboxEntry
row_to_entry valid r =
    if not (valid r.created_at)
    then err (StorageError.db (codes "invalid outbox.created_at"))
    else if not (ltb r.attempts (2 ^ 32))
    then err (StorageError.db (codes "attempts out of range"))
    else if not (elim r.next_attempt_at [ none ↦ true | some t ↦ valid t ])
    then err (StorageError.db (codes "invalid outbox.next_attempt_at"))
    else ok (record {
      id = r.id;
      account_id = r.account_id;
      op_kind = r.op_kind;
      payload_json = r.payload_json;
      created_at = r.created_at;
      attempts = r.attempts;
      next_attempt_at = r.next_attempt_at;
      last_error = r.last_error;
    })

-- `.iter().map(row_to_entry).collect()`: the first bad row is the result.
unfoldable pub rows_to_entries :
    (ℕ → Bool) → List OutboxRow → Result StorageError (List OutboxEntry)
unfolding row_to_entry
rows_to_entries valid [] = ok []
rows_to_entries valid (r ∷ rows) =
    Result.◌>>=◌ (row_to_entry valid r)
      λ e. Result.◌>>=◌ (rows_to_entries valid rows) λ es. ok (e ∷ es)

unfoldable pub list_due : (ℕ → Bool) → ℕ → ℕ → Action (List OutboxEntry)
unfolding select_due rows_to_entries statement ◌>>=◌
list_due valid now limit = do
  rows ← statement (λ d. (ok (select_due now limit d.outbox), d))
  λ d. (rows_to_entries valid rows, d)

-- DELETE FROM outbox WHERE id = ?1.
unfoldable pub delete_rows : Text → List OutboxRow → List OutboxRow
delete_rows id = filter (λ r. not (eq_text r.id id))

unfoldable pub delete : Text → Action (Unit {0})
unfolding delete_rows statement
delete id = statement λ d. (ok tt, record d { outbox = delete_rows id d.outbox })

-- `backoff_seconds`, with its random byte. The jitter is -20 to 20 percent; the product is a plain
-- `i64` one, the others saturate.
unfoldable pub backoff_seconds : ℕ → ℕ → ℕ
unfolding wrap_i64 saturate_i64 div_trunc ◌+ℤ◌ ◌*ℤ◌
backoff_seconds attempt random =
    let exp = min (30 * min (4 ^ (attempt - 1)) i64_max) i64_max in
    let jitter = sub_ℕ (random % 41) 20 in
    let shift = div_trunc (wrap_i64 (pos exp *ℤ jitter)) 100 in
    let seconds = pos_part (saturate_i64 (pos exp +ℤ shift)) in if leb 1 seconds then seconds else 1

unfoldable pub truncate : Text → ℕ → Text
truncate s max_chars = if leb (length s) max_chars then s else take max_chars s

-- TOUCH_DLQ and TOUCH_FAILURE; SQL adds to the stored count.
unfoldable pub touch : Option ℕ → Text → OutboxRow → OutboxRow
unfolding truncate
touch next error r = record r {
  attempts = r.attempts + 1;
  next_attempt_at = next;
  last_error = some (truncate error 500);
}

unfoldable pub record_failure : ℕ → ℕ → Text → ℕ → Text → Action (Unit {0})
unfolding update_row touch backoff_seconds
record_failure now random id prev_attempts error =
    if leb max_attempts (succ_u32 prev_attempts)
    then update_row (touch none error) id
    else update_row (touch (some (now + backoff_seconds (succ_u32 prev_attempts) random)) error) id
