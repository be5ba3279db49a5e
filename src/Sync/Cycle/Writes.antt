-- ===== src/Sync/Cycle/Writes.antt =====
-- crates/sync/src/lib.rs: the statements of a cycle before the cursor write no folder.
use qsl.Prelude.{
  ℕ, ◌≡◌, refl, ap, not, arith, inl, List, map, any, Option, none, Text, if◌then◌else◌,
}
use qsl.Prelude.Result.{Result, ok, err}
use qsl.Core.Error.{StorageError}
use qsl.Core.Ids.{MessageId, ThreadId}
use qsl.Core.Message.{MessageFlags, MessageHeaders, EmailAddress}
use qsl.Storage.Rows.{MessageRow, Thread}
use qsl.Storage.Db.{Db, Action, statement}
use qsl.Storage.Db.Moves.{Moves, Moves-statement, Moves-lift, Moves-if, Moves-pure}
use qsl.Storage.Folders.Cursors.{cursor, cursors}
use qsl.Storage.Messages.{Json, insert_group, has_id, to_params}
use qsl.Storage.Messages.Statements.{
  delete_message, update_existing, update_flags, update_row, updated_row, set_body_path,
}
use qsl.Storage.Threads.{insert_in_tx, insert, touch_for_message, set_message_thread_id}
use qsl.Storage.Contacts.{upsert_seen, inbound}
use qsl.Sync.Plan.{Outside}
use qsl.Sync.Chunk.{apply_chunk}
use qsl.Sync.Chunk.Walk.{apply_chunk-Moves}

-- A statement that leaves the table of folders alone.
untouched :
    {A : Type 0} (m : Action A)
    → ((d : Db) → (m d).1.folders ≡ d.folders)
    → Moves cursors (statement m)
untouched m same = Moves-statement cursors m (record { at = λ d id. inl (ap (cursor id) (same d)) })

update_existing-Moves :
    (id : MessageId) (f : MessageRow → MessageRow) → Moves cursors (update_existing id f)
unfolding update_existing
update_existing-Moves id f = untouched _ λ d. ground arith

update_row-Moves : (json : Json) (h : MessageHeaders) → Moves cursors (update_row json h)
unfolding update_row
update_row-Moves json h = go (to_params json h none)
  where
    go :
        (r : Result StorageError MessageRow)
        → Moves cursors (elim r as (λ _. Action ℕ) [
          | err e ↦ λ d. (err e, d)
          | ok row ↦ statement λ d. (
            ok (if any (has_id row.id) d.messages then 1 else 0),
            record d {
              messages = map (λ m. if has_id row.id m then updated_row row m else m) d.messages;
            },
          )
        ])
    go (err e) = Moves-lift cursors (err e)
    go (ok row) = untouched _ λ d. refl

insert-Moves : (t : Thread) → Moves cursors (insert_in_tx t)
unfolding insert
insert-Moves t = untouched _ λ d. ground arith

touch-Moves : (t : ThreadId) (date : ℕ) → Moves cursors (touch_for_message t date)
unfolding touch_for_message
touch-Moves t date = untouched _ λ d. refl

see-Moves :
    (a : EmailAddress) (now : ℕ) → Moves cursors (upsert_seen a.address a.display_name inbound now)
unfolding upsert_seen
see-Moves a now = Moves-if cursors _ _ _ (Moves-pure cursors tt) (untouched _ λ d. refl)

attach-Moves : (id : MessageId) (t : ThreadId) → Moves cursors (set_message_thread_id id t)
unfolding set_message_thread_id
attach-Moves id t = untouched _ λ d. refl

insert_group-Moves : (rows : List MessageRow) → Moves cursors (insert_group rows)
unfolding insert_group
insert_group-Moves rows = untouched _ λ d. refl

pub chunk-Moves :
    (outside : Outside) (headers : List MessageHeaders)
    → Moves cursors (apply_chunk outside headers)
chunk-Moves outside headers =
    apply_chunk-Moves cursors
      (record {
        insert = insert-Moves;
        touch = touch-Moves;
        see = see-Moves;
        update = update_row-Moves;
        attach = attach-Moves;
      })
      insert_group-Moves outside headers

pub delete-Moves : (id : MessageId) → Moves cursors (delete_message id)
unfolding delete_message
delete-Moves id = untouched _ λ d. refl

pub update_flags-Moves :
    (json : Json) (id : MessageId) (flags : MessageFlags)
    → Moves cursors (update_flags json id flags)
unfolding update_flags
update_flags-Moves json id flags = go (json.encode_flags flags)
  where
    go :
        (r : Result StorageError Text)
        → Moves cursors (elim r as (λ _. Action (Unit {0})) [
          | err e ↦ λ d. (err e, d)
          | ok text ↦
              update_existing id λ m. record m { flags_json = text; unread = not flags.seen }
        ])
    go (err e) = Moves-lift cursors (err e)
    go (ok text) = update_existing-Moves id _

pub set_body_path-Moves :
    (id : MessageId) (path : Option Text) → Moves cursors (set_body_path id path)
unfolding set_body_path
set_body_path-Moves id path = update_existing-Moves id _
