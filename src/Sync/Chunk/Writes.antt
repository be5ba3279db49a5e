-- ===== src/Sync/Chunk/Writes.antt =====
-- crates/sync/src/lib.rs, `apply_chunk`: the writes of the transaction, one by one.
use qsl.Prelude.{ℕ, ◌≡◌, refl, sym, subst, arith, List, map, any, none, if◌then◌else◌}
use qsl.Prelude.Result.{Result, ok, err}
use qsl.Core.Error.{StorageError}
use qsl.Core.Ids.{MessageId, ThreadId}
use qsl.Core.Message.{MessageHeaders, EmailAddress}
use qsl.Storage.Rows.{MessageRow, Thread}
use qsl.Storage.Db.{Db, Action, statement}
use qsl.Storage.Db.Moves.{Order, Moves, Moves-pure, Moves-lift, Moves-statement, Moves-if}
use qsl.Storage.Messages.{Json, has_id, to_params}
use qsl.Storage.Messages.Statements.{updated_row, update_row}
use qsl.Storage.Threads.{
  insert, insert_in_tx, touch_for_message, set_message_thread_id, attach_rows,
}
use qsl.Storage.Contacts.{upsert_seen, inbound}
use qsl.Sync.Plan.{row_with_id}
use qsl.Sync.Chunk.Walk.{Leaves}
use qsl.Sync.Chunk.Grows.{Grows, Grows-refl, Grows-trans, map-Grows}

-- For every id, the row of it grows.
abbrev pub growth : Order
growth = record {
  rel = λ d e. (id : MessageId) → Grows (row_with_id id d.messages) (row_with_id id e.messages);
  refl_at = λ d faults id. Grows-refl (row_with_id id d.messages);
  trans = λ d e f g h id. Grows-trans _ _ _ (g id) (h id);
}

same_messages {ℓ} :
    {A : Type ℓ} (m : Action A) → ((d : Db) → (m d).1.messages ≡ d.messages) → Moves growth m
same_messages m same = record {
  at = λ d id.
      subst (λ rows. Grows (row_with_id id d.messages) (row_with_id id rows)) (sym (same d))
        (Grows-refl (row_with_id id d.messages));
}

insert-Moves : (t : Thread) → Moves growth (insert_in_tx t)
unfolding insert
insert-Moves t = Moves-statement growth _ (same_messages _ λ d. ground arith)

pub touch-Moves : (t : ThreadId) (date : ℕ) → Moves growth (touch_for_message t date)
unfolding touch_for_message
touch-Moves t date = Moves-statement growth _ (same_messages _ λ d. refl)

see-Moves :
    (a : EmailAddress) (now : ℕ) → Moves growth (upsert_seen a.address a.display_name inbound now)
unfolding upsert_seen
see-Moves a now =
    Moves-if growth _ _ _ (Moves-pure growth tt)
      (Moves-statement growth _ (same_messages _ λ d. refl))

update_row-Moves : (json : Json) (h : MessageHeaders) → Moves growth (update_row json h)
unfolding update_row
update_row-Moves json h = go (to_params json h none)
  where
    go :
        (r : Result StorageError MessageRow)
        → Moves growth (elim r as (λ _. Action ℕ) [
          | err e ↦ λ d. (err e, d)
          | ok row ↦ statement λ d. (
            ok (if any (has_id row.id) d.messages then 1 else 0),
            record d {
              messages = map (λ m. if has_id row.id m then updated_row row m else m) d.messages;
            },
          )
        ])
    go (err e) = Moves-lift growth (err e)
    go (ok row) = Moves-statement growth _ (record {
      at = λ d id. map-Grows id _ d.messages (λ m. ground arith) (λ m e. ground arith);
    })

pub attach_rows-Grows :
    (id : MessageId) (t : ThreadId) (rows : List MessageRow) (other : MessageId)
    → Grows (row_with_id other rows) (row_with_id other (attach_rows id t rows))
unfolding attach_rows
attach_rows-Grows id t rows other = map-Grows other _ rows (λ m. ground arith) (λ m e. ground arith)

attach-Moves : (id : MessageId) (t : ThreadId) → Moves growth (set_message_thread_id id t)
unfolding set_message_thread_id
attach-Moves id t =
    Moves-statement growth _ (record { at = λ d. attach_rows-Grows id t d.messages })

pub growth-Leaves : Leaves growth
growth-Leaves = record {
  insert = insert-Moves;
  touch = touch-Moves;
  see = see-Moves;
  update = update_row-Moves;
  attach = attach-Moves;
}
