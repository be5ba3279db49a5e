-- ===== src/Sync/Chunk.antt =====
-- crates/sync/src/lib.rs, `apply_chunk`: a chunk of headers is planned (Sync/Plan.antt) and written in one
-- transaction.
pub mod Grows
pub mod Walk
pub mod Writes
pub mod Inserted
pub mod Healed
pub mod Resolved
pub mod Phases
pub mod Sorted
pub mod Written
pub mod Existing
pub mod Cases
pub mod Threaded
pub mod Reads
pub mod Atomic
mod Examples
use qsl.Prelude.{
  ℕ, ◌+◌, List, [], ◌∷◌, ◌++◌, map, filter, length, any, Option, none, some, Bool, true, false, not,
  ◌&&◌, Text, eq_text, if◌then◌else◌,
}
use qsl.Prelude.Result
use qsl.Prelude.Result.{Result, ok, err}
use qsl.Core.Ids.{MessageId, FolderId, ThreadId}
use qsl.Core.Error.{StorageError}
use qsl.Core.Message.{EmailAddress, MessageHeaders}
use qsl.Storage.Rows.{MessageRow, Thread}
use qsl.Storage.Db.{Action, pure, ◌>>=◌, ◌>>◌, statement, transaction}
use qsl.Storage.Messages.{Json, has_id}
use qsl.Storage.Messages.Statements.{batch_insert_skip_existing_in_tx, batch_update_in_tx}
use qsl.Storage.Threads.{insert_in_tx, touch_for_message, set_message_thread_id}
use qsl.Storage.Contacts.{upsert_seen, inbound}
use qsl.Sync.Threading.{ThreadAttachment, resolve_with_chunk_local}
use qsl.Sync.Plan.{
  Entries, lookup, put, Outside, ExistingRow, existing_row, row_with_id, existing_rows,
  batch_find_existing, Resolutions, no_resolutions, note_thread, Buckets, no_buckets,
  resolve_header, resolve_headers, is_unchanged, sort_header, sort_headers,
}

-- What a chunk adds to the report, and the headers whose bodies are to be fetched.
pub record Applied : Type 0 where
  pub added : ℕ
  pub updated : ℕ
  pub new_headers : List MessageHeaders

module _ (outside : Outside) where
  -- Phase 3, within the transaction.
  unfoldable pub mint_threads : List ThreadAttachment → Action (Unit {0})
  unfolding ◌>>=◌ pure
  mint_threads [] = pure tt
  mint_threads (r ∷ rest) = elim r.mint [
    | none ↦ mint_threads rest
    | some t ↦ (do insert_in_tx t; mint_threads rest)
  ]

  unfoldable pub see_addresses : ℕ → List EmailAddress → Action (Unit {0})
  unfolding upsert_seen ◌>>=◌ pure
  see_addresses now [] = pure tt
  see_addresses now (a ∷ addresses) = do
    upsert_seen a.address a.display_name inbound now
    see_addresses now addresses

  unfoldable pub touch_header : MessageHeaders → Action (Unit {0})
  unfolding touch_for_message pure
  touch_header h = elim h.thread_id [ none ↦ pure tt | some t ↦ touch_for_message t h.date ]

  unfoldable pub touch_inserted : ℕ → List MessageHeaders → Action (Unit {0})
  unfolding touch_header see_addresses ◌>>=◌ pure
  touch_inserted now [] = pure tt
  touch_inserted now (h ∷ headers) = do
    touch_header h
    see_addresses now h.from
    touch_inserted now headers

  unfoldable pub insert_headers : ℕ → List MessageHeaders → Action (Unit {0})
  unfolding batch_insert_skip_existing_in_tx touch_inserted ◌>>=◌ pure
  insert_headers now [] = pure tt
  insert_headers now (h ∷ headers) = do
    batch_insert_skip_existing_in_tx outside.json (h ∷ headers)
    touch_inserted now (h ∷ headers)

  unfoldable pub attach_healed : Entries ThreadAttachment → List MessageHeaders → Action (Unit {0})
  unfolding lookup set_message_thread_id touch_for_message ◌>>=◌ pure
  attach_healed heal [] = pure tt
  attach_healed heal (h ∷ headers) = elim (lookup h.id heal) [
    | none ↦ attach_healed heal headers
    | some res ↦ (do
      set_message_thread_id h.id res.thread_id
      touch_for_message res.thread_id h.date
      attach_healed heal headers)
  ]

  unfoldable pub heal_headers : Entries ThreadAttachment → List MessageHeaders → Action (Unit {0})
  unfolding batch_update_in_tx attach_healed ◌>>=◌ pure
  heal_headers heal [] = pure tt
  heal_headers heal (h ∷ headers) = do
    batch_update_in_tx outside.json (h ∷ headers)
    attach_healed heal (h ∷ headers)

  unfoldable pub write_chunk : ℕ → Resolutions → Buckets → Action (Unit {0})
  unfolding mint_threads insert_headers heal_headers batch_update_in_tx ◌>>=◌ pure
  write_chunk now s b = do
    mint_threads (outside.order (map (λ e. e.1) s.new) ++ outside.order (map (λ e. e.1) s.heal))
    insert_headers now b.to_insert
    heal_headers s.heal b.to_heal
    batch_update_in_tx outside.json b.to_update
    pure tt

  abbrev pub applied : Buckets → Applied
  applied b = record {
    added = length b.to_insert;
    updated = length b.to_heal + length b.to_update;
    new_headers = map (λ (h : MessageHeaders). record h { thread_id = none }) b.to_insert;
  }

  unfoldable pub apply_chunk : List MessageHeaders → Action Applied
  unfolding batch_find_existing resolve_headers sort_headers transaction write_chunk ◌>>=◌ pure
  apply_chunk [] = pure (record { added = 0; updated = 0; new_headers = [] })
  apply_chunk (h ∷ headers) = do
    existing ← batch_find_existing (h ∷ headers)
    s ← resolve_headers outside existing 0 (h ∷ headers) no_resolutions
    elim (sort_headers outside existing s (h ∷ headers) no_buckets) [
      | err e ↦ λ d. (err e, d)
      | ok b ↦ (do
        transaction (write_chunk (outside.clock (length (h ∷ headers))) s b)
        pure (applied b))
    ]
