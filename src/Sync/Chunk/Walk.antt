-- ===== src/Sync/Chunk/Walk.antt =====
-- crates/sync/src/lib.rs, `apply_chunk`: the loops of the transaction, for any relation that each of its
-- statements keeps.
use qsl.Prelude.{ℕ, ◌+◌, List, [], ◌∷◌, ◌++◌, map, length}
use qsl.Prelude.Result.{Result, ok, err}
use qsl.Core.Error.{StorageError}
use qsl.Core.Ids.{MessageId, ThreadId}
use qsl.Core.Message.{MessageHeaders, EmailAddress}
use qsl.Storage.Rows.{MessageRow, Thread}
use qsl.Storage.Db.{Action, transaction, pure, ◌>>=◌}
use qsl.Storage.Db.Moves.{
  Order, Moves, Moves-pure, Moves-lift, Moves-option, Moves-bind, Moves-ReadOnly, Moves-transaction,
}
use qsl.Storage.Messages.{Json, to_rows, insert_group, chunks, group_size}
use qsl.Storage.Messages.Statements.{
  update_row, batch_update_in_tx, insert_header_groups, batch_insert_skip_existing_in_tx,
}
use qsl.Storage.Threads.{insert_in_tx, touch_for_message, set_message_thread_id}
use qsl.Storage.Contacts.{upsert_seen, inbound}
use qsl.Sync.Threading.{ThreadAttachment}
use qsl.Sync.Chunk.Reads.{batch_find_existing-ReadOnly, resolve_headers-ReadOnly}
use qsl.Sync.Plan.{
  Outside, Entries, Resolutions, Buckets, lookup, sort_headers, no_resolutions, no_buckets,
}
use qsl.Sync.Chunk.{
  Applied, mint_threads, see_addresses, touch_header, touch_inserted, attach_healed, heal_headers,
  insert_headers, write_chunk, applied, apply_chunk,
}

-- The statements that need nothing of the table before.
pub record Leaves (r : Order) : Type 0 where
  pub insert : (t : Thread) → Moves r (insert_in_tx t)
  pub touch : (t : ThreadId) (date : ℕ) → Moves r (touch_for_message t date)
  pub see :
      (a : EmailAddress) (now : ℕ) → Moves r (upsert_seen a.address a.display_name inbound now)
  pub update : (json : Json) (h : MessageHeaders) → Moves r (update_row json h)
  pub attach : (id : MessageId) (t : ThreadId) → Moves r (set_message_thread_id id t)

module _ (r : Order) (leaves : Leaves r) where
  pub batch_update-Moves :
      (json : Json) (headers : List MessageHeaders) → Moves r (batch_update_in_tx json headers)
  unfolding batch_update_in_tx
  batch_update-Moves json [] = Moves-pure r 0
  batch_update-Moves json (h ∷ headers) =
      Moves-bind r _ _ (leaves.update json h)
        λ n. Moves-bind r _ _ (batch_update-Moves json headers) λ k. Moves-pure r _

  module _ (outside : Outside) where
    pub mint_threads-Moves : (rs : List ThreadAttachment) → Moves r (mint_threads outside rs)
    unfolding mint_threads
    mint_threads-Moves [] = Moves-pure r tt
    mint_threads-Moves (res ∷ rs) =
        Moves-option r res.mint _ _ (mint_threads-Moves rs)
          λ t. Moves-bind r _ _ (leaves.insert t) λ u. mint_threads-Moves rs

    see_addresses-Moves :
        (now : ℕ) (addresses : List EmailAddress) → Moves r (see_addresses outside now addresses)
    unfolding see_addresses
    see_addresses-Moves now [] = Moves-pure r tt
    see_addresses-Moves now (a ∷ addresses) =
        Moves-bind r _ _ (leaves.see a now) λ u. see_addresses-Moves now addresses

    touch_header-Moves : (h : MessageHeaders) → Moves r (touch_header outside h)
    unfolding touch_header
    touch_header-Moves h =
        Moves-option r h.thread_id _ _ (Moves-pure r tt) λ t. leaves.touch t h.date

    pub touch_inserted-Moves :
        (now : ℕ) (headers : List MessageHeaders) → Moves r (touch_inserted outside now headers)
    unfolding touch_inserted
    touch_inserted-Moves now [] = Moves-pure r tt
    touch_inserted-Moves now (h ∷ headers) =
        Moves-bind r _ _ (touch_header-Moves h) λ u.
          Moves-bind r _ _ (see_addresses-Moves now h.from) λ v. touch_inserted-Moves now headers

    pub attach_healed-Moves :
        (heal : Entries ThreadAttachment) (headers : List MessageHeaders)
        → Moves r (attach_healed outside heal headers)
    unfolding attach_healed
    attach_healed-Moves heal [] = Moves-pure r tt
    attach_healed-Moves heal (h ∷ headers) =
        Moves-option r (lookup h.id heal) _ _ (attach_healed-Moves heal headers) λ res.
          Moves-bind r _ _ (leaves.attach h.id res.thread_id) λ u.
            Moves-bind r _ _ (leaves.touch res.thread_id h.date)
              λ v. attach_healed-Moves heal headers

    pub heal_headers-Moves :
        (heal : Entries ThreadAttachment) (headers : List MessageHeaders)
        → Moves r (heal_headers outside heal headers)
    unfolding heal_headers
    heal_headers-Moves heal [] = Moves-pure r tt
    heal_headers-Moves heal (h ∷ headers) =
        Moves-bind r _ _ (batch_update-Moves outside.json (h ∷ headers))
          λ n. attach_healed-Moves heal (h ∷ headers)

  -- With a relation that the insertion of any rows keeps, a whole chunk keeps it.
  module _ (group : (rows : List MessageRow) → Moves r (insert_group rows)) where
    insert_header_groups-Moves :
        (json : Json) (groups : List (List MessageHeaders))
        → Moves r (insert_header_groups json groups)
    unfolding insert_header_groups
    insert_header_groups-Moves json [] = Moves-pure r 0
    insert_header_groups-Moves json (headers ∷ groups) =
        go (insert_header_groups-Moves json groups) (to_rows json headers)
      where
        go :
            Moves r (insert_header_groups json groups)
            → (x : Result StorageError (List MessageRow))
            → Moves r (elim x as (λ _. Action ℕ) [
              | err e ↦ λ d. (err e, d)
              | ok rows ↦ insert_group rows >>= λ n.
                  insert_header_groups json groups >>= λ rest. pure (n + rest)
            ])
        go others (err e) = Moves-lift r (err e)
        go others (ok rows) =
            Moves-bind r _ _ (group rows)
              λ n. Moves-bind r _ _ others λ rest. Moves-pure r (n + rest)

    batch_insert-Moves :
        (json : Json) (headers : List MessageHeaders)
        → Moves r (batch_insert_skip_existing_in_tx json headers)
    unfolding batch_insert_skip_existing_in_tx
    batch_insert-Moves json headers =
        Moves-bind r _ _
          (insert_header_groups-Moves json (chunks (length headers) group_size headers))
          λ n. Moves-pure r _

    module _ (outside : Outside) where
      insert_headers-Moves :
          (now : ℕ) (headers : List MessageHeaders) → Moves r (insert_headers outside now headers)
      unfolding insert_headers
      insert_headers-Moves now [] = Moves-pure r tt
      insert_headers-Moves now (h ∷ headers) =
          Moves-bind r _ _ (batch_insert-Moves outside.json (h ∷ headers))
            λ n. touch_inserted-Moves outside now (h ∷ headers)

      write_chunk-Moves :
          (now : ℕ) (s : Resolutions) (b : Buckets) → Moves r (write_chunk outside now s b)
      unfolding write_chunk
      write_chunk-Moves now s b =
          Moves-bind r _ _
            (mint_threads-Moves outside
              (outside.order (map (λ e. e.1) s.new) ++ outside.order (map (λ e. e.1) s.heal)))
            λ u. Moves-bind r _ _ (insert_headers-Moves now b.to_insert) λ v.
              Moves-bind r _ _ (heal_headers-Moves outside s.heal b.to_heal) λ w.
                Moves-bind r _ _ (batch_update-Moves outside.json b.to_update) λ n. Moves-pure r tt

      sorted-Moves :
          (now : ℕ) (s : Resolutions) (x : Result StorageError Buckets)
          → Moves r (elim x as (λ _. Action Applied) [
            | err e ↦ λ d. (err e, d)
            | ok b ↦ transaction (write_chunk outside now s b) >>= λ u. pure (applied outside b)
          ])
      sorted-Moves now s (err e) = Moves-lift r (err e)
      sorted-Moves now s (ok b) =
          Moves-bind r _ _ (Moves-transaction r _ (write_chunk-Moves now s b))
            λ u. Moves-pure r (applied outside b)

      pub apply_chunk-Moves :
          (headers : List MessageHeaders) → Moves r (apply_chunk outside headers)
      unfolding apply_chunk
      apply_chunk-Moves [] = Moves-pure r _
      apply_chunk-Moves (h ∷ headers) =
          Moves-bind r _ _ (Moves-ReadOnly r _ (batch_find_existing-ReadOnly (h ∷ headers)))
            λ existing.
              Moves-bind r _ _
                (Moves-ReadOnly r _
                  (resolve_headers-ReadOnly outside existing 0 (h ∷ headers) no_resolutions))
                λ s.
                  sorted-Moves (outside.clock (length (h ∷ headers))) s
                    (sort_headers outside existing s (h ∷ headers) no_buckets)
