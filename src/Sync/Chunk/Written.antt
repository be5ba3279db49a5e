-- ===== src/Sync/Chunk/Written.antt =====
-- crates/sync/src/lib.rs, `apply_chunk`: what the transaction has written when it succeeds.
use qsl.Prelude.{ℕ, List, [], ◌∷◌, ◌++◌, map, All}
use qsl.Core.Message.{MessageHeaders}
use qsl.Storage.Db.{Action, pure, ◌>>=◌}
use qsl.Storage.Db.Moves.{Moves}
use qsl.Storage.Messages.Ensures.{Rows, Ensures, Ensures-pure, Ensures-bind, Ensures-Moves}
use qsl.Storage.Messages.Statements.{batch_insert_skip_existing_in_tx, batch_update_in_tx}
use qsl.Sync.Threading.{ThreadAttachment}
use qsl.Sync.Plan.{Outside, Entries, Resolutions, Buckets}
use qsl.Sync.Chunk.{
  mint_threads, touch_inserted, insert_headers, attach_healed, heal_headers, write_chunk,
}
use qsl.Sync.Chunk.Walk.{mint_threads-Moves, touch_inserted-Moves, batch_update-Moves}
use qsl.Sync.Chunk.Writes.{growth, growth-Leaves}
use qsl.Sync.Chunk.Inserted.{
  Stable, Insertable, Insertable-Stable, Attached, Attached-Stable, batch_insert-Ensures,
}
use qsl.Sync.Chunk.Healed.{Healable, Healable-Stable, attach_healed-Ensures}

-- A predicate that growth keeps holds after every action that lets the table grow.
kept {ℓ} :
    {A : Type ℓ} (keep : Rows) (m : Action A)
    → Stable keep
    → Moves growth m
    → Ensures keep m (λ a. keep)
kept keep m stable moves =
    Ensures-Moves keep growth m (λ d e g p. stable d.messages e.messages g p) moves

module _ (keep : Rows) (stable : Stable keep) where
  written_stays : (headers : List MessageHeaders) → Stable (λ t. All (Attached t) headers × keep t)
  written_stays headers before after g p =
      (Attached-Stable headers before after g p.0, stable before after g p.1)

  new_stays : (headers : List MessageHeaders) → Stable (λ t. All (Insertable t) headers × keep t)
  new_stays headers before after g p =
      (Insertable-Stable headers before after g p.0, stable before after g p.1)

  loose_stays :
      (heal : Entries ThreadAttachment) (headers : List MessageHeaders)
      → Stable (λ t. All (Healable heal t) headers × keep t)
  loose_stays heal headers before after g p =
      (Healable-Stable heal headers before after g p.0, stable before after g p.1)

module _ (outside : Outside) where
  module _ (keep : Rows) (stable : Stable keep) where
    insert_headers-Ensures :
        (now : ℕ) (headers : List MessageHeaders)
        → Ensures
            (λ t. All (Insertable t) headers × keep t)
            (insert_headers outside now headers)
            (λ u t. All (Attached t) headers × keep t)
    unfolding insert_headers
    insert_headers-Ensures now [] = Ensures-pure _ tt _ λ t p. p
    insert_headers-Ensures now (h ∷ headers) =
        Ensures-bind _ (batch_insert_skip_existing_in_tx outside.json (h ∷ headers))
          (λ n. touch_inserted outside now (h ∷ headers)) _ _
          (batch_insert-Ensures outside.json (h ∷ headers) keep stable)
          λ n.
            kept _ _ (written_stays keep stable (h ∷ headers))
              (touch_inserted-Moves growth growth-Leaves outside now (h ∷ headers))

    heal_headers-Ensures :
        (heal : Entries ThreadAttachment) (headers : List MessageHeaders)
        → Ensures
            (λ t. All (Healable heal t) headers × keep t)
            (heal_headers outside heal headers)
            (λ u t. All (Attached t) headers × keep t)
    unfolding heal_headers
    heal_headers-Ensures heal [] = Ensures-pure _ tt _ λ t p. p
    heal_headers-Ensures heal (h ∷ headers) =
        Ensures-bind _ (batch_update_in_tx outside.json (h ∷ headers))
          (λ n. attach_healed outside heal (h ∷ headers)) _ _
          (kept _ _ (loose_stays keep stable heal (h ∷ headers))
            (batch_update-Moves growth growth-Leaves outside.json (h ∷ headers)))
          λ n. attach_healed-Ensures outside heal (h ∷ headers) keep stable

  -- The inserted and the healed headers have rows in threads, and whatever growth keeps still holds.
  pub write_chunk-Ensures :
      (now : ℕ) (s : Resolutions) (b : Buckets) (keep : Rows)
      → Stable keep
      → Ensures
          (λ t. All (Insertable t) b.to_insert × (All (Healable s.heal t) b.to_heal × keep t))
          (write_chunk outside now s b)
          (λ u t. All (Attached t) b.to_heal × (All (Attached t) b.to_insert × keep t))
  unfolding write_chunk
  write_chunk-Ensures now s b keep stable =
      Ensures-bind _ (mint_threads outside minted) (λ u. rest1) _ _
        (kept _ _ (new_stays Heals heals b.to_insert)
          (mint_threads-Moves growth growth-Leaves outside minted))
        λ u.
          Ensures-bind _ (insert_headers outside now b.to_insert) (λ u. rest2) _ _
            (insert_headers-Ensures Heals heals now b.to_insert)
            λ u.
              Ensures-bind _ (heal_headers outside s.heal b.to_heal) (λ u. rest3) _ _
                (record {
                  at = λ d v p went.
                      (heal_headers-Ensures Inserts inserts s.heal b.to_heal).at d v
                        (p.1.0, (p.0, p.1.1)) went;
                })
                λ u.
                  Ensures-bind _ (batch_update_in_tx outside.json b.to_update) (λ u. pure tt) _ _
                    (kept _ _ (written_stays Inserts inserts b.to_heal)
                      (batch_update-Moves growth growth-Leaves outside.json b.to_update))
                    λ n. Ensures-pure _ tt _ λ t p. p
    where
      minted : List ThreadAttachment
      minted = outside.order (map (λ e. e.1) s.new) ++ outside.order (map (λ e. e.1) s.heal)

      rest3 : Action (Unit {0})
      rest3 = batch_update_in_tx outside.json b.to_update >>= λ n. pure tt

      rest2 : Action (Unit {0})
      rest2 = heal_headers outside s.heal b.to_heal >>= λ u. rest3

      rest1 : Action (Unit {0})
      rest1 = insert_headers outside now b.to_insert >>= λ u. rest2

      Heals : Rows
      Heals t = All (Healable s.heal t) b.to_heal × keep t

      heals : Stable Heals
      heals = loose_stays keep stable s.heal b.to_heal

      Inserts : Rows
      Inserts t = All (Attached t) b.to_insert × keep t

      inserts : Stable Inserts
      inserts = written_stays keep stable b.to_insert
