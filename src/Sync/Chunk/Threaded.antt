-- ===== src/Sync/Chunk/Threaded.antt =====
-- crates/sync/src/lib.rs, `apply_chunk`: a chunk that was written leaves no message outside of a thread.
use qsl.Prelude.{ℕ, ◌≡◌, refl, true, inl, inr, List, [], ◌∷◌, length, All, All-weaken}
use qsl.Prelude.Result.{Result, ok, err}
use qsl.Core.Error.{StorageError}
use qsl.Core.Message.{MessageHeaders}
use qsl.Storage.Rows.{MessageRow}
use qsl.Storage.Db.{Db, Action, pure, ◌>>=◌, transaction}
use qsl.Storage.Messages.Ensures.{
  Rows, Ensures, Ensures-pure, Ensures-fails, Ensures-bind, Ensures-ReadOnly, Ensures-transaction,
}
use qsl.Sync.Plan.{
  Outside, Entries, ExistingRow, Resolutions, Buckets, row_with_id, lookup, sort_headers,
  no_resolutions, no_buckets,
}
use qsl.Sync.Chunk.{Applied, write_chunk, applied, apply_chunk}
use qsl.Sync.Chunk.Grows.{is_there, is_attached}
use qsl.Sync.Chunk.Inserted.{in_thread, Insertable, Attached}
use qsl.Sync.Chunk.Healed.{Healable}
use qsl.Sync.Chunk.Reads.{resolve_headers-ReadOnly}
use qsl.Sync.Chunk.Resolved.{Settled, Apart}
use qsl.Sync.Chunk.Phases.{Steps, resolve_headers-Ensures}
use qsl.Sync.Chunk.Sorted.{listed, placed, sort_headers-Sorting}
use qsl.Sync.Chunk.Written.{write_chunk-Ensures}
use qsl.Sync.Chunk.Existing.{Known, batch_find_existing-Ensures}
use qsl.Sync.Chunk.Cases.{
  listed-All, Already, Already-Stable, Known-Already, Known-fine, Known-there, placed-cases,
}

module _ (outside : Outside) (headers : List MessageHeaders) where
  module _ (existing : Entries ExistingRow) (s : Resolutions) (b : Buckets) where
    header-Attached :
        (t : List MessageRow) (h : MessageHeaders)
        → All (Attached t) b.to_heal
        → All (Attached t) b.to_insert
        → Settled existing s h
        → placed
            (lookup h.id s.new)
            (lookup h.id s.heal)
            (listed h.id b.to_insert)
            (listed h.id b.to_heal)
          ≡ true
        → Already existing t h
        → Attached t h
    header-Attached t h healed inserted settled place already =
        elim (placed-cases (lookup h.id existing) (lookup h.id s.new) (lookup h.id s.heal) _ _
          settled place) [
            | inl e ↦
                listed-All (λ id. is_attached (row_with_id id t) ≡ true) h.id b.to_insert e inserted
            | inr (inl e) ↦
                listed-All (λ id. is_attached (row_with_id id t) ≡ true) h.id b.to_heal e healed
            | inr (inr e) ↦ already e
          ]

    headers-Attached :
        (t : List MessageRow) (hs : List MessageHeaders)
        → All (Attached t) b.to_heal
        → All (Attached t) b.to_insert
        → All (Settled existing s) hs
        → All
            (λ h.
              placed
                (lookup h.id s.new)
                (lookup h.id s.heal)
                (listed h.id b.to_insert)
                (listed h.id b.to_heal)
              ≡ true)
            hs
        → All (Already existing t) hs
        → All (Attached t) hs
    headers-Attached t [] healed inserted settled place already = tt
    headers-Attached t (h ∷ hs) healed inserted (e, settled) (f, place) (g, already) = (
      header-Attached t h healed inserted e f g,
      headers-Attached t hs healed inserted settled place already,
    )

  abbrev Facts : Entries ExistingRow → Resolutions → Rows
  Facts existing s t =
      All (λ h. Known existing t h.id) headers × Steps outside existing headers no_resolutions s

  no_resolutions-Apart : (existing : Entries ExistingRow) → Apart existing no_resolutions
  unfolding lookup
  no_resolutions-Apart existing = record { new = λ id e. absurd cc; heal = λ id e. absurd cc }

  -- The buckets are fit for the transaction.
  sorted-Insertable :
      (existing : Entries ExistingRow) (s : Resolutions) (t : List MessageRow)
      (xs : List MessageHeaders)
      → Apart existing s
      → All
          (λ x.
            (in_thread x.thread_id ≡ true)
            × (is_there (lookup x.id s.new) ≡ true)
            × Known existing t x.id)
          xs
      → All (Insertable t) xs
  sorted-Insertable existing s t xs apart all =
      All-weaken
        (λ x.
          (in_thread x.thread_id ≡ true)
          × (is_there (lookup x.id s.new) ≡ true)
          × Known existing t x.id)
        (Insertable t) xs (λ x k. (k.0, Known-fine existing t x.id k.2 (apart.new x.id k.1))) all

  sorted-Healable :
      (existing : Entries ExistingRow) (s : Resolutions) (t : List MessageRow)
      (xs : List MessageHeaders)
      → Apart existing s
      → All (λ x. (is_there (lookup x.id s.heal) ≡ true) × Known existing t x.id) xs
      → All (Healable s.heal t) xs
  sorted-Healable existing s t xs apart all =
      All-weaken (λ x. (is_there (lookup x.id s.heal) ≡ true) × Known existing t x.id)
        (Healable s.heal t) xs (λ x k. (k.0, Known-there existing t x.id k.1 (apart.heal x.id k.0)))
        all

  written-Ensures :
      (now : ℕ) (existing : Entries ExistingRow) (s : Resolutions) (b : Buckets)
      → sort_headers outside existing s headers no_buckets ≡ ok b
      → Ensures
          (Facts existing s)
          (transaction (write_chunk outside now s b))
          (λ u t. All (Attached t) headers)
  written-Ensures now existing s b sorted = Ensures-transaction _ _ _ (record {
    at = λ d u facts went.
        let sorting =
          sort_headers-Sorting outside existing s (Known existing d.messages) headers no_buckets b
            facts.0 sorted in
        let apart = facts.1.apart (no_resolutions-Apart existing) in
        let after =
          (write_chunk-Ensures outside now s b (λ t. All (Already existing t) headers)
              (Already-Stable existing headers)).at
            d u
            (
              sorted-Insertable existing s d.messages b.to_insert apart (sorting.inserts tt),
              (
                sorted-Healable existing s d.messages b.to_heal apart (sorting.heals tt),
                All-weaken (λ h. Known existing d.messages h.id) (Already existing d.messages)
                    headers (Known-Already existing d.messages) facts.0,
              ),
            )
            went in
        headers-Attached existing s b (write_chunk outside now s b d).1.messages headers after.0
          after.1.0 facts.1.settles sorting.places after.1.1;
  })

  sorted-Ensures :
      (now : ℕ) (existing : Entries ExistingRow) (s : Resolutions) (r : Result StorageError Buckets)
      → sort_headers outside existing s headers no_buckets ≡ r
      → Ensures
          (Facts existing s)
          (elim r as (λ _. Action Applied) [
            | err e ↦ λ d. (err e, d)
            | ok b ↦ transaction (write_chunk outside now s b) >>= λ u. pure (applied outside b)
          ])
          (λ a t. All (Attached t) headers)
  sorted-Ensures now existing s (err e) sorted = Ensures-fails _ e _
  sorted-Ensures now existing s (ok b) sorted =
      Ensures-bind _ _ _ _ _ (written-Ensures now existing s b sorted)
        λ u. Ensures-pure _ (applied outside b) _ λ t p. p

chunk-Ensures :
    (outside : Outside) (headers : List MessageHeaders)
    → Ensures (λ t. Unit {0}) (apply_chunk outside headers) (λ a t. All (Attached t) headers)
unfolding apply_chunk
chunk-Ensures outside [] = Ensures-pure _ _ _ λ t p. tt
chunk-Ensures outside (h ∷ headers) =
    Ensures-bind _ _ _ _ _ (batch_find_existing-Ensures (h ∷ headers)) λ existing.
      Ensures-bind _ _ _ _ _
        (Ensures-ReadOnly (λ t. All (λ x. Known existing t x.id) (h ∷ headers)) _
          (Steps outside existing (h ∷ headers) no_resolutions)
          (resolve_headers-ReadOnly outside existing 0 (h ∷ headers) no_resolutions)
          (resolve_headers-Ensures outside existing 0 (h ∷ headers) no_resolutions))
        λ s.
          sorted-Ensures outside (h ∷ headers) (outside.clock (length (h ∷ headers))) existing s
            (sort_headers outside existing s (h ∷ headers) no_buckets) refl

-- A chunk that is applied without an error leaves, for each of its headers, a stored message of its
-- id in a thread: the new ones are inserted in one, those stored outside of a thread are healed, and
-- the others stay in theirs. The headers may repeat ids, and the table may have any rows.
pub apply_chunk-threaded :
    (outside : Outside) (headers : List MessageHeaders) (d : Db) (a : Applied)
    → (apply_chunk outside headers d).0 ≡ ok a
    → All
        (λ h. is_attached (row_with_id h.id (apply_chunk outside headers d).1.messages) ≡ true)
        headers
apply_chunk-threaded outside headers d a went = (chunk-Ensures outside headers).at d a tt went
