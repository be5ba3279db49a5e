-- ===== src/Sync/Chunk/Atomic.antt =====
-- crates/sync/src/lib.rs, `apply_chunk`: a chunk is written whole or not at all.
use qsl.Prelude.{ℕ, ◌≡◌, List, [], ◌∷◌, length}
use qsl.Prelude.Result.{Result, ok, err}
use qsl.Core.Error.{StorageError}
use qsl.Core.Message.{MessageHeaders}
use qsl.Storage.Db.{Db, Action, ◌>>=◌, pure, transaction}
use qsl.Storage.Db.ReadOnly.{with_faults, ReadOnly-pure, ReadOnly-lift}
use qsl.Storage.Db.Atomic.{Atomic, Atomic-ReadOnly, Atomic-transaction, Atomic-bind, Atomic-map}
use qsl.Sync.Plan.{Outside, Resolutions, Buckets, sort_headers, no_resolutions, no_buckets}
use qsl.Sync.Chunk.{Applied, write_chunk, apply_chunk, applied}
use qsl.Sync.Chunk.Reads.{resolve_headers-ReadOnly, batch_find_existing-ReadOnly}

module _ (outside : Outside) where
  sorted-Atomic :
      (n : ℕ) (s : Resolutions) (r : Result StorageError Buckets)
      → Atomic (elim r as (λ _. Action Applied) [
        | err e ↦ λ d. (err e, d)
        | ok b ↦ transaction (write_chunk outside n s b) >>= λ _. pure (applied outside b)
      ])
  sorted-Atomic n s (err e) = Atomic-ReadOnly _ (ReadOnly-lift (err e))
  sorted-Atomic n s (ok b) =
      Atomic-map _ (λ _. applied outside b) (Atomic-transaction (write_chunk outside n s b))

  chunk-Atomic : (headers : List MessageHeaders) → Atomic (apply_chunk outside headers)
  unfolding apply_chunk
  chunk-Atomic [] = Atomic-ReadOnly _ (ReadOnly-pure _)
  chunk-Atomic (h ∷ headers) =
      Atomic-bind _ _ (batch_find_existing-ReadOnly (h ∷ headers)) λ existing.
        Atomic-bind _ _ (resolve_headers-ReadOnly outside existing 0 (h ∷ headers) no_resolutions)
          λ s.
            sorted-Atomic (outside.clock (length (h ∷ headers))) s
              (sort_headers outside existing s (h ∷ headers) no_buckets)

  -- Whichever statement of a chunk fails, in the resolution or in the transaction, and whichever text
  -- cannot be encoded: a chunk that returns an error has changed no table.
  pub apply_chunk-Atomic :
      (headers : List MessageHeaders) (d : Db) (e : StorageError)
      → (apply_chunk outside headers d).0 ≡ err e
      → (apply_chunk outside headers d).1 ≡ with_faults d (apply_chunk outside headers d).1.faults
  apply_chunk-Atomic headers d e failed = (chunk-Atomic headers).at d e failed
