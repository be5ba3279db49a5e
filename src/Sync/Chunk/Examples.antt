-- ===== src/Sync/Chunk/Examples.antt =====
-- Tests of a chunk of two headers, of which one is stored outside of a thread.
use qsl.Prelude.{◌≡◌, refl, codes, true, List, [], ◌∷◌, ◌++◌, All, none, some}
use qsl.Prelude.Result.{ok, err}
use qsl.Core.Error.{StorageError}
use qsl.Core.Message.{MessageHeaders}
use qsl.Storage.Db.{Db}
use qsl.Storage.Db.ReadOnly.{with_faults}
use qsl.Storage.Samples.{empty_db, blank_row, blank_headers}
use qsl.Sync.Plan.{Outside, row_with_id}
use qsl.Sync.Chunk.{Applied, apply_chunk}
use qsl.Sync.Chunk.Grows.{is_attached}
use qsl.Sync.Chunk.Atomic.{apply_chunk-Atomic}
use qsl.Sync.Chunk.Threaded.{apply_chunk-threaded}

abbrev outside : Outside
outside = record {
  json = record {
    encode_addresses = λ addresses. ok (codes "[…]");
    encode_texts = λ texts. ok (codes "[…]");
    encode_flags = λ flags. ok (codes "{}");
  };
  valid = λ n. true;
  clock = λ n. n;
  fresh = λ n. codes "t" ++ n ∷ [];
  order = λ attachments. attachments;
}

abbrev two : List MessageHeaders
two = blank_headers (codes "m1") ∷ blank_headers (codes "m2") ∷ []

abbrev one_loose : Db
one_loose = record empty_db { messages = blank_row (codes "m1") ∷ [] }

-- The insertion of the first thread fails, after `begin`.
abbrev locked : Db
locked = record one_loose { faults = none ∷ none ∷ some (codes "locked") ∷ [] }

chunk_fails : (apply_chunk outside two locked).0 ≡ err (StorageError.db (codes "locked"))
unfolding apply_chunk qsl.Prelude.eq_text qsl.Sync.Threading.resolve_with_chunk_local
    qsl.Sync.Threading.Subject.normalize_subject qsl.Sync.Threading.Subject.strip_prefixes
    qsl.Prelude.Split.trim_end qsl.Prelude.Split.trim_start qsl.Storage.Threads.insert
chunk_fails = refl

apply_chunk-Atomic_example :
    (apply_chunk outside two locked).1
    ≡ with_faults locked (apply_chunk outside two locked).1.faults
apply_chunk-Atomic_example =
    apply_chunk-Atomic outside two locked (StorageError.db (codes "locked")) chunk_fails

abbrev one_each : Applied
one_each = record { added = 1; updated = 1; new_headers = blank_headers (codes "m2") ∷ [] }

chunk_applied : (apply_chunk outside two one_loose).0 ≡ ok one_each
unfolding apply_chunk qsl.Prelude.eq_text qsl.Sync.Threading.resolve_with_chunk_local
    qsl.Sync.Threading.Subject.normalize_subject qsl.Sync.Threading.Subject.strip_prefixes
    qsl.Prelude.Split.trim_end qsl.Prelude.Split.trim_start qsl.Storage.Threads.insert
chunk_applied = refl

apply_chunk-threaded_example :
    All
      (λ h. is_attached (row_with_id h.id (apply_chunk outside two one_loose).1.messages) ≡ true)
      two
apply_chunk-threaded_example = apply_chunk-threaded outside two one_loose one_each chunk_applied
