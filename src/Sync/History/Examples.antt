-- ===== src/Sync/History/Examples.antt =====
-- Tests of the pull of a history: a server with one chunk, and a database that takes it or refuses it.
use qsl.Prelude.{
  ℕ, suc, ◌-◌, ◌<◌, ◌≤◌, ◌≡◌, ◌⊎◌, inl, refl, arith, codes, [], ◌∷◌, none, some, true, false,
}
use qsl.Prelude.Result.{Result, ok, err}
use qsl.Core.Error.{StorageError}
use qsl.Storage.Samples.{empty_db, blank_headers}
use qsl.Storage.Db.{Db}
use qsl.Storage.Rows.{HistoryRow}
use qsl.Storage.HistorySync.{HistorySyncStatus, as_str, find_row}
use qsl.Storage.Messages.{Json}
use qsl.Sync.History.{
  SyncError, HistoryChunk, FetchOutcome, chunk, sending, is_empty, history_chunk_size,
}
use qsl.Sync.History.Pipeline.{
  Pull, Pipeline, pull, Runs, Reach, here, next, work, Trace, begin, works, fetch, send, receive,
  close, initial, pipeline,
}
use qsl.Sync.History.Refinement.{consumer-refines-pull}
use qsl.Sync.History.Row.{Fits}
use qsl.Sync.History.Terminal.{row-Fits}
use qsl.Sync.History.Termination.{pull-returns, steps-bounded}

abbrev plain : Json
plain = record {
  encode_addresses = λ addresses. ok (codes "[…]");
  encode_texts = λ texts. ok (codes "[…]");
  encode_flags = λ flags. ok (codes "{}");
}

abbrev one_chunk : HistoryChunk
one_chunk = record { headers = blank_headers (codes "m1") ∷ []; next_anchor = 1 }

-- The state of the server counts its calls.
abbrev inbox : Pull ℕ
inbox = record {
  json = plain;
  account = codes "gmail:a@b";
  folder = codes "gmail:a@b|INBOX";
  total_estimate = none;
  clock = λ n. n;
  pull_history_chunk = λ folder anchor limit calls. (
    ok (record { headers = blank_headers (codes "m1") ∷ []; next_anchor = anchor - 2 }),
    suc calls,
  );
}

-- The third write fails: the transaction of the first chunk.
abbrev failing_db : Db
failing_db = record empty_db { faults = none ∷ none ∷ some (codes "disk full") ∷ [] }

abbrev quiet : Pipeline ℕ
quiet = pipeline inbox (initial inbox 7 3 0 empty_db)

whole_run :
    (q : Pipeline ℕ) × Reach inbox quiet q × (q.consumer.result ≡ some (ok tt)) × (q.cancel ≡ false)
unfolding initial qsl.Sync.History.produce qsl.Storage.HistorySync.start qsl.Sync.History.consume
    qsl.Storage.Messages.batch_insert_skip_existing qsl.Storage.HistorySync.update_progress
    qsl.Storage.HistorySync.set_status
whole_run =
    let fetched = next here (work (fetch refl refl)) in
    let stored =
      next (next fetched (work (send (chunk one_chunk) false refl refl refl refl)))
        (work (receive (chunk one_chunk) [] false refl refl refl refl)) in
    (_, next (next stored (work (fetch refl refl))) (work (close refl refl refl refl)), refl, refl)

consumer-refines-pull_example :
    (n : ℕ) × (whole_run.0.consumer ≡ (pull inbox n (initial inbox 7 3 0 empty_db)).1)
consumer-refines-pull_example =
    consumer-refines-pull inbox 7 3 0 empty_db whole_run.0 (ok tt) whole_run.1 whole_run.3
      whole_run.2

refused_run :
    (q : Pipeline ℕ) × Reach inbox (pipeline inbox (initial inbox 7 3 0 failing_db)) q
    × (q.consumer.result ≡ some (err (SyncError.storage (StorageError.db (codes "disk full")))))
unfolding initial qsl.Sync.History.produce qsl.Storage.HistorySync.start qsl.Sync.History.consume
    qsl.Storage.Messages.batch_insert_skip_existing
refused_run =
    let fetched = next here (work (fetch refl refl)) in
    (
      _,
      next (next fetched (work (send (chunk one_chunk) false refl refl refl refl)))
          (work (receive (chunk one_chunk) [] false refl refl refl refl)),
      refl,
    )

refused_starts : (initial inbox 7 3 0 failing_db).1.result ≡ none
unfolding initial qsl.Storage.HistorySync.start
refused_starts = refl

row-Fits_example :
    (row : HistoryRow) × (find_row
        (codes "gmail:a@b")
        (codes "gmail:a@b|INBOX")
        refused_run.0.consumer.db.history
      ≡ some row)
    × Fits refused_run.0.consumer.result row
row-Fits_example = row-Fits inbox 7 3 0 failing_db refused_run.0 refused_starts refused_run.1

pages :
    (anchor : ℕ) (s : ℕ) (ch : HistoryChunk)
    → 1 < anchor
    → (inbox.pull_history_chunk inbox.folder anchor history_chunk_size s).0 ≡ ok ch
    → (ch.next_anchor < anchor) ⊎ (is_empty ch.headers ≡ true)
pages anchor s ch big e = inl (let lower : anchor - 2 ≡ ch.next_anchor = cc in omega arith)

pull-returns_example :
    (q : Pipeline ℕ) × (r : Result SyncError (Unit {0})) × Runs inbox quiet q
    × (q.consumer.result ≡ some r)
    × (q.cancel ≡ quiet.cancel)
pull-returns_example = pull-returns inbox pages quiet

two_steps : (q : Pipeline ℕ) × Trace inbox quiet 2 q
unfolding initial qsl.Sync.History.produce qsl.Storage.HistorySync.start
two_steps =
    (_, works (works begin (fetch refl refl)) (send (chunk one_chunk) false refl refl refl refl))

steps-bounded_example : 2 ≤ 71
steps-bounded_example = steps-bounded inbox pages 7 3 0 empty_db 2 two_steps.0 two_steps.1
