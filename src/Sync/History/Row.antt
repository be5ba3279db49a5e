-- ===== src/Sync/History/Row.antt =====
-- crates/sync/src/history.rs: what the consumer writes into the row of the pull, and what it returns.
use qsl.Prelude.{
  ℕ, ◌+◌, ◌≡◌, ◌⊎◌, inl, inr, refl, sym, ap, subst, ◌∙◌, arith, Option, none, some, Bool, true,
  false, not, ◌&&◌, ltb, Text, if◌then◌else◌,
}
use qsl.Prelude.Int.{ℤ}
use qsl.Prelude.Result.{Result, ok, err}
use qsl.Core.Error.{StorageError}
use qsl.Storage.Rows.{HistoryRow}
use qsl.Storage.Db.{Db}
use qsl.Storage.HistorySync.{
  HistorySyncStatus, as_str, find_row, update_rows, progressed, with_status, set_status, is_row,
}
use qsl.Storage.HistorySync.Progress.{find_row-update}
use qsl.Sync.History.{
  SyncError, HistoryChunk, FetchOutcome, saturating_add, Consumer, as_i64, is_empty, report,
  store_chunk, final_status, final_anchor, conclude, finish, consume_chunk, consume, retries_text,
  chunk, failed,
}
use qsl.Sync.History.Pipeline.{Pull, consumes, finishes}
use qsl.Sync.History.Updates.{Updated, set_status-Updated, store_chunk-Updated}

-- What the row says once the consumer has returned with `r`, and before that.
abbrev pub Fits : Option (Result SyncError (Unit {0})) → HistoryRow → Type 0
Fits none row = row.status ≡ as_str HistorySyncStatus.running
Fits (some (ok _)) row =
    (row.status ≡ as_str HistorySyncStatus.completed)
    ⊎ (row.status ≡ as_str HistorySyncStatus.canceled)
Fits (some (err (SyncError.mail e))) row =
    (row.status ≡ as_str HistorySyncStatus.error)
    × (row.last_error ≡ some (retries_text (SyncError.mail e)))
Fits (some (err (SyncError.storage e))) row = row.status ≡ as_str HistorySyncStatus.running

-- An outcome of the producer: its failures are those of the mail backend.
abbrev pub FromBackend : FetchOutcome → Type 0
FromBackend (chunk ch) = Unit
FromBackend (failed (SyncError.mail e)) = Unit
FromBackend (failed (SyncError.storage e)) = ⊥

module _ {S : Type 0} (x : Pull S) where
  abbrev pub Recorded : Consumer → Type 0
  Recorded c =
      (row : HistoryRow) × (find_row x.account x.folder c.db.history ≡ some row) × Fits c.result row

  abbrev sets : HistorySyncStatus → Option Text → Consumer → Result StorageError (Unit {0}) × Db
  sets status last c = set_status x.account x.folder (x.clock c.writes) status last c.db

  -- The row after an update that keeps its key.
  found_after :
      (f : HistoryRow → HistoryRow) (d d' : Db) (row : HistoryRow)
      → ((r : HistoryRow) → is_row x.account x.folder (f r) ≡ is_row x.account x.folder r)
      → find_row x.account x.folder d.history ≡ some row
      → d'.history ≡ update_rows x.account x.folder f d.history
      → find_row x.account x.folder d'.history ≡ some (f row)
  found_after f d d' row same found h =
      ap (find_row x.account x.folder) h
      ∙ find_row-update x.account x.folder f d.history row same found

  conclude-Recorded :
      (status : HistorySyncStatus) (last : Option Text) (anchor : ℤ)
      (result : Result SyncError (Unit {0})) (c : Consumer)
      → Recorded c
      → c.result ≡ none
      → ((row : HistoryRow)
          → Fits (some result) (with_status x.account x.folder (x.clock c.writes) status last row))
      → Recorded
          (conclude x.json x.account x.folder x.total_estimate x.clock status last anchor result c)
  unfolding report
  conclude-Recorded status last anchor result c (row, found, running) still fits =
      unfold conclude report in
      go (sets status last c) (set_status-Updated x (x.clock c.writes) status last c.db)
    where
      f : HistoryRow → HistoryRow
      f = with_status x.account x.folder (x.clock c.writes) status last

      same : (r : HistoryRow) → is_row x.account x.folder (f r) ≡ is_row x.account x.folder r
      same r = unfold is_row with_status in refl

      go :
          (t : Result StorageError (Unit {0}) × Db)
          → Updated x {A = Unit {0}} (λ _. f) c.db t
          → (let c' = record c { db = t.1; writes = c.writes + 1 } in
              Recorded (elim t.0 as (λ _. Consumer) [
                | err e ↦ record c' { result = some (err (SyncError.storage e)) }
                | ok _ ↦
                    record (report x.json x.account x.folder x.total_estimate x.clock anchor true
                      c') { result = some result }
              ]))
      go (ok done, d') (inl (_, _, h)) = (f row, found_after f c.db d' row same found h, fits row)
      go (ok done, d') (inr (_, h, _)) = absurd cc
      go (err e, d') (inl (_, h, _)) = absurd cc
      go (err e, d') (inr (_, _, h)) =
          (row, ap (find_row x.account x.folder) h ∙ found, subst (λ o. Fits o row) still running)

  final_status-cases :
      (cancel stuck : Bool) (anchor : ℕ)
      → (final_status cancel stuck anchor ≡ HistorySyncStatus.completed)
        ⊎ (final_status cancel stuck anchor ≡ HistorySyncStatus.canceled)
  unfolding final_status
  final_status-cases cancel stuck anchor = ground arith

  pub finish-Recorded :
      (cancel stuck : Bool) (c : Consumer)
      → Recorded c
      → c.result ≡ none
      → Recorded (finishes x cancel stuck c)
  unfolding finish
  finish-Recorded cancel stuck c rec still =
      conclude-Recorded status none (final_anchor status c.last_anchor) (ok tt) c rec still λ row.
        unfold with_status in
        elim (final_status-cases cancel stuck c.last_anchor) [
          | inl e ↦ inl (ap as_str e)
          | inr e ↦ inr (ap as_str e)
        ]
    where
      status : HistorySyncStatus
      status = final_status cancel stuck c.last_anchor

  if-Recorded :
      (b : Bool) (c d : Consumer) → Recorded c → Recorded d → Recorded (if b then c else d)
  if-Recorded true c d h k = h
  if-Recorded false c d h k = k

  chunk-Recorded :
      (cancel : Bool) (ch : HistoryChunk) (c : Consumer)
      → Recorded c
      → c.result ≡ none
      → Recorded (consume_chunk x.json x.account x.folder x.total_estimate x.clock cancel ch c)
  unfolding report consume_chunk
  chunk-Recorded cancel ch c (row, found, running) still =
      go (store_chunk x.json x.account x.folder x.total_estimate x.clock (x.clock c.writes) ch c.db)
        (store_chunk-Updated x (x.clock c.writes) ch c.db)
    where
      f : ℕ → HistoryRow → HistoryRow
      f = progressed x.account x.folder (x.clock c.writes) (as_i64 ch.next_anchor)

      same :
          (n : ℕ) (r : HistoryRow) → is_row x.account x.folder (f n r) ≡ is_row x.account x.folder r
      same n r = unfold is_row progressed in refl

      stored : ℕ → Db → Consumer
      stored inserted d =
          report x.json x.account x.folder x.total_estimate x.clock (as_i64 ch.next_anchor) false
            (record c {
              db = d;
              writes = c.writes + 1;
              fetched_total = saturating_add c.fetched_total inserted;
              last_anchor = ch.next_anchor;
            })

      stored-Recorded :
          (n : ℕ) (d : Db)
          → d.history ≡ update_rows x.account x.folder (f n) c.db.history
          → Recorded (stored n d)
      stored-Recorded n d h = (
        f n row,
        found_after (f n) c.db d row (same n) found h,
        subst (λ o. Fits o (f n row)) (sym still)
            (unfold progressed in subst (λ o. Fits o row) still running),
      )

      go :
          (t : Result StorageError ℕ × Db)
          → Updated x f c.db t
          → Recorded (elim t.0 as (λ _. Consumer) [
            | err e ↦ record c {
              db = t.1;
              writes = c.writes + 1;
              result = some (err (SyncError.storage e));
            }
            | ok inserted ↦
                if not (ltb ch.next_anchor c.last_anchor) && is_empty ch.headers
                then finishes x cancel true (stored inserted t.1)
                else stored inserted t.1
          ])
      go (ok n, d) (inl (m, e, h)) =
          let count : n ≡ m = cc in
          let rec =
            stored-Recorded n d
              (h ∙ ap (λ k. update_rows x.account x.folder (f k) c.db.history) (sym count)) in
          if-Recorded _ _ _ (finish-Recorded cancel true (stored n d) rec still) rec
      go (ok n, d) (inr (_, h, _)) = absurd cc
      go (err e, d) (inl (_, h, _)) = absurd cc
      go (err e, d) (inr (_, _, h)) =
          (row, ap (find_row x.account x.folder) h ∙ found, subst (λ o. Fits o row) still running)

  pub consume-Recorded :
      (cancel : Bool) (o : FetchOutcome) (c : Consumer)
      → FromBackend o
      → Recorded c
      → c.result ≡ none
      → Recorded (consumes x cancel o c)
  unfolding consume
  consume-Recorded cancel (chunk ch) c from rec still = chunk-Recorded cancel ch c rec still
  consume-Recorded cancel (failed (SyncError.mail e)) c from rec still =
      conclude-Recorded HistorySyncStatus.error (some (retries_text (SyncError.mail e)))
        (as_i64 c.last_anchor) (err (SyncError.mail e)) c rec still
        λ row. unfold with_status in (refl, refl)
  consume-Recorded cancel (failed (SyncError.storage e)) c from rec still = absurd from
