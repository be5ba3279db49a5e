-- ===== src/Sync/History/Terminal.antt =====
-- crates/sync/src/history.rs: the row of the pull, against what the pull returned.
use qsl.Prelude.{
  ℕ, ◌+◌, Text, ◌≡◌, refl, sym, ap, subst, ◌∙◌, arith, Option, none, some, List, [], ◌∷◌, Bool,
  true, false, ◌||◌, leb, if◌then◌else◌, eq_text_refl,
}
use qsl.Prelude.Int.{ℤ}
use qsl.Prelude.Result.{Result, ok, err}
use qsl.Core.Error.{StorageError, MailError}
use qsl.Storage.Db.{Db, statement}
use qsl.Storage.Rows.{HistoryRow}
use qsl.Storage.HistorySync
use qsl.Storage.HistorySync.{HistorySyncStatus, as_str, find_row, upsert_rows, started_row, is_row}
use qsl.Storage.HistorySync.Progress.{find_row-upsert}
use qsl.Sync.History.{
  SyncError, HistoryChunk, FetchOutcome, Consumer, Producer, Phase, looping, sending, returned,
  as_i64, report, produce, take_answer, drop_fts_index, history_chunk_size,
}
use qsl.Sync.History.Pipeline.{
  Pipeline, Pull, produces, Work, fetch, send, send_fails, receive, break_off, close, work, cancels,
  Reach, here, next, initial, pipeline, start_consumer, start_producer,
}
use qsl.Sync.History.Row.{Fits, FromBackend, Recorded, consume-Recorded, finish-Recorded}

abbrev HoldsFromBackend : Phase → Type 0
HoldsFromBackend looping = Unit
HoldsFromBackend (sending o last) = FromBackend o
HoldsFromBackend returned = Unit

abbrev AllFromBackend : List FetchOutcome → Type 0
AllFromBackend [] = Unit
AllFromBackend (o ∷ os) = FromBackend o × AllFromBackend os

resting : (last : Bool) → HoldsFromBackend (if last then returned else looping)
resting true = tt
resting false = tt

module _ {S : Type 0} (x : Pull S) where
  record Sound (p : Pipeline S) : Type 0 where
    recorded : Recorded x p.consumer
    in_queue : AllFromBackend p.queue
    in_phase : HoldsFromBackend p.producer.phase

  answer-FromBackend :
      (r : Result MailError HistoryChunk) (pr : Producer S)
      → HoldsFromBackend (take_answer x.pull_history_chunk x.folder r pr).phase
  unfolding take_answer
  answer-FromBackend (ok ch) pr = tt
  answer-FromBackend (err e) pr = go (leb 5 (pr.failures + 1))
    where
      go :
          (b : Bool)
          → HoldsFromBackend
              (if b then sending (FetchOutcome.failed (SyncError.mail e)) true else looping)
      go true = tt
      go false = tt

  produce-FromBackend :
      (cancel : Bool) (pr : Producer S) → HoldsFromBackend (produces x cancel pr).phase
  unfolding produce
  produce-FromBackend cancel pr =
      go (cancel || leb pr.anchor 1)
        (x.pull_history_chunk x.folder pr.anchor history_chunk_size pr.server)
    where
      go :
          (b : Bool) (t : Result MailError HistoryChunk × S)
          → HoldsFromBackend
              (if b
                then record pr { phase = returned }
                else take_answer x.pull_history_chunk x.folder t.0
                    (record pr { server = t.1 })).phase
      go true t = tt
      go false t = answer-FromBackend t.0 (record pr { server = t.1 })

  Work-Sound : (p q : Pipeline S) → Sound p → Work x p q → Sound q
  Work-Sound p q s (fetch f e) = subst Sound (sym e) (record {
    recorded = s.recorded;
    in_queue = s.in_queue;
    in_phase = produce-FromBackend p.cancel p.producer;
  })
  Work-Sound p q s (send o last f e running h) = subst Sound (sym h) (record {
    recorded = s.recorded;
    in_queue = (subst HoldsFromBackend f s.in_phase, tt);
    in_phase = resting last;
  })
  Work-Sound p q s (send_fails o last r f e h) =
      subst Sound (sym h) (record { recorded = s.recorded; in_queue = s.in_queue; in_phase = tt })
  Work-Sound p q s (receive o rest late e running f h) =
      let (first, others) = subst AllFromBackend e s.in_queue in
      subst Sound (sym h) (record {
        recorded = consume-Recorded x late o p.consumer first s.recorded running;
        in_queue = others;
        in_phase = s.in_phase;
      })
  Work-Sound p q s (break_off o rest e running f h) =
      let (first, others) = subst AllFromBackend e s.in_queue in
      subst Sound (sym h) (record {
        recorded = finish-Recorded x true false p.consumer s.recorded running;
        in_queue = others;
        in_phase = s.in_phase;
      })
  Work-Sound p q s (close e f running h) = subst Sound (sym h) (record {
    recorded = finish-Recorded x p.cancel false p.consumer s.recorded running;
    in_queue = s.in_queue;
    in_phase = s.in_phase;
  })

  Reach-Sound : (p q : Pipeline S) → Sound p → Reach x p q → Sound q
  Reach-Sound p q s here = s
  Reach-Sound p q s (next {q = r} before (work w)) = Work-Sound r q (Reach-Sound p r s before) w
  Reach-Sound p q s (next {q = r} before (cancels e)) =
      let t = Reach-Sound p r s before in
      subst Sound (sym e)
        (record { recorded = t.recorded; in_queue = t.in_queue; in_phase = t.in_phase })

  -- The table and the result of the statement that starts the row.
  started-rows :
      (now : ℕ) (anchor : ℤ) (estimate : Option ℤ) (d : Db)
      → (let t = HistorySync.start x.account x.folder now anchor estimate d in
          (t.0 ≡ ok tt
            → find_row x.account x.folder t.1.history
              ≡ some (started_row x.account x.folder anchor estimate now)))
  unfolding HistorySync.start statement
  started-rows now anchor estimate d = go d.faults
    where
      row : HistoryRow
      row = started_row x.account x.folder anchor estimate now

      found : find_row x.account x.folder (upsert_rows x.account x.folder row d.history) ≡ some row
      found =
          find_row-upsert x.account x.folder row d.history
            (unfold is_row started_row in simp eq_text_refl)

      Outcome : Type 0
      Outcome = Result StorageError (Unit {0}) × Db

      run : Db → Outcome
      run e = (ok tt, record e { history = upsert_rows x.account x.folder row e.history })

      go :
          (faults : List (Option Text))
          → (let t : Outcome = elim faults as (λ _. Outcome) [
            | [] ↦ run d
            | fault ∷ rest ↦ elim fault as (λ _. Outcome) [
              | none ↦ run (record d { faults = rest })
              | some message ↦ (err (StorageError.db message), record d { faults = rest })
            ]
          ] in
              t.0 ≡ ok tt → find_row x.account x.folder t.1.history ≡ some row)
      go [] e = found
      go (none ∷ rest) e = found
      go (some message ∷ rest) e = absurd cc

  drop-history : (d : Db) → (drop_fts_index d).1.history ≡ d.history
  unfolding drop_fts_index statement
  drop-history d = ground arith

  started-Recorded :
      (now anchor : ℕ) (d : Db)
      → (start_consumer x now anchor d).result ≡ none
      → Recorded x (start_consumer x now anchor d)
  unfolding start_consumer report
  started-Recorded now anchor d e =
      go (HistorySync.start x.account x.folder now (as_i64 anchor) estimate d)
        (started-rows now (as_i64 anchor) estimate d) e
    where
      estimate : Option ℤ
      estimate = elim x.total_estimate [ none ↦ none | some n ↦ some (as_i64 n) ]

      base : Db → Consumer
      base d' = record {
        db = d';
        fetched_total = 0;
        last_anchor = anchor;
        writes = 0;
        progress = [];
        result = none;
      }

      begun : Result StorageError (Unit {0}) × Db → Consumer
      begun t = elim t.0 as (λ _. Consumer) [
        | err e' ↦ record (base t.1) { result = some (err (SyncError.storage e')) }
        | ok _ ↦
            record (report x.json x.account x.folder x.total_estimate x.clock (as_i64 anchor) false
              (base t.1)) { db = (drop_fts_index t.1).1 }
      ]

      go :
          (t : Result StorageError (Unit {0}) × Db)
          → (t.0 ≡ ok tt
              → find_row x.account x.folder t.1.history
                ≡ some (started_row x.account x.folder (as_i64 anchor) estimate now))
          → (begun t).result ≡ none
          → Recorded x (begun t)
      go (ok done, d') found e' = (
        started_row x.account x.folder (as_i64 anchor) estimate now,
        ap (find_row x.account x.folder) (drop-history d') ∙ found refl,
        unfold started_row in refl,
      )
      go (err e1, d') found e' = absurd cc

  -- However the steps of a pull interleave with each other and with a cancellation, and whichever
  -- statements fail: once its row was started, the row says that the pull is running for as long as it
  -- has not returned, completed or canceled when it returned with success, and the error and its text
  -- when the backend failed too often. When a write failed, the row still says that the pull is running.
  pub row-Fits :
      (now anchor : ℕ) (server : S) (d : Db) (p : Pipeline S)
      → (initial x now anchor server d).1.result ≡ none
      → Reach x (pipeline x (initial x now anchor server d)) p
      → (row : HistoryRow) × (find_row x.account x.folder p.consumer.db.history ≡ some row)
        × Fits p.consumer.result row
  unfolding initial start_producer
  row-Fits now anchor server d p e before =
      (Reach-Sound (pipeline x (initial x now anchor server d)) p
        (record { recorded = started-Recorded now anchor d e; in_queue = tt; in_phase = tt })
        before).recorded
