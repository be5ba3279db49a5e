-- ===== src/Sync/History/Pipeline.antt =====
-- crates/sync/src/history.rs, `pull_history`: the two halves on one task, interleaved at their awaits,
-- and the sequential pull that they stand for.
use qsl.Prelude.{
  ◌+◌, ℕ, zero, suc, ◌≡◌, refl, sym, Option, none, some, List, [], ◌∷◌, Bool, true, false,
  if◌then◌else◌,
}
use qsl.Prelude.Int.{ℤ}
use qsl.Prelude.Result.{Result, ok, err}
use qsl.Core.Ids.{AccountId, FolderId}
use qsl.Core.Error.{MailError}
use qsl.Storage.Db.{Db}
use qsl.Storage.HistorySync
use qsl.Storage.Messages.{Json}
use qsl.Sync.History.{
  SyncError, HistoryChunk, FetchOutcome, Consumer, Producer, Phase, as_i64, drop_fts_index,
  create_fts_index, looping, sending, returned, report, consume, finish, produce,
}

-- The channel holds one outcome at most.
pub record Pipeline (S : Type 0) : Type 0 where
  pub producer : Producer S
  pub queue : List FetchOutcome
  pub consumer : Consumer
  pub cancel : Bool

-- What a section of the pull is about.
pub record Pull (S : Type 0) : Type 0 where
  pub json : Json
  pub account : AccountId
  pub folder : FolderId
  pub total_estimate : Option ℕ
  pub clock : ℕ → ℕ
  pub pull_history_chunk : FolderId → ℕ → ℕ → S → Result MailError HistoryChunk × S

module _ {S : Type 0} (x : Pull S) where
  abbrev pub consumes : Bool → FetchOutcome → Consumer → Consumer
  consumes = consume x.json x.account x.folder x.total_estimate x.clock

  abbrev pub finishes : Bool → Bool → Consumer → Consumer
  finishes = finish x.json x.account x.folder x.total_estimate x.clock

  abbrev pub produces : Bool → Producer S → Producer S
  produces = produce x.pull_history_chunk x.folder

  -- A step of the producer or of the consumer.
  pub data Work (p q : Pipeline S) : Type 0 where
    fetch :
        p.producer.phase ≡ looping
        → q ≡ record p { producer = produces p.cancel p.producer }
        → Work p q
    send :
        (o : FetchOutcome) (last : Bool)
        → p.producer.phase ≡ sending o last
        → p.queue ≡ []
        → p.consumer.result ≡ none
        → q ≡ record p {
          producer = record p.producer { phase = if last then returned else looping };
          queue = o ∷ [];
        }
        → Work p q
    -- the consumer has returned, and with it the receiver is gone
    send_fails :
        (o : FetchOutcome) (last : Bool) (r : Result SyncError (Unit {0}))
        → p.producer.phase ≡ sending o last
        → p.consumer.result ≡ some r
        → q ≡ record p { producer = record p.producer { phase = returned } }
        → Work p q
    -- the flag may be raised while the outcome is stored
    receive :
        (o : FetchOutcome) (rest : List FetchOutcome) (late : Bool)
        → p.queue ≡ o ∷ rest
        → p.consumer.result ≡ none
        → p.cancel ≡ false
        → q ≡ record p { queue = rest; consumer = consumes late o p.consumer; cancel = late }
        → Work p q
    break_off :
        (o : FetchOutcome) (rest : List FetchOutcome)
        → p.queue ≡ o ∷ rest
        → p.consumer.result ≡ none
        → p.cancel ≡ true
        → q ≡ record p { queue = rest; consumer = finishes true false p.consumer }
        → Work p q
    close :
        p.queue ≡ []
        → p.producer.phase ≡ returned
        → p.consumer.result ≡ none
        → q ≡ record p { consumer = finishes p.cancel false p.consumer }
        → Work p q

  -- The user may cancel at any time.
  pub data Step (p q : Pipeline S) : Type 0 where
    work : Work p q → Step p q
    cancels : q ≡ record p { cancel = true } → Step p q

  pub data Reach (p : Pipeline S) : Pipeline S → Type 0 where
    here : Reach p p
    next : {q r : Pipeline S} → Reach p q → Step q r → Reach p r

  -- The pipeline's own steps alone.
  pub data Runs : Pipeline S → Pipeline S → Type 0 where
    halt : {p : Pipeline S} → Runs p p
    then_work : {p q r : Pipeline S} → Work p q → Runs q r → Runs p r

  -- The same with the number of the steps that are not the user's.
  pub data Trace (p : Pipeline S) : ℕ → Pipeline S → Type 0 where
    begin : Trace p 0 p
    works : {n : ℕ} {q r : Pipeline S} → Trace p n q → Work q r → Trace p (n + 1) r
    canceled :
        {n : ℕ} {q r : Pipeline S} → Trace p n q → r ≡ record q { cancel = true } → Trace p n r

  -- `pull_history` up to its pipeline: the row of the pull, the first report, and the full-text index
  -- dropped if that works. Where the row cannot be written, the pull has returned here.
  unfoldable pub start_consumer : ℕ → ℕ → Db → Consumer
  unfolding report drop_fts_index
  start_consumer now anchor d =
      let estimate : Option ℤ = elim x.total_estimate [ none ↦ none | some n ↦ some (as_i64 n) ] in
      let (r, d') = HistorySync.start x.account x.folder now (as_i64 anchor) estimate d in
      let c : Consumer = record {
        db = d';
        fetched_total = 0;
        last_anchor = anchor;
        writes = 0;
        progress = [];
        result = none;
      } in
      elim r [
        | err e ↦ record c { result = some (err (SyncError.storage e)) }
        | ok _ ↦
            let c' =
              report x.json x.account x.folder x.total_estimate x.clock (as_i64 anchor) false c in
            record c' { db = (drop_fts_index d').1 }
      ]

  unfoldable pub start_producer : ℕ → S → Producer S
  start_producer anchor s = record { anchor = anchor; failures = 0; phase = looping; server = s }

  unfoldable pub initial : ℕ → ℕ → S → Db → Producer S × Consumer
  unfolding start_producer start_consumer
  initial now anchor server d = (start_producer anchor server, start_consumer now anchor d)

  -- The pipeline as `pull_history` sets it up.
  abbrev pub pipeline : Producer S × Consumer → Pipeline S
  pipeline (pr, c) = record { producer = pr; queue = []; consumer = c; cancel = false }

  -- `pull_history` behind its pipeline: the index is built again, and the consumer's result returned.
  unfoldable pub outcome : Consumer → Option (Result SyncError (Unit {0})) × Db
  unfolding create_fts_index
  outcome c = (c.result, (create_fts_index c.db).1)

  -- One round of a pull that fetches and stores in turn, never canceled.
  unfoldable pub settled : Producer S → Producer S
  settled p = record p {
    phase = elim p.phase [
      | looping ↦ looping
      | sending o last ↦ if last then returned else looping
      | returned ↦ returned
    ];
  }

  unfoldable pub hand_over : Producer S → Consumer → Producer S × Consumer
  unfolding settled
  hand_over p c =
      (settled p, elim p.phase [ looping ↦ c | sending o last ↦ consumes false o c | returned ↦ c ])

  unfoldable pub pull_running : Producer S → Consumer → Producer S × Consumer
  unfolding hand_over
  pull_running p c = elim p.phase [
    | looping ↦ hand_over (produces false p) c
    | sending o last ↦ (p, c)
    | returned ↦ (p, finishes false false c)
  ]

  unfoldable pub pull_once : Producer S × Consumer → Producer S × Consumer
  unfolding pull_running
  pull_once (p, c) = elim c.result [ some r ↦ (p, c) | none ↦ pull_running p c ]

  unfoldable pub pull : ℕ → Producer S × Consumer → Producer S × Consumer
  unfolding pull_once
  pull zero s = s
  pull (suc n) s = pull_once (pull n s)

  -- A pipeline whose consumer has not returned can always take a step of its own, in which nobody
  -- raises the flag.
  pub Work-exists :
      (p : Pipeline S)
      → p.consumer.result ≡ none
      → (q : Pipeline S) × Work p q × (q.cancel ≡ p.cancel)
  Work-exists p running = go p.queue refl p.producer.phase refl p.cancel refl
    where
      go :
          (queue : List FetchOutcome)
          → p.queue ≡ queue
          → (phase : Phase) → p.producer.phase ≡ phase
          → (cancel : Bool) → p.cancel ≡ cancel
          → (q : Pipeline S) × Work p q × (q.cancel ≡ p.cancel)
      go (o ∷ rest) e phase f false g = (_, receive o rest false e running g refl, sym g)
      go (o ∷ rest) e phase f true g = (_, break_off o rest e running g refl, refl)
      go [] e looping f cancel g = (_, fetch f refl, refl)
      go [] e (sending o last) f cancel g = (_, send o last f e running refl, refl)
      go [] e returned f cancel g = (_, close e f running refl, refl)
