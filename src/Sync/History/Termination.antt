-- ===== src/Sync/History/Termination.antt =====
-- crates/sync/src/history.rs: a pull comes to its end.
use qsl.Prelude.{
  Text, ℕ, zero, suc, ◌+◌, ◌*◌, ◌-◌, ◌<◌, ◌≤◌, ◌≡◌, ◌⊎◌, inl, inr, refl, sym, ap, ◌∙◌, subst, arith,
  Option, none, some, length, Bool, true, false, ◌||◌, leb, if◌then◌else◌, Option-cases,
}
use qsl.Prelude.Int.{ℤ}
use qsl.Prelude.Result.{Result, ok, err}
use qsl.Core.Error.{StorageError, MailError}
use qsl.Storage.Db.{Db}
use qsl.Storage.HistorySync.{HistorySyncStatus, set_status}
use qsl.Sync.History.{
  SyncError, HistoryChunk, Consumer, Producer, Phase, looping, sending, returned, is_empty, report,
  conclude, finish, produce, take_answer, history_chunk_size,
}
use qsl.Sync.History.Pipeline.{
  Pipeline, Pull, produces, consumes, finishes, Work, fetch, send, send_fails, receive, break_off,
  close, Runs, halt, then_work, Trace, begin, works, canceled, initial, pipeline, start_producer,
  Work-exists,
}

abbrev top : ℕ → ℕ → ℕ
top anchor failures = 3 * (6 * anchor + (5 - failures)) + 1

-- What is left to do: by the producer, in the channel, and by the consumer.
abbrev phase_left : Phase → ℕ → ℕ → ℕ
phase_left looping anchor failures = top anchor failures
phase_left (sending o last) anchor failures = (if last then 0 else top anchor failures) + 2
phase_left returned anchor failures = 0

module _ {S : Type 0} (x : Pull S) where
  abbrev producer_left : Producer S → ℕ
  producer_left pr = phase_left pr.phase pr.anchor pr.failures

  abbrev pub left : Pipeline S → ℕ
  left p =
      producer_left p.producer + length p.queue + elim p.consumer.result [ none ↦ 1 | some r ↦ 0 ]

  running≤1 :
      (o : Option (Result SyncError (Unit {0}))) → elim o as (λ _. ℕ) [ none ↦ 1 | some r ↦ 0 ] ≤ 1
  running≤1 none = omega arith
  running≤1 (some r) = omega arith

  conclude-returns :
      (status : HistorySyncStatus) (last : Option Text) (anchor : ℤ)
      (result : Result SyncError (Unit {0})) (c : Consumer)
      → (r : Result SyncError (Unit {0})) × ((conclude x.json x.account x.folder x.total_estimate
            x.clock status last anchor result c).result
          ≡ some r)
  unfolding conclude
  conclude-returns status last anchor result c =
      go (set_status x.account x.folder (x.clock c.writes) status last c.db)
    where
      go :
          (t : Result StorageError (Unit {0}) × Db)
          → (r : Result SyncError (Unit {0})) × ((let c' = record c {
            db = t.1;
            writes = c.writes + 1;
          } in
                (elim t.0 as (λ _. Consumer) [
                  | err e ↦ record c' { result = some (err (SyncError.storage e)) }
                  | ok _ ↦
                      record (report x.json x.account x.folder x.total_estimate x.clock anchor true
                        c') { result = some result }
                ]).result)
              ≡ some r)
      go (ok done, d) = (result, refl)
      go (err e, d) = (err (SyncError.storage e), refl)

  pub finish-returns :
      (cancel stuck : Bool) (c : Consumer)
      → (r : Result SyncError (Unit {0})) × ((finishes x cancel stuck c).result ≡ some r)
  unfolding finish
  finish-returns cancel stuck c = conclude-returns _ _ _ _ c

  module _
      (pages : (anchor : ℕ) (s : S) (ch : HistoryChunk)
        → 1 < anchor
        → (x.pull_history_chunk x.folder anchor history_chunk_size s).0 ≡ ok ch
        → (ch.next_anchor < anchor) ⊎ (is_empty ch.headers ≡ true)) where
    answer-lowers :
        (r : Result MailError HistoryChunk) (pr : Producer S)
        → ((ch : HistoryChunk)
            → r ≡ ok ch
            → (ch.next_anchor < pr.anchor) ⊎ (is_empty ch.headers ≡ true))
        → 1 < pr.anchor
        → producer_left (take_answer x.pull_history_chunk x.folder r pr) < top pr.anchor pr.failures
    unfolding take_answer
    answer-lowers (ok ch) pr h big = ground (arith, h ch refl)
    answer-lowers (err e) pr h big = ground arith

    produce-lowers :
        (cancel : Bool) (pr : Producer S)
        → producer_left (produces x cancel pr) < top pr.anchor pr.failures
    unfolding produce
    produce-lowers cancel pr = go (cancel || leb pr.anchor 1) refl
      where
        t : Result MailError HistoryChunk × S
        t = x.pull_history_chunk x.folder pr.anchor history_chunk_size pr.server

        big : (cancel || leb pr.anchor 1) ≡ false → 1 < pr.anchor
        big e = ground arith

        go :
            (b : Bool)
            → (cancel || leb pr.anchor 1) ≡ b
            → producer_left (
                if b
                then record pr { phase = returned }
                else take_answer x.pull_history_chunk x.folder t.0 (record pr { server = t.1 }))
              < top pr.anchor pr.failures
        go true e = omega arith
        go false e =
            answer-lowers t.0 (record pr { server = t.1 })
              (λ ch. pages pr.anchor pr.server ch (big e)) (big e)

    phase_is :
        (pr : Producer S) (ph : Phase)
        → pr.phase ≡ ph
        → producer_left pr ≡ phase_left ph pr.anchor pr.failures
    phase_is pr ph f = ap (λ ph'. phase_left ph' pr.anchor pr.failures) f

    consumer_left : Consumer → ℕ
    consumer_left c = elim c.result [ none ↦ 1 | some r ↦ 0 ]

    ended :
        (c : Consumer) (r : Result SyncError (Unit {0})) → c.result ≡ some r → consumer_left c ≡ 0
    unfolding consumer_left
    ended c r e = ap (λ o. elim o as (λ _. ℕ) [ none ↦ 1 | some r' ↦ 0 ]) e

    open_one : (c : Consumer) → c.result ≡ none → consumer_left c ≡ 1
    unfolding consumer_left
    open_one c e = ap (λ o. elim o as (λ _. ℕ) [ none ↦ 1 | some r' ↦ 0 ]) e

    sent :
        (last : Bool) (a f : ℕ)
        → phase_left (if last then returned else looping) a f + 1
          < (if last then 0 else top a f) + 2
    sent true a f = omega arith
    sent false a f = omega arith

    -- Every step of the producer or of the consumer leaves less to do.
    pub Work-lowers : (p q : Pipeline S) → Work x p q → left q < left p
    unfolding consumer_left
    Work-lowers p q w = go w
      where
        less : Pipeline S → Type 0
        less t = left t < left p

        go : Work x p q → less q
        go (fetch f e) =
            let lower = produce-lowers p.cancel p.producer in
            let before = phase_is p.producer looping f in subst less (sym e) (omega arith)
        go (send o last f e running h) =
            let before = phase_is p.producer (sending o last) f in
            let empty = ap length e in
            let lower = sent last p.producer.anchor p.producer.failures in
            subst less (sym h) (omega arith)
        go (send_fails o last r f e h) =
            let before = phase_is p.producer (sending o last) f in subst less (sym h) (omega arith)
        go (receive o rest late e running f h) =
            let shorter = ap length e in
            let waiting = open_one p.consumer running in
            let bound = running≤1 (consumes x late o p.consumer).result in
            subst less (sym h) (omega arith)
        go (break_off o rest e running f h) =
            let shorter = ap length e in
            let waiting = open_one p.consumer running in
            let bound = running≤1 (finishes x true false p.consumer).result in
            subst less (sym h) (omega arith)
        go (close e f running h) =
            let waiting = open_one p.consumer running in
            let (r, returns) = finish-returns p.cancel false p.consumer in
            let done = ended (finishes x p.cancel false p.consumer) r returns in
            subst less (sym h) (omega arith)

    -- The end of a pull, within n steps of the pipeline's own.
    Work-ends :
        (n : ℕ) (p : Pipeline S)
        → left p < n
        → (q : Pipeline S) × (r : Result SyncError (Unit {0})) × Runs x p q
          × (q.consumer.result ≡ some r)
          × (q.cancel ≡ p.cancel)
    Work-ends zero p bound = absurd (omega arith)
    Work-ends (suc n) p bound = elim (Option-cases p.consumer.result) [
      | inr (r, e) ↦ (p, r, halt, e, refl)
      | inl running ↦
          let (q, w, same) = Work-exists x p running in
          let (q', r, later, e, still) =
            Work-ends n q (let lower = Work-lowers p q w in omega arith) in
          (q', r, then_work w later, e, still ∙ same)
    ]

    -- Where every chunk that the backend returns lowers the anchor or is empty: from every state of a
    -- pull, whatever failed before, steps of the producer and of the consumer alone lead to one where
    -- the consumer has returned, and the cancel flag stands there as it stood.
    pub pull-returns :
        (p : Pipeline S)
        → (q : Pipeline S) × (r : Result SyncError (Unit {0})) × Runs x p q
          × (q.consumer.result ≡ some r)
          × (q.cancel ≡ p.cancel)
    pull-returns p = Work-ends (suc (left p)) p (omega arith)

    Trace-lowers : (p q : Pipeline S) (n : ℕ) → Trace x p n q → n + left q ≤ left p
    Trace-lowers p q n begin = omega arith
    Trace-lowers p q n (works {n = m} {q = q'} before w) =
        let earlier = Trace-lowers p q' m before in let lower = Work-lowers q' q w in omega arith
    Trace-lowers p q n (canceled {q = q'} before e) =
        let earlier = Trace-lowers p q' n before in let same = ap left e in omega arith

    -- Where every chunk that the backend returns lowers the anchor or is empty: producer and consumer
    -- together take no more than 18 * anchor + 17 steps, whatever the interleaving, the failures and the
    -- cancellations.
    pub steps-bounded :
        (now anchor : ℕ) (server : S) (d : Db) (n : ℕ) (p : Pipeline S)
        → Trace x (pipeline x (initial x now anchor server d)) n p
        → n ≤ 18 * anchor + 17
    unfolding initial start_producer
    steps-bounded now anchor server d n p path =
        let bound = Trace-lowers (pipeline x (initial x now anchor server d)) p n path in
        let one = running≤1 (initial x now anchor server d).1.result in omega arith
