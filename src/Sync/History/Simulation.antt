-- ===== src/Sync/History/Simulation.antt =====
-- crates/sync/src/history.rs: a step of the pipeline against the sequential pull, one lemma per step.
use qsl.Prelude.{
  ◌≡◌, ◌⊎◌, inl, inr, refl, sym, ap, ap₂, ◌∙◌, arith, none, some, List, [], ◌∷◌, ◌++◌, Bool, true,
  false, if◌then◌else◌, Option-cases,
}
use qsl.Prelude.Result.{Result}
use qsl.Sync.History.{SyncError, FetchOutcome, Consumer, Producer, looping, sending, returned}
use qsl.Sync.History.Pipeline.{
  Pipeline, Pull, consumes, finishes, produces, settled, hand_over, pull_once,
}
use qsl.Sync.History.Drained.{
  not_both, drained, held, final, Simulates, take_in-running, drained-nil, drained-ended, held_in,
  drained-held, held_in-ended, held_in-hand_over, settled-looping, settled-returned,
  hand_over-settled, pull_once-looping, pull_once-returned,
}

module _ {S : Type 0} (x : Pull S) where
  stands :
      (p : Pipeline S) (s : Producer S × Consumer)
      → Simulates x p s
      → (final x p).result ≡ none
      → settled x p.producer ≡ p.producer
      → s ≡ (p.producer, final x p)
  stands p s sim running still =
      ap₂ (λ a b. (a, b)) (sim.same_producer running ∙ still) sim.same_consumer

  pub fetch-Simulates :
      (p : Pipeline S) (s : Producer S × Consumer)
      → Simulates x p s
      → p.producer.phase ≡ looping
      → (let q : Pipeline S = record p { producer = produces x false p.producer } in
          Simulates x q s ⊎ Simulates x q (pull_once x s))
  fetch-Simulates p s sim f = elim (Option-cases (drained x p.consumer p.queue).result) [
    | inr (r, e) ↦ inl (record {
      same_consumer =
          sim.same_consumer ∙ before ∙ sym (held_in-ended x done r pr'.phase e) ∙ sym after;
      same_producer = λ h.
          absurd (not_both h (ap (λ c. c.result) (after ∙ held_in-ended x done r pr'.phase e) ∙ e));
    })
    | inl e ↦ inr (record {
      same_consumer = ap (λ t. t.1) (turn e) ∙ held_in-hand_over x done pr' e ∙ sym after;
      same_producer = λ _. ap (λ t. t.0) (turn e) ∙ handed;
    })
  ]
    where
      done : Consumer
      done = drained x p.consumer p.queue

      pr' : Producer S
      pr' = produces x false p.producer

      before : final x p ≡ done
      before =
          ap (λ ph. drained x p.consumer (p.queue ++ held x ph)) f
          ∙ drained-nil x p.consumer p.queue

      after : drained x p.consumer (p.queue ++ held x pr'.phase) ≡ held_in x done pr'.phase
      after = drained-held x p.consumer p.queue pr'.phase

      handed : (hand_over x pr' done).0 ≡ settled x pr'
      handed = hand_over-settled x pr' done

      turn : done.result ≡ none → pull_once x s ≡ hand_over x pr' done
      turn e =
          ap (pull_once x) (
            stands p s sim (ap (λ c. c.result) before ∙ e) (settled-looping x p.producer f)
            ∙ ap (λ c. (p.producer, c)) before)
          ∙ pull_once-looping x p.producer done e f

  no_more : (last : Bool) → held x (if last then returned else looping) ≡ []
  no_more true = refl
  no_more false = refl

  settled-after :
      (pr : Producer S) (o : FetchOutcome) (last : Bool)
      → pr.phase ≡ sending o last
      → settled x pr ≡ settled x (record pr { phase = if last then returned else looping })
  unfolding settled
  settled-after pr o true f = ground arith
  settled-after pr o false f = ground arith

  pub send-Simulates :
      (p : Pipeline S) (s : Producer S × Consumer) (o : FetchOutcome) (last : Bool)
      → Simulates x p s
      → p.producer.phase ≡ sending o last
      → p.queue ≡ []
      → Simulates x
          (record p {
            producer = record p.producer { phase = if last then returned else looping };
            queue = o ∷ [];
          })
          s
  send-Simulates p s o last sim f e = record {
    same_consumer = sim.same_consumer ∙ same;
    same_producer =
        λ h. sim.same_producer (ap (λ c. c.result) same ∙ h) ∙ settled-after p.producer o last f;
  }
    where
      same :
          final x p ≡ drained x p.consumer ((o ∷ []) ++ held x (if last then returned else looping))
      same =
          ap₂ (λ os ph. drained x p.consumer (os ++ held x ph)) e f
          ∙ ap (λ os. drained x p.consumer (o ∷ os)) (sym (no_more last))

  pub send_fails-Simulates :
      (p : Pipeline S) (s : Producer S × Consumer) (r : Result SyncError (Unit {0}))
      → Simulates x p s
      → p.consumer.result ≡ some r
      → Simulates x (record p { producer = record p.producer { phase = returned } }) s
  send_fails-Simulates p s r sim e = record {
    same_consumer =
        sim.same_consumer
        ∙ drained-ended x p.consumer r (p.queue ++ held x p.producer.phase) e
        ∙ sym (drained-ended x p.consumer r (p.queue ++ []) e);
    same_producer = λ h.
        absurd
          (not_both h (ap (λ c. c.result) (drained-ended x p.consumer r (p.queue ++ []) e) ∙ e));
  }

  pub receive-Simulates :
      (p : Pipeline S) (s : Producer S × Consumer) (o : FetchOutcome) (rest : List FetchOutcome)
      → Simulates x p s
      → p.queue ≡ o ∷ rest
      → p.consumer.result ≡ none
      → Simulates x
          (record p { queue = rest; consumer = consumes x false o p.consumer; cancel = false })
          s
  receive-Simulates p s o rest sim e running = record {
    same_consumer = sim.same_consumer ∙ same;
    same_producer = λ h. sim.same_producer (ap (λ c. c.result) same ∙ h);
  }
    where
      same : final x p ≡ drained x (consumes x false o p.consumer) (rest ++ held x p.producer.phase)
      same =
          ap (λ os. drained x p.consumer (os ++ held x p.producer.phase)) e
          ∙ ap (λ c. drained x c (rest ++ held x p.producer.phase))
              (take_in-running x p.consumer o running)

  pub close-Simulates :
      (p : Pipeline S) (s : Producer S × Consumer)
      → Simulates x p s
      → p.queue ≡ []
      → p.producer.phase ≡ returned
      → p.consumer.result ≡ none
      → Simulates x (record p { consumer = finishes x false false p.consumer }) (pull_once x s)
  close-Simulates p s sim e f running = record {
    same_consumer = ap (λ t. t.1) turn ∙ sym (idle (finishes x false false p.consumer));
    same_producer = λ _. ap (λ t. t.0) turn ∙ sym (settled-returned x p.producer f);
  }
    where
      idle : (c : Consumer) → drained x c (p.queue ++ held x p.producer.phase) ≡ c
      idle c = ap₂ (λ os ph. drained x c (os ++ held x ph)) e f

      turn : pull_once x s ≡ (p.producer, finishes x false false p.consumer)
      turn =
          ap (pull_once x) (
            stands p s sim (ap (λ c. c.result) (idle p.consumer) ∙ running)
              (settled-returned x p.producer f)
            ∙ ap (λ c. (p.producer, c)) (idle p.consumer))
          ∙ pull_once-returned x p.producer p.consumer running f
