-- ===== src/Sync/History/Drained.antt =====
-- crates/sync/src/history.rs: the state of the sequential pull that a pipeline stands for.
use qsl.Prelude.{◌≡◌, refl, sym, ap, ◌∙◌, arith, Option, none, some, List, [], ◌∷◌, ◌++◌, false}
use qsl.Prelude.Result.{Result}
use qsl.Sync.History.{
  SyncError, FetchOutcome, Consumer, Producer, Phase, looping, sending, returned,
}
use qsl.Sync.History.Pipeline.{
  Pipeline, Pull, consumes, finishes, produces, settled, hand_over, pull_running, pull_once,
}

pub not_both {ℓ} : {A : Type ℓ} {o : Option A} {a : A} → o ≡ none → o ≡ some a → ⊥
not_both e f = cc

module _ {S : Type 0} (x : Pull S) where
  -- The consumer after the outcomes that are under way.
  abbrev pub take_in : Consumer → FetchOutcome → Consumer
  take_in c o = elim c.result [ some r ↦ c | none ↦ consumes x false o c ]

  abbrev pub drained : Consumer → List FetchOutcome → Consumer
  drained c [] = c
  drained c (o ∷ os) = drained (take_in c o) os

  abbrev pub held : Phase → List FetchOutcome
  held looping = []
  held (sending o last) = o ∷ []
  held returned = []

  abbrev pub final : Pipeline S → Consumer
  final p = drained p.consumer (p.queue ++ held p.producer.phase)

  -- A sequential state that a pipeline stands for: what is under way is stored, and the producer is the
  -- same for as long as that has not ended the consumer.
  pub record Simulates (p : Pipeline S) (s : Producer S × Consumer) : Type 0 where
    pub same_consumer : s.1 ≡ final p
    pub same_producer : (final p).result ≡ none → s.0 ≡ settled x p.producer

  take_in-ended :
      (c : Consumer) (r : Result SyncError (Unit {0})) (o : FetchOutcome)
      → c.result ≡ some r
      → take_in c o ≡ c
  take_in-ended c r o e = ground arith

  pub take_in-running :
      (c : Consumer) (o : FetchOutcome) → c.result ≡ none → take_in c o ≡ consumes x false o c
  take_in-running c o e = ground arith

  drained-append :
      (c : Consumer) (os : List FetchOutcome) (o : FetchOutcome)
      → drained c (os ++ o ∷ []) ≡ take_in (drained c os) o
  drained-append c [] o = refl
  drained-append c (o' ∷ os) o = drained-append (take_in c o') os o

  pub drained-nil : (c : Consumer) (os : List FetchOutcome) → drained c (os ++ []) ≡ drained c os
  drained-nil c [] = refl
  drained-nil c (o ∷ os) = drained-nil (take_in c o) os

  pub drained-ended :
      (c : Consumer) (r : Result SyncError (Unit {0})) (os : List FetchOutcome)
      → c.result ≡ some r
      → drained c os ≡ c
  drained-ended c r [] e = refl
  drained-ended c r (o ∷ os) e =
      ap (λ c'. drained c' os) (take_in-ended c r o e) ∙ drained-ended c r os e

  -- What a held outcome adds.
  pub held_in : Consumer → Phase → Consumer
  held_in c looping = c
  held_in c (sending o last) = take_in c o
  held_in c returned = c

  pub drained-held :
      (c : Consumer) (os : List FetchOutcome) (phase : Phase)
      → drained c (os ++ held phase) ≡ held_in (drained c os) phase
  unfolding held_in
  drained-held c os looping = drained-nil c os
  drained-held c os (sending o last) = drained-append c os o
  drained-held c os returned = drained-nil c os

  pub held_in-ended :
      (c : Consumer) (r : Result SyncError (Unit {0})) (phase : Phase)
      → c.result ≡ some r
      → held_in c phase ≡ c
  unfolding held_in
  held_in-ended c r looping e = refl
  held_in-ended c r (sending o last) e = take_in-ended c r o e
  held_in-ended c r returned e = refl

  pub held_in-hand_over :
      (c : Consumer) (pr : Producer S) → c.result ≡ none → (hand_over x pr c).1 ≡ held_in c pr.phase
  unfolding held_in hand_over
  held_in-hand_over c pr e = go pr.phase
    where
      go :
          (phase : Phase)
          → elim phase as (λ _. Consumer) [
            | looping ↦ c
            | sending o last ↦ consumes x false o c
            | returned ↦ c
          ]
            ≡ held_in c phase
      go looping = refl
      go (sending o last) = sym (take_in-running c o e)
      go returned = refl

  pub settled-looping : (pr : Producer S) → pr.phase ≡ looping → settled x pr ≡ pr
  unfolding settled
  settled-looping pr e = ground arith

  pub settled-returned : (pr : Producer S) → pr.phase ≡ returned → settled x pr ≡ pr
  unfolding settled
  settled-returned pr e = ground arith

  pub hand_over-settled : (pr : Producer S) (c : Consumer) → (hand_over x pr c).0 ≡ settled x pr
  unfolding hand_over
  hand_over-settled pr c = refl

  pub pull_once-looping :
      (pr : Producer S) (c : Consumer)
      → c.result ≡ none
      → pr.phase ≡ looping
      → pull_once x (pr, c) ≡ hand_over x (produces x false pr) c
  unfolding pull_once pull_running
  pull_once-looping pr c e f = ground arith

  pub pull_once-returned :
      (pr : Producer S) (c : Consumer)
      → c.result ≡ none
      → pr.phase ≡ returned
      → pull_once x (pr, c) ≡ (pr, finishes x false false c)
  unfolding pull_once pull_running
  pull_once-returned pr c e f = ground arith
  -- The state that a pipeline stands for, where its producer is at rest.
