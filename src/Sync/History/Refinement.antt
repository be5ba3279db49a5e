-- ===== src/Sync/History/Refinement.antt =====
-- crates/sync/src/history.rs, `pull_history`: the pipelined pull against the sequential one.
use qsl.Prelude.{
  ℕ, suc, ◌≡◌, ◌⊎◌, inl, inr, refl, sym, ap, subst, ◌∙◌, some, ◌++◌, Bool, true, false,
}
use qsl.Prelude.Result.{Result}
use qsl.Storage.Db.{Db}
use qsl.Sync.History.{SyncError, Consumer, Producer, looping}
use qsl.Sync.History.Pipeline.{
  Pipeline, Pull, produces, finishes, Work, fetch, send, send_fails, receive, break_off, close,
  work, cancels, Reach, here, next, pull_once, pull, start_producer, initial, pipeline,
}
use qsl.Sync.History.Drained.{drained, drained-ended, settled-looping, held, Simulates}
use qsl.Sync.History.Simulation.{
  fetch-Simulates, send-Simulates, send_fails-Simulates, receive-Simulates, close-Simulates,
}

module _ {S : Type 0} (x : Pull S) where
  both_values : {b : Bool} → b ≡ true → b ≡ false → ⊥
  both_values e f = cc

  not_canceled : (p q : Pipeline S) → Work x p q → q.cancel ≡ false → p.cancel ≡ false
  not_canceled p q (fetch f e) g = sym (ap (λ t. t.cancel) e) ∙ g
  not_canceled p q (send o last f e running h) g = sym (ap (λ t. t.cancel) h) ∙ g
  not_canceled p q (send_fails o last r f e h) g = sym (ap (λ t. t.cancel) h) ∙ g
  not_canceled p q (receive o rest late e running f h) g = f
  not_canceled p q (break_off o rest e running f h) g = sym (ap (λ t. t.cancel) h) ∙ g
  not_canceled p q (close e f running h) g = sym (ap (λ t. t.cancel) h) ∙ g

  Work-Simulates :
      (p q : Pipeline S) (s : Producer S × Consumer)
      → Simulates x p s
      → Work x p q
      → q.cancel ≡ false
      → Simulates x q s ⊎ Simulates x q (pull_once x s)
  Work-Simulates p q s sim w g = go w (not_canceled p q w g)
    where
      Goal : Pipeline S → Type 0
      Goal t = Simulates x t s ⊎ Simulates x t (pull_once x s)

      go : Work x p q → p.cancel ≡ false → Goal q
      go (fetch f e) h =
          subst Goal (sym (e ∙ ap (λ b. record p { producer = produces x b p.producer }) h))
            (fetch-Simulates x p s sim f)
      go (send o last f e running h) _ =
          subst Goal (sym h) (inl (send-Simulates x p s o last sim f e))
      go (send_fails o last r f e h) _ =
          subst Goal (sym h) (inl (send_fails-Simulates x p s r sim e))
      go (receive o rest true e running f h) _ =
          absurd (both_values (sym (ap (λ t. t.cancel) (sym h))) g)
      go (receive o rest false e running f h) _ =
          subst Goal (sym h) (inl (receive-Simulates x p s o rest sim e running))
      go (break_off o rest e running f h) k = absurd (both_values f k)
      go (close e f running h) k =
          subst Goal (sym (h ∙ ap (λ b. record p { consumer = finishes x b false p.consumer }) k))
            (inr (close-Simulates x p s sim e f running))

  start-Simulates : (s : Producer S × Consumer) → s.0.phase ≡ looping → Simulates x (pipeline x s) s
  start-Simulates s e = record {
    same_consumer = sym (ap (λ ph. drained x s.1 (held x ph)) e);
    same_producer = λ _. sym (settled-looping x s.0 e);
  }

  Reach-Simulates :
      (s : Producer S × Consumer) (p : Pipeline S)
      → s.0.phase ≡ looping
      → Reach x (pipeline x s) p
      → p.cancel ≡ false
      → (n : ℕ) × Simulates x p (pull x n s)
  unfolding pull
  Reach-Simulates s p e here g = (0, start-Simulates s e)
  Reach-Simulates s p e (next before (cancels h)) g =
      absurd (both_values (sym (ap (λ t. t.cancel) (sym h))) g)
  Reach-Simulates s p e (next {q} before (work w)) g =
      let (n, sim) = Reach-Simulates s q e before (not_canceled q p w g) in
      elim (Work-Simulates q p (pull x n s) sim w g) [
        | inl same ↦ (n, same)
        | inr later ↦ (suc n, later)
      ]

  -- Whatever the interleaving of producer and consumer, as long as the pull is not canceled: when the
  -- consumer has returned, its database, its reports and its result are those of some number of rounds
  -- of the sequential pull.
  pub consumer-refines-pull :
      (now anchor : ℕ) (server : S) (d : Db) (p : Pipeline S) (r : Result SyncError (Unit {0}))
      → Reach x (pipeline x (initial x now anchor server d)) p
      → p.cancel ≡ false
      → p.consumer.result ≡ some r
      → (n : ℕ) × (p.consumer ≡ (pull x n (initial x now anchor server d)).1)
  unfolding initial start_producer
  consumer-refines-pull now anchor server d p r before g e =
      let (n, sim) = Reach-Simulates (initial x now anchor server d) p refl before g in
      (
        n,
        sym (
            sim.same_consumer
            ∙ drained-ended x p.consumer r (p.queue ++ held x p.producer.phase) e),
      )
