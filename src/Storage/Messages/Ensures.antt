-- ===== src/Storage/Messages/Ensures.antt =====
-- Actions on the table of messages that succeed: what holds of the result and of the table after, when
-- something held of the table before. One rule for each way to build an action.
use qsl.Prelude.{◌≡◌, refl, sym, ap, subst, ◌∙◌, List}
use qsl.Prelude.Result.{Result, ok, err, ok_unique}
use qsl.Core.Error.{StorageError}
use qsl.Storage.Rows.{MessageRow}
use qsl.Storage.Db.{Db, Action, pure, ◌>>=◌, statement, transaction}
use qsl.Storage.Db.ReadOnly.{with_faults, ReadOnly}
use qsl.Storage.Db.Moves.{Order, Moves}
use qsl.Storage.Db.Success.{bind-ok, statement-ok, transaction-ok}

-- A predicate on the table.
abbrev pub Rows : Type 1
Rows = List MessageRow → Type 0

pub record Ensures {ℓ} {A : Type ℓ} (pre : Rows) (m : Action A) (post : A → Rows) : Type ℓ where
  pub at : (d : Db) (a : A) → pre d.messages → (m d).0 ≡ ok a → post a (m d).1.messages

module _ {ℓ} {A : Type ℓ} (pre : Rows) where
  pub Ensures-pure :
      (a : A) (post : A → Rows)
      → ((rows : List MessageRow) → pre rows → post a rows)
      → Ensures pre (pure a) post
  unfolding pure
  Ensures-pure a post h = record {
    at = λ d b p e.
        subst (λ x. post x d.messages) (ok_unique (pure a d).0 a b refl e) (h d.messages p);
  }

  pub Ensures-fails : (e : StorageError) (post : A → Rows) → Ensures pre (λ d. (err e, d)) post
  Ensures-fails e post = record { at = λ d a p went. absurd cc }

  pub Ensures-statement :
      (m : Action A) (post : A → Rows) → Ensures pre m post → Ensures pre (statement m) post
  Ensures-statement m post h = record {
    at = λ d a p went.
        let (faults, ran) = statement-ok m d a went in
        subst (λ t. post a t.1.messages) (sym ran)
          (h.at (with_faults d faults) a p (ap (λ t. t.0) (sym ran) ∙ went));
  }

  pub Ensures-transaction :
      (m : Action A) (post : A → Rows) → Ensures pre m post → Ensures pre (transaction m) post
  Ensures-transaction m post h = record {
    at = λ d a p went.
        let (faults, later, done, same) = transaction-ok m d a went in
        subst (λ e. post a e.messages) (sym same) (h.at (with_faults d faults) a p done);
  }

  pub Ensures-weaken :
      (m : Action A) (post post' : A → Rows)
      → ((a : A) (rows : List MessageRow) → post a rows → post' a rows)
      → Ensures pre m post
      → Ensures pre m post'
  Ensures-weaken m post post' f h = record { at = λ d a p e. f a (m d).1.messages (h.at d a p e) }

  -- What every step keeps, holds after.
  pub Ensures-Moves :
      (r : Order) (m : Action A)
      → ((d e : Db) → r.rel d e → pre d.messages → pre e.messages)
      → Moves r m
      → Ensures pre m (λ a rows. pre rows)
  Ensures-Moves r m kept h = record { at = λ d a p e. kept d (m d).1 (h.at d) p }

  -- A query keeps the table.
  pub Ensures-ReadOnly :
      (m : Action A) (q : A → Type 0)
      → ReadOnly m
      → Ensures (λ rows. Unit {0}) m (λ a rows. q a)
      → Ensures pre m (λ a rows. pre rows × q a)
  Ensures-ReadOnly m q h k = record {
    at = λ d a p e. (subst pre (sym (ap (λ x. x.messages) (h.at d))) p, k.at d a tt e);
  }

module _ {ℓ κ} {A : Type ℓ} {B : Type κ} (pre : Rows) where
  pub Ensures-bind :
      (m : Action A) (f : A → Action B) (mid : A → Rows) (post : B → Rows)
      → Ensures pre m mid
      → ((a : A) → Ensures (mid a) (f a) post)
      → Ensures pre (m >>= f) post
  Ensures-bind m f mid post h k = record {
    at = λ d b p went.
        let (a, d', first, then') = bind-ok m f d b went in
        let held : mid a d'.messages =
          subst (λ (t : Result StorageError A × Db). mid a t.1.messages) first
            (h.at d a p (ap (λ t. t.0) first)) in
        subst (λ (t : Result StorageError B × Db). post b t.1.messages) (sym then')
          ((k a).at d' b held (ap (λ t. t.0) (sym then') ∙ went));
  }
