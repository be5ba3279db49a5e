-- ===== src/Storage/Db/Success.antt =====
-- Actions that succeed: what ran, and on which database.
use qsl.Prelude.{◌≡◌, refl, sym, ap, ◌∙◌, Option, none, some, List, [], ◌∷◌, Text}
use qsl.Prelude.Result.{Result, ok, err}
use qsl.Core.Error.{StorageError}
use qsl.Storage.Db.{Db, Action, pure, ◌>>=◌, statement, rolled_back, transaction}
use qsl.Storage.Db.ReadOnly.{with_faults}

module _ {ℓ κ} {A : Type ℓ} {B : Type κ} where
  pub bind-ok :
      (m : Action A) (f : A → Action B) (d : Db) (b : B)
      → ((m >>= f) d).0 ≡ ok b
      → (a : A) × (d' : Db) × (m d ≡ (ok a, d')) × ((m >>= f) d ≡ f a d')
  unfolding ◌>>=◌
  bind-ok m f d b went = go (m d) refl went
    where
      run : Result StorageError A × Db → Result StorageError B × Db
      run t = elim t.0 as (λ _. Result StorageError B × Db) [
        | ok a ↦ f a t.1
        | err e ↦ (err e, t.1)
      ]

      go :
          (t : Result StorageError A × Db)
          → m d ≡ t
          → (run t).0 ≡ ok b
          → (a : A) × (d' : Db) × (m d ≡ (ok a, d')) × (run (m d) ≡ f a d')
      go (ok a, d') e h = (a, d', e, ap run e)
      go (err e', d') e h = absurd cc

module _ {ℓ} {A : Type ℓ} where
  pub statement-ok :
      (m : Action A) (d : Db) (a : A)
      → (statement m d).0 ≡ ok a
      → (faults : List (Option Text)) × (statement m d ≡ m (with_faults d faults))
  unfolding statement
  statement-ok m d a went = go d.faults refl went
    where
      run : List (Option Text) → Result StorageError A × Db
      run faults = elim faults as (λ _. Result StorageError A × Db) [
        | [] ↦ m d
        | fault ∷ rest ↦ elim fault as (λ _. Result StorageError A × Db) [
          | none ↦ m (with_faults d rest)
          | some message ↦ (err (StorageError.db message), with_faults d rest)
        ]
      ]

      go :
          (faults : List (Option Text))
          → d.faults ≡ faults
          → (run faults).0 ≡ ok a
          → (rest : List (Option Text)) × (run d.faults ≡ m (with_faults d rest))
      go [] e h = (d.faults, ap run e)
      go (none ∷ rest) e h = (rest, ap run e)
      go (some message ∷ rest) e h = absurd cc

nothing : Action (Unit {0})
nothing = statement λ e. (ok (tt {0}), e)

nothing-ok :
    (d d' : Db) (u : Unit {0})
    → nothing d ≡ (ok u, d')
    → (faults : List (Option Text)) × (d' ≡ with_faults d faults)
unfolding nothing
nothing-ok d d' u e =
    let (faults, ran) = statement-ok (λ e'. (ok (tt {0}), e')) d u (ap (λ t. t.0) e) in
    (faults, ap (λ t. t.1) (sym e ∙ ran))

module _ {ℓ} {A : Type ℓ} where
  rolled_back-ok :
      (d : Db) (t : Result StorageError A × Db) (a : A)
      → (rolled_back d t).0 ≡ ok a
      → rolled_back d t ≡ t
  unfolding rolled_back
  rolled_back-ok d (ok a', d') a h = refl
  rolled_back-ok d (err e, d') a h = absurd cc

  -- A transaction that succeeds has run its body on the tables as they were.
  pub transaction-ok :
      (body : Action A) (d : Db) (a : A)
      → (transaction body d).0 ≡ ok a
      → (faults : List (Option Text)) × (later : List (Option Text)) × ((body
            (with_faults d faults)).0
          ≡ ok a)
        × ((transaction body d).1 ≡ with_faults (body (with_faults d faults)).1 later)
  unfolding transaction nothing pure
  transaction-ok body d a went =
      let kept = rolled_back-ok d (inner d) a went in
      let h : (inner d).0 ≡ ok a = sym (ap (λ t. t.0) kept) ∙ went in
      let (u, d1, e1, k1) = bind-ok nothing (λ _. body >>= closing) d a h in
      let (faults, at1) = nothing-ok d d1 u e1 in
      let (r, d2, e2, k2) = bind-ok body closing d1 a (sym (ap (λ t. t.0) k1) ∙ h) in
      let (u2, d3, e3, k3) =
        bind-ok nothing (λ _. pure r) d2 a (sym (ap (λ t. t.0) (k1 ∙ k2)) ∙ h) in
      let (later, at3) = nothing-ok d2 d3 u2 e3 in
      let same : ok r ≡ ok a = sym (ap (λ t. t.0) (k1 ∙ k2 ∙ k3)) ∙ h in
      let ran : body (with_faults d faults) ≡ (ok r, d2) = ap body (sym at1) ∙ e2 in
      (
        faults,
        later,
        ap (λ t. t.0) ran ∙ same,
        ap (λ t. t.1) (kept ∙ k1 ∙ k2 ∙ k3)
            ∙ at3
            ∙ ap (λ z. with_faults z later) (sym (ap (λ t. t.1) ran)),
      )
    where
      closing : A → Action A
      closing r = nothing >>= λ _. pure r

      inner : Action A
      inner = nothing >>= λ _. body >>= closing
