-- ===== src/Storage/Outbox/Invariant.antt =====
-- The invariant of the outbox table: a live row has attempts left, a dead-lettered one has used them
-- up, and no two rows share an id.
use qsl.Prelude.{
  ℕ, ◌<◌, ◌≡◌, true, false, Bool, refl, subst, sym, ◌∙◌, arith, Text, List, [], ◌∷◌, none, some,
  eq_text, if◌then◌else◌, All, any,
}
use qsl.Storage.Rows.{OutboxRow}
use qsl.Storage.Outbox.{max_attempts, update_rows}

-- `next_attempt_at` is NULL exactly in the rows that have failed `max_attempts` times.
abbrev pub IsCounted : OutboxRow → Type 0
IsCounted r = elim r.next_attempt_at [
  | none ↦ r.attempts ≡ max_attempts
  | some _ ↦ r.attempts < max_attempts
]

abbrev pub has_id : Text → OutboxRow → Bool
has_id id r = eq_text r.id id

abbrev pub Unique : List OutboxRow → Type 0
Unique [] = Unit
Unique (r ∷ rows) = (any (has_id r.id) rows ≡ false) × Unique rows

pub record TableInv (rows : List OutboxRow) : Type 0 where
  pub counted : All IsCounted rows
  pub unique : Unique rows

-- The rows with this id have this count of attempts.
abbrev pub CountIs : Text → ℕ → List OutboxRow → Type 0
CountIs id n = All (λ r. eq_text r.id id ≡ true → r.attempts ≡ n)

-- Updates of the columns other than the id.
module _ (f : OutboxRow → OutboxRow) (id : Text) where
  pub any-has_id-update :
      (same_id : (r : OutboxRow) → (f r).id ≡ r.id) (k : Text) (rows : List OutboxRow)
      → any (has_id k) (update_rows f id rows) ≡ any (has_id k) rows
  unfolding update_rows
  any-has_id-update same_id k [] = refl
  any-has_id-update same_id k (r ∷ rows) =
      ground (arith, same_id r, any-has_id-update same_id k rows)

  pub Unique-update :
      (same_id : (r : OutboxRow) → (f r).id ≡ r.id) (rows : List OutboxRow)
      → Unique rows
      → Unique (update_rows f id rows)
  unfolding update_rows
  Unique-update same_id [] u = tt
  Unique-update same_id (r ∷ rows) u = (
    subst (λ k. any (has_id k) (update_rows f id rows) ≡ false) (sym kept)
        (any-has_id-update same_id r.id rows ∙ u.0),
    Unique-update same_id rows u.1,
  )
    where
      kept : (if eq_text r.id id then f r else r).id ≡ r.id
      kept = ground (arith, same_id r)

  -- A predicate that `f` restores on the rows with this id, given what is known of them.
  pub All-update :
      (P Q : OutboxRow → Type 0) (rows : List OutboxRow)
      → ((r : OutboxRow) → eq_text r.id id ≡ true → P r → Q (f r))
      → ((r : OutboxRow) → eq_text r.id id ≡ false → P r → Q r)
      → All P rows
      → All Q (update_rows f id rows)
  unfolding update_rows
  All-update P Q [] hit miss h = tt
  All-update P Q (r ∷ rows) hit miss h =
      (pick (eq_text r.id id) refl, All-update P Q rows hit miss h.1)
    where
      pick : (b : Bool) → eq_text r.id id ≡ b → Q (if b then f r else r)
      pick true e = hit r e h.0
      pick false e = miss r e h.0
