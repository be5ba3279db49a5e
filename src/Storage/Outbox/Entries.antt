-- ===== src/Storage/Outbox/Entries.antt =====
-- The entries that are read from the rows of a table.
use qsl.Prelude.{
  ℕ, ◌≡◌, true, false, Bool, refl, subst, arith, Text, List, [], ◌∷◌, eq_text, eq_text_iff, All,
  All-weaken, All-false,
}
use qsl.Prelude.Result.{ok, >>=-eq-ok}
use qsl.Storage.Rows.{OutboxRow}
use qsl.Storage.Outbox.{OutboxEntry, row_to_entry, rows_to_entries}
use qsl.Storage.Outbox.Invariant.{has_id, Unique, CountIs}

-- In a table without repeated ids the count of a row is the count of its id.
other_id :
    (id : Text) (n : ℕ) (rows : List OutboxRow)
    → All (λ r. eq_text r.id id ≡ false) rows
    → CountIs id n rows
other_id id n rows =
    All-weaken (λ r. eq_text r.id id ≡ false) (λ r. eq_text r.id id ≡ true → r.attempts ≡ n) rows
      (λ r h k. cc)

pub Unique-CountIs :
    (rows : List OutboxRow) → Unique rows → All (λ r. CountIs r.id r.attempts rows) rows
Unique-CountIs [] u = tt
Unique-CountIs (r ∷ rows) u = (
  (λ _. refl, other_id r.id r.attempts rows (All-false (has_id r.id) rows u.0)),
  behind rows (All-false (has_id r.id) rows u.0) (Unique-CountIs rows u.1),
)
  where
    behind :
        (ss : List OutboxRow)
        → All (λ s. eq_text s.id r.id ≡ false) ss
        → All (λ s. CountIs s.id s.attempts rows) ss
        → All (λ s. CountIs s.id s.attempts (r ∷ rows)) ss
    behind [] a h = tt
    behind (s ∷ ss) a h = (
      (λ e. absurd (ground (arith, eq_text_iff r.id s.id, eq_text_iff s.id r.id, a.0)), h.0),
      behind ss a.1 h.1,
    )

-- What an entry has from its row.
pub record IsRead (r : OutboxRow) (e : OutboxEntry) : Type 0 where
  pub id : e.id ≡ r.id
  pub op_kind : e.op_kind ≡ r.op_kind
  pub attempts : e.attempts ≡ r.attempts

pub row_to_entry-IsRead :
    (valid : ℕ → Bool) (r : OutboxRow) (e : OutboxEntry) → row_to_entry valid r ≡ ok e → IsRead r e
unfolding row_to_entry
row_to_entry-IsRead valid r e h = ground arith

-- Row by row, in order.
abbrev pub AllRead : List OutboxRow → List OutboxEntry → Type 0
AllRead [] [] = Unit
AllRead (r ∷ rows) (e ∷ es) = IsRead r e × AllRead rows es
AllRead _ _ = ⊥

pub rows_to_entries-AllRead :
    (valid : ℕ → Bool) (rows : List OutboxRow) (es : List OutboxEntry)
    → rows_to_entries valid rows ≡ ok es
    → AllRead rows es
unfolding rows_to_entries
rows_to_entries-AllRead valid [] [] h = tt
rows_to_entries-AllRead valid [] (e ∷ es) h = cc
rows_to_entries-AllRead valid (r ∷ rows) es h =
    let (e, h', p) = >>=-eq-ok (row_to_entry valid r) _ h in
    let (es', s, q) = >>=-eq-ok (rows_to_entries valid rows) _ h' in
    let same : e ∷ es' ≡ es = cc s in
    subst (AllRead (r ∷ rows)) same
      (row_to_entry-IsRead valid r e p, rows_to_entries-AllRead valid rows es' q)
