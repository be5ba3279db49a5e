-- ===== src/Storage/Outbox/Dlq.antt =====
-- crates/storage/src/repos/outbox.rs, `list_dlq`: the rows that failed too often.
use qsl.Prelude.{
  ◌<◌, ℕ, ◌≡◌, arith, Bool, true, false, List, [], ◌∷◌, Option, none, some, leb, if◌then◌else◌,
  filter, All, All-weaken, All-both,
}
use qsl.Prelude.Result.{ok}
use qsl.Storage.Rows.{OutboxRow}
use qsl.Storage.Db.{Db, Action, ◌>>=◌, statement}
use qsl.Storage.Outbox.{OutboxEntry, max_attempts, rows_to_entries}
use qsl.Storage.Outbox.Invariant.{TableInv, IsCounted}
use qsl.Storage.Outbox.Select.{All-filter, Kept-filter, All-if}
use qsl.Storage.Outbox.Entries.{AllRead, rows_to_entries-AllRead}

unfoldable pub is_dead : OutboxRow → Bool
is_dead r = elim r.next_attempt_at [ none ↦ true | some _ ↦ false ]

-- ORDER BY created_at DESC; rows of one time stay in rowid order.
unfoldable pub insert_by_creation : OutboxRow → List OutboxRow → List OutboxRow
insert_by_creation r [] = r ∷ []
insert_by_creation r (s ∷ rows) =
    if leb s.created_at r.created_at then r ∷ s ∷ rows else s ∷ insert_by_creation r rows

unfoldable pub sort_by_creation : List OutboxRow → List OutboxRow
unfolding insert_by_creation
sort_by_creation [] = []
sort_by_creation (r ∷ rows) = insert_by_creation r (sort_by_creation rows)

-- SELECT_DLQ
unfoldable pub select_dlq : List OutboxRow → List OutboxRow
unfolding is_dead sort_by_creation
select_dlq rows = sort_by_creation (filter is_dead rows)

unfoldable pub list_dlq : (ℕ → Bool) → Action (List OutboxEntry)
unfolding select_dlq statement ◌>>=◌
list_dlq valid = do
  rows ← statement (λ d. (ok (select_dlq d.outbox), d))
  λ d. (rows_to_entries valid rows, d)

module _ (P : OutboxRow → Type 0) where
  All-insert_by_creation :
      (r : OutboxRow) (rows : List OutboxRow) → P r → All P rows → All P (insert_by_creation r rows)
  unfolding insert_by_creation
  All-insert_by_creation r [] p h = (p, tt)
  All-insert_by_creation r (s ∷ rows) p h =
      All-if P (leb s.created_at r.created_at) (r ∷ s ∷ rows) (s ∷ insert_by_creation r rows) (p, h)
        (h.0, All-insert_by_creation r rows p h.1)

  All-sort_by_creation : (rows : List OutboxRow) → All P rows → All P (sort_by_creation rows)
  unfolding sort_by_creation
  All-sort_by_creation [] h = tt
  All-sort_by_creation (r ∷ rows) h =
      All-insert_by_creation r (sort_by_creation rows) h.0 (All-sort_by_creation rows h.1)

exhausted-AllRead :
    (rows : List OutboxRow) (es : List OutboxEntry)
    → AllRead rows es
    → All (λ r. r.attempts ≡ max_attempts) rows
    → All (λ e. e.attempts ≡ max_attempts) es
exhausted-AllRead [] [] read h = tt
exhausted-AllRead [] (e ∷ es) read h = absurd read
exhausted-AllRead (r ∷ rows) [] read h = absurd read
exhausted-AllRead (r ∷ rows) (e ∷ es) read h =
    (rw read.0.attempts h.0, exhausted-AllRead rows es read.1 h.1)

dead-exhausted : (r : OutboxRow) → IsCounted r → is_dead r ≡ true → r.attempts ≡ max_attempts
unfolding is_dead
dead-exhausted r c d = go r.next_attempt_at c d
  where
    go :
        (next : Option ℕ)
        → elim next as (λ _. Type 0) [
          | none ↦ r.attempts ≡ max_attempts
          | some _ ↦ r.attempts < max_attempts
        ]
        → elim next as (λ _. Bool) [ none ↦ true | some _ ↦ false ] ≡ true
        → r.attempts ≡ max_attempts
    go none c d = c
    go (some t) c d = cc

-- Of a well-formed table, `list_dlq` lists only operations that have failed five times.
pub list_dlq-exhausted :
    (valid : ℕ → Bool) (d : Db) (es : List OutboxEntry)
    → TableInv d.outbox
    → (list_dlq valid d).0 ≡ ok es
    → All (λ e. e.attempts ≡ max_attempts) es
list_dlq-exhausted valid d es inv h =
    let dead = filter is_dead d.outbox in
    let counted =
      All-both IsCounted (λ r. is_dead r ≡ true) dead
        (All-filter IsCounted is_dead d.outbox inv.counted) (Kept-filter is_dead d.outbox) in
    let exhausted =
      All-weaken (λ r. IsCounted r × (is_dead r ≡ true)) (λ r. r.attempts ≡ max_attempts) dead
        (λ r p. dead-exhausted r p.0 p.1) counted in
    exhausted-AllRead (select_dlq d.outbox) es
      (rows_to_entries-AllRead valid (select_dlq d.outbox) es (unfold list_dlq in ground arith))
      (unfold select_dlq in All-sort_by_creation (λ r. r.attempts ≡ max_attempts) dead exhausted)
