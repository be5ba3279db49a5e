-- ===== src/Sync/Drain/Preserves.antt =====
-- The whole drain: what it reports, and what it leaves of the outbox table.
use qsl.Prelude.{
  ℕ, suc, ◌<◌, ◌≡◌, true, false, Bool, refl, subst, sym, arith, Text, List, [], ◌∷◌, Option, none,
  some, leb, eq_text, All, All-both, All-weaken, All-false,
}
use qsl.Prelude.Result.{Result, ok, err}
use qsl.Core.Error.{StorageError}
use qsl.Storage.Rows.{OutboxRow}
use qsl.Storage.Db.{Db}
use qsl.Storage.Outbox.{OutboxEntry, max_attempts, is_due, select_due, list_due}
use qsl.Storage.Outbox.Invariant.{TableInv, IsCounted, has_id, Unique, CountIs}
use qsl.Storage.Outbox.Select.{All-select, Unique-select, select_due-IsDue}
use qsl.Storage.Outbox.Entries.{AllRead, Unique-CountIs, rows_to_entries-AllRead}
use qsl.Sync.Backend.{Externals}
use qsl.Sync.Drain.{DrainOutcome, World, Tick, process_one, process_all, drain}
use qsl.Sync.Drain.Effects.{process_one-Effect}
use qsl.Sync.Drain.Invariant.{IsReady, Apart, Distinct, Effect-TableInv, Effect-IsReady}

module _ {S : Type 0} (x : Externals S) (ticks : ℕ → Tick) where
  process_all-TableInv :
      (n : ℕ) (es : List OutboxEntry) (w : World S)
      → TableInv w.db.outbox
      → All (IsReady w.db.outbox) es
      → Distinct es
      → TableInv (process_all x ticks n es w).1.db.outbox
  unfolding process_all
  process_all-TableInv n [] w inv ready apart = inv
  process_all-TableInv n (e ∷ es) w inv ready apart =
      let f = process_one-Effect x (ticks n) e w in
      process_all-TableInv (suc n) es (process_one x (ticks n) e w).1
        (Effect-TableInv e w.db.outbox f inv ready.0)
        (Effect-IsReady e w.db.outbox es f apart.0 ready.1) apart.1

-- Entries read from rows that are ready, and apart, are so too.
IsReady-entries :
    (table rows : List OutboxRow) (es : List OutboxEntry)
    → AllRead rows es
    → All (λ r. CountIs r.id r.attempts table × (r.attempts < max_attempts)) rows
    → All (IsReady table) es
IsReady-entries table [] [] read h = tt
IsReady-entries table [] (e ∷ es) read h = absurd read
IsReady-entries table (r ∷ rows) [] read h = tt
IsReady-entries table (r ∷ rows) (e ∷ es) read h = (
  record { agrees = rw (read.0.id, read.0.attempts) h.0.0; live = rw read.0.attempts h.0.1 },
  IsReady-entries table rows es read.1 h.1,
)

Apart-entries :
    (id : Text) (rows : List OutboxRow) (es : List OutboxEntry)
    → AllRead rows es
    → All (λ r. eq_text r.id id ≡ false) rows
    → Apart id es
Apart-entries id [] [] read h = tt
Apart-entries id [] (e ∷ es) read h = absurd read
Apart-entries id (r ∷ rows) [] read h = tt
Apart-entries id (r ∷ rows) (e ∷ es) read h =
    (ground (arith, read.0.id, h.0), Apart-entries id rows es read.1 h.1)

Distinct-entries :
    (rows : List OutboxRow) (es : List OutboxEntry) → AllRead rows es → Unique rows → Distinct es
Distinct-entries [] [] read u = tt
Distinct-entries [] (e ∷ es) read u = absurd read
Distinct-entries (r ∷ rows) [] read u = tt
Distinct-entries (r ∷ rows) (e ∷ es) read u = (
  Apart-entries e.id rows es read.1 (rw read.0.id (All-false (has_id r.id) rows u.0)),
  Distinct-entries rows es read.1 u.1,
)

-- A due row has attempts left.
due-live : (now : ℕ) (r : OutboxRow) → IsCounted r → is_due now r ≡ true → r.attempts < max_attempts
unfolding is_due
due-live now r c d = go r.next_attempt_at c d
  where
    go :
        (next : Option ℕ)
        → elim next as (λ _. Type 0) [
          | none ↦ r.attempts ≡ max_attempts
          | some _ ↦ r.attempts < max_attempts
        ]
        → elim next as (λ _. Bool) [ none ↦ false | some t ↦ leb t now ] ≡ true
        → r.attempts < max_attempts
    go none c d = cc
    go (some t) c d = c

-- Reading changes no table.
outbox-list_due :
    (valid : ℕ → Bool) (now limit : ℕ) (d : Db) → (list_due valid now limit d).1.outbox ≡ d.outbox
unfolding list_due
outbox-list_due valid now limit d = ground arith

pub list_due-AllRead :
    (valid : ℕ → Bool) (now limit : ℕ) (d : Db) (due : List OutboxEntry)
    → (list_due valid now limit d).0 ≡ ok due
    → AllRead (select_due now limit d.outbox) due
list_due-AllRead valid now limit d due h =
    rows_to_entries-AllRead valid (select_due now limit d.outbox) due
      (unfold list_due in ground arith)

module _ {S : Type 0} (x : Externals S) (now : ℕ) (ticks : ℕ → Tick) (limit : ℕ) (w : World S) where
  due-IsReady :
      (due : List OutboxEntry)
      → (list_due x.valid_timestamp now limit w.db).0 ≡ ok due
      → TableInv w.db.outbox
      → All (IsReady w.db.outbox) due × Distinct due
  due-IsReady due h inv =
      let rows = select_due now limit w.db.outbox in
      let read = list_due-AllRead x.valid_timestamp now limit w.db due h in
      let counts =
        All-select (λ r. CountIs r.id r.attempts w.db.outbox) now limit w.db.outbox
          (Unique-CountIs w.db.outbox inv.unique) in
      let live =
        All-weaken (λ r. IsCounted r × (is_due now r ≡ true)) (λ r. r.attempts < max_attempts) rows
          (λ r p. due-live now r p.0 p.1)
          (All-both IsCounted (λ r. is_due now r ≡ true) rows
            (All-select IsCounted now limit w.db.outbox inv.counted)
            (select_due-IsDue now limit w.db.outbox)) in
      (
        IsReady-entries w.db.outbox rows due read (
            All-both (λ r. CountIs r.id r.attempts w.db.outbox) (λ r. r.attempts < max_attempts)
              rows counts live),
        Distinct-entries rows due read (Unique-select now limit w.db.outbox inv.unique),
      )

  -- From a table in which exactly the rows that have failed five times are dead-lettered and no two
  -- rows share an id, a drain leads to such a table, whatever the servers answer, whichever
  -- statements fail, and also where it ends with an error.
  pub drain-TableInv : TableInv w.db.outbox → TableInv (drain x now ticks limit w).1.db.outbox
  unfolding drain
  drain-TableInv inv = go (list_due x.valid_timestamp now limit w.db).0 refl
    where
      go :
          (r : Result StorageError (List OutboxEntry))
          → (list_due x.valid_timestamp now limit w.db).0 ≡ r
          → TableInv
              (elim r as (λ _. Result StorageError (List DrainOutcome) × World S) [
                | err e ↦ (err e, record w { db = (list_due x.valid_timestamp now limit w.db).1 })
                | ok due ↦
                    let (os, w') =
                      process_all x ticks 0 due
                        (record w { db = (list_due x.valid_timestamp now limit w.db).1 }) in
                    (ok os, w')
              ]).1.db.outbox
      go (err e) p = subst TableInv (sym (outbox-list_due x.valid_timestamp now limit w.db)) inv
      go (ok due) p =
          let same = outbox-list_due x.valid_timestamp now limit w.db in
          let (ready, apart) = due-IsReady due p inv in
          process_all-TableInv x ticks 0 due
            (record w { db = (list_due x.valid_timestamp now limit w.db).1 })
            (subst TableInv (sym same) inv)
            (subst (λ rows. All (IsReady rows) due) (sym same) ready) apart
