-- ===== src/Sync/Drain/Outcomes.antt =====
-- What a drain reports.
use qsl.Prelude.{ℕ, suc, ◌≡◌, refl, ap₂, arith, Text, List, [], ◌∷◌, inl, inr, map}
use qsl.Prelude.Result.{Result-cases, ok}
use qsl.Storage.Rows.{OutboxRow}
use qsl.Storage.Db.{Db}
use qsl.Storage.Outbox
use qsl.Storage.Outbox.{OutboxEntry, max_attempts, succ_u32, select_due, list_due, delete_rows}
use qsl.Storage.Outbox.Entries.{AllRead}
use qsl.Sync.Backend.{Externals}
use qsl.Sync.Drain.{
  DrainOutcome, sent, retrying, dead_lettered, World, Tick, dispatch, process_one, process_all,
  drain,
}
use qsl.Sync.Drain.Effects.{Keeps-dispatch}
use qsl.Sync.Drain.Preserves.{list_due-AllRead}

abbrev pub outcome_id : DrainOutcome → Text
outcome_id (sent id _) = id
outcome_id (retrying id _ _ _) = id
outcome_id (dead_lettered id _ _) = id

-- A DELETE that went through has removed the row.
delete-ok :
    (id : Text) (d : Db) (u : Unit {0})
    → (Outbox.delete id d).0 ≡ ok u
    → (Outbox.delete id d).1.outbox ≡ delete_rows id d.outbox
unfolding Outbox.delete
delete-ok id d u h = ground arith

module _ {S : Type 0} (x : Externals S) where
  outcome_id-process_one :
      (tick : Tick) (e : OutboxEntry) (w : World S) → outcome_id (process_one x tick e w).0 ≡ e.id
  unfolding process_one
  outcome_id-process_one tick e w = ground arith

  outcome_ids-process_all :
      (ticks : ℕ → Tick) (n : ℕ) (es : List OutboxEntry) (w : World S)
      → map outcome_id (process_all x ticks n es w).0 ≡ map (λ e. e.id) es
  unfolding process_all
  outcome_ids-process_all ticks n [] w = refl
  outcome_ids-process_all ticks n (e ∷ es) w =
      ap₂ (λ i is. i ∷ is) (outcome_id-process_one (ticks n) e w)
        (outcome_ids-process_all ticks (suc n) es (process_one x (ticks n) e w).1)

  -- A row is reported as sent only if its dispatch succeeded and the row is gone from the table,
  -- every other row being left as it was.
  pub sent-deleted :
      (tick : Tick) (e : OutboxEntry) (w : World S) (id op : Text)
      → (process_one x tick e w).0 ≡ sent id op
      → ((dispatch x e w).0 ≡ ok tt)
        × ((process_one x tick e w).1.db.outbox ≡ delete_rows e.id w.db.outbox)
  unfolding process_one
  sent-deleted tick e w id op h = elim (Result-cases (dispatch x e w).0) [
    | inl (u, p) ↦ (
      p,
      elim (Result-cases (Outbox.delete e.id (dispatch x e w).1.db).0) [
        | inl (v, q) ↦
            ground (arith, (Keeps-dispatch x e).at w, delete-ok e.id (dispatch x e w).1.db v)
        | inr (f, q) ↦ absurd (ground arith)
      ],
    )
    | inr (f, p) ↦ absurd (ground arith)
  ]

ids-AllRead :
    (rows : List OutboxRow) (es : List OutboxEntry)
    → AllRead rows es
    → map (λ e. e.id) es ≡ map (λ r. r.id) rows
ids-AllRead [] [] h = refl
ids-AllRead [] (e ∷ es) h = absurd h
ids-AllRead (r ∷ rows) [] h = absurd h
ids-AllRead (r ∷ rows) (e ∷ es) h = ap₂ (λ i is. i ∷ is) h.0.id (ids-AllRead rows es h.1)

module _ {S : Type 0} (x : Externals S) where
  -- A drain that ends well reports once for each row that `select_due` picks at its start, in the
  -- order in which they are picked and under their ids.
  pub drain_outcomes :
      (now : ℕ) (ticks : ℕ → Tick) (limit : ℕ) (w : World S) (os : List DrainOutcome)
      → (drain x now ticks limit w).0 ≡ ok os
      → map outcome_id os ≡ map (λ r. r.id) (select_due now limit w.db.outbox)
  unfolding drain
  drain_outcomes now ticks limit w os h =
      let read = list_due x.valid_timestamp now limit w.db in
      elim (Result-cases read.0) [
        | inr (e, p) ↦ absurd (ground arith)
        | inl (due, p) ↦
            let done = outcome_ids-process_all x ticks 0 due (record w { db = read.1 }) in
            ground (
              arith,
              done,
              ids-AllRead (select_due now limit w.db.outbox) due
                  (list_due-AllRead x.valid_timestamp now limit w.db due p),
            )
      ]
