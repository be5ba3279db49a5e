-- ===== src/Storage/Outbox/Enqueue.antt =====
-- Producers: a new row, or the one row of a dedup key.
use qsl.Prelude.{
  ℕ, ◌≡◌, true, false, Bool, refl, subst, ◌∙◌, arith, Text, List, [], ◌∷◌, ◌++◌, Option, none, some,
  eq_text_iff, if◌then◌else◌, All-append, any, any-append, any-weaken,
}
use qsl.Prelude.Result.{Result}
use qsl.Core.Error.{StorageError}
use qsl.Storage.Rows.{OutboxRow}
use qsl.Storage.Db.{Db, ◌>>=◌, pure}
use qsl.Storage.Outbox.{
  clashes, insert_row, update_rows, update_row, enqueue, enqueue_over, fresh_row, enqueue_dedup,
  find_key, refresh, new_id,
}
use qsl.Storage.Outbox.Invariant.{IsCounted, has_id, Unique, TableInv, Unique-update, All-update}

Unique-concat :
    (row : OutboxRow) (rows : List OutboxRow)
    → any (has_id row.id) rows ≡ false
    → Unique rows
    → Unique (rows ++ row ∷ [])
Unique-concat row [] h u = (refl, tt)
Unique-concat row (r ∷ rows) h u = (
  any-append (has_id r.id) rows (row ∷ [])
      ∙ ground (arith, u.0, eq_text_iff r.id row.id, eq_text_iff row.id r.id),
  Unique-concat row rows (ground arith) u.1,
)

no_clash-id :
    (row : OutboxRow) (rows : List OutboxRow)
    → any (clashes row) rows ≡ false
    → any (has_id row.id) rows ≡ false
no_clash-id row rows = any-weaken (clashes row) (has_id row.id) rows (unfold clashes in λ r h. rw h)

-- An INSERT of a live row keeps the invariant, also where it is refused.
insert_row-TableInv :
    (row : OutboxRow) (d : Db)
    → IsCounted row
    → TableInv d.outbox
    → TableInv (insert_row row d).1.outbox
unfolding insert_row
insert_row-TableInv row d c inv = go d.faults
  where
    insert :
        (b : Bool)
        → any (clashes row) d.outbox ≡ b
        → TableInv (if b then d.outbox else d.outbox ++ row ∷ [])
    insert true e = inv
    insert false e = record {
      counted = All-append IsCounted d.outbox (row ∷ []) inv.counted (c, tt);
      unique = Unique-concat row d.outbox (no_clash-id row d.outbox e) inv.unique;
    }

    go :
        (faults : List (Option Text))
        → TableInv (insert_row row (record d { faults = faults })).1.outbox
    go [] = subst TableInv (ground arith) (insert (any (clashes row) d.outbox) refl)
    go (none ∷ rest) = subst TableInv (ground arith) (insert (any (clashes row) d.outbox) refl)
    go (some m ∷ rest) = inv

update_row-TableInv :
    (f : OutboxRow → OutboxRow) (id : Text) (d : Db)
    → ((r : OutboxRow) → (f r).id ≡ r.id)
    → ((r : OutboxRow) → IsCounted (f r))
    → TableInv d.outbox
    → TableInv (update_row f id d).1.outbox
unfolding update_row
update_row-TableInv f id d same_id counts inv = go d.faults
  where
    updated : TableInv (update_rows f id d.outbox)
    updated = record {
      counted =
          All-update f id IsCounted IsCounted d.outbox (λ r _ _. counts r) (λ r _ h. h) inv.counted;
      unique = Unique-update f id same_id d.outbox inv.unique;
    }

    go :
        (faults : List (Option Text))
        → TableInv (update_row f id (record d { faults = faults })).1.outbox
    go [] = updated
    go (none ∷ rest) = updated
    go (some m ∷ rest) = inv

then_pure-TableInv :
    (m : Db → Result StorageError (Unit {0}) × Db) (id : Text) (d : Db)
    → TableInv (m d).1.outbox
    → TableInv ((m >>= λ _. pure id) d).1.outbox
unfolding ◌>>=◌ pure
then_pure-TableInv m id d inv = subst (λ (e : Db). TableInv e.outbox) same inv
  where
    same : (m d).1 ≡ ((m >>= λ _. pure id) d).1
    same = ground arith

module _ (now random : ℕ) (account op payload : Text) where
  -- Enqueueing keeps the invariant of the table, whether the INSERT goes through, fails or is refused.
  pub enqueue-TableInv :
      (d : Db) → TableInv d.outbox → TableInv (enqueue now random account op payload d).1.outbox
  unfolding enqueue
  enqueue-TableInv d inv =
      let row = fresh_row now (new_id random) account op payload none in
      then_pure-TableInv (insert_row row) (new_id random) d
        (insert_row-TableInv row d (omega arith) inv)

  enqueue_over-TableInv :
      (key : Text) (existing : Option Text) (d : Db)
      → TableInv d.outbox
      → TableInv (enqueue_over now random account op payload key existing d).1.outbox
  unfolding enqueue_over
  enqueue_over-TableInv key none d inv =
      let row = fresh_row now (new_id random) account op payload (some key) in
      then_pure-TableInv (insert_row row) (new_id random) d
        (insert_row-TableInv row d (omega arith) inv)
  enqueue_over-TableInv key (some id) d inv =
      then_pure-TableInv (update_row (refresh now payload) id) id d (
        update_row-TableInv (refresh now payload) id d (unfold refresh in λ r. refl)
          (unfold refresh in λ r. omega arith) inv)

  -- So does enqueueing under a dedup key, also where it revives a dead-lettered row.
  pub enqueue_dedup-TableInv :
      (key : Text) (d : Db)
      → TableInv d.outbox
      → TableInv (enqueue_dedup now random account op payload key d).1.outbox
  unfolding enqueue_dedup
  enqueue_dedup-TableInv key d inv = go d.faults
    where
      existing : Option Text
      existing = find_key account op key d.outbox

      go :
          (faults : List (Option Text))
          → TableInv
              (enqueue_dedup now random account op payload key
                (record d { faults = faults })).1.outbox
      go [] = enqueue_over-TableInv key existing (record d { faults = [] }) inv
      go (none ∷ rest) = enqueue_over-TableInv key existing (record d { faults = rest }) inv
      go (some m ∷ rest) = inv
