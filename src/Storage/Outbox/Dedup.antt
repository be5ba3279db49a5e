-- ===== src/Storage/Outbox/Dedup.antt =====
-- A dedup key has one row, with the latest payload.
use qsl.Prelude.{
  ℕ, ◌≤◌, ◌≡◌, true, Bool, refl, ap, sym, ◌∙◌, arith, Text, List, [], ◌∷◌, ◌++◌, Option, none, some,
  eq_text_iff, eq_text_refl, inl, inr, filter, length,
}
use qsl.Prelude.Result.{Result, Result-cases, ok}
use qsl.Core.Error.{StorageError}
use qsl.Storage.Rows.{OutboxRow}
use qsl.Storage.Db.{Db, ◌>>=◌, pure}
use qsl.Storage.Outbox.{
  same_key, insert_row, update_rows, update_row, fresh_row, enqueue_over, enqueue_dedup, find_key,
  refresh, new_id,
}

module _ (p : OutboxRow → Bool) where
  filter-concat :
      (rows : List OutboxRow) (r : OutboxRow)
      → filter p rows ≡ []
      → p r ≡ true
      → filter p (rows ++ r ∷ []) ≡ r ∷ []
  filter-concat [] r h k = ground arith
  filter-concat (s ∷ rows) r h k = ground (arith, filter-concat rows r)

  filter-update :
      (f : OutboxRow → OutboxRow) (id : Text) (rows : List OutboxRow)
      → ((r : OutboxRow) → p (f r) ≡ p r)
      → filter p (update_rows f id rows) ≡ update_rows f id (filter p rows)
  unfolding update_rows
  filter-update f id [] h = refl
  filter-update f id (r ∷ rows) h = ground (arith, h r, filter-update f id rows h)

module _ (account op key : Text) where
  abbrev pub keyed : List OutboxRow → List OutboxRow
  keyed = filter (same_key account op key)

  abbrev first_id : List OutboxRow → Option Text
  first_id rows = elim rows [ [] ↦ none | r ∷ _ ↦ some r.id ]

  find_key-keyed : (rows : List OutboxRow) → find_key account op key rows ≡ first_id (keyed rows)
  unfolding find_key
  find_key-keyed [] = refl
  find_key-keyed (r ∷ rows) = ground (arith, find_key-keyed rows)

  same_key-refresh :
      (now : ℕ) (payload : Text) (r : OutboxRow)
      → same_key account op key (refresh now payload r) ≡ same_key account op key r
  unfolding same_key refresh
  same_key-refresh now payload r = refl

  same_key-fresh :
      (now : ℕ) (id payload : Text)
      → same_key account op key (fresh_row now id account op payload (some key)) ≡ true
  unfolding same_key
  same_key-fresh now id payload = simp eq_text_refl

insert_row-ok :
    (row : OutboxRow) (d : Db) (u : Unit {0})
    → (insert_row row d).0 ≡ ok u
    → (insert_row row d).1.outbox ≡ d.outbox ++ row ∷ []
unfolding insert_row
insert_row-ok row d u h = ground arith

update_row-ok :
    (f : OutboxRow → OutboxRow) (id : Text) (d : Db) (u : Unit {0})
    → (update_row f id d).0 ≡ ok u
    → (update_row f id d).1.outbox ≡ update_rows f id d.outbox
unfolding update_row
update_row-ok f id d u h = ground arith

-- A statement followed by the id went through if the whole did.
then_pure-ok :
    (m : Db → Result StorageError (Unit {0}) × Db) (id i : Text) (d : Db)
    → ((m >>= λ _. pure id) d).0 ≡ ok i
    → (u : Unit {0}) × ((m d).0 ≡ ok u) × (i ≡ id) × (((m >>= λ _. pure id) d).1 ≡ (m d).1)
unfolding ◌>>=◌ pure
then_pure-ok m id i d h = elim (Result-cases (m d).0) [
  | inl (u, e) ↦ (u, e, ground arith, ground arith)
  | inr (f, e) ↦ absurd (ground arith)
]

-- The table holds one row of the key; it has this id and payload, no failure yet, and is due at `now`.
pub record IsLatest (account op key id payload : Text) (now : ℕ) (rows : List OutboxRow)
    : Type 0 where
  pub row : OutboxRow
  pub only : keyed account op key rows ≡ row ∷ []
  pub id_is : row.id ≡ id
  pub payload_is : row.payload_json ≡ payload
  pub attempts_zero : row.attempts ≡ 0
  pub due_now : row.next_attempt_at ≡ some now

one_row :
    (k : Text) (rows : List OutboxRow)
    → some k ≡ elim rows as (λ _. Option Text) [ [] ↦ none | r ∷ _ ↦ some r.id ]
    → length rows ≤ 1
    → (r : OutboxRow) × (rows ≡ r ∷ []) × (r.id ≡ k)
one_row k [] e h = cc
one_row k (r ∷ []) e h = (r, refl, cc)
one_row k (r ∷ s ∷ rows) e h = absurd (omega arith)

updated_one :
    (f : OutboxRow → OutboxRow) (k : Text) (r : OutboxRow)
    → r.id ≡ k
    → update_rows f k (r ∷ []) ≡ f r ∷ []
unfolding update_rows
updated_one f k r h = ground (arith, eq_text_iff r.id k)

module _ (now random : ℕ) (account op payload key : Text) where
  over-IsLatest :
      (existing : Option Text) (d : Db) (id : Text)
      → existing ≡ first_id account op key (keyed account op key d.outbox)
      → length (keyed account op key d.outbox) ≤ 1
      → (enqueue_over now random account op payload key existing d).0 ≡ ok id
      → IsLatest account op key id payload now
          (enqueue_over now random account op payload key existing d).1.outbox
  unfolding enqueue_over
  over-IsLatest none d id e one h =
      let row = fresh_row now (new_id random) account op payload (some key) in
      let (u, went, i, after) = then_pure-ok (insert_row row) (new_id random) id d h in
      record {
        row = row;
        only =
            rw (after, insert_row-ok row d u went)
              (filter-concat (same_key account op key) d.outbox row (ground arith)
                (same_key-fresh account op key now (new_id random) payload));
        id_is = sym i;
        payload_is = refl;
        attempts_zero = refl;
        due_now = refl;
      }
  over-IsLatest (some k) d id e one h =
      let f = refresh now payload in
      let (u, went, i, after) = then_pure-ok (update_row f k) k id d h in
      let (r, only, has_k) = one_row k (keyed account op key d.outbox) e one in
      record {
        row = f r;
        only =
            rw (after, update_row-ok f k d u went)
              (filter-update (same_key account op key) f k d.outbox
                  (same_key-refresh account op key now payload)
                ∙ ap (update_rows f k) only
                ∙ updated_one f k r has_k);
        id_is = unfold refresh in has_k ∙ sym i;
        payload_is = unfold refresh in refl;
        attempts_zero = unfold refresh in refl;
        due_now = unfold refresh in refl;
      }

  -- After `enqueue_dedup` returned, its key has one row, which is the one returned, with the latest
  -- payload, a fresh budget of attempts and due at once, if the key had one row at most before.
  pub enqueue_dedup-IsLatest :
      (d : Db) (id : Text)
      → length (keyed account op key d.outbox) ≤ 1
      → (enqueue_dedup now random account op payload key d).0 ≡ ok id
      → IsLatest account op key id payload now
          (enqueue_dedup now random account op payload key d).1.outbox
  unfolding enqueue_dedup
  enqueue_dedup-IsLatest d id one h = go d.faults h
    where
      go :
          (faults : List (Option Text))
          → (enqueue_dedup now random account op payload key (record d { faults = faults })).0
            ≡ ok id
          → IsLatest account op key id payload now
              (enqueue_dedup now random account op payload key
                (record d { faults = faults })).1.outbox
      go [] h =
          over-IsLatest _ (record d { faults = [] }) id (find_key-keyed account op key d.outbox) one
            h
      go (none ∷ rest) h =
          over-IsLatest _ (record d { faults = rest }) id (find_key-keyed account op key d.outbox)
            one h
      go (some m ∷ rest) h = cc
