-- ===== src/Storage/Outbox/Select.antt =====
-- Deleting, selecting and sorting rows: what holds of every row stays, and ids stay apart.
use qsl.Prelude.{
  ℕ, zero, suc, ◌≡◌, true, false, Bool, ◌||◌, refl, ap, ◌∙◌, arith, List, [], ◌∷◌, leb, eq_text_iff,
  if◌then◌else◌, All, any, filter, take, All-take,
}
use qsl.Storage.Rows.{OutboxRow}
use qsl.Storage.Outbox.{is_due, select_due, sort_by_time, insert_by_time, due_time}
use qsl.Storage.Outbox.Invariant.{has_id, Unique}

module _ (P : OutboxRow → Type 0) where
  pub All-if :
      (b : Bool) (xs ys : List OutboxRow) → All P xs → All P ys → All P (if b then xs else ys)
  All-if true xs ys h k = h
  All-if false xs ys h k = k

  pub All-filter :
      (p : OutboxRow → Bool) (rows : List OutboxRow) → All P rows → All P (filter p rows)
  All-filter p [] h = tt
  All-filter p (r ∷ rows) h =
      All-if (p r) (r ∷ filter p rows) (filter p rows) (h.0, All-filter p rows h.1)
        (All-filter p rows h.1)

  pub All-insert :
      (r : OutboxRow) (rows : List OutboxRow) → P r → All P rows → All P (insert_by_time r rows)
  unfolding insert_by_time
  All-insert r [] p h = (p, tt)
  All-insert r (s ∷ rows) p h =
      All-if (leb (due_time r) (due_time s)) (r ∷ s ∷ rows) (s ∷ insert_by_time r rows) (p, h)
        (h.0, All-insert r rows p h.1)

  pub All-sort : (rows : List OutboxRow) → All P rows → All P (sort_by_time rows)
  unfolding sort_by_time
  All-sort [] h = tt
  All-sort (r ∷ rows) h = All-insert r (sort_by_time rows) h.0 (All-sort rows h.1)

  pub All-select :
      (now limit : ℕ) (rows : List OutboxRow) → All P rows → All P (select_due now limit rows)
  unfolding select_due
  All-select now limit rows h =
      All-take P limit (sort_by_time (filter (is_due now) rows))
        (All-sort (filter (is_due now) rows) (All-filter (is_due now) rows h))

Kept-if :
    (p : OutboxRow → Bool) (r : OutboxRow) (b : Bool) (xs : List OutboxRow)
    → p r ≡ b
    → All (λ s. p s ≡ true) xs
    → All (λ s. p s ≡ true) (if b then r ∷ xs else xs)
Kept-if p r true xs e h = (e, h)
Kept-if p r false xs e h = h

pub Kept-filter :
    (p : OutboxRow → Bool) (rows : List OutboxRow) → All (λ r. p r ≡ true) (filter p rows)
Kept-filter p [] = tt
Kept-filter p (r ∷ rows) = Kept-if p r (p r) (filter p rows) refl (Kept-filter p rows)

-- Every selected row is due.
pub select_due-IsDue :
    (now limit : ℕ) (rows : List OutboxRow)
    → All (λ r. is_due now r ≡ true) (select_due now limit rows)
unfolding select_due
select_due-IsDue now limit rows =
    All-take (λ r. is_due now r ≡ true) limit (sort_by_time (filter (is_due now) rows))
      (All-sort (λ r. is_due now r ≡ true) (filter (is_due now) rows)
        (Kept-filter (is_due now) rows))

any-filter :
    (q p : OutboxRow → Bool) (rows : List OutboxRow)
    → any q rows ≡ false
    → any q (filter p rows) ≡ false
any-filter q p [] h = refl
any-filter q p (r ∷ rows) h = ground (arith, any-filter q p rows)

any-insert :
    (q : OutboxRow → Bool) (r : OutboxRow) (rows : List OutboxRow)
    → any q (insert_by_time r rows) ≡ (q r || any q rows)
unfolding insert_by_time
any-insert q r [] = refl
any-insert q r (s ∷ rows) = ground (arith, any-insert q r rows)

any-sort : (q : OutboxRow → Bool) (rows : List OutboxRow) → any q (sort_by_time rows) ≡ any q rows
unfolding sort_by_time
any-sort q [] = refl
any-sort q (r ∷ rows) = any-insert q r (sort_by_time rows) ∙ ap (λ b. q r || b) (any-sort q rows)

any-take :
    (q : OutboxRow → Bool) (n : ℕ) (rows : List OutboxRow)
    → any q rows ≡ false
    → any q (take n rows) ≡ false
any-take q zero rows h = refl
any-take q (suc n) [] h = refl
any-take q (suc n) (r ∷ rows) h = ground (arith, any-take q n rows)

Unique-if :
    (b : Bool) (xs ys : List OutboxRow) → Unique xs → Unique ys → Unique (if b then xs else ys)
Unique-if true xs ys h k = h
Unique-if false xs ys h k = k

pub Unique-filter :
    (p : OutboxRow → Bool) (rows : List OutboxRow) → Unique rows → Unique (filter p rows)
Unique-filter p [] u = tt
Unique-filter p (r ∷ rows) u =
    Unique-if (p r) (r ∷ filter p rows) (filter p rows)
      (any-filter (has_id r.id) p rows u.0, Unique-filter p rows u.1) (Unique-filter p rows u.1)

has_id_sym : (r s : OutboxRow) → has_id r.id s ≡ has_id s.id r
has_id_sym r s = ground (arith, eq_text_iff s.id r.id, eq_text_iff r.id s.id)

Unique-insert :
    (r : OutboxRow) (rows : List OutboxRow)
    → any (has_id r.id) rows ≡ false
    → Unique rows
    → Unique (insert_by_time r rows)
unfolding insert_by_time
Unique-insert r [] h u = (refl, tt)
Unique-insert r (s ∷ rows) h u =
    Unique-if (leb (due_time r) (due_time s)) (r ∷ s ∷ rows) (s ∷ insert_by_time r rows) (h, u)
      (
        any-insert (has_id s.id) r rows ∙ ground (arith, has_id_sym r s, u.0),
        Unique-insert r rows (ground arith) u.1,
      )

Unique-sort : (rows : List OutboxRow) → Unique rows → Unique (sort_by_time rows)
unfolding sort_by_time
Unique-sort [] u = tt
Unique-sort (r ∷ rows) u =
    Unique-insert r (sort_by_time rows) (any-sort (has_id r.id) rows ∙ u.0) (Unique-sort rows u.1)

Unique-take : (n : ℕ) (rows : List OutboxRow) → Unique rows → Unique (take n rows)
Unique-take zero rows u = tt
Unique-take (suc n) [] u = tt
Unique-take (suc n) (r ∷ rows) u = (any-take (has_id r.id) n rows u.0, Unique-take n rows u.1)

pub Unique-select :
    (now limit : ℕ) (rows : List OutboxRow) → Unique rows → Unique (select_due now limit rows)
unfolding select_due
Unique-select now limit rows u =
    Unique-take limit (sort_by_time (filter (is_due now) rows))
      (Unique-sort (filter (is_due now) rows) (Unique-filter (is_due now) rows u))
