-- ===== src/Storage/Outbox/Order.antt =====
-- Which rows of the outbox are selected, and in which order.
use qsl.Prelude.{
  refl, sym, ap, subst, ◌∙◌, ℕ, zero, suc, ◌≤◌, ◌<◌, ◌≡◌, ◌↔◌, ◌⊎◌, inl, inr, arith, Bool, true,
  false, not, List, [], ◌∷◌, ◌++◌, append_assoc, All, All-weaken, All-append_split, take, drop,
  length, filter, Option, none, some, if◌then◌else◌, leb, leb→le, Bool-cases,
}
use mathlib.Core.List.Perm
use mathlib.Core.List.{Perm, perm_middle}
use qsl.Storage.Rows.{OutboxRow}
use qsl.Storage.Outbox.{is_due, due_time, insert_by_time, sort_by_time, select_due}
use qsl.Storage.Outbox.Select.{All-insert, All-sort, Kept-filter}

abbrev pub IsSorted : List OutboxRow → Type 0
IsSorted [] = Unit
IsSorted (r ∷ rows) = All (λ s. due_time r ≤ due_time s) rows × IsSorted rows

-- The two branches of an insertion.
IsSorted-before :
    (r s : OutboxRow) (rows : List OutboxRow)
    → due_time r ≤ due_time s
    → IsSorted (s ∷ rows)
    → IsSorted (r ∷ s ∷ rows)
IsSorted-before r s rows e h = (
  (
    e,
    All-weaken (λ t. due_time s ≤ due_time t) (λ t. due_time r ≤ due_time t) rows
        (λ t p. omega (arith, e)) h.0,
  ),
  h,
)

IsSorted-if :
    (b : Bool) (xs ys : List OutboxRow)
    → (b ≡ true → IsSorted xs)
    → (b ≡ false → IsSorted ys)
    → IsSorted (if b then xs else ys)
IsSorted-if true xs ys h k = h refl
IsSorted-if false xs ys h k = k refl

insert_by_time-IsSorted :
    (r : OutboxRow) (rows : List OutboxRow) → IsSorted rows → IsSorted (insert_by_time r rows)
unfolding insert_by_time
insert_by_time-IsSorted r [] h = (tt, tt)
insert_by_time-IsSorted r (s ∷ rows) h =
    let rest = insert_by_time-IsSorted r rows h.1 in
    IsSorted-if (leb (due_time r) (due_time s)) (r ∷ s ∷ rows) (s ∷ insert_by_time r rows)
      (λ e. IsSorted-before r s rows (leb→le (due_time r) (due_time s) e) h)
      (λ e. (All-insert (λ t. due_time s ≤ due_time t) r rows (later r s e) h.0, rest))
  where
    later : (r s : OutboxRow) → leb (due_time r) (due_time s) ≡ false → due_time s ≤ due_time r
    later r s e = ground (arith, e)

sort_by_time-IsSorted : (rows : List OutboxRow) → IsSorted (sort_by_time rows)
unfolding sort_by_time
sort_by_time-IsSorted [] = tt
sort_by_time-IsSorted (r ∷ rows) =
    insert_by_time-IsSorted r (sort_by_time rows) (sort_by_time-IsSorted rows)

IsSorted-append_split :
    (xs ys : List OutboxRow)
    → IsSorted (xs ++ ys)
    → IsSorted xs × All (λ s. All (λ r. due_time s ≤ due_time r) ys) xs
IsSorted-append_split [] ys h = (tt, tt)
IsSorted-append_split (x ∷ xs) ys h =
    let (sorted, before) = IsSorted-append_split xs ys h.1 in
    let (own, behind) = All-append_split (λ r. due_time x ≤ due_time r) xs ys h.0 in
    ((own, sorted), (behind, before))

insert_by_time-perm :
    (r : OutboxRow) (rows : List OutboxRow) → Perm (r ∷ rows) (insert_by_time r rows)
unfolding insert_by_time
insert_by_time-perm r [] = Perm.refl (r ∷ [])
insert_by_time-perm r (s ∷ rows) =
    let moved = Perm.trans (Perm.swap s r rows) (Perm.cons s (insert_by_time-perm r rows)) in
    elim (Bool-cases (leb (due_time r) (due_time s))) [
      | inl e ↦ rw e (Perm.refl (r ∷ s ∷ rows))
      | inr e ↦ rw e moved
    ]

sort_by_time-perm : (rows : List OutboxRow) → Perm rows (sort_by_time rows)
unfolding sort_by_time
sort_by_time-perm [] = Perm.refl []
sort_by_time-perm (r ∷ rows) =
    Perm.trans (Perm.cons r (sort_by_time-perm rows)) (insert_by_time-perm r (sort_by_time rows))

filter-perm :
    (p : OutboxRow → Bool) (rows : List OutboxRow)
    → Perm rows (filter p rows ++ filter (λ r. not (p r)) rows)
filter-perm p [] = Perm.refl []
filter-perm p (r ∷ rows) =
    let kept = Perm.cons r (filter-perm p rows) in
    let others = filter (λ s. not (p s)) rows in
    let dropped = Perm.trans kept (Perm.symm (perm_middle (filter p rows) others)) in
    elim (Bool-cases (p r)) [ inl e ↦ rw e kept | inr e ↦ rw e dropped ]

take-drop : (n : ℕ) (rows : List OutboxRow) → take n rows ++ drop n rows ≡ rows
take-drop zero rows = refl
take-drop (suc n) [] = refl
take-drop (suc n) (r ∷ rows) = ap (λ s. r ∷ s) (take-drop n rows)

take_filled :
    (n : ℕ) (rows : List OutboxRow)
    → (length (take n rows) ≡ n) ⊎ ((drop n rows ≡ []) × (length (take n rows) < n))
take_filled zero rows = inl refl
take_filled (suc n) [] = inr (refl, omega arith)
take_filled (suc n) (r ∷ rows) = elim (take_filled n rows) [
  | inl e ↦ inl (ap suc e)
  | inr (e, few) ↦ inr (e, omega arith)
]

-- A row is scheduled, and its time has come.
abbrev pub IsDue : ℕ → OutboxRow → Type 0
IsDue now r = (t : ℕ) × (r.next_attempt_at ≡ some t) × (t ≤ now)

is_due_iff : (now : ℕ) (r : OutboxRow) → (is_due now r ≡ true) ↔ IsDue now r
unfolding is_due
is_due_iff now r = (read r.next_attempt_at refl, λ due. found due.0 due.1 due.2)
  where
    read : (o : Option ℕ) → r.next_attempt_at ≡ o → is_due now r ≡ true → IsDue now r
    read none e h = absurd (ground (arith, e, h))
    read (some t) e h = (t, e, ground (arith, e, h))

    found : (t : ℕ) → r.next_attempt_at ≡ some t → t ≤ now → is_due now r ≡ true
    found t e h = ground (arith, e, h)

-- What a selection of at most `limit` rows leaves behind, and how it stands to it.
pub record IsSelection (now limit : ℕ) (rows selected : List OutboxRow) : Type 0 where
  pub later : List OutboxRow
  pub rest : List OutboxRow
  pub whole : Perm rows (selected ++ (later ++ rest))
  pub selected_due : All (IsDue now) selected
  pub later_due : All (IsDue now) later
  pub rest_not_due : All (λ r. ¬ IsDue now r) rest
  pub sorted : IsSorted selected
  pub earliest : All (λ s. All (λ r. due_time s ≤ due_time r) later) selected
  pub filled : (length selected ≡ limit) ⊎ ((later ≡ []) × (length selected < limit))

-- The rows of the table are those that are selected, due rows that come no earlier, and rows that are
-- not due. The selected ones are due and stand in the order of their times, and there are `limit` of
-- them, or fewer where no due row is left.
pub select_due-IsSelection :
    (now limit : ℕ) (rows : List OutboxRow) → IsSelection now limit rows (select_due now limit rows)
unfolding select_due
select_due-IsSelection now limit rows =
    let due_rows = filter (is_due now) rows in
    let others = filter (λ r. not (is_due now r)) rows in
    let all = sort_by_time due_rows in
    let cut = take-drop limit all in
    let both : IsSorted (take limit all)
        × All (λ s. All (λ r. due_time s ≤ due_time r) (drop limit all)) (take limit all) =
      IsSorted-append_split (take limit all) (drop limit all)
        (subst IsSorted (sym cut) (sort_by_time-IsSorted due_rows)) in
    let due : All (IsDue now) (take limit all) × All (IsDue now) (drop limit all) =
      All-append_split (IsDue now) (take limit all) (drop limit all) (
        subst (All (IsDue now)) (sym cut) (
          All-sort (IsDue now) due_rows (
            All-weaken (λ r. is_due now r ≡ true) (IsDue now) due_rows (λ r. (is_due_iff now r).0)
              (Kept-filter (is_due now) rows)))) in
    record {
      later = drop limit all;
      rest = others;
      whole =
          subst (Perm rows)
            (ap (λ u. u ++ others) (sym cut)
              ∙ append_assoc (take limit all) (drop limit all) others)
            (Perm.trans (filter-perm (is_due now) rows)
              (Perm.append_right others (sort_by_time-perm due_rows)));
      selected_due = due.0;
      later_due = due.1;
      rest_not_due =
          All-weaken (λ r. not (is_due now r) ≡ true) (λ r. ¬ IsDue now r) others
            (λ r e d. not_both (is_due now r) ((is_due_iff now r).1 d) e)
            (Kept-filter (λ r. not (is_due now r)) rows);
      sorted = both.0;
      earliest = both.1;
      filled = take_filled limit all;
    }
  where
    not_both : (b : Bool) → b ≡ true → not b ≡ true → ⊥
    not_both b e f = ground arith
