-- ===== src/Storage/Messages/Batch.antt =====
-- crates/storage/src/repos/messages.rs: the batched insert against the insertion of one row after the
-- other.
use qsl.Prelude.{
  ℕ, zero, suc, ◌+◌, ◌%◌, ◌^◌, ◌≤◌, ◌≡◌, refl, sym, ap, ◌∙◌, arith, List, [], ◌∷◌, ◌++◌, length,
  take, drop, any, Bool-cases, inl, inr,
}
use qsl.Prelude.Result.{Result, ok, err}
use qsl.Core.Error.{StorageError}
use qsl.Core.Message.{MessageHeaders}
use qsl.Storage.Rows.{MessageRow}
use qsl.Storage.Db.{Db, Action, statement, transaction, rolled_back, ◌>>=◌, pure}
use qsl.Storage.Messages.{
  Json, group_size, has_id, insert_or_ignore, insert_group, chunks, insert_groups, to_rows,
  batch_insert_skip_existing,
}

abbrev pub concat : {A : Type 0} → List (List A) → List A
concat [] = []
concat (xs ∷ xss) = xs ++ concat xss

take-append-drop : {A : Type 0} (n : ℕ) (xs : List A) → take n xs ++ drop n xs ≡ xs
take-append-drop zero xs = refl
take-append-drop (suc n) [] = refl
take-append-drop (suc n) (x ∷ xs) = ap (λ ys. x ∷ ys) (take-append-drop n xs)

length-drop : {A : Type 0} (n : ℕ) (xs : List A) → length (drop n xs) ≤ length xs
length-drop zero xs = omega arith
length-drop (suc n) [] = omega arith
length-drop (suc n) (x ∷ xs) = omega (arith, length-drop n xs)

-- With the length of the list as fuel, no element is lost.
pub chunks-concat :
    {A : Type 0} (fuel n : ℕ) (xs : List A)
    → length xs ≤ fuel
    → concat (chunks fuel (suc n) xs) ≡ xs
unfolding chunks
chunks-concat zero n [] enough = refl
chunks-concat zero n (x ∷ xs) enough = absurd (omega arith)
chunks-concat (suc fuel) n [] enough = refl
chunks-concat (suc fuel) n (x ∷ xs) enough =
    ap (λ ys. take (suc n) (x ∷ xs) ++ ys)
      (chunks-concat fuel n (drop n xs) (omega (arith, length-drop n xs)))
    ∙ take-append-drop (suc n) (x ∷ xs)

insert_or_ignore-append :
    (xs ys table : List MessageRow)
    → insert_or_ignore (xs ++ ys) table ≡ (
      (insert_or_ignore ys (insert_or_ignore xs table).0).0,
      (insert_or_ignore xs table).1 + (insert_or_ignore ys (insert_or_ignore xs table).0).1,
    )
unfolding insert_or_ignore
insert_or_ignore-append [] ys table = ap (λ n. ((insert_or_ignore ys table).0, n)) (omega arith)
insert_or_ignore-append (x ∷ xs) ys table = elim (Bool-cases (any (has_id x.id) table)) [
  | inl e ↦ rw e (insert_or_ignore-append xs ys table)
  | inr e ↦ rw e (
      ap (λ t. (t.0, t.1 + 1)) (insert_or_ignore-append xs ys (table ++ x ∷ []))
      ∙ ap (λ n. ((insert_or_ignore ys (insert_or_ignore xs (table ++ x ∷ [])).0).0, n))
          (omega arith))
]

-- One row after the other, each skipped where its id is taken.
abbrev pub inserted : List MessageRow → Db → Result StorageError ℕ × Db
inserted rows d = (
  ok (insert_or_ignore rows d.messages).1,
  record d { messages = (insert_or_ignore rows d.messages).0 },
)

insert_group-quiet :
    (rows : List MessageRow) (d : Db) → d.faults ≡ [] → insert_group rows d ≡ inserted rows d
unfolding insert_group statement
insert_group-quiet rows d quiet = ground arith

insert_groups-quiet :
    (groups : List (List MessageRow)) (d : Db)
    → d.faults ≡ []
    → insert_groups groups d ≡ inserted (concat groups) d
unfolding insert_groups ◌>>=◌ pure insert_or_ignore
insert_groups-quiet [] d quiet = refl
insert_groups-quiet (group ∷ groups) d quiet =
    ap first (insert_group-quiet group d quiet)
    ∙ ap (second (insert_or_ignore group d.messages).1)
        (insert_groups-quiet groups (inserted group d).1 quiet)
    ∙ ap (λ t. (ok t.1, record d { messages = t.0 }))
        (sym (insert_or_ignore-append group (concat groups) d.messages))
  where
    second : ℕ → Result StorageError ℕ × Db → Result StorageError ℕ × Db
    second n t = elim t.0 [ ok rest ↦ (ok (n + rest), t.1) | err e ↦ (err e, t.1) ]

    first : Result StorageError ℕ × Db → Result StorageError ℕ × Db
    first t = elim t.0 [ ok n ↦ second n (insert_groups groups t.1) | err e ↦ (err e, t.1) ]

abbrev nothing : Action (Unit {0})
nothing = statement λ d. (ok tt, d)

nothing-quiet : (d : Db) → d.faults ≡ [] → nothing d ≡ (ok tt, d)
unfolding statement
nothing-quiet d quiet = ground arith

transaction-quiet :
    {A : Type 0} (body : Action A) (a : A) (d d' : Db)
    → d.faults ≡ []
    → d'.faults ≡ []
    → body d ≡ (ok a, d')
    → transaction body d ≡ (ok a, d')
unfolding transaction rolled_back ◌>>=◌ pure
transaction-quiet {A = A} body a d d' quiet quiet' e =
    ap (λ t. rolled_back d (opened t)) (nothing-quiet d quiet)
    ∙ ap (λ t. rolled_back d (done t)) e
    ∙ ap (λ t. rolled_back d (committed a t)) (nothing-quiet d' quiet')
  where
    committed : A → Result StorageError (Unit {0}) × Db → Result StorageError A × Db
    committed r t = elim t.0 [ ok _ ↦ (ok r, t.1) | err e' ↦ (err e', t.1) ]

    done : Result StorageError A × Db → Result StorageError A × Db
    done t = elim t.0 [ ok r ↦ committed r (nothing t.1) | err e' ↦ (err e', t.1) ]

    opened : Result StorageError (Unit {0}) × Db → Result StorageError A × Db
    opened t = elim t.0 [ ok _ ↦ done (body t.1) | err e' ↦ (err e', t.1) ]

groups-quiet :
    (rows : List MessageRow) (d : Db)
    → d.faults ≡ []
    → transaction (insert_groups (chunks (length rows) group_size rows)) d ≡ inserted rows d
groups-quiet rows d quiet =
    transaction-quiet (insert_groups (chunks (length rows) group_size rows)) _ d (inserted rows d).1
      quiet quiet
      (insert_groups-quiet (chunks (length rows) group_size rows) d quiet
        ∙ ap (λ all. inserted all d) (chunks-concat (length rows) 1499 rows (omega arith)))

-- Where no statement fails and every row can be encoded: the batch in groups of 1500 rows leaves the
-- table, and returns modulo 2 ^ 32 the count, of an insertion of one row after the other that skips
-- the rows whose id is taken.
pub batch_insert-inserted :
    (json : Json) (headers : List MessageHeaders) (rows : List MessageRow) (d : Db)
    → d.faults ≡ []
    → to_rows json headers ≡ ok rows
    → batch_insert_skip_existing json headers d ≡ (
      ok ((insert_or_ignore rows d.messages).1 % 2 ^ 32),
      record d { messages = (insert_or_ignore rows d.messages).0 },
    )
unfolding batch_insert_skip_existing to_rows insert_or_ignore pure ◌>>=◌
batch_insert-inserted json [] rows d quiet e =
    let none_left : [] ≡ rows = cc in
    ap
      (λ all. (
        ok ((insert_or_ignore all d.messages).1 % 2 ^ 32),
        record d { messages = (insert_or_ignore all d.messages).0 },
      ))
      none_left
batch_insert-inserted json (h ∷ headers) rows d quiet e =
    ap stored e ∙ ap counted (groups-quiet rows d quiet)
  where
    counted : Result StorageError ℕ × Db → Result StorageError ℕ × Db
    counted t = elim t.0 [ ok n ↦ (ok (n % 2 ^ 32), t.1) | err e' ↦ (err e', t.1) ]

    stored : Result StorageError (List MessageRow) → Result StorageError ℕ × Db
    stored r =
        elim r as (λ _. Action ℕ) [
          | err e' ↦ λ d'. (err e', d')
          | ok all ↦ transaction (insert_groups (chunks (length all) group_size all)) >>= λ n.
              pure (n % 2 ^ 32)
        ]
          d
