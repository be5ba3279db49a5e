-- ===== src/Sync/Chunk/Grows.antt =====
-- crates/sync/src/lib.rs, `apply_chunk`: its writes lose no message and no attachment to a thread.
use qsl.Prelude.{
  ◌+◌, ◌≡◌, refl, sym, ap, subst, ◌∙◌, arith, Bool, true, false, List, [], ◌∷◌, ◌++◌, map, any, All,
  Option, none, some, eq_text, if◌then◌else◌, eq_text_refl, All-weaken,
}
use qsl.Core.Ids.{MessageId}
use qsl.Storage.Rows.{MessageRow}
use qsl.Storage.Messages.{has_id, insert_or_ignore}
use qsl.Sync.Plan.{row_with_id}

abbrev pub has_thread : MessageRow → Bool
has_thread m = elim m.thread_id [ none ↦ false | some t ↦ true ]

-- Of the row with an id: there is one; there is one, in a thread; there is none or one in a thread.
abbrev pub is_there : {A : Type 0} → Option A → Bool
is_there none = false
is_there (some a) = true

abbrev pub is_attached : Option MessageRow → Bool
is_attached none = false
is_attached (some m) = has_thread m

abbrev pub is_fine : Option MessageRow → Bool
is_fine none = true
is_fine (some m) = has_thread m

-- What a row of an id may become.
pub record Grows (before after : Option MessageRow) : Type 0 where
  pub stays : is_there before ≡ true → is_there after ≡ true
  pub attached : is_attached before ≡ true → is_attached after ≡ true
  pub fine : is_fine before ≡ true → is_fine after ≡ true

pub Grows-refl : (o : Option MessageRow) → Grows o o
Grows-refl o = record { stays = λ h. h; attached = λ h. h; fine = λ h. h }

pub Grows-trans : (o p q : Option MessageRow) → Grows o p → Grows p q → Grows o q
Grows-trans o p q g h = record {
  stays = λ e. h.stays (g.stays e);
  attached = λ e. h.attached (g.attached e);
  fine = λ e. h.fine (g.fine e);
}

module _ (id : MessageId) where
  pub row_with_id-append :
      (rows : List MessageRow) (r : MessageRow)
      → row_with_id id (rows ++ r ∷ []) ≡ elim (row_with_id id rows) as (λ _. Option MessageRow) [
        | some m ↦ some m
        | none ↦ if has_id id r then some r else none
      ]
  unfolding row_with_id
  row_with_id-append [] r = refl
  row_with_id-append (m ∷ rows) r = ground (arith, row_with_id-append rows r)

  pub row_with_id-map :
      (f : MessageRow → MessageRow) (rows : List MessageRow)
      → ((m : MessageRow) → (f m).id ≡ m.id)
      → row_with_id id (map f rows) ≡ elim (row_with_id id rows) as (λ _. Option MessageRow) [
        | some m ↦ some (f m)
        | none ↦ none
      ]
  unfolding row_with_id
  row_with_id-map f [] same = refl
  row_with_id-map f (m ∷ rows) same =
      ground (arith, ap (λ i. eq_text i id) (same m), row_with_id-map f rows same)

  pub row_with_id-there :
      (rows : List MessageRow) → is_there (row_with_id id rows) ≡ any (has_id id) rows
  unfolding row_with_id
  row_with_id-there [] = refl
  row_with_id-there (m ∷ rows) = ground (arith, row_with_id-there rows)

  -- A row in a thread is appended.
  append-Grows :
      (rows : List MessageRow) (r : MessageRow)
      → has_thread r ≡ true
      → Grows (row_with_id id rows) (row_with_id id (rows ++ r ∷ []))
  append-Grows rows r e =
      subst (Grows (row_with_id id rows)) (sym (row_with_id-append rows r))
        (go (row_with_id id rows))
    where
      go :
          (o : Option MessageRow)
          → Grows o (elim o as (λ _. Option MessageRow) [
            | some m ↦ some m
            | none ↦ if has_id id r then some r else none
          ])
      go (some m) = Grows-refl (some m)
      go none = record {
        stays = λ h. absurd (cc);
        attached = λ h. absurd (cc);
        fine = λ h. ground arith;
      }

  -- The rows are rewritten in place, and stay in their threads.
  pub map-Grows :
      (f : MessageRow → MessageRow) (rows : List MessageRow)
      → ((m : MessageRow) → (f m).id ≡ m.id)
      → ((m : MessageRow) → has_thread m ≡ true → has_thread (f m) ≡ true)
      → Grows (row_with_id id rows) (row_with_id id (map f rows))
  map-Grows f rows same kept =
      subst (Grows (row_with_id id rows)) (sym (row_with_id-map f rows same))
        (go (row_with_id id rows))
    where
      go :
          (o : Option MessageRow)
          → Grows o (elim o as (λ _. Option MessageRow) [ some m ↦ some (f m) | none ↦ none ])
      go (some m) = record { stays = λ h. refl; attached = kept m; fine = kept m }
      go none = Grows-refl none

  pub insert-Grows :
      (rows table : List MessageRow)
      → All (λ r. has_thread r ≡ true) rows
      → Grows (row_with_id id table) (row_with_id id (insert_or_ignore rows table).0)
  unfolding insert_or_ignore
  insert-Grows [] table threads = Grows-refl (row_with_id id table)
  insert-Grows (r ∷ rows) table (e, threads) =
      pick (any (has_id r.id) table) (insert-Grows rows table threads)
        (insert-Grows rows (table ++ r ∷ []) threads)
    where
      pick :
          (b : Bool)
          → Grows (row_with_id id table) (row_with_id id (insert_or_ignore rows table).0)
          → Grows
              (row_with_id id (table ++ r ∷ []))
              (row_with_id id (insert_or_ignore rows (table ++ r ∷ [])).0)
          → Grows (row_with_id id table) (
              row_with_id id
                (if b then insert_or_ignore rows table else (
                  (insert_or_ignore rows (table ++ r ∷ [])).0,
                  (insert_or_ignore rows (table ++ r ∷ [])).1 + 1,
                )).0)
      pick true g h = g
      pick false g h = Grows-trans _ _ _ (append-Grows table r e) h

fine-there : (o : Option MessageRow) → is_fine o ≡ true → is_there o ≡ true → is_attached o ≡ true
fine-there none h k = cc
fine-there (some m) h k = h

-- A row in a thread that is appended is there, or an earlier one of its id is.
appended-attached :
    (table : List MessageRow) (r : MessageRow)
    → has_thread r ≡ true
    → is_fine (row_with_id r.id table) ≡ true
    → is_attached (row_with_id r.id (table ++ r ∷ [])) ≡ true
appended-attached table r e free =
    ap is_attached (row_with_id-append r.id table r) ∙ go (row_with_id r.id table) free
  where
    go :
        (o : Option MessageRow)
        → is_fine o ≡ true
        → is_attached (elim o as (λ _. Option MessageRow) [
          | some m ↦ some m
          | none ↦ if has_id r.id r then some r else none
        ])
          ≡ true
    go (some m) h = h
    go none h = ground (arith, eq_text_refl r.id, e)

-- Where no row of an id is outside of a thread, an inserted row of it is there, in a thread.
pub insert-attached :
    (rows table : List MessageRow)
    → All (λ r. has_thread r ≡ true) rows
    → All (λ r. is_fine (row_with_id r.id table) ≡ true) rows
    → All (λ r. is_attached (row_with_id r.id (insert_or_ignore rows table).0) ≡ true) rows
unfolding insert_or_ignore
insert-attached [] table threads free = tt
insert-attached (r ∷ rows) table (e, threads) (f, free) =
    pick (any (has_id r.id) table) refl (insert-attached rows table threads free)
      (insert-attached rows (table ++ r ∷ []) threads freed)
  where
    freed : All (λ m. is_fine (row_with_id m.id (table ++ r ∷ [])) ≡ true) rows
    freed =
        All-weaken (λ m. is_fine (row_with_id m.id table) ≡ true)
          (λ m. is_fine (row_with_id m.id (table ++ r ∷ [])) ≡ true) rows
          (λ m h. (append-Grows m.id table r e).fine h) free

    Attached : List MessageRow → Type 0
    Attached table' = All (λ m. is_attached (row_with_id m.id table') ≡ true) rows

    pick :
        (b : Bool)
        → any (has_id r.id) table ≡ b
        → Attached (insert_or_ignore rows table).0
        → Attached (insert_or_ignore rows (table ++ r ∷ [])).0
        → All
            (λ m.
              is_attached (
                row_with_id m.id
                  (if b then insert_or_ignore rows table else (
                    (insert_or_ignore rows (table ++ r ∷ [])).0,
                    (insert_or_ignore rows (table ++ r ∷ [])).1 + 1,
                  )).0)
              ≡ true)
            (r ∷ rows)
    pick true h tail _ = (
      (insert-Grows r.id rows table threads).attached
          (fine-there _ f (row_with_id-there r.id table ∙ h)),
      tail,
    )
    pick false h _ tail = (
      (insert-Grows r.id rows (table ++ r ∷ []) threads).attached (appended-attached table r e f),
      tail,
    )
