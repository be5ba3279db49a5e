-- ===== src/Sync/Chunk/Existing.antt =====
-- crates/sync/src/lib.rs, `batch_find_existing`: the map has the row of each header of the chunk.
use qsl.Prelude.{
  ◌≡◌, refl, sym, ap, ◌∙◌, subst, arith, true, Bool-cases, inl, inr, List, [], ◌∷◌, All, All-weaken,
  Option, none, some, eq_text, eq_text_iff, eq_text_refl, if◌then◌else◌,
}
use qsl.Prelude.Result.{ok_unique}
use qsl.Core.Ids.{MessageId}
use qsl.Core.Message.{MessageHeaders}
use qsl.Storage.Rows.{MessageRow}
use qsl.Storage.Messages.Ensures.{Ensures, Ensures-pure, Ensures-statement}
use qsl.Sync.Plan.{
  Entries, ExistingRow, existing_row, lookup, row_with_id, existing_rows, batch_find_existing,
}
use qsl.Sync.Chunk.Sorted.{listed}

abbrev pub stored : Option MessageRow → Option ExistingRow
stored none = none
stored (some m) = some (existing_row m)

existing_rows-lookup :
    (table : List MessageRow) (headers : List MessageHeaders) (id : MessageId)
    → lookup id (existing_rows table headers)
      ≡ (if listed id headers then stored (row_with_id id table) else none)
unfolding existing_rows lookup
existing_rows-lookup table [] id = refl
existing_rows-lookup table (h ∷ headers) id =
    go (existing_rows-lookup table headers id) (row_with_id h.id table)
      λ same. ap (λ i. row_with_id i table) (sym ((eq_text_iff h.id id).0 same))
  where
    go :
        lookup id (existing_rows table headers)
          ≡ (if listed id headers then stored (row_with_id id table) else none)
        → (o : Option MessageRow) → (eq_text h.id id ≡ true → row_with_id id table ≡ o)
        → lookup id (elim o as (λ _. Entries ExistingRow) [
          | none ↦ existing_rows table headers
          | some m ↦ (h.id, existing_row m) ∷ existing_rows table headers
        ])
          ≡ (if listed id (h ∷ headers) then stored (row_with_id id table) else none)
    go rest none same = elim (Bool-cases (eq_text h.id id)) [
      | inl e ↦ ground (arith, rest, same e)
      | inr e ↦ ground (arith, rest)
    ]
    go rest (some m) same = elim (Bool-cases (eq_text h.id id)) [
      | inl e ↦ ground (arith, same e)
      | inr e ↦ ground (arith, rest)
    ]

every_listed : (headers : List MessageHeaders) → All (λ h. listed h.id headers ≡ true) headers
every_listed [] = tt
every_listed (h ∷ headers) = (
  ground (arith, eq_text_refl h.id),
  All-weaken (λ x. listed x.id headers ≡ true) (λ x. listed x.id (h ∷ headers) ≡ true) headers
      (λ x e. ground arith) (every_listed headers),
)

-- The map and the table agree on a header.
abbrev pub Known : Entries ExistingRow → List MessageRow → MessageId → Type 0
Known existing rows id = lookup id existing ≡ stored (row_with_id id rows)

existing_rows-Known :
    (table : List MessageRow) (headers : List MessageHeaders)
    → All (λ h. Known (existing_rows table headers) table h.id) headers
existing_rows-Known table headers =
    All-weaken (λ h. listed h.id headers ≡ true)
      (λ h. Known (existing_rows table headers) table h.id) headers
      (λ h e. existing_rows-lookup table headers h.id ∙ ground arith) (every_listed headers)

pub batch_find_existing-Ensures :
    (headers : List MessageHeaders)
    → Ensures
        (λ t. Unit {0})
        (batch_find_existing headers)
        (λ existing t. All (λ h. Known existing t h.id) headers)
unfolding batch_find_existing
batch_find_existing-Ensures [] = Ensures-pure _ [] _ λ t p. tt
batch_find_existing-Ensures (h ∷ headers) = Ensures-statement _ _ _ (record {
  at = λ d a p e.
      subst (λ existing. All (λ x. Known existing d.messages x.id) (h ∷ headers))
        (ok_unique _ _ a refl e) (existing_rows-Known d.messages (h ∷ headers));
})
