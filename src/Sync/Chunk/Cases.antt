-- ===== src/Sync/Chunk/Cases.antt =====
-- crates/sync/src/lib.rs, `apply_chunk`: what the plan of a header says of its row.
use qsl.Prelude.{
  ◌≡◌, refl, sym, ap, ◌∙◌, subst, arith, Bool, true, false, Bool-cases, inl, inr, ◌⊎◌, List, [],
  ◌∷◌, All, All-weaken, Option, none, some, eq_text, eq_text_iff,
}
use qsl.Core.Ids.{MessageId}
use qsl.Core.Message.{MessageHeaders}
use qsl.Storage.Rows.{MessageRow}
use qsl.Sync.Threading.{ThreadAttachment}
use qsl.Sync.Plan.{Entries, ExistingRow, row_with_id, lookup}
use qsl.Sync.Chunk.Grows.{is_there, is_attached, is_fine}
use qsl.Sync.Chunk.Inserted.{Stable, Attached}
use qsl.Sync.Chunk.Resolved.{needs}
use qsl.Sync.Chunk.Sorted.{listed, placed}
use qsl.Sync.Chunk.Existing.{stored, Known}

-- A header that was listed has what all of the list have of their ids.
pub listed-All :
    (P : MessageId → Type 0) (id : MessageId) (xs : List MessageHeaders)
    → listed id xs ≡ true
    → All (λ x. P x.id) xs
    → P id
listed-All P id [] h all = absurd cc
listed-All P id (x ∷ xs) h (p, all) = elim (Bool-cases (eq_text x.id id)) [
  | inl same ↦ subst P ((eq_text_iff x.id id).0 same) p
  | inr other ↦ listed-All P id xs (ground arith) all
]

-- A header that was stored in a thread from the start.
abbrev pub Already : Entries ExistingRow → List MessageRow → MessageHeaders → Type 0
Already existing rows h = needs (lookup h.id existing) false false ≡ true → Attached rows h

module _ (existing : Entries ExistingRow) where
  pub Already-Stable :
      (headers : List MessageHeaders) → Stable (λ rows. All (Already existing rows) headers)
  Already-Stable headers before after g all =
      All-weaken (Already existing before) (Already existing after) headers
        (λ h k e. (g h.id).attached (k e)) all

  -- At first, the rows are as the map says.
  pub Known-Already :
      (rows : List MessageRow) (h : MessageHeaders)
      → Known existing rows h.id
      → Already existing rows h
  Known-Already rows h known e =
      go (row_with_id h.id rows) (ap (λ o. needs o false false) (sym known) ∙ e)
    where
      go : (o : Option MessageRow) → needs (stored o) false false ≡ true → is_attached o ≡ true
      go none k = absurd cc
      go (some m) k = ground (arith, k)

  pub Known-fine :
      (rows : List MessageRow) (id : MessageId)
      → Known existing rows id
      → is_there (lookup id existing) ≡ false
      → is_fine (row_with_id id rows) ≡ true
  Known-fine rows id known missing = go (row_with_id id rows) (ap is_there (sym known) ∙ missing)
    where
      go : (o : Option MessageRow) → is_there (stored o) ≡ false → is_fine o ≡ true
      go none k = refl
      go (some m) k = absurd cc

  pub Known-there :
      (rows : List MessageRow) (id : MessageId)
      → Known existing rows id
      → is_there (lookup id existing) ≡ true
      → is_there (row_with_id id rows) ≡ true
  Known-there rows id known there = go (row_with_id id rows) (ap is_there (sym known) ∙ there)
    where
      go : (o : Option MessageRow) → is_there (stored o) ≡ true → is_there o ≡ true
      go none k = absurd cc
      go (some m) k = refl

-- A header is in the bucket of the inserted, in that of the healed, or was in a thread from the start.
pub placed-cases :
    (o : Option ExistingRow) (new heal : Option ThreadAttachment) (i h : Bool)
    → needs o (is_there new) (is_there heal) ≡ true
    → placed new heal i h ≡ true
    → (i ≡ true) ⊎ (h ≡ true) ⊎ (needs o false false ≡ true)
placed-cases o (some res) heal i h e f = inl f
placed-cases o none (some res) i h e f = inr (inl f)
placed-cases o none none i h e f = inr (inr e)
