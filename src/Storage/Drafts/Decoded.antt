-- ===== src/Storage/Drafts/Decoded.antt =====
-- crates/storage/src/repos/drafts.rs: a row of the drafts, from its draft and back.
use qsl.Prelude.{
  ℕ, ◌≡◌, refl, sym, ap, subst, arith, Bool-cases, inl, inr, Bool, true, false, Option, none, some,
  List, [], ◌∷◌, ◌++◌, map, any, Text, eq_text, if◌then◌else◌,
}
use qsl.Prelude.Result.{ok, ok_unique, >>=-eq-ok}
use qsl.Core.Ids.{DraftId}
use qsl.Core.Message.{EmailAddress}
use qsl.Core.Draft.{Draft, DraftAttachment, DraftBodyKind, plain, markdown, body_kind_str}
use qsl.Storage.Rows.{DraftRow}
use qsl.Storage.Drafts.{
  DraftJson, has_draft_id, draft_with_id, read_body_kind, updated_draft, to_params, decode_row,
  timestamp, from_timestamp,
}

read_body_kind-str : (k : DraftBodyKind) → read_body_kind (body_kind_str k) ≡ k
unfolding read_body_kind body_kind_str eq_text
read_body_kind-str plain = refl
read_body_kind-str markdown = refl

-- What serde promises: an encoded value is decoded as it was.
pub record ReadsBack (json : DraftJson) : Type 0 where
  pub addresses :
      (a : List EmailAddress) (t : Text)
      → json.encode_addresses a ≡ ok t
      → json.decode_addresses t ≡ ok a
  pub texts : (a : List Text) (t : Text) → json.encode_texts a ≡ ok t → json.decode_texts t ≡ ok a
  pub attachments :
      (a : List DraftAttachment) (t : Text)
      → json.encode_attachments a ≡ ok t
      → json.decode_attachments t ≡ ok a

-- The draft as it is read from a row with a time of creation.
abbrev pub reread : Draft → ℕ → Draft
reread d created = record d {
  created_at = from_timestamp created;
  updated_at = from_timestamp (timestamp d.updated_at);
}

module _ (json : DraftJson) where
  pub to_params-key :
      (d : Draft) (row : DraftRow)
      → to_params json d ≡ ok row
      → (row.id ≡ d.id) × (row.created_at ≡ timestamp d.created_at)
  unfolding to_params
  to_params-key d row e =
      let (a, ea, fa) = >>=-eq-ok (json.encode_addresses d.to) _ e in
      let (b, eb, fb) = >>=-eq-ok (json.encode_addresses d.cc) _ ea in
      let (c, ec, fc) = >>=-eq-ok (json.encode_addresses d.bcc) _ eb in
      let (t, et, ft) = >>=-eq-ok (json.encode_texts d.references) _ ec in
      let (x, ex, fx) = >>=-eq-ok (json.encode_attachments d.attachments) _ et in
      (
        ap (λ r. r.id) (sym (ok_unique _ _ row refl ex)),
        ap (λ r. r.created_at) (sym (ok_unique _ _ row refl ex)),
      )

module _ (json : DraftJson) (reads : ReadsBack json) where
  -- With whatever time of creation and id on the server.
  pub decode_row-params :
      (d : Draft) (row : DraftRow) (id : Text) (created : ℕ) (server_id : Option Text)
      → to_params json d ≡ ok row
      → id ≡ d.id
      → decode_row json (record row { id = id; created_at = created; server_id = server_id })
        ≡ ok (reread d created)
  unfolding to_params decode_row
  decode_row-params d row id created server_id e same =
      let (a, ea, fa) = >>=-eq-ok (json.encode_addresses d.to) _ e in
      let (b, eb, fb) = >>=-eq-ok (json.encode_addresses d.cc) _ ea in
      let (c, ec, fc) = >>=-eq-ok (json.encode_addresses d.bcc) _ eb in
      let (t, et, ft) = >>=-eq-ok (json.encode_texts d.references) _ ec in
      let (x, ex, fx) = >>=-eq-ok (json.encode_attachments d.attachments) _ et in
      subst
        (λ (r : DraftRow).
          decode_row json (record r { id = id; created_at = created; server_id = server_id })
          ≡ ok (reread d created))
        (ok_unique _ _ row refl ex)
        (ground (
          arith,
          same,
          reads.addresses d.to a fa,
          reads.addresses d.cc b fb,
          reads.addresses d.bcc c fc,
          reads.texts d.references t ft,
          reads.attachments d.attachments x fx,
          read_body_kind-str d.body_kind,
        ))

-- The row of an id, before and after each statement.
pub draft_with_id-updated :
    (id : DraftId) (row : DraftRow) (rows : List DraftRow)
    → draft_with_id id (map (λ r. if has_draft_id id r then updated_draft row r else r) rows)
      ≡ elim (draft_with_id id rows) as (λ _. Option DraftRow) [
        | none ↦ none
        | some r ↦ some (updated_draft row r)
      ]
unfolding draft_with_id
draft_with_id-updated id row [] = refl
draft_with_id-updated id row (r ∷ rows) = ground (arith, draft_with_id-updated id row rows)

pub draft_with_id-any :
    (id : DraftId) (rows : List DraftRow)
    → any (has_draft_id id) rows
      ≡ elim (draft_with_id id rows) as (λ _. Bool) [ none ↦ false | some r ↦ true ]
unfolding draft_with_id
draft_with_id-any id [] = refl
draft_with_id-any id (r ∷ rows) = ground (arith, draft_with_id-any id rows)

pub draft_with_id-append :
    (id : DraftId) (rows : List DraftRow) (r : DraftRow)
    → draft_with_id id rows ≡ none
    → has_draft_id id r ≡ true
    → draft_with_id id (rows ++ r ∷ []) ≡ some r
unfolding draft_with_id
draft_with_id-append id [] r missing e = ground (arith, e)
draft_with_id-append id (m ∷ rows) r missing e = ground (arith, draft_with_id-append id rows r)

pub draft_with_id-same :
    (id : DraftId) (rows : List DraftRow) (r : DraftRow)
    → draft_with_id id rows ≡ some r
    → has_draft_id id r ≡ true
unfolding draft_with_id
draft_with_id-same id [] r h = absurd cc
draft_with_id-same id (m ∷ rows) r h = elim (Bool-cases (has_draft_id id m)) [
  | inl e ↦ ground (arith, e, h)
  | inr e ↦ draft_with_id-same id rows r (ground arith)
]
