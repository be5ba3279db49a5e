-- ===== src/Storage/Drafts/Saved.antt =====
-- crates/storage/src/repos/drafts.rs: a draft reads back as it was saved.
use qsl.Prelude.{
  ℕ, ◌-◌, ◌*◌, ◌/◌, ◌%◌, ◌≡◌, refl, sym, ap, ap₂, ◌∙◌, subst, arith, Bool, true, false, Option,
  none, some, List, [], ◌∷◌, ◌++◌, map, any, eq_text, eq_text_iff, eq_text_refl, if◌then◌else◌,
}
use qsl.Prelude.Result.{ok, ok_unique, >>=-eq-ok}
use qsl.Core.Draft.{Draft}
use qsl.Storage.Rows.{DraftRow}
use qsl.Storage.Db.{Db, statement}
use qsl.Storage.Drafts.Decoded.{
  ReadsBack, reread, to_params-key, decode_row-params, draft_with_id-updated, draft_with_id-any,
  draft_with_id-append, draft_with_id-same,
}
use qsl.Storage.Drafts.{
  DraftJson, has_draft_id, draft_with_id, updated_draft, insert_row, to_params, row_to_draft,
  decode_row, insert, update, save, get, timestamp, from_timestamp, nanos_per_second,
}

-- A time without what is below a second.
abbrev pub whole_seconds : ℕ → ℕ
whole_seconds t = t - t % nanos_per_second

timestamp-seconds : (t : ℕ) → timestamp t ≡ t / nanos_per_second
unfolding timestamp
timestamp-seconds t = refl

from_timestamp-seconds : (secs : ℕ) → from_timestamp secs ≡ secs * nanos_per_second
unfolding from_timestamp
from_timestamp-seconds secs = refl

from_timestamp-timestamp : (t : ℕ) → from_timestamp (timestamp t) ≡ whole_seconds t
unfolding from_timestamp timestamp
from_timestamp-timestamp t = omega arith

-- The second of creation that a save keeps.
abbrev pub first_second : Draft → List DraftRow → ℕ
first_second draft rows = elim (draft_with_id draft.id rows) [
  | none ↦ draft.created_at / nanos_per_second
  | some r ↦ r.created_at
]

module _ (json : DraftJson) (draft : Draft) (row : DraftRow)
    (encoded : to_params json draft ≡ ok row) where
  saved_new :
      (d : Db)
      → d.faults ≡ []
      → draft_with_id draft.id d.drafts ≡ none
      → save json draft d ≡ (ok tt, record d { drafts = d.drafts ++ row ∷ [] })
  unfolding save update insert insert_row statement
  saved_new d quiet missing =
      let free : any (has_draft_id row.id) d.drafts ≡ false =
        ap (λ i. any (has_draft_id i) d.drafts) (to_params-key json draft row encoded).0
        ∙ draft_with_id-any draft.id d.drafts
        ∙ ap (λ (o : Option DraftRow). elim o as (λ _. Bool) [ none ↦ false | some r ↦ true ])
            missing in
      ground (arith, encoded, quiet, free)

  saved_again :
      (d : Db) (r : DraftRow)
      → d.faults ≡ []
      → draft_with_id draft.id d.drafts ≡ some r
      → save json draft d ≡ (
        ok tt,
        record d {
          drafts = map (λ m. if has_draft_id row.id m then updated_draft row m else m) d.drafts;
        },
      )
  unfolding save update insert insert_row statement
  saved_again d r quiet found =
      let taken : any (has_draft_id row.id) d.drafts ≡ true =
        ap (λ i. any (has_draft_id i) d.drafts) (to_params-key json draft row encoded).0
        ∙ draft_with_id-any draft.id d.drafts
        ∙ ap (λ (o : Option DraftRow). elim o as (λ _. Bool) [ none ↦ false | some r ↦ true ])
            found in
      ground (arith, encoded, quiet, taken)

  to_params-updated : row.updated_at ≡ timestamp draft.updated_at
  unfolding to_params
  to_params-updated =
      let (a, ea, fa) = >>=-eq-ok (json.encode_addresses draft.to) _ encoded in
      let (b, eb, fb) = >>=-eq-ok (json.encode_addresses draft.cc) _ ea in
      let (c, ec, fc) = >>=-eq-ok (json.encode_addresses draft.bcc) _ eb in
      let (t, et, ft) = >>=-eq-ok (json.encode_texts draft.references) _ ec in
      let (x, ex, fx) = >>=-eq-ok (json.encode_attachments draft.attachments) _ et in
      ap (λ r. r.updated_at) (sym (ok_unique _ _ row refl ex))

  module _ (reads : ReadsBack json) (valid : ℕ → Bool) where
    got_row :
        (d : Db) (r : DraftRow) (created : ℕ)
        → d.faults ≡ []
        → draft_with_id draft.id d.drafts ≡ some r
        → decode_row json r ≡ ok (reread draft created)
        → valid r.created_at ≡ true
        → valid r.updated_at ≡ true
        → (get json valid draft.id d).0 ≡ some (ok (reread draft created))
    unfolding get row_to_draft statement
    got_row d r created quiet found read v w = ground (arith, quiet, found, read)

    got_saved :
        (d : Db) (rows : List DraftRow) (r : DraftRow) (created : ℕ)
        → save json draft d ≡ (ok tt, record d { drafts = rows })
        → d.faults ≡ []
        → draft_with_id draft.id rows ≡ some r
        → decode_row json r ≡ ok (reread draft created)
        → valid r.created_at ≡ true
        → valid r.updated_at ≡ true
        → ((save json draft d).0 ≡ ok tt)
          × ((get json valid draft.id (save json draft d).1).0 ≡ some (ok (reread draft created)))
    got_saved d rows r created ran quiet found read v w = (
      ap (λ u. u.0) ran,
      ap (λ u. (get json valid draft.id u.1).0) ran
          ∙ got_row (record d { drafts = rows }) r created quiet found read v w,
    )

    reread-whole :
        (created : ℕ)
        → reread draft created ≡ record draft {
          created_at = created * nanos_per_second;
          updated_at = whole_seconds draft.updated_at;
        }
    reread-whole created =
        ap₂ (λ c u. record draft { created_at = c; updated_at = u })
          (from_timestamp-seconds created) (from_timestamp-timestamp draft.updated_at)

    -- Where no statement fails, JSON reads back what it wrote, and chrono has the seconds of the times
    -- that are stored: a draft that can be encoded is saved, whether or not there is a row of its id,
    -- and is then read as it was, but for its times. They are cut to whole seconds, and the time of
    -- creation is that of the row that was there, if there was one.
    pub get-save :
        (d : Db)
        → d.faults ≡ []
        → valid (first_second draft d.drafts) ≡ true
        → valid (draft.updated_at / nanos_per_second) ≡ true
        → ((save json draft d).0 ≡ ok tt)
          × ((get json valid draft.id (save json draft d).1).0
              ≡ some (
                  ok (record draft {
                    created_at = first_second draft d.drafts * nanos_per_second;
                    updated_at = whole_seconds draft.updated_at;
                  })))
    get-save d quiet created_valid updated_valid =
        subst
          (λ t.
            ((save json draft d).0 ≡ ok tt)
            × ((get json valid draft.id (save json draft d).1).0 ≡ some (ok t)))
          (reread-whole (first_second draft d.drafts))
          (go (draft_with_id draft.id d.drafts) refl created_valid)
      where
        key : (row.id ≡ draft.id) × (row.created_at ≡ timestamp draft.created_at)
        key = to_params-key json draft row encoded

        stored : valid row.updated_at ≡ true
        stored = ap valid (to_params-updated ∙ timestamp-seconds draft.updated_at) ∙ updated_valid

        go :
            (o : Option DraftRow)
            → draft_with_id draft.id d.drafts ≡ o
            → (let second : ℕ = elim o as (λ _. ℕ) [
              | none ↦ draft.created_at / nanos_per_second
              | some r ↦ r.created_at
            ] in
                valid second ≡ true
                → ((save json draft d).0 ≡ ok tt)
                  × ((get json valid draft.id (save json draft d).1).0
                      ≡ some (ok (reread draft second))))
        go none missing v =
            let second : row.created_at ≡ draft.created_at / nanos_per_second =
              key.1 ∙ timestamp-seconds draft.created_at in
            got_saved d (d.drafts ++ row ∷ []) row (draft.created_at / nanos_per_second)
              (saved_new d quiet missing) quiet
              (draft_with_id-append draft.id d.drafts row missing
                (ap (λ i. eq_text i draft.id) key.0 ∙ eq_text_refl draft.id))
              (decode_row-params json reads draft row row.id row.created_at row.server_id encoded
                  key.0
                ∙ ap (λ c. ok (reread draft c)) second)
              (ap valid second ∙ v) stored
        go (some r) found v =
            let same : r.id ≡ draft.id =
              (eq_text_iff r.id draft.id).0 (draft_with_id-same draft.id d.drafts r found) in
            got_saved d
              (map (λ m. if has_draft_id row.id m then updated_draft row m else m) d.drafts)
              (updated_draft row r) r.created_at (saved_again d r quiet found) quiet
              (ap
                  (λ i.
                    draft_with_id draft.id
                      (map (λ m. if has_draft_id i m then updated_draft row m else m) d.drafts))
                  key.0
                ∙ draft_with_id-updated draft.id row d.drafts
                ∙ ap
                    (λ (p : Option DraftRow). elim p as (λ _. Option DraftRow) [
                      | none ↦ none
                      | some m ↦ some (updated_draft row m)
                    ])
                    found)
              (decode_row-params json reads draft row r.id r.created_at r.server_id encoded same) v
              stored
