-- ===== src/Storage/Messages/Examples.antt =====
-- Tests of the batched insert: three headers, two of one id.
use qsl.Prelude.{◌≡◌, refl, codes, List, [], ◌∷◌}
use qsl.Prelude.Result.{ok}
use qsl.Core.Message.{MessageHeaders}
use qsl.Storage.Rows.{MessageRow}
use qsl.Storage.Samples.{empty_db, blank_row, blank_headers}
use qsl.Storage.Messages.{Json, to_rows, batch_insert_skip_existing}
use qsl.Storage.Messages.Batch.{batch_insert-inserted}

abbrev plain : Json
plain = record {
  encode_addresses = λ addresses. ok (codes "[…]");
  encode_texts = λ texts. ok (codes "[…]");
  encode_flags = λ flags. ok (codes "{}");
}

abbrev three : List MessageHeaders
three = blank_headers (codes "m1") ∷ blank_headers (codes "m1") ∷ blank_headers (codes "m2") ∷ []

abbrev three_rows : List MessageRow
three_rows = blank_row (codes "m1") ∷ blank_row (codes "m1") ∷ blank_row (codes "m2") ∷ []

encoded : to_rows plain three ≡ ok three_rows
unfolding to_rows
encoded = refl

batch_insert-inserted_example :
    batch_insert_skip_existing plain three empty_db
    ≡ (ok 2, record empty_db { messages = blank_row (codes "m1") ∷ blank_row (codes "m2") ∷ [] })
unfolding qsl.Storage.Messages.insert_or_ignore qsl.Prelude.eq_text
batch_insert-inserted_example = batch_insert-inserted plain three three_rows empty_db refl encoded
