-- ===== src/Storage/Drafts/Examples.antt =====
-- Tests of the drafts: one that is saved for the first time, with a recipient, a reference and an
-- attachment, and is then saved again.
use qsl.Prelude.{◌≡◌, codes, refl, ℕ, Bool, leb, [], ◌∷◌, none, some, false}
use qsl.Prelude.Result.{ok}
use qsl.Core.Draft.{Draft, markdown}
use qsl.Storage.Rows.{DraftRow}
use qsl.Storage.Db.{Db}
use qsl.Storage.Samples.{empty_db}
use qsl.Storage.Drafts.{to_params, save, get}
use qsl.Storage.Drafts.Codec.{packing, packing-ReadsBack}
use qsl.Storage.Drafts.Saved.{get-save}

-- The seconds that chrono represents, from 1970 on.
abbrev in_range : ℕ → Bool
in_range t = leb t 8210266876799

-- Half a second behind a whole one.
abbrev hello : Draft
hello = record {
  id = codes "dr-1";
  account_id = codes "gmail:a@b";
  in_reply_to = some (codes "<1@x>");
  references = codes "<0@x>" ∷ codes "<1@x>" ∷ [];
  to = record { address = codes "c@d"; display_name = some (codes "C") } ∷ [];
  cc = record { address = codes "e@f"; display_name = none } ∷ [];
  bcc = [];
  subject = codes "Hello";
  body = codes "Hi";
  body_kind = markdown;
  attachments =
      record {
        file_path = codes "/tmp/a.png";
        filename = codes "a.png";
        mime_type = codes "image/png";
        size_bytes = 300;
        inline = false;
      }
      ∷ [];
  created_at = 10500000000;
  updated_at = 12500000000;
}

hello_encoded : (row : DraftRow) × (to_params packing hello ≡ ok row)
unfolding to_params
hello_encoded = (_, refl)

get-save_example :
    ((save packing hello empty_db).0 ≡ ok tt)
    × ((get packing in_range (codes "dr-1") (save packing hello empty_db).1).0
        ≡ some (ok (record hello { created_at = 10000000000; updated_at = 12000000000 })))
unfolding qsl.Storage.Drafts.draft_with_id
get-save_example =
    get-save packing hello hello_encoded.0 hello_encoded.1 packing-ReadsBack in_range empty_db refl
      refl refl

-- The row of a first save, seven seconds behind 1970.
abbrev old_db : Db
old_db = record empty_db {
  drafts =
      record {
        id = codes "dr-1";
        account_id = codes "gmail:a@b";
        in_reply_to = none;
        references_json = [];
        to_json = [];
        cc_json = [];
        bcc_json = [];
        subject = [];
        body = [];
        body_kind = codes "plain";
        attachments_json = [];
        created_at = 7;
        updated_at = 7;
        server_id = some (codes "srv-1");
      }
      ∷ [];
}

saved_over :
    (get packing in_range (codes "dr-1") (save packing hello old_db).1).0
    ≡ some (ok (record hello { created_at = 7000000000; updated_at = 12000000000 }))
unfolding save get qsl.Prelude.eq_text qsl.Storage.Drafts.from_timestamp
    qsl.Storage.Drafts.timestamp
saved_over = refl
