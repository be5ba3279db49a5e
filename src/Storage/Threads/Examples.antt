-- ===== src/Storage/Threads/Examples.antt =====
-- Tests of the threads table.
use qsl.Prelude.{◌≡◌, refl, [], ◌∷◌, map, some, codes}
use qsl.Storage.Rows.{Thread}
use qsl.Storage.Db.{Db, ◌>>◌}
use qsl.Storage.Samples.{empty_db, blank_row}
use qsl.Storage.Threads.{attach_message}
use qsl.Storage.Threads.Attach.{counted_twice, attach_message-twice}

abbrev lunch : Thread
lunch = record {
  id = codes "t-1";
  account_id = codes "gmail:a@b";
  root_message_id = some (codes "m-1");
  subject_normalized = codes "lunch";
  last_date = 40;
  message_count = 1;
}

abbrev db : Db
db = record empty_db { messages = blank_row (codes "m-2") ∷ []; threads = lunch ∷ [] }

attach_message-twice_example :
    (((attach_message (codes "t-1") (codes "m-2") 50
          >> attach_message (codes "t-1") (codes "m-2") 50)
        db).1.threads
      ≡ map (counted_twice (codes "t-1") 50) db.threads)
    × (((attach_message (codes "t-1") (codes "m-2") 50
            >> attach_message (codes "t-1") (codes "m-2") 50)
          db).1.messages
        ≡ (attach_message (codes "t-1") (codes "m-2") 50 db).1.messages)
attach_message-twice_example = attach_message-twice (codes "t-1") (codes "m-2") 50 db refl
