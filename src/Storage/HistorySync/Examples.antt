-- ===== src/Storage/HistorySync/Examples.antt =====
-- Tests of the history table: a folder that is pulled again.
use qsl.Prelude.{ℕ, ◌≡◌, ◌↔◌, refl, arith, Bool, leb, List, [], ◌∷◌, none, some, codes}
use qsl.Prelude.Int.{ℤ, pos}
use qsl.Prelude.Result.{ok}
use qsl.Storage.Rows.{HistoryRow}
use qsl.Storage.Samples.{empty_db}
use qsl.Storage.Db.{Db, ◌>>◌}
use qsl.Storage.HistorySync.{parse, as_str, running, start, get}
use qsl.Storage.HistorySync.Progress.{report, parse_iff, report-get}

abbrev old : HistoryRow
old = record {
  account_id = codes "gmail:a@b";
  folder_id = codes "gmail:a@b|INBOX";
  status = codes "error";
  anchor_uid = some (pos 700);
  total_estimate = none;
  fetched = 300;
  started_at = 10;
  updated_at = 20;
  completed_at = some 20;
  last_error = some (codes "timeout");
}

abbrev db : Db
db = record empty_db { history = old ∷ [] }

-- The seconds that chrono represents, from 1970 on.
abbrev in_range : ℕ → Bool
in_range t = leb t 8210266876799

abbrev chunks : List (ℤ × ℕ)
chunks = (pos 800, 200) ∷ (pos 600, 150) ∷ []

running_read : (parse (codes "running") ≡ some running) ↔ (codes "running" ≡ as_str running)
running_read = parse_iff (codes "running") running

report-get_example :
    (get in_range
      (codes "gmail:a@b")
      (codes "gmail:a@b|INBOX")
      ((start (codes "gmail:a@b") (codes "gmail:a@b|INBOX") 100 (pos 1000) (some (pos 999))
          >> report (codes "gmail:a@b") (codes "gmail:a@b|INBOX") 130 chunks)
        db).1).0
    ≡ some (
        ok (
          some (record {
            account_id = codes "gmail:a@b";
            folder_id = codes "gmail:a@b|INBOX";
            status = running;
            anchor_uid = some (pos 600);
            total_estimate = some (pos 999);
            fetched = 350;
            started_at = 100;
            updated_at = 130;
            completed_at = none;
            last_error = none;
          })))
report-get_example =
    report-get (codes "gmail:a@b") (codes "gmail:a@b|INBOX") in_range 100 130 (pos 1000)
      (some (pos 999)) chunks db refl refl refl (omega arith)
