-- ===== src/Sync/Folder/Examples.antt =====
-- Tests of the folder's passes: two messages, of which the server knows the second only.
use qsl.Prelude.{◌≡◌, refl, codes, [], ◌∷◌, any, some, suc, ℕ, Option, true, false, Text, eq_text}
use qsl.Prelude.Result.{ok}
use qsl.Storage.Samples.{empty_db, no_flags, blank_row}
use qsl.Storage.Messages.{Json}
use qsl.Sync.Folder.{Cycle, SyncReport, remove_reported, reconcile, apply_flag_updates}
use qsl.Sync.Folder.Stale.{is_stale}
use qsl.Sync.Folder.Reconcile.{Removes, remove_reported-Removes, reconcile-Removes}

abbrev inbox : Text
inbox = codes "gmail:a@b|INBOX"

-- The store of the bodies counts its deletions.
abbrev counting : Option (Text → ℕ → ℕ)
counting = some λ id n. suc n

abbrev fresh_report : SyncReport
fresh_report = record {
  added = 0;
  updated = 0;
  flag_updates = 0;
  removed = 0;
  bodies_fetched = 0;
  bodies_failed = 0;
}

abbrev two_messages : Cycle ℕ
two_messages = record {
  db = record empty_db { messages = blank_row (codes "m1") ∷ blank_row (codes "m2") ∷ [] };
  outside = 0;
  report = fresh_report;
}

reconcile-Removes_example :
    Removes counting
      (codes "m1" ∷ [])
      two_messages
      (reconcile counting inbox true (ok (codes "m2" ∷ [])) two_messages)
    × (any
          (is_stale (codes "m2" ∷ []) inbox)
          (reconcile counting inbox true (ok (codes "m2" ∷ [])) two_messages).1.db.messages
        ≡ false)
unfolding eq_text
reconcile-Removes_example = reconcile-Removes counting inbox (codes "m2") [] two_messages refl

-- An id that no row has is counted as removed.
remove_reported-Removes_example :
    Removes counting
      (codes "m9" ∷ [])
      two_messages
      (remove_reported counting (codes "m9" ∷ []) two_messages)
remove_reported-Removes_example =
    remove_reported-Removes counting (codes "m9" ∷ []) two_messages refl

abbrev plain : Json
plain = record {
  encode_addresses = λ addresses. ok (codes "[…]");
  encode_texts = λ texts. ok (codes "[…]");
  encode_flags = λ flags. ok (codes "{…}");
}

-- A flag update of an unknown message is skipped.
skipped_update :
    (apply_flag_updates plain
      ((codes "m9", no_flags) ∷ (codes "m1", record no_flags { seen = true }) ∷ [])
      two_messages).1.report.flag_updates
    ≡ 1
unfolding apply_flag_updates qsl.Storage.Messages.Statements.update_flags eq_text
skipped_update = refl
