-- ===== src/Sync/Drain/Examples.antt =====
-- Tests of the drain: a server that accepts everything, and one that nobody can log in to.
use qsl.Prelude.{
  ℕ, suc, ◌<◌, ◌≡◌, true, false, Bool, refl, arith, Text, codes, List, [], ◌∷◌, Option, none, some,
  map,
}
use qsl.Prelude.Result.{ok, err}
use qsl.Core.Error.{MailError}
use qsl.Storage.Samples.{empty_db, no_flags}
use qsl.Storage.Rows.{OutboxRow}
use qsl.Storage.Outbox.{OutboxEntry, max_attempts, select_due, delete_rows, fresh_row}
use qsl.Storage.Outbox.Invariant.{TableInv}
use qsl.Sync.Backend.{MailBackend, Externals}
use qsl.Sync.Drain.{
  DrainOutcome, World, Tick, op_delete, op_submit_message, sent, dead_lettered, process_one, drain,
  dispatch,
}
use qsl.Sync.Drain.Effects.{Effect, process_one-Effect}
use qsl.Sync.Drain.Preserves.{drain-TableInv}
use qsl.Sync.Drain.Outcomes.{outcome_id, sent-deleted, drain_outcomes}

-- The state of the servers counts their calls.
abbrev accepting : MailBackend ℕ
accepting = record {
  update_flags = λ ids add remove n. (ok tt, suc n);
  move_messages = λ ids target n. (ok tt, suc n);
  delete_messages = λ ids n. (ok tt, suc n);
  submit_message = λ raw n. (ok none, suc n);
  save_draft = λ raw prior n. (ok (codes "srv-1"), suc n);
}

-- Payloads are not read: each parser returns one fixed payload.
abbrev online : Externals ℕ
online = record {
  open_backend = λ account n. (ok accepting, n);
  parse_update_flags = λ json. ok (record { ids = json ∷ []; add = no_flags; remove = no_flags });
  parse_move = λ json. ok (record { ids = json ∷ []; target = codes "Archive" });
  parse_delete = λ json. ok (record { ids = json ∷ [] });
  parse_submit = λ json. ok (record { message_id = json; raw_b64 = json });
  parse_save_draft = λ json. ok (record { draft_id = json; raw_b64 = json });
  decode_base64 = λ text. ok text;
  valid_timestamp = λ t. true;
}

abbrev offline : Externals ℕ
offline = record online { open_backend = λ account n. (err (MailError.auth (codes "no token")), n) }

-- A row that was not tried yet, and one with a single attempt left.
abbrev first : OutboxRow
first = fresh_row 50 (codes "ob-1") (codes "gmail:a@b") op_delete (codes "m-1") none

abbrev last_try : OutboxRow
last_try =
    record (fresh_row 20 (codes "ob-2") (codes "gmail:a@b") op_submit_message (codes "m-2") none) {
      attempts = 4;
    }

abbrev world : World ℕ
world = record { db = record empty_db { outbox = first ∷ last_try ∷ [] }; server = 0 }

abbrev tick : Tick
tick = record { now = 100; random = 7 }

abbrev first_entry : OutboxEntry
first_entry = record {
  id = codes "ob-1";
  account_id = codes "gmail:a@b";
  op_kind = op_delete;
  payload_json = codes "m-1";
  created_at = 50;
  attempts = 0;
  next_attempt_at = some 50;
  last_error = none;
}

world-TableInv : TableInv world.db.outbox
unfolding qsl.Prelude.eq_text
world-TableInv = record { counted = (omega arith, (omega arith, tt)); unique = (refl, (refl, tt)) }

drain-TableInv_example : TableInv (drain offline 100 (λ n. tick) 20 world).1.db.outbox
drain-TableInv_example = drain-TableInv offline 100 (λ n. tick) 20 world world-TableInv

-- The row on its last attempt is older and comes first; the other one waits.
offline_outcomes :
    (drain offline 100 (λ n. tick) 1 world).0
    ≡ ok (
        dead_lettered
          (codes "ob-2")
          op_submit_message
          (codes "authentication failed or token expired: no token")
        ∷ [])
unfolding drain qsl.Storage.Outbox.list_due process_one dispatch qsl.Sync.Drain.◌>>=◌
    qsl.Sync.Drain.on_server qsl.Core.Error.format_mail_error
offline_outcomes = refl

sent-deleted_example :
    ((dispatch online first_entry world).0 ≡ ok tt)
    × ((process_one online tick first_entry world).1.db.outbox
        ≡ delete_rows (codes "ob-1") world.db.outbox)
unfolding dispatch qsl.Sync.Drain.◌>>=◌ qsl.Sync.Drain.on_server qsl.Prelude.eq_text
    qsl.Sync.Drain.checked qsl.Storage.Outbox.delete
sent-deleted_example =
    sent-deleted online tick first_entry world (codes "ob-1") op_delete (unfold process_one in refl)

process_one-Effect_example :
    Effect tick first_entry
      (dispatch offline first_entry world).0
      (dispatch offline first_entry world).1.db.faults
      world.db.outbox
      (process_one offline tick first_entry world).1.db.outbox
process_one-Effect_example = process_one-Effect offline tick first_entry world

abbrev both_sent : List DrainOutcome
both_sent = sent (codes "ob-2") op_submit_message ∷ sent (codes "ob-1") op_delete ∷ []

drain_outcomes_example :
    map outcome_id both_sent ≡ map (λ r. r.id) (select_due 100 20 world.db.outbox)
unfolding qsl.Storage.Outbox.list_due process_one dispatch qsl.Sync.Drain.◌>>=◌
    qsl.Sync.Drain.on_server qsl.Prelude.eq_text qsl.Sync.Drain.checked qsl.Sync.Drain.done
    qsl.Storage.Outbox.delete
drain_outcomes_example =
    drain_outcomes online 100 (λ n. tick) 20 world both_sent (unfold drain in refl)
