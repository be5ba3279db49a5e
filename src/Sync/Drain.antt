-- ===== src/Sync/Drain.antt =====
-- crates/sync/src/outbox_drain.rs: the worker that walks the due rows of the outbox. Logging and
-- timing have no effect on the state and are left out.
pub mod Effects
pub mod Invariant
pub mod Preserves
pub mod Outcomes
mod Examples
use qsl.Prelude.{ℕ, suc, List, [], ◌∷◌, ◌++◌, Text, codes, eq_text, leb, if◌then◌else◌}
use qsl.Prelude.Result
use qsl.Prelude.Result.{Result, ok, err, map_err}
use qsl.Core.Error.{StorageError, MailError, format_mail_error, format_storage_error}
use qsl.Storage.Db.{Db}
use qsl.Storage.Outbox
use qsl.Storage.Outbox.{OutboxEntry, max_attempts, succ_u32, list_due, record_failure}
use qsl.Storage.Drafts.{get_server_id, set_server_id}
use qsl.Sync.Backend.{MailBackend, Externals}

abbrev pub op_update_flags : Text
op_update_flags = codes "update_flags"

abbrev pub op_move : Text
op_move = codes "move_messages"

abbrev pub op_delete : Text
op_delete = codes "delete_messages"

abbrev pub op_submit_message : Text
op_submit_message = codes "submit_message"

abbrev pub op_save_draft : Text
op_save_draft = codes "save_draft"

pub data DrainOutcome : Type 0 where
  sent : Text → Text → DrainOutcome
  retrying : Text → Text → ℕ → Text → DrainOutcome
  dead_lettered : Text → Text → Text → DrainOutcome

-- The database, and the servers behind the backends.
pub record World (S : Type 0) : Type 0 where
  pub db : Db
  pub server : S

-- The clock reading and the random byte that one failure takes.
pub record Tick : Type 0 where
  pub now : ℕ
  pub random : ℕ

abbrev pub Step : Type 0 → Type 0 → Type 0
Step S A = World S → Result MailError A × World S

infixl 5 ◌>>=◌
unfoldable pub ◌>>=◌ : {S A B : Type 0} → Step S A → (A → Step S B) → Step S B
◌>>=◌ m f w = let (r, w') = m w in elim r [ ok a ↦ f a w' | err e ↦ (err e, w') ]

-- A call of a backend, of a repository, and of a pure function that may fail.
unfoldable pub on_server : {S A : Type 0} → (S → Result MailError A × S) → Step S A
on_server call w = let (r, s) = call w.server in (r, record w { server = s })

unfoldable pub on_db : {S A : Type 0} → Text → (Db → Result StorageError A × Db) → Step S A
on_db context call w =
    let (r, d) = call w.db in
    (map_err (λ e. MailError.other (context ++ format_storage_error e)) r, record w { db = d })

unfoldable pub checked : {S A : Type 0} → Text → Result Text A → Step S A
checked context r w = (map_err (λ e. MailError.parse (context ++ e)) r, w)

unfoldable pub done : {S : Type 0} → Step S (Unit {0})
done w = (ok tt, w)

module _ {S : Type 0} (x : Externals S) where
  -- The arm of each operation kind.
  unfoldable pub send_flags : MailBackend S → Text → Step S (Unit {0})
  send_flags backend json = do
    p ← checked (codes "outbox.update_flags payload: ") (x.parse_update_flags json)
    on_server (backend.update_flags p.ids p.add p.remove)

  unfoldable pub send_move : MailBackend S → Text → Step S (Unit {0})
  send_move backend json = do
    p ← checked (codes "outbox.move_messages payload: ") (x.parse_move json)
    on_server (backend.move_messages p.ids p.target)

  unfoldable pub send_delete : MailBackend S → Text → Step S (Unit {0})
  send_delete backend json = do
    p ← checked (codes "outbox.delete_messages payload: ") (x.parse_delete json)
    on_server (backend.delete_messages p.ids)

  unfoldable pub send_submit : MailBackend S → Text → Step S (Unit {0})
  send_submit backend json = do
    p ← checked (codes "outbox.submit_message payload: ") (x.parse_submit json)
    raw ← checked (codes "outbox.submit_message base64: ") (x.decode_base64 p.raw_b64)
    _ ← on_server (backend.submit_message raw)
    done

  -- The prior server id is read when the row is dispatched.
  unfoldable pub send_draft : MailBackend S → Text → Step S (Unit {0})
  send_draft backend json = do
    p ← checked (codes "outbox.save_draft payload: ") (x.parse_save_draft json)
    raw ← checked (codes "outbox.save_draft base64: ") (x.decode_base64 p.raw_b64)
    prior ← on_db (codes "drafts.get_server_id: ") (get_server_id p.draft_id)
    new_id ← on_server (backend.save_draft raw prior)
    on_db (codes "drafts.set_server_id: ") (set_server_id p.draft_id new_id)

  unfoldable pub unknown_kind : Text → Step S (Unit {0})
  unknown_kind kind w = (err (MailError.other (codes "outbox: unknown op_kind " ++ kind)), w)

  unfoldable pub dispatch : OutboxEntry → Step S (Unit {0})
  unfolding send_flags send_move send_delete send_submit send_draft unknown_kind
  dispatch entry = do
    backend ← on_server (x.open_backend entry.account_id)
    if eq_text entry.op_kind op_update_flags
        then send_flags backend entry.payload_json
        else if eq_text entry.op_kind op_move
        then send_move backend entry.payload_json
        else if eq_text entry.op_kind op_delete
        then send_delete backend entry.payload_json
        else if eq_text entry.op_kind op_submit_message
        then send_submit backend entry.payload_json
        else if eq_text entry.op_kind op_save_draft
        then send_draft backend entry.payload_json
        else unknown_kind entry.op_kind

  -- The two arms of the match in `process_one`.
  unfoldable pub after_send : OutboxEntry → World S → DrainOutcome × World S
  after_send entry w =
      let (r, d) = Outbox.delete entry.id w.db in
      elim r [
        | ok _ ↦ (sent entry.id entry.op_kind, record w { db = d })
        | err e ↦ (
          retrying entry.id entry.op_kind entry.attempts
              (codes "delete after send: " ++ format_storage_error e),
          record w { db = d },
        )
      ]

  -- A failure to record the failure is logged only.
  unfoldable pub after_failure : Tick → OutboxEntry → MailError → World S → DrainOutcome × World S
  after_failure tick entry e w =
      let text = format_mail_error e in
      let (_, d) = record_failure tick.now tick.random entry.id entry.attempts text w.db in
      (
        if leb max_attempts (succ_u32 entry.attempts)
            then dead_lettered entry.id entry.op_kind text
            else retrying entry.id entry.op_kind (succ_u32 entry.attempts) text,
        record w { db = d },
      )

  unfoldable pub process_one : Tick → OutboxEntry → World S → DrainOutcome × World S
  unfolding after_send after_failure
  process_one tick entry w =
      let (r, w') = dispatch entry w in
      elim r [ ok _ ↦ after_send entry w' | err e ↦ after_failure tick entry e w' ]

  -- The loop over the due rows; the n-th failure takes the n-th tick.
  unfoldable pub process_all :
      (ℕ → Tick) → ℕ → List OutboxEntry → World S → List DrainOutcome × World S
  process_all ticks n [] w = ([], w)
  process_all ticks n (entry ∷ entries) w =
      let (o, w') = process_one (ticks n) entry w in
      let (os, w'') = process_all ticks (suc n) entries w' in (o ∷ os, w'')

  unfoldable pub drain :
      ℕ → (ℕ → Tick) → ℕ → World S → Result StorageError (List DrainOutcome) × World S
  unfolding process_all
  drain now ticks limit w =
      let (r, d) = list_due x.valid_timestamp now limit w.db in
      elim r [
        | err e ↦ (err e, record w { db = d })
        | ok due ↦ let (os, w') = process_all ticks 0 due (record w { db = d }) in (ok os, w')
      ]
