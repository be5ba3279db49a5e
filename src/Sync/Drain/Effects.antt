-- ===== src/Sync/Drain/Effects.antt =====
-- What one dispatched row does to the outbox table.
use qsl.Prelude.{
  ◌+◌, ◌≡◌, true, false, Bool, refl, subst, ◌∙◌, arith, Text, List, [], ◌∷◌, ◌⊎◌, Option, none,
  some, leb, Bool-cases, inl, inr, if◌then◌else◌,
}
use qsl.Prelude.Result.{Result, ok, err}
use qsl.Core.Error.{format_mail_error, MailError}
use qsl.Storage.Rows.{OutboxRow}
use qsl.Storage.Db.{Db, statement}
use qsl.Storage.Outbox
use qsl.Storage.Drafts.{get_server_id, set_server_id}
use qsl.Storage.Outbox.{
  OutboxEntry, max_attempts, succ_u32, delete, record_failure, touch, update_row, update_rows,
  delete_rows, backoff_seconds,
}
use qsl.Sync.Backend.{Externals}
use qsl.Sync.Drain
use qsl.Sync.Drain.{
  after_send, after_failure, process_one, DrainOutcome, send_flags, send_move, send_delete,
  send_submit, send_draft, unknown_kind, dispatch, on_server, on_db, checked, done, Step, World,
  Tick,
}

outbox-get_server_id : (id : Text) (d : Db) → (get_server_id id d).1.outbox ≡ d.outbox
unfolding get_server_id statement
outbox-get_server_id id d = ground arith

outbox-set_server_id : (id sid : Text) (d : Db) → (set_server_id id sid d).1.outbox ≡ d.outbox
unfolding set_server_id statement
outbox-set_server_id id sid d = ground arith

-- A step that leaves the outbox table as it is.
pub record Keeps {S A : Type 0} (m : Step S A) : Type 0 where
  pub at : (w : World S) → (m w).1.db.outbox ≡ w.db.outbox

module _ {S A B : Type 0} where
  Keeps-bind :
      (m : Step S A) (f : A → Step S B)
      → Keeps m
      → ((a : A) → Keeps (f a))
      → Keeps (Drain.◌>>=◌ m f)
  unfolding Drain.◌>>=◌
  Keeps-bind m f km kf = record { at = λ w. go (m w).0 (m w).1 (km.at w) }
    where
      go :
          (r : Result MailError A) (w' : World S) {rows : List OutboxRow}
          → w'.db.outbox ≡ rows
          → (elim r as (λ _. Result MailError B × World S) [
            | ok a ↦ f a w'
            | err e ↦ (err e, w')
          ]).1.db.outbox
            ≡ rows
      go (ok a) w' e = (kf a).at w' ∙ e
      go (err x) w' e = e

module _ {S : Type 0} where
  Keeps-server : {A : Type 0} (call : S → Result MailError A × S) → Keeps (on_server call)
  unfolding on_server
  Keeps-server call = record { at = λ w. refl }

  Keeps-checked :
      {A : Type 0} (context : Text) (r : Result Text A) → Keeps {S = S} (checked context r)
  unfolding checked
  Keeps-checked context r = record { at = λ w. refl }

  Keeps-done : Keeps {S = S} done
  unfolding done
  Keeps-done = record { at = λ w. refl }

  Keeps-unknown : (x : Externals S) (kind : Text) → Keeps (unknown_kind x kind)
  unfolding unknown_kind
  Keeps-unknown x kind = record { at = λ w. refl }

  Keeps-get : (context id : Text) → Keeps {S = S} (on_db context (get_server_id id))
  unfolding on_db
  Keeps-get context id = record { at = λ w. outbox-get_server_id id w.db }

  Keeps-set : (context id sid : Text) → Keeps {S = S} (on_db context (set_server_id id sid))
  unfolding on_db
  Keeps-set context id sid = record { at = λ w. outbox-set_server_id id sid w.db }

  Keeps-if :
      {A : Type 0} (b : Bool) {m n : Step S A} → Keeps m → Keeps n → Keeps (if b then m else n)
  Keeps-if true k l = k
  Keeps-if false k l = l

ruleset keeps = (
  Keeps-bind, Keeps-server, Keeps-checked, Keeps-done, Keeps-unknown, Keeps-get, Keeps-set,
  Keeps-if,
)

module _ {S : Type 0} (x : Externals S) where
  pub Keeps-dispatch : (e : OutboxEntry) → Keeps (dispatch x e)
  unfolding dispatch
  Keeps-dispatch e = search keeps depth 12

-- Whether the next statement fails.
abbrev pub is_failing : List (Option Text) → Bool
is_failing [] = false
is_failing (none ∷ faults) = false
is_failing (some message ∷ faults) = true

-- What the row of `e` becomes when its dispatch has ended in `sent`, with `faults` ahead: the table
-- stays where the statement that records the result fails, the row is deleted after a success, and
-- after a failure it is postponed by the backoff, or dead-lettered if no attempt is left.
pub data Effect (tick : Tick) (e : OutboxEntry) (sent : Result MailError (Unit {0}))
    (faults : List (Option Text)) (rows rows' : List OutboxRow) : Type 0 where
  unrecorded : is_failing faults ≡ true → rows' ≡ rows → Effect tick e sent faults rows rows'
  deleted :
      is_failing faults ≡ false
      → sent ≡ ok tt
      → rows' ≡ delete_rows e.id rows
      → Effect tick e sent faults rows rows'
  postponed :
      (why : MailError)
      → is_failing faults ≡ false
      → sent ≡ err why
      → leb max_attempts (succ_u32 e.attempts) ≡ false
      → rows'
        ≡ update_rows
            (touch
              (some (tick.now + backoff_seconds (succ_u32 e.attempts) tick.random))
              (format_mail_error why))
            e.id
            rows
      → Effect tick e sent faults rows rows'
  buried :
      (why : MailError)
      → is_failing faults ≡ false
      → sent ≡ err why
      → leb max_attempts (succ_u32 e.attempts) ≡ true
      → rows' ≡ update_rows (touch none (format_mail_error why)) e.id rows
      → Effect tick e sent faults rows rows'

module _ (tick : Tick) (e : OutboxEntry) (d : Db) where
  delete-Effect : Effect tick e (ok tt) d.faults d.outbox (Outbox.delete e.id d).1.outbox
  unfolding Outbox.delete
  delete-Effect = go d.faults
    where
      go :
          (faults : List (Option Text))
          → Effect tick e
              (ok tt)
              faults
              d.outbox
              (Outbox.delete e.id (record d { faults = faults })).1.outbox
      go [] = deleted refl refl refl
      go (none ∷ rest) = deleted refl refl refl
      go (some m ∷ rest) = unrecorded refl refl

  record_failure-Effect :
      (why : MailError)
      → Effect tick e
          (err why)
          d.faults
          d.outbox
          (record_failure tick.now tick.random e.id e.attempts (format_mail_error why) d).1.outbox
  unfolding record_failure
  record_failure-Effect why = go (Bool-cases (leb max_attempts (succ_u32 e.attempts))) d.faults
    where
      go :
          (leb max_attempts (succ_u32 e.attempts) ≡ true)
            ⊎ (leb max_attempts (succ_u32 e.attempts) ≡ false)
          → (faults : List (Option Text))
          → Effect tick e
              (err why)
              faults
              d.outbox
              (record_failure tick.now tick.random e.id e.attempts
                (format_mail_error why)
                (record d { faults = faults })).1.outbox
      go (inl last) [] = buried why refl refl last (ground arith)
      go (inl last) (none ∷ rest) = buried why refl refl last (ground arith)
      go (inl last) (some m ∷ rest) = unrecorded refl (ground arith)
      go (inr more) [] = postponed why refl refl more (ground arith)
      go (inr more) (none ∷ rest) = postponed why refl refl more (ground arith)
      go (inr more) (some m ∷ rest) = unrecorded refl (ground arith)

module _ {S : Type 0} (x : Externals S) (tick : Tick) (e : OutboxEntry) (w : World S) where
  db-after_send : (after_send x e w).1.db ≡ (Outbox.delete e.id w.db).1
  unfolding after_send
  db-after_send = ground arith

  after_send-Effect : Effect tick e (ok tt) w.db.faults w.db.outbox (after_send x e w).1.db.outbox
  after_send-Effect = rw db-after_send (delete-Effect tick e w.db)

  after_failure-Effect :
      (f : MailError)
      → Effect tick e (err f) w.db.faults w.db.outbox (after_failure x tick e f w).1.db.outbox
  unfolding after_failure
  after_failure-Effect f = record_failure-Effect tick e w.db f

module _ {S : Type 0} (x : Externals S) (tick : Tick) (e : OutboxEntry) (w : World S) where
  -- Whatever the servers answer and whichever statements fail, one dispatched row leaves every other
  -- row of the outbox alone. Its own row is left as it is only where the statement that records the
  -- result fails. Otherwise it is deleted exactly where the dispatch succeeded; where the dispatch
  -- failed, it is given the error, and is postponed by the backoff, or dead-lettered if its count of
  -- attempts reaches the limit.
  pub process_one-Effect :
      Effect tick e
        (dispatch x e w).0
        (dispatch x e w).1.db.faults
        w.db.outbox
        (process_one x tick e w).1.db.outbox
  unfolding process_one
  process_one-Effect = go (dispatch x e w).0 (dispatch x e w).1 ((Keeps-dispatch x e).at w)
    where
      go :
          (r : Result MailError (Unit {0})) (w' : World S)
          → w'.db.outbox ≡ w.db.outbox
          → Effect tick e r w'.db.faults w.db.outbox
              (elim r as (λ _. DrainOutcome × World S) [
                | ok _ ↦ after_send x e w'
                | err f ↦ after_failure x tick e f w'
              ]).1.db.outbox
      go (ok _) w' same =
          subst (λ rows. Effect tick e (ok tt) w'.db.faults rows (after_send x e w').1.db.outbox)
            same (after_send-Effect x tick e w')
      go (err f) w' same =
          subst
            (λ rows.
              Effect tick e (err f) w'.db.faults rows (after_failure x tick e f w').1.db.outbox)
            same (after_failure-Effect x tick e w' f)
