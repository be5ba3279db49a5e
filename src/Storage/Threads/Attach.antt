-- ===== src/Storage/Threads/Attach.antt =====
-- What attaching a message does to the tables.
use qsl.Prelude.{
  ℕ, ◌+◌, ◌≡◌, max, refl, ap₂, arith, List, [], ◌∷◌, map, eq_text, if◌then◌else◌, Bool, true, false,
}
use qsl.Core.Ids.{MessageId, ThreadId}
use qsl.Storage.Rows.{Thread, MessageRow}
use qsl.Storage.Db.{Db, ◌>>=◌, ◌>>◌, statement}
use qsl.Storage.Threads.{
  touch, touch_rows, attach_rows, touch_for_message, set_message_thread_id, attach_message,
}

-- Two messages more, and a date not before the given one.
abbrev pub counted_twice : ThreadId → ℕ → Thread → Thread
counted_twice thread date t =
    if eq_text t.id thread
    then record t { message_count = t.message_count + 2; last_date = max t.last_date date }
    else t

touch-touch :
    (date : ℕ) (t : Thread)
    → touch date (touch date t)
      ≡ record t { message_count = t.message_count + 2; last_date = max t.last_date date }
unfolding touch
touch-touch date t =
    ap₂ (λ n l. record t { message_count = n; last_date = l }) (ground arith) (ground arith)

touch_rows-twice :
    (thread : ThreadId) (date : ℕ) (rows : List Thread)
    → touch_rows thread date (touch_rows thread date rows) ≡ map (counted_twice thread date) rows
unfolding touch_rows touch
touch_rows-twice thread date [] = refl
touch_rows-twice thread date (t ∷ rows) =
    ap₂ (λ u us. u ∷ us) (row (eq_text t.id thread) refl) (touch_rows-twice thread date rows)
  where
    row :
        (b : Bool)
        → eq_text t.id thread ≡ b
        → (let u = if b then touch date t else t in if eq_text u.id thread then touch date u else u)
          ≡ (if b
              then record t {
                message_count = t.message_count + 2;
                last_date = max t.last_date date;
              }
              else t)
    row true e = rw e (touch-touch date t)
    row false e = rw e refl

attach_rows-twice :
    (message : MessageId) (thread : ThreadId) (rows : List MessageRow)
    → attach_rows message thread (attach_rows message thread rows) ≡ attach_rows message thread rows
unfolding attach_rows
attach_rows-twice message thread [] = refl
attach_rows-twice message thread (m ∷ rows) = ground (arith, attach_rows-twice message thread rows)

-- Attaching a message a second time, no statement failing, leaves the messages as the first time did
-- but counts the message in its thread again.
pub attach_message-twice :
    (thread : ThreadId) (message : MessageId) (date : ℕ) (d : Db)
    → d.faults ≡ []
    → (((attach_message thread message date >> attach_message thread message date) d).1.threads
        ≡ map (counted_twice thread date) d.threads)
      × (((attach_message thread message date >> attach_message thread message date) d).1.messages
          ≡ (attach_message thread message date d).1.messages)
unfolding attach_message touch_for_message set_message_thread_id ◌>>=◌ statement
attach_message-twice thread message date d quiet = (
  ground (arith, touch_rows-twice thread date d.threads),
  ground (arith, attach_rows-twice message thread d.messages),
)
