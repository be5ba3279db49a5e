-- ===== src/Sync/Threading.antt =====
-- crates/sync/src/threading.rs: which thread a message belongs to. The clock, the random ids and
-- chrono's range check are arguments; the normal form of subjects is in Sync/Threading/Subject.antt.
pub mod Subject
pub mod Resolve
mod Examples
use qsl.Prelude.{
  ℕ, ◌+◌, ◌-◌, ◌*◌, Option, none, some, List, [], ◌∷◌, ◌++◌, Bool, true, false, Text, codes,
  if◌then◌else◌,
}
use mathlib.Core.List.{reverse}
use qsl.Prelude.Split.{is_nil}
use qsl.Core.Ids.{AccountId, MessageId, ThreadId}
use qsl.Core.Message.{MessageHeaders}
use qsl.Storage.Rows.{Thread}
use qsl.Storage.Db.{Action, ◌>>=◌, ◌>>◌, pure}
use qsl.Storage.Messages.{find_thread_id_by_rfc822_id}
use qsl.Storage.Threads.{find_recent_by_subject, attach_message}
use qsl.Storage.Threads
use qsl.Sync.Threading.Subject.{normalize_subject}

-- Thirty days, in seconds.
abbrev pub subject_recency : ℕ
subject_recency = 30 * 86400

pub record ThreadAttachment : Type 0 where
  pub thread_id : ThreadId
  pub mint : Option Thread

-- The thread that `attach_to_thread` and the resolver mint.
abbrev pub fresh_thread : ThreadId → MessageHeaders → Thread
fresh_thread id h = record {
  id = id;
  account_id = h.account_id;
  root_message_id = some h.id;
  subject_normalized = normalize_subject h.subject;
  last_date = h.date;
  message_count = 0;
}

-- The thread found, or step 4.
abbrev pub attachment : ThreadId → MessageHeaders → Option ThreadId → ThreadAttachment
attachment new_id h (some t) = record { thread_id = t; mint = none }
attachment new_id h none = record { thread_id = new_id; mint = some (fresh_thread new_id h) }

unfoldable pub thread_of_message : MessageHeaders → Text → Action (Option ThreadId)
thread_of_message h id = find_thread_id_by_rfc822_id h.account_id id

-- The loop over the references, which come newest first; each is looked up in turn.
unfoldable pub resolve_refs :
    (Text → Action (Option ThreadId)) → List Text → Action (Option ThreadId)
unfolding ◌>>=◌ pure
resolve_refs look [] = pure none
resolve_refs look (r ∷ refs) = do
  found ← look r
  elim found [ some t ↦ pure (some t) | none ↦ resolve_refs look refs ]

unfoldable pub resolve_reply :
    (Text → Action (Option ThreadId)) → Option Text → Action (Option ThreadId)
unfolding pure
resolve_reply look none = pure none
resolve_reply look (some id) = look id

module _ (valid : ℕ → Bool) (now : ℕ) (h : MessageHeaders) where
  -- Step 3. A time before 1970 is not reached by `now - 30 days`.
  unfoldable pub resolve_subject : Action (Option ThreadId)
  unfolding ◌>>=◌ pure
  resolve_subject =
      let normalized = normalize_subject h.subject in
      if is_nil normalized then pure none else do
        found ← find_recent_by_subject valid h.account_id normalized (now - subject_recency)
        elim found [ some t ↦ pure (some t.id) | none ↦ pure none ]

  -- The three steps, over a lookup of Message-IDs.
  unfoldable pub resolve_chain : (Text → Action (Option ThreadId)) → Action (Option ThreadId)
  unfolding resolve_reply resolve_refs resolve_subject ◌>>=◌ pure
  resolve_chain look = do
    reply ← resolve_reply look h.in_reply_to
    elim reply [
      | some t ↦ pure (some t)
      | none ↦ (do
        ref ← resolve_refs look (reverse h.references)
        elim ref [ some t ↦ pure (some t) | none ↦ resolve_subject ])
    ]

  unfoldable pub resolve_existing_thread : Action (Option ThreadId)
  unfolding resolve_chain thread_of_message
  resolve_existing_thread = resolve_chain (thread_of_message h)

  -- The chunk is consulted before the database, at every id of the chain.
  unfoldable pub chunk_lookup : (Text → Option ThreadId) → Text → Action (Option ThreadId)
  unfolding thread_of_message pure
  chunk_lookup chunk_local id = elim (chunk_local id) [
    | some t ↦ pure (some t)
    | none ↦ thread_of_message h id
  ]

  unfoldable pub resolve_with_chunk_local :
      ThreadId → (Text → Option ThreadId) → Action ThreadAttachment
  unfolding resolve_chain chunk_lookup ◌>>=◌ pure
  resolve_with_chunk_local new_id chunk_local = do
    found ← resolve_chain (chunk_lookup chunk_local)
    pure (attachment new_id h found)

  unfoldable pub attach_to_thread : ThreadId → Action (Unit {0})
  unfolding resolve_existing_thread attach_message ◌>>=◌
  attach_to_thread new_id = do
    found ← resolve_existing_thread
    elim found [
      | some t ↦ attach_message t h.id h.date
      | none ↦ (do Threads.insert (fresh_thread new_id h); attach_message new_id h.id h.date)
    ]
