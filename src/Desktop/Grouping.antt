-- ===== src/Desktop/Grouping.antt =====
-- apps/desktop/ui/src/threading.rs: the message list rolls up neighbours of one thread. Of a header
-- only its thread is read, which the section's parameter gives.
pub mod Runs
mod Examples
use qsl.Prelude.{
  Bool, true, false, List, [], ◌∷◌, ◌++◌, Option, none, some, Text, eq_text, if◌then◌else◌,
}
use qsl.Core.Ids.{ThreadId}

pub data MessageListItem (H : Type 0) : Type 0 where
  single : H → MessageListItem H
  -- the head and all members, the head included
  thread : H → List H → MessageListItem H

-- What `flush_group` appends to the output.
unfoldable pub flush_group : {H : Type 0} → List H → List (MessageListItem H)
flush_group [] = []
flush_group (m ∷ []) = single m ∷ []
flush_group (m ∷ n ∷ rest) = thread m (m ∷ n ∷ rest) ∷ []

module _ {H : Type 0} (thread_id : H → Option ThreadId) where
  unfoldable pub extends : H → Option ThreadId → Bool
  extends m current = elim (thread_id m) [
    | none ↦ false
    | some t ↦ elim current [ none ↦ false | some u ↦ eq_text t u ]
  ]

  -- The loop, with its buffer and the thread of the current run.
  unfoldable pub group_from : List H → Option ThreadId → List H → List (MessageListItem H)
  unfolding flush_group extends
  group_from buf current [] = flush_group buf
  group_from buf current (m ∷ messages) =
      let longer = group_from (buf ++ m ∷ []) current messages in
      let next = group_from (m ∷ []) (thread_id m) messages in
      if extends m current then longer else flush_group buf ++ next

  unfoldable pub group_by_thread : List H → List (MessageListItem H)
  unfolding group_from
  group_by_thread messages = group_from [] none messages
