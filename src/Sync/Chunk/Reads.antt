-- ===== src/Sync/Chunk/Reads.antt =====
-- crates/sync/src/lib.rs, `apply_chunk`: the resolution of a chunk writes no table.
use mathlib.Core.List.{reverse}
use qsl.Prelude.{Bool, ℕ, ◌+◌, List, [], ◌∷◌, Option, none, some, Text}
use qsl.Core.Ids.{AccountId, ThreadId}
use qsl.Core.Message.{MessageHeaders}
use qsl.Storage.Db.{Action}
use qsl.Storage.Db.ReadOnly.{
  ReadOnly, ReadOnly-pure, ReadOnly-lift, ReadOnly-query, ReadOnly-if, ReadOnly-option,
  ReadOnly-bind,
}
use qsl.Storage.Messages.{find_thread_id_by_rfc822_id}
use qsl.Storage.Threads.{find_recent_by_subject, read_thread}
use qsl.Sync.Threading.{
  resolve_refs, resolve_reply, resolve_subject, resolve_chain, chunk_lookup, thread_of_message,
  resolve_with_chunk_local, attachment,
}
use qsl.Sync.Plan.{
  Outside, Entries, ExistingRow, Resolutions, lookup, note_thread, batch_find_existing,
  resolve_header, resolve_headers,
}

module _ (valid : ℕ → Bool) (now : ℕ) (h : MessageHeaders) where
  find_recent-ReadOnly :
      (account : AccountId) (subject : Text) (since : ℕ)
      → ReadOnly (find_recent_by_subject valid account subject since)
  unfolding find_recent_by_subject
  find_recent-ReadOnly account subject since =
      ReadOnly-bind _ (λ row d. (read_thread valid row, d)) (ReadOnly-query _)
        λ row. ReadOnly-lift (read_thread valid row)

  resolve_subject-ReadOnly : ReadOnly (resolve_subject valid now h)
  unfolding resolve_subject
  resolve_subject-ReadOnly = ReadOnly-if _ _ _ (ReadOnly-pure none) (
      ReadOnly-bind _ _ (find_recent-ReadOnly _ _ _)
        λ found. ReadOnly-option found _ _ (ReadOnly-pure none) λ t. ReadOnly-pure (some t.id))

  chunk_lookup-ReadOnly :
      (chunk_local : Text → Option ThreadId) (id : Text)
      → ReadOnly (chunk_lookup valid now h chunk_local id)
  unfolding chunk_lookup thread_of_message find_thread_id_by_rfc822_id
  chunk_lookup-ReadOnly chunk_local id =
      ReadOnly-option (chunk_local id) _ _ (ReadOnly-query _) λ t. ReadOnly-pure (some t)

  module _ (look : Text → Action (Option ThreadId))
      (queries : (id : Text) → ReadOnly (look id)) where
    resolve_refs-ReadOnly : (refs : List Text) → ReadOnly (resolve_refs look refs)
    unfolding resolve_refs
    resolve_refs-ReadOnly [] = ReadOnly-pure none
    resolve_refs-ReadOnly (r ∷ refs) =
        ReadOnly-bind _ _ (queries r) λ found.
          ReadOnly-option found _ _ (resolve_refs-ReadOnly refs) λ t. ReadOnly-pure (some t)

    resolve_reply-ReadOnly : (id : Option Text) → ReadOnly (resolve_reply look id)
    unfolding resolve_reply
    resolve_reply-ReadOnly none = ReadOnly-pure none
    resolve_reply-ReadOnly (some id) = queries id

    resolve_chain-ReadOnly : ReadOnly (resolve_chain valid now h look)
    unfolding resolve_chain
    resolve_chain-ReadOnly = ReadOnly-bind _ _ (resolve_reply-ReadOnly h.in_reply_to) λ reply.
        ReadOnly-option reply _ _
          (ReadOnly-bind _ _ (resolve_refs-ReadOnly (reverse h.references))
            λ ref. ReadOnly-option ref _ _ resolve_subject-ReadOnly λ t. ReadOnly-pure (some t))
          λ t. ReadOnly-pure (some t)

  resolve-ReadOnly :
      (new_id : ThreadId) (chunk_local : Text → Option ThreadId)
      → ReadOnly (resolve_with_chunk_local valid now h new_id chunk_local)
  unfolding resolve_with_chunk_local
  resolve-ReadOnly new_id chunk_local =
      ReadOnly-bind _ _
        (resolve_chain-ReadOnly (chunk_lookup valid now h chunk_local)
          (chunk_lookup-ReadOnly chunk_local))
        λ found. ReadOnly-pure (attachment new_id h found)

module _ (outside : Outside) where
  resolve_header-ReadOnly :
      (existing : Entries ExistingRow) (n : ℕ) (h : MessageHeaders) (s : Resolutions)
      → ReadOnly (resolve_header outside existing n h s)
  unfolding resolve_header
  resolve_header-ReadOnly existing n h s =
      ReadOnly-option (lookup h.id existing) _ _
        (ReadOnly-bind _ _ (resolve-ReadOnly _ _ h _ _) λ res. ReadOnly-pure _)
        λ row.
          ReadOnly-option row.thread_id _ _
            (ReadOnly-bind _ _ (resolve-ReadOnly _ _ h _ _) λ res. ReadOnly-pure _)
            λ t. ReadOnly-pure (note_thread h t s)

  pub resolve_headers-ReadOnly :
      (existing : Entries ExistingRow) (n : ℕ) (headers : List MessageHeaders) (s : Resolutions)
      → ReadOnly (resolve_headers outside existing n headers s)
  unfolding resolve_headers
  resolve_headers-ReadOnly existing n [] s = ReadOnly-pure s
  resolve_headers-ReadOnly existing n (h ∷ headers) s =
      ReadOnly-bind _ _ (resolve_header-ReadOnly existing n h s)
        λ s'. resolve_headers-ReadOnly existing (n + 1) headers s'

pub batch_find_existing-ReadOnly :
    (headers : List MessageHeaders) → ReadOnly (batch_find_existing headers)
unfolding batch_find_existing
batch_find_existing-ReadOnly [] = ReadOnly-pure []
batch_find_existing-ReadOnly (h ∷ headers) = ReadOnly-query _
