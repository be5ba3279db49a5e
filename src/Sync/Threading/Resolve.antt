-- ===== src/Sync/Threading/Resolve.antt =====
-- The order of the resolution chain, and the two resolvers compared.
use qsl.Prelude.{
  ℕ, ◌≡◌, refl, arith, Option, none, some, List, [], ◌∷◌, Bool, Text, Option-cases, inl, inr,
}
use mathlib.Core.List.{reverse}
use qsl.Prelude.Result.{ok}
use qsl.Core.Ids.{ThreadId}
use qsl.Core.Message.{MessageHeaders}
use qsl.Storage.Db.{Db, Action, ◌>>=◌, pure}
use qsl.Storage.Messages.{find_thread_id_by_rfc822_id, thread_id_of_match}
use qsl.Sync.Threading.{
  attachment, resolve_refs, resolve_subject, resolve_chain, resolve_existing_thread, chunk_lookup,
  resolve_with_chunk_local,
}

module _ (valid : ℕ → Bool) (now : ℕ) (h : MessageHeaders) where
  -- With no message of the chunk known, the resolver of a batch decides as `attach_to_thread` does,
  -- failures included: the thread found, or else the fresh one.
  pub resolve_with_chunk_local-empty :
      (new_id : ThreadId)
      → resolve_with_chunk_local valid now h new_id (λ _. none)
        ≡ (resolve_existing_thread valid now h >>= λ found. pure (attachment new_id h found))
  unfolding resolve_with_chunk_local resolve_existing_thread
  resolve_with_chunk_local-empty new_id = refl

-- The first id of the chain that the lookup knows.
abbrev pub first_hit : (Text → Option ThreadId) → List Text → Option ThreadId
first_hit look [] = none
first_hit look (r ∷ refs) = elim (look r) [ some t ↦ some t | none ↦ first_hit look refs ]

-- In-Reply-To, then the references from the newest to the oldest.
abbrev pub chain : MessageHeaders → List Text
chain h = elim h.in_reply_to [ none ↦ reverse h.references | some id ↦ id ∷ reverse h.references ]

abbrev pub known : (Text → Option ThreadId) → MessageHeaders → Db → Text → Option ThreadId
known chunk h d id = elim (chunk id) [
  | some t ↦ some t
  | none ↦ thread_id_of_match d.choice h.account_id id d.messages
]

chunk_lookup-known :
    (h : MessageHeaders) (chunk : Text → Option ThreadId) (d : Db) (valid : ℕ → Bool) (now : ℕ)
    (id : Text)
    → d.faults ≡ []
    → chunk_lookup valid now h chunk id d ≡ (ok (known chunk h d id), d)
unfolding chunk_lookup find_thread_id_by_rfc822_id
chunk_lookup-known h chunk d valid now id quiet = ground arith

resolve_refs-first_hit :
    (look : Text → Action (Option ThreadId)) (k : Text → Option ThreadId) (d : Db)
    → ((id : Text) → look id d ≡ (ok (k id), d))
    → (refs : List Text) → resolve_refs look refs d ≡ (ok (first_hit k refs), d)
unfolding resolve_refs
resolve_refs-first_hit look k d agrees [] = refl
resolve_refs-first_hit look k d agrees (r ∷ refs) =
    ground (arith, agrees r, resolve_refs-first_hit look k d agrees refs)

-- Where no statement fails: the thread is that of the first Message-ID known to the chunk or the
-- account's messages, In-Reply-To before the references and newer references before older ones;
-- only if none is known does the subject decide.
pub resolve_chain-first_hit :
    (valid : ℕ → Bool) (now : ℕ) (h : MessageHeaders) (chunk : Text → Option ThreadId) (d : Db)
    → d.faults ≡ []
    → resolve_chain valid now h (chunk_lookup valid now h chunk) d
      ≡ elim (first_hit (known chunk h d) (chain h)) [
        | some t ↦ (ok (some t), d)
        | none ↦ resolve_subject valid now h d
      ]
unfolding resolve_chain
resolve_chain-first_hit valid now h chunk d quiet =
    let look = chunk_lookup valid now h chunk in
    let agrees = λ (id : Text). chunk_lookup-known h chunk d valid now id quiet in
    let refs = resolve_refs-first_hit look (known chunk h d) d agrees (reverse h.references) in
    elim (Option-cases h.in_reply_to) [
      | inl e ↦ ground (arith, refs)
      | inr (id, e) ↦ ground (arith, agrees id, refs)
    ]
