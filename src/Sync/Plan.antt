-- ===== src/Sync/Plan.antt =====
-- crates/sync/src/lib.rs, the first two phases of `apply_chunk`: the headers of a chunk are resolved
-- against the threads and sorted into insertions and updates. The clock, the random ids, JSON and the
-- order in which a HashMap is walked are arguments.
use qsl.Prelude.{
  ℕ, ◌+◌, List, [], ◌∷◌, ◌++◌, filter, Option, none, some, Bool, not, ◌&&◌, Text, eq_text,
  if◌then◌else◌,
}
use qsl.Prelude.Result
use qsl.Prelude.Result.{Result, ok, err}
use qsl.Core.Ids.{MessageId, FolderId, ThreadId}
use qsl.Core.Error.{StorageError}
use qsl.Core.Message.{MessageHeaders}
use qsl.Storage.Rows.{MessageRow}
use qsl.Storage.Db.{Action, pure, ◌>>=◌, statement}
use qsl.Storage.Messages.{Json, has_id}
use qsl.Sync.Threading.{ThreadAttachment, resolve_with_chunk_local}

-- A HashMap by the id of a message, its entries in no order that the code relies on.
abbrev pub Entries : Type 0 → Type 0
Entries A = List (MessageId × A)

unfoldable pub lookup : {A : Type 0} → MessageId → Entries A → Option A
lookup id [] = none
lookup id ((k, a) ∷ entries) = if eq_text k id then some a else lookup id entries

-- `HashMap::insert`, which replaces an entry of the same key.
unfoldable pub put : {A : Type 0} → MessageId → A → Entries A → Entries A
put id a entries = filter (λ e. not (eq_text e.0 id)) entries ++ (id, a) ∷ []

-- What else the code calls: the n-th reading of the clock, the n-th random id, and the order of the
-- values of a HashMap.
pub record Outside : Type 0 where
  pub json : Json
  pub valid : ℕ → Bool
  pub clock : ℕ → ℕ
  pub fresh : ℕ → ThreadId
  pub order : List ThreadAttachment → List ThreadAttachment

pub record ExistingRow : Type 0 where
  pub thread_id : Option ThreadId
  pub folder_id : FolderId
  pub flags_json : Text
  pub labels_json : Text

abbrev pub existing_row : MessageRow → ExistingRow
existing_row m = record {
  thread_id = m.thread_id;
  folder_id = m.folder_id;
  flags_json = m.flags_json;
  labels_json = m.labels_json;
}

-- The row of one branch of the UNION ALL, whose id is the primary key.
unfoldable pub row_with_id : MessageId → List MessageRow → Option MessageRow
row_with_id id [] = none
row_with_id id (m ∷ rows) = if has_id id m then some m else row_with_id id rows

-- The rows of the query, inserted in turn.
unfoldable pub existing_rows : List MessageRow → List MessageHeaders → Entries ExistingRow
unfolding row_with_id put
existing_rows table [] = []
existing_rows table (h ∷ headers) =
    let rest = existing_rows table headers in
    elim (row_with_id h.id table) [ none ↦ rest | some m ↦ (h.id, existing_row m) ∷ rest ]

unfoldable pub batch_find_existing : List MessageHeaders → Action (Entries ExistingRow)
unfolding existing_rows statement pure
batch_find_existing [] = pure []
batch_find_existing (h ∷ headers) = statement λ d. (ok (existing_rows d.messages (h ∷ headers)), d)

-- Phase 1: the threads of the headers that need one, and those of the Message-IDs seen in the chunk.
pub record Resolutions : Type 0 where
  pub chunk_local : Text → Option ThreadId
  pub new : Entries ThreadAttachment
  pub heal : Entries ThreadAttachment

abbrev pub no_resolutions : Resolutions
no_resolutions = record { chunk_local = λ id. none; new = []; heal = [] }

-- `chunk_local.insert`, where the header has a Message-ID.
unfoldable pub note_thread : MessageHeaders → ThreadId → Resolutions → Resolutions
note_thread h t s = elim h.rfc822_message_id [
  | none ↦ s
  | some rfc ↦ record s { chunk_local = λ id. if eq_text rfc id then some t else s.chunk_local id }
]

-- Phase 2: which write each header needs.
pub record Buckets : Type 0 where
  pub to_insert : List MessageHeaders
  pub to_heal : List MessageHeaders
  pub to_update : List MessageHeaders

abbrev pub no_buckets : Buckets
no_buckets = record { to_insert = []; to_heal = []; to_update = [] }

module _ (outside : Outside) where
  unfoldable pub resolve_header :
      Entries ExistingRow → ℕ → MessageHeaders → Resolutions → Action Resolutions
  unfolding lookup put note_thread ◌>>=◌ pure
  resolve_header existing n h s =
      let resolve =
        resolve_with_chunk_local outside.valid (outside.clock n) h (outside.fresh n)
          s.chunk_local in
      elim (lookup h.id existing) [
        | none ↦ (do
          res ← resolve
          let noted = note_thread h res.thread_id s
          pure (record noted { new = put h.id res noted.new }))
        | some row ↦ elim row.thread_id [
          | none ↦ (do
            res ← resolve
            let noted = note_thread h res.thread_id s
            pure (record noted { heal = put h.id res noted.heal }))
          | some t ↦ pure (note_thread h t s)
        ]
      ]

  unfoldable pub resolve_headers :
      Entries ExistingRow → ℕ → List MessageHeaders → Resolutions → Action Resolutions
  unfolding resolve_header ◌>>=◌ pure
  resolve_headers existing n [] s = pure s
  resolve_headers existing n (h ∷ headers) s = do
    s' ← resolve_header existing n h s
    resolve_headers existing (n + 1) headers s'

  -- `serde_json::to_string` of the flags and of the labels, against the stored texts.
  unfoldable pub is_unchanged : MessageHeaders → ExistingRow → Result StorageError Bool
  is_unchanged h row = Result.◌>>=◌ (outside.json.encode_flags h.flags) λ flags.
      Result.◌>>=◌ (outside.json.encode_texts h.labels) λ labels. ok (
        eq_text row.folder_id h.folder_id
        && eq_text row.flags_json flags
        && eq_text row.labels_json labels)

  unfoldable pub sort_header :
      Entries ExistingRow → Resolutions → MessageHeaders → Buckets → Result StorageError Buckets
  unfolding lookup is_unchanged
  sort_header existing s h b = elim (lookup h.id s.new) [
    | some res ↦
        ok
          (record b { to_insert = b.to_insert ++ record h { thread_id = some res.thread_id } ∷ [] })
    | none ↦ elim (lookup h.id s.heal) [
      | some res ↦ ok (record b { to_heal = b.to_heal ++ h ∷ [] })
      | none ↦ elim (lookup h.id existing) [
        | none ↦ ok (record b { to_update = b.to_update ++ h ∷ [] })
        | some row ↦
            Result.◌>>=◌ (is_unchanged h row)
              λ same. ok (if same then b else record b { to_update = b.to_update ++ h ∷ [] })
      ]
    ]
  ]

  unfoldable pub sort_headers :
      Entries ExistingRow
      → Resolutions
      → List MessageHeaders
      → Buckets
      → Result StorageError Buckets
  unfolding sort_header
  sort_headers existing s [] b = ok b
  sort_headers existing s (h ∷ headers) b =
      Result.◌>>=◌ (sort_header existing s h b) λ b'. sort_headers existing s headers b'
