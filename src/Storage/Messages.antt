-- ===== src/Storage/Messages.antt =====
-- crates/storage/src/repos/messages.rs: the lookup that threading makes, the encoding of a row, and
-- the batched writes of the sync engines. JSON is an argument.
pub mod Tables
pub mod Statements
pub mod Batch
pub mod Ensures
mod Examples
use qsl.Prelude.{
  ℕ, zero, suc, ◌+◌, ◌%◌, ◌^◌, Option, none, some, List, [], ◌∷◌, ◌++◌, Bool, false, not, ◌&&◌,
  Text, codes, eq_text, if◌then◌else◌, any, filter, get_elem?, length, take, drop,
}
use qsl.Prelude.Result
use qsl.Prelude.Result.{Result, ok, err}
use qsl.Core.Ids.{AccountId, ThreadId}
use qsl.Core.Error.{StorageError}
use qsl.Core.Message.{EmailAddress, MessageFlags, MessageHeaders}
use qsl.Storage.Rows.{MessageRow}
use qsl.Storage.Db.{Action, statement, transaction, pure, ◌>>=◌}

abbrev has_rfc822_id : AccountId → Text → MessageRow → Bool
has_rfc822_id account id m =
    eq_text m.account_id account
    && elim m.rfc822_message_id [ none ↦ false | some i ↦ eq_text i id ]

-- SELECT thread_id … LIMIT 1 has no order: of the rows that match, whichever the database chooses
-- decides, also with a NULL thread.
unfoldable pub thread_id_of_match :
    (List MessageRow → ℕ) → AccountId → Text → List MessageRow → Option ThreadId
thread_id_of_match choice account id rows =
    let matching = filter (has_rfc822_id account id) rows in
    elim (get_elem? matching (choice matching % length matching)) [
      | none ↦ none
      | some m ↦ m.thread_id
    ]

unfoldable pub find_thread_id_by_rfc822_id : AccountId → Text → Action (Option ThreadId)
unfolding statement thread_id_of_match
find_thread_id_by_rfc822_id account id =
    statement λ d. (ok (thread_id_of_match d.choice account id d.messages), d)

-- `json::encode` at the types of the columns.
pub record Json : Type 0 where
  pub encode_addresses : List EmailAddress → Result StorageError Text
  pub encode_texts : List Text → Result StorageError Text
  pub encode_flags : MessageFlags → Result StorageError Text

abbrev pub group_size : ℕ
group_size = 1500

abbrev pub has_id : Text → MessageRow → Bool
has_id id m = eq_text m.id id

-- INSERT OR IGNORE of one group: a row whose id is taken is skipped, and the others are counted.
unfoldable pub insert_or_ignore : List MessageRow → List MessageRow → List MessageRow × ℕ
insert_or_ignore [] table = (table, 0)
insert_or_ignore (r ∷ rows) table =
    let skipped = insert_or_ignore rows table in
    let (table', n) = insert_or_ignore rows (table ++ r ∷ []) in
    if any (has_id r.id) table then skipped else (table', n + 1)

unfoldable pub insert_group : List MessageRow → Action ℕ
unfolding insert_or_ignore statement
insert_group rows =
    statement λ d.
      let (table, n) = insert_or_ignore rows d.messages in (ok n, record d { messages = table })

-- `chunks`, with the length of the list as fuel.
unfoldable pub chunks : {A : Type 0} → ℕ → ℕ → List A → List (List A)
chunks zero n xs = []
chunks (suc fuel) n [] = []
chunks (suc fuel) n (x ∷ xs) = take n (x ∷ xs) ∷ chunks fuel n (drop n (x ∷ xs))

unfoldable pub insert_groups : List (List MessageRow) → Action ℕ
unfolding insert_group ◌>>=◌ pure
insert_groups [] = pure 0
insert_groups (group ∷ groups) = do
  n ← insert_group group
  rest ← insert_groups groups
  pure (n + rest)

module _ (json : Json) where
  unfoldable pub encode_addr_vec : List EmailAddress → Result StorageError Text
  encode_addr_vec [] = ok (codes "[]")
  encode_addr_vec (a ∷ addresses) = json.encode_addresses (a ∷ addresses)

  unfoldable pub encode_str_vec : List Text → Result StorageError Text
  encode_str_vec [] = ok (codes "[]")
  encode_str_vec (t ∷ texts) = json.encode_texts (t ∷ texts)

  unfoldable pub to_params : MessageHeaders → Option Text → Result StorageError MessageRow
  unfolding encode_addr_vec encode_str_vec
  to_params h body_path = Result.◌>>=◌ (encode_addr_vec h.from) λ from.
      Result.◌>>=◌ (encode_addr_vec h.reply_to) λ reply_to.
        Result.◌>>=◌ (encode_addr_vec h.to) λ to. Result.◌>>=◌ (encode_addr_vec h.cc) λ cc'.
          Result.◌>>=◌ (encode_addr_vec h.bcc) λ bcc.
            Result.◌>>=◌ (json.encode_flags h.flags) λ flags.
              Result.◌>>=◌ (encode_str_vec h.labels) λ labels.
                Result.◌>>=◌ (encode_str_vec h.references) λ references. ok (record {
                  id = h.id;
                  account_id = h.account_id;
                  folder_id = h.folder_id;
                  thread_id = h.thread_id;
                  rfc822_message_id = h.rfc822_message_id;
                  subject = h.subject;
                  from_json = from;
                  reply_to_json = reply_to;
                  to_json = to;
                  cc_json = cc';
                  bcc_json = bcc;
                  date = h.date;
                  flags_json = flags;
                  labels_json = labels;
                  snippet = h.snippet;
                  size = h.size;
                  has_attachments = h.has_attachments;
                  body_path = body_path;
                  in_reply_to = h.in_reply_to;
                  references_json = references;
                  unread = not h.flags.seen;
                })

  unfoldable pub to_rows : List MessageHeaders → Result StorageError (List MessageRow)
  unfolding to_params
  to_rows [] = ok []
  to_rows (h ∷ headers) =
      Result.◌>>=◌ (to_params h none) λ r. Result.◌>>=◌ (to_rows headers) λ rows. ok (r ∷ rows)

  -- Every row is encoded before the transaction is opened.
  unfoldable pub batch_insert_skip_existing : List MessageHeaders → Action ℕ
  unfolding to_rows chunks insert_groups transaction ◌>>=◌ pure
  batch_insert_skip_existing [] = pure 0
  batch_insert_skip_existing (h ∷ headers) = elim (to_rows (h ∷ headers)) [
    | err e ↦ λ d. (err e, d)
    | ok rows ↦ (do
      n ← transaction (insert_groups (chunks (length rows) group_size rows))
      pure (n % 2 ^ 32))
  ]
