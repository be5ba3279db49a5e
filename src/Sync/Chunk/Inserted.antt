-- ===== src/Sync/Chunk/Inserted.antt =====
-- crates/sync/src/lib.rs, `apply_chunk`: the headers that were inserted have rows in their threads.
use qsl.Prelude.{
  ℕ, ◌+◌, ◌%◌, ◌^◌, ◌≡◌, refl, sym, ap, subst, arith, Bool, true, false, List, [], ◌∷◌, ◌++◌, All,
  All-append, All-append_split, All-weaken, Option, none, some, Text, length,
}
use qsl.Prelude.Result.{Result, ok, err, ok_unique, >>=-eq-ok}
use qsl.Core.Error.{StorageError}
use qsl.Core.Ids.{MessageId, ThreadId}
use qsl.Core.Message.{MessageHeaders}
use qsl.Storage.Rows.{MessageRow}
use qsl.Storage.Db.{Action, pure, ◌>>=◌}
use qsl.Storage.Messages.{
  Json, encode_addr_vec, encode_str_vec, to_params, to_rows, chunks, group_size, insert_group,
  insert_or_ignore,
}
use qsl.Storage.Messages.Batch.{concat, chunks-concat}
use qsl.Storage.Messages.Ensures.{
  Rows, Ensures, Ensures-pure, Ensures-fails, Ensures-statement, Ensures-bind,
}
use qsl.Storage.Messages.Statements.{insert_header_groups, batch_insert_skip_existing_in_tx}
use qsl.Sync.Plan.{row_with_id}
use qsl.Sync.Chunk.Grows.{Grows, is_attached, is_fine, insert-Grows, insert-attached}

-- A predicate that growth keeps.
abbrev pub Stable : Rows → Type 0
Stable r =
    (before after : List MessageRow)
    → ((id : MessageId) → Grows (row_with_id id before) (row_with_id id after))
    → r before
    → r after

abbrev pub in_thread : Option ThreadId → Bool
in_thread none = false
in_thread (some t) = true

-- A header with a thread, whose row, if there is one, is in a thread.
abbrev pub Insertable : List MessageRow → MessageHeaders → Type 0
Insertable rows h = (in_thread h.thread_id ≡ true) × (is_fine (row_with_id h.id rows) ≡ true)

abbrev pub Attached : List MessageRow → MessageHeaders → Type 0
Attached rows h = is_attached (row_with_id h.id rows) ≡ true

pub Attached-Stable : (headers : List MessageHeaders) → Stable (λ rows. All (Attached rows) headers)
Attached-Stable headers before after g h =
    All-weaken (Attached before) (Attached after) headers (λ x e. (g x.id).attached e) h

pub Insertable-Stable :
    (headers : List MessageHeaders) → Stable (λ rows. All (Insertable rows) headers)
Insertable-Stable headers before after g h =
    All-weaken (Insertable before) (Insertable after) headers (λ x e. (e.0, (g x.id).fine e.1)) h

module _ (json : Json) where
  -- The id and the thread of a row are those of its header.
  to_params-key :
      (h : MessageHeaders) (path : Option Text) (r : MessageRow)
      → to_params json h path ≡ ok r
      → (r.id ≡ h.id) × (r.thread_id ≡ h.thread_id)
  unfolding to_params
  to_params-key h path r e =
      let (a, ea, fa) = >>=-eq-ok (encode_addr_vec json h.from) _ e in
      let (b, eb, fb) = >>=-eq-ok (encode_addr_vec json h.reply_to) _ ea in
      let (c, ec, fc) = >>=-eq-ok (encode_addr_vec json h.to) _ eb in
      let (d, ed, fd) = >>=-eq-ok (encode_addr_vec json h.cc) _ ec in
      let (i, ei, fi) = >>=-eq-ok (encode_addr_vec json h.bcc) _ ed in
      let (j, ej, fj) = >>=-eq-ok (json.encode_flags h.flags) _ ei in
      let (k, ek, fk) = >>=-eq-ok (encode_str_vec json h.labels) _ ej in
      let (l, el, fl) = >>=-eq-ok (encode_str_vec json h.references) _ ek in
      (
        ap (λ m. m.id) (sym (ok_unique _ _ r refl el)),
        ap (λ m. m.thread_id) (sym (ok_unique _ _ r refl el)),
      )

  -- What holds of the ids and threads of the headers holds of those of the rows, and back.
  to_rows-All :
      (P : MessageId → Option ThreadId → Type 0) (headers : List MessageHeaders)
      (rows : List MessageRow)
      → to_rows json headers ≡ ok rows
      → (All (λ h. P h.id h.thread_id) headers → All (λ r. P r.id r.thread_id) rows)
        × (All (λ r. P r.id r.thread_id) rows → All (λ h. P h.id h.thread_id) headers)
  unfolding to_rows
  to_rows-All P [] rows e =
      (λ all. subst (All (λ r. P r.id r.thread_id)) (ok_unique _ [] rows refl e) tt, λ all. tt)
  to_rows-All P (h ∷ headers) rows e =
      let (r, e1, f1) = >>=-eq-ok (to_params json h none) _ e in
      let (rs, e2, f2) = >>=-eq-ok (to_rows json headers) _ e1 in
      let (same_id, same_thread) = to_params-key h none r f1 in
      let (there, back) = to_rows-All P headers rs f2 in
      let same : r ∷ rs ≡ rows = ok_unique _ (r ∷ rs) rows refl e2 in
      (
        λ all. subst (All (λ m. P m.id m.thread_id)) same (
          subst (λ t. P r.id t) (sym same_thread)
              (subst (λ i. P i h.thread_id) (sym same_id) all.0),
          there all.1,
        ),
        λ all.
            let all' = subst (All (λ (m : MessageRow). P m.id m.thread_id)) (sym same) all in
            (
              subst (λ t. P h.id t) same_thread (subst (λ i. P i r.thread_id) same_id all'.0),
              back all'.1,
            ),
      )

  insert_group-Ensures :
      (group : List MessageHeaders) (rows : List MessageRow) (keep : Rows)
      → to_rows json group ≡ ok rows
      → Stable keep
      → Ensures
          (λ t. All (Insertable t) group × keep t)
          (insert_group rows)
          (λ n t. All (Attached t) group × keep t)
  unfolding insert_group
  insert_group-Ensures group rows keep e stable = Ensures-statement _ _ _ (record {
    at = λ d n p went.
        let threads = (to_rows-All (λ i t. in_thread t ≡ true) group rows e).0 (
          All-weaken (Insertable d.messages) (λ h. in_thread h.thread_id ≡ true) group (λ h k. k.0)
            p.0) in
        let free = (to_rows-All (λ i t. is_fine (row_with_id i d.messages) ≡ true) group rows e).0 (
          All-weaken (Insertable d.messages) (λ h. is_fine (row_with_id h.id d.messages) ≡ true)
            group (λ h k. k.1) p.0) in
        (
          (to_rows-All
                (λ i t. is_attached (row_with_id i (insert_or_ignore rows d.messages).0) ≡ true)
                group rows e).1
              (insert-attached rows d.messages threads free),
          stable d.messages (insert_or_ignore rows d.messages).0
              (λ id. insert-Grows id rows d.messages threads) p.1,
        );
  })

  insert_header_groups-Ensures :
      (groups : List (List MessageHeaders)) (keep : Rows)
      → Stable keep
      → Ensures
          (λ t. All (Insertable t) (concat groups) × keep t)
          (insert_header_groups json groups)
          (λ n t. All (Attached t) (concat groups) × keep t)
  unfolding insert_header_groups
  insert_header_groups-Ensures [] keep stable = Ensures-pure _ 0 _ λ t p. p
  insert_header_groups-Ensures (group ∷ groups) keep stable =
      go (insert_header_groups-Ensures groups Done Done-Stable) (to_rows json group) refl
    where
      Rest : Rows
      Rest t = All (Insertable t) (concat groups) × keep t

      Done : Rows
      Done t = All (Attached t) group × keep t

      Rest-Stable : Stable Rest
      Rest-Stable before after g h =
          (Insertable-Stable (concat groups) before after g h.0, stable before after g h.1)

      Done-Stable : Stable Done
      Done-Stable before after g h =
          (Attached-Stable group before after g h.0, stable before after g h.1)

      split :
          (t : List MessageRow)
          → All (Insertable t) (group ++ concat groups) × keep t
          → All (Insertable t) group × Rest t
      split t p =
          let (k, l) = All-append_split (Insertable t) group (concat groups) p.0 in (k, (l, p.1))

      go :
          Ensures
            (λ t. All (Insertable t) (concat groups) × Done t)
            (insert_header_groups json groups)
            (λ n t. All (Attached t) (concat groups) × Done t)
          → (r : Result StorageError (List MessageRow)) → to_rows json group ≡ r
          → Ensures
              (λ t. All (Insertable t) (group ++ concat groups) × keep t)
              (elim r as (λ _. Action ℕ) [
                | err e ↦ λ d. (err e, d)
                | ok rows ↦ insert_group rows >>= λ n.
                    insert_header_groups json groups >>= λ rest. pure (n + rest)
              ])
              (λ n t. All (Attached t) (group ++ concat groups) × keep t)
      go others (err e) same = Ensures-fails _ e _
      go others (ok rows) same =
          Ensures-bind _ _ _ (λ n t. All (Insertable t) (concat groups) × Done t) _
            (record {
              at = λ d n p went.
                  let (done, (waiting, kept)) =
                    (insert_group-Ensures group rows Rest same Rest-Stable).at d n
                      (split d.messages p) went in
                  (waiting, (done, kept));
            })
            λ n.
              Ensures-bind _ _ _ (λ m t. All (Attached t) (concat groups) × Done t) _ others
                λ m.
                  Ensures-pure _ (n + m) _
                    λ t p. (All-append (Attached t) group (concat groups) p.1.0 p.0, p.1.1)

  -- Whatever growth keeps, and the rows of the headers in their threads.
  pub batch_insert-Ensures :
      (headers : List MessageHeaders) (keep : Rows)
      → Stable keep
      → Ensures
          (λ t. All (Insertable t) headers × keep t)
          (batch_insert_skip_existing_in_tx json headers)
          (λ n t. All (Attached t) headers × keep t)
  unfolding batch_insert_skip_existing_in_tx
  batch_insert-Ensures headers keep stable =
      subst
        (λ hs.
          Ensures (λ t. All (Insertable t) hs × keep t)
            (batch_insert_skip_existing_in_tx json headers) (λ n t. All (Attached t) hs × keep t))
        (chunks-concat (length headers) 1499 headers (omega arith))
        (Ensures-bind _ _ _ _ _
          (insert_header_groups-Ensures (chunks (length headers) group_size headers) keep stable)
          λ n. Ensures-pure _ (n % 2 ^ 32) _ λ t p. p)
