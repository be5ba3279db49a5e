-- ===== src/Sync/Chunk/Healed.antt =====
-- crates/sync/src/lib.rs, `apply_chunk`: the stored messages outside of a thread are attached to one.
use qsl.Prelude.{◌≡◌, refl, arith, true, List, [], ◌∷◌, All, All-weaken, Option, none, some}
use qsl.Core.Ids.{MessageId, ThreadId}
use qsl.Core.Message.{MessageHeaders}
use qsl.Storage.Rows.{MessageRow}
use qsl.Storage.Db.{Action, ◌>>=◌}
use qsl.Storage.Messages.Ensures.{
  Rows, Ensures, Ensures-pure, Ensures-statement, Ensures-bind, Ensures-weaken,
}
use qsl.Storage.Threads.{attach_rows, set_message_thread_id, touch_for_message}
use qsl.Sync.Threading.{ThreadAttachment}
use qsl.Sync.Plan.{Outside, Entries, lookup, row_with_id}
use qsl.Sync.Chunk.{attach_healed}
use qsl.Sync.Chunk.Grows.{Grows, is_there, is_attached}
use qsl.Sync.Chunk.Writes.{touch-Moves, attach_rows-Grows}
use qsl.Sync.Chunk.Inserted.{Stable, Attached}

-- A header that is to be healed, and has a row.
abbrev pub Healable : Entries ThreadAttachment → List MessageRow → MessageHeaders → Type 0
Healable heal rows h =
    (is_there (lookup h.id heal) ≡ true) × (is_there (row_with_id h.id rows) ≡ true)

pub Healable-Stable :
    (heal : Entries ThreadAttachment) (headers : List MessageHeaders)
    → Stable (λ rows. All (Healable heal rows) headers)
Healable-Stable heal headers before after g h =
    All-weaken (Healable heal before) (Healable heal after) headers
      (λ x e. (e.0, (g x.id).stays e.1)) h

-- The row of an id is in a thread after it was attached.
attach_rows-attached :
    (id : MessageId) (t : ThreadId) (rows : List MessageRow)
    → is_there (row_with_id id rows) ≡ true
    → is_attached (row_with_id id (attach_rows id t rows)) ≡ true
unfolding attach_rows row_with_id
attach_rows-attached id t [] there = absurd cc
attach_rows-attached id t (m ∷ rows) there = ground (arith, attach_rows-attached id t rows)

attach-Ensures :
    (id : MessageId) (t : ThreadId) (keep : Rows)
    → Stable keep
    → Ensures
        (λ rows. (is_there (row_with_id id rows) ≡ true) × keep rows)
        (set_message_thread_id id t)
        (λ u rows. (is_attached (row_with_id id rows) ≡ true) × keep rows)
unfolding set_message_thread_id
attach-Ensures id t keep stable = Ensures-statement _ _ _ (record {
  at = λ d u p went. (
    attach_rows-attached id t d.messages p.0,
    stable d.messages (attach_rows id t d.messages) (attach_rows-Grows id t d.messages) p.1,
  );
})

module _ (outside : Outside) where
  -- Whatever growth keeps, and the rows of the headers in their threads.
  pub attach_healed-Ensures :
      (heal : Entries ThreadAttachment) (headers : List MessageHeaders) (keep : Rows)
      → Stable keep
      → Ensures
          (λ t. All (Healable heal t) headers × keep t)
          (attach_healed outside heal headers)
          (λ u t. All (Attached t) headers × keep t)
  unfolding attach_healed
  attach_healed-Ensures heal [] keep stable = Ensures-pure _ tt _ λ t p. p
  attach_healed-Ensures heal (h ∷ headers) keep stable =
      go (attach_healed-Ensures heal headers Done Done-Stable) (lookup h.id heal) refl
    where
      Done : Rows
      Done t = Attached t h × keep t

      Rest : Rows
      Rest t = All (Healable heal t) headers × keep t

      Rest-Stable : Stable Rest
      Rest-Stable before after g p =
          (Healable-Stable heal headers before after g p.0, stable before after g p.1)

      Done-Stable : Stable Done
      Done-Stable before after g p = ((g h.id).attached p.0, stable before after g p.1)

      touched :
          (before after : List MessageRow)
          → ((id : MessageId) → Grows (row_with_id id before) (row_with_id id after))
          → Attached before h × Rest before
          → All (Healable heal after) headers × Done after
      touched before after g p = (
        Healable-Stable heal headers before after g p.1.0,
        Done-Stable before after g (p.0, p.1.1),
      )

      go :
          Ensures
            (λ t. All (Healable heal t) headers × Done t)
            (attach_healed outside heal headers)
            (λ u t. All (Attached t) headers × Done t)
          → (o : Option ThreadAttachment) → lookup h.id heal ≡ o
          → Ensures
              (λ t. All (Healable heal t) (h ∷ headers) × keep t)
              (elim o as (λ _. Action (Unit {0})) [
                | none ↦ attach_healed outside heal headers
                | some res ↦ set_message_thread_id h.id res.thread_id >>= λ u.
                    touch_for_message res.thread_id h.date >>= λ v.
                    attach_healed outside heal headers
              ])
              (λ u t. All (Attached t) (h ∷ headers) × keep t)
      go others none same = record { at = λ d u p went. absurd cc }
      go others (some res) same =
          Ensures-bind _ _ _ (λ u t. Attached t h × Rest t) _
            (record {
              at = λ d u p went.
                  (attach-Ensures h.id res.thread_id Rest Rest-Stable).at d u
                    (p.0.0.1, (p.0.1, p.1)) went;
            })
            λ u.
              Ensures-bind _ (touch_for_message res.thread_id h.date)
                (λ v. attach_healed outside heal headers)
                (λ v t. All (Healable heal t) headers × Done t) _
                (record {
                  at = λ d v p went.
                      touched d.messages (touch_for_message res.thread_id h.date d).1.messages
                        ((touch-Moves res.thread_id h.date).at d) p;
                })
                λ v.
                  Ensures-weaken _ _ (λ w t. All (Attached t) headers × Done t) _
                    (λ w t p. ((p.1.0, p.0), p.1.1)) others
