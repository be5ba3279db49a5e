-- ===== src/Sync/Chunk/Phases.antt =====
-- crates/sync/src/lib.rs, `apply_chunk`: what the first two phases have settled for every header.
use qsl.Prelude.{ℕ, ◌+◌, ◌≡◌, refl, ap, arith, List, [], ◌∷◌, All, Option, none, some}
use qsl.Core.Ids.{ThreadId}
use qsl.Core.Message.{MessageHeaders}
use qsl.Storage.Db.{Action, pure, ◌>>=◌}
use qsl.Storage.Messages.Ensures.{Rows, Ensures, Ensures-pure, Ensures-bind}
use qsl.Sync.Threading.{ThreadAttachment, resolve_with_chunk_local}
use qsl.Sync.Plan.{
  Outside, Entries, ExistingRow, Resolutions, lookup, put, note_thread, resolve_header,
  resolve_headers,
}
use qsl.Sync.Chunk.Resolved.{
  Settled, Apart, Step, new-Step, heal-Step, noted-Step, note_thread-same,
}

abbrev pub anything : Rows
anything rows = Unit

module _ (outside : Outside) (existing : Entries ExistingRow) where
  resolve_header-Ensures :
      (n : ℕ) (h : MessageHeaders) (s : Resolutions)
      → Ensures anything (resolve_header outside existing n h s) (λ s' t. Step existing h s s')
  unfolding resolve_header
  resolve_header-Ensures n h s = go (lookup h.id existing) refl
    where
      resolve : Action ThreadAttachment
      resolve =
          resolve_with_chunk_local outside.valid (outside.clock n) h (outside.fresh n) s.chunk_local

      Post : Resolutions → Rows
      Post s' t = Step existing h s s'

      new : Action Resolutions
      new = resolve >>= λ res. pure (record (note_thread h res.thread_id s) {
        new = put h.id res (note_thread h res.thread_id s).new;
      })

      heal : Action Resolutions
      heal = resolve >>= λ res. pure (record (note_thread h res.thread_id s) {
        heal = put h.id res (note_thread h res.thread_id s).heal;
      })

      after :
          (f : ThreadAttachment → Resolutions)
          → ((res : ThreadAttachment) → Step existing h s (f res))
          → Ensures anything (resolve >>= λ res. pure (f res)) Post
      after f step =
          Ensures-bind _ resolve (λ res. pure (f res)) (λ res. anything) Post
            (record { at = λ d a p e. tt }) λ res. Ensures-pure _ (f res) Post λ t u. step res

      loose :
          (row : ExistingRow) (o : Option ThreadId)
          → lookup h.id existing ≡ some row
          → row.thread_id ≡ o
          → Ensures anything
              (elim o as (λ _. Action Resolutions) [
                | none ↦ heal
                | some t ↦ pure (note_thread h t s)
              ])
              Post
      loose row none found free = after _ λ res.
          let (same_new, same_heal) = note_thread-same existing h res.thread_id s in
          heal-Step existing h res s _ row found free same_new (ap (put h.id res) same_heal)
      loose row (some t) found free =
          Ensures-pure _ _ Post λ rows u. noted-Step existing h t s (ground (arith, found, free))

      go :
          (o : Option ExistingRow)
          → lookup h.id existing ≡ o
          → Ensures anything
              (elim o as (λ _. Action Resolutions) [
                | none ↦ new
                | some row ↦ elim row.thread_id as (λ _. Action Resolutions) [
                  | none ↦ heal
                  | some t ↦ pure (note_thread h t s)
                ]
              ])
              Post
      go none missing = after _ λ res.
          let (same_new, same_heal) = note_thread-same existing h res.thread_id s in
          new-Step existing h res s _ missing (ap (put h.id res) same_new) same_heal
      go (some row) found = loose row row.thread_id found refl

  -- Every header is settled, and what was settled stays so.
  pub record Steps (headers : List MessageHeaders) (s s' : Resolutions) : Type 0 where
    pub keeps : (x : MessageHeaders) → Settled existing s x → Settled existing s' x
    pub settles : All (Settled existing s') headers
    pub apart : Apart existing s → Apart existing s'

  pub resolve_headers-Ensures :
      (n : ℕ) (headers : List MessageHeaders) (s : Resolutions)
      → Ensures anything (resolve_headers outside existing n headers s) (λ s' t. Steps headers s s')
  unfolding resolve_headers
  resolve_headers-Ensures n [] s =
      Ensures-pure _ s _ λ t u. record { keeps = λ x e. e; settles = tt; apart = λ a. a }
  resolve_headers-Ensures n (h ∷ headers) s =
      Ensures-bind _ (resolve_header outside existing n h s)
        (λ s1. resolve_headers outside existing (n + 1) headers s1) (λ s1 t. Step existing h s s1) _
        (resolve_header-Ensures n h s)
        λ s1. record {
          at = λ d s' step went.
              let steps = (resolve_headers-Ensures (n + 1) headers s1).at d s' tt went in
              record {
                keeps = λ x e. steps.keeps x (step.keeps x e);
                settles = (steps.keeps h step.settles, steps.settles);
                apart = λ a. steps.apart (step.apart a);
              };
        }
