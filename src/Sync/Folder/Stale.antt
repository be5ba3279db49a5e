-- ===== src/Sync/Folder/Stale.antt =====
-- crates/sync/src/lib.rs: the ids that the reconciliation pass of `sync_folder` prunes.
use qsl.Prelude.{
  subst, ◌≡◌, refl, sym, ap, ◌∙◌, arith, List, [], ◌∷◌, map, filter, any, Bool, true, false, not,
  ◌&&◌, eq_text_refl, if◌then◌else◌, Bool-cases, inl, inr, any-weaken,
}
use qsl.Core.Ids.{FolderId, MessageId}
use qsl.Storage.Rows.{MessageRow}
use qsl.Storage.Messages.{has_id}
use qsl.Storage.Messages.Statements.{in_folder}
use qsl.Sync.Folder.{contains_id}

-- The table without the rows of some ids.
abbrev pub without : List MessageId → List MessageRow → List MessageRow
without ids = filter (λ m. not (contains_id ids m.id))

-- The ids that the server does not know.
abbrev pub stale : List MessageId → List MessageId → List MessageId
stale live = filter (λ id. not (contains_id live id))

pub stale-kept :
    (live local : List MessageId) (id : MessageId)
    → contains_id live id ≡ true
    → stale live (id ∷ local) ≡ stale live local
stale-kept live local id e = rw e refl

pub stale-removed :
    (live local : List MessageId) (id : MessageId)
    → contains_id live id ≡ false
    → stale live (id ∷ local) ≡ id ∷ stale live local
stale-removed live local id e = rw e refl

pub without-cons :
    (id : MessageId) (ids : List MessageId) (ms : List MessageRow)
    → without ids (filter (λ m. not (has_id id m)) ms) ≡ without (id ∷ ids) ms
without-cons id ids [] = refl
without-cons id ids (m ∷ ms) = ground (arith, without-cons id ids ms)

pub without-nil : (ms : List MessageRow) → without [] ms ≡ ms
without-nil [] = refl
without-nil (m ∷ ms) = ap (λ rest. m ∷ rest) (without-nil ms)

any-filter :
    (p q : MessageRow → Bool) (ms : List MessageRow)
    → any p (filter q ms) ≡ any (λ m. q m && p m) ms
any-filter p q [] = refl
any-filter p q (m ∷ ms) = ground (arith, any-filter p q ms)

-- The ids of a folder's rows, and the test for a row of it that the server does not know.
abbrev pub ids_of : FolderId → List MessageRow → List MessageId
ids_of folder ms = map (λ (m : MessageRow). m.id) (filter (in_folder folder) ms)

abbrev pub is_stale : List MessageId → FolderId → MessageRow → Bool
is_stale live folder m = in_folder folder m && not (contains_id live m.id)

abbrev escapes : List MessageId → List MessageId → FolderId → MessageRow → Bool
escapes ids live folder m = not (contains_id ids m.id) && is_stale live folder m

ids-in :
    (folder : FolderId) (m : MessageRow) (ms : List MessageRow)
    → in_folder folder m ≡ true
    → ids_of folder (m ∷ ms) ≡ m.id ∷ ids_of folder ms
ids-in folder m ms f =
    ap
      (λ b.
        map (λ (m' : MessageRow). m'.id)
          (if b then m ∷ filter (in_folder folder) ms else filter (in_folder folder) ms))
      f

ids-out :
    (folder : FolderId) (m : MessageRow) (ms : List MessageRow)
    → in_folder folder m ≡ false
    → ids_of folder (m ∷ ms) ≡ ids_of folder ms
ids-out folder m ms f =
    ap
      (λ b.
        map (λ (m' : MessageRow). m'.id)
          (if b then m ∷ filter (in_folder folder) ms else filter (in_folder folder) ms))
      f

stale-skip :
    (live : List MessageId) (folder : FolderId) (m : MessageRow) (ms : List MessageRow)
    → is_stale live folder m ≡ false
    → stale live (ids_of folder (m ∷ ms)) ≡ stale live (ids_of folder ms)
stale-skip live folder m ms e = elim (Bool-cases (in_folder folder m)) [
  | inl f ↦
      ap (stale live) (ids-in folder m ms f)
      ∙ stale-kept live (ids_of folder ms) m.id (ground arith)
  | inr f ↦ ap (stale live) (ids-out folder m ms f)
]

stale-take :
    (live : List MessageId) (folder : FolderId) (m : MessageRow) (ms : List MessageRow)
    → is_stale live folder m ≡ true
    → stale live (ids_of folder (m ∷ ms)) ≡ m.id ∷ stale live (ids_of folder ms)
stale-take live folder m ms e =
    ap (stale live) (ids-in folder m ms (ground arith))
    ∙ stale-removed live (ids_of folder ms) m.id (ground arith)

stale-step :
    (live : List MessageId) (folder : FolderId) (m : MessageRow) (ms : List MessageRow)
    → any (escapes (stale live (ids_of folder ms)) live folder) ms ≡ false
    → any (escapes (stale live (ids_of folder (m ∷ ms))) live folder) (m ∷ ms) ≡ false
stale-step live folder m ms rest = elim (Bool-cases (is_stale live folder m)) [
  | inl e ↦
      subst (λ ids'. any (escapes ids' live folder) (m ∷ ms) ≡ false)
        (sym (stale-take live folder m ms e)) (ground (arith, eq_text_refl m.id, fewer))
  | inr e ↦
      subst (λ ids'. any (escapes ids' live folder) (m ∷ ms) ≡ false)
        (sym (stale-skip live folder m ms e)) (ground (arith, rest))
]
  where
    ids : List MessageId
    ids = stale live (ids_of folder ms)

    fewer : any (escapes (m.id ∷ ids) live folder) ms ≡ false
    fewer =
        any-weaken (escapes ids live folder) (escapes (m.id ∷ ids) live folder) ms
          (λ x h. ground arith) rest

-- A row of the folder that the server does not know has one of the stale ids.
stale_complete :
    (live : List MessageId) (folder : FolderId) (ms : List MessageRow)
    → any (escapes (stale live (ids_of folder ms)) live folder) ms ≡ false
stale_complete live folder [] = refl
stale_complete live folder (m ∷ ms) = stale-step live folder m ms (stale_complete live folder ms)

pub without-stale :
    (live : List MessageId) (folder : FolderId) (ms : List MessageRow)
    → any (is_stale live folder) (without (stale live (ids_of folder ms)) ms) ≡ false
without-stale live folder ms =
    any-filter (is_stale live folder) _ ms ∙ stale_complete live folder ms
