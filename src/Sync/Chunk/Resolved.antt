-- ===== src/Sync/Chunk/Resolved.antt =====
-- crates/sync/src/lib.rs, `apply_chunk`: which headers the first phase resolves.
use qsl.Prelude.{
  ◌≡◌, refl, sym, ap, ◌∙◌, arith, Bool, true, false, not, Bool-cases, inl, inr, ◌⊎◌, [], ◌∷◌, ◌++◌,
  filter, Option, none, some, Text, eq_text, eq_text_iff, eq_text_refl, if◌then◌else◌,
}
use qsl.Core.Ids.{MessageId, ThreadId}
use qsl.Core.Message.{MessageHeaders}
use qsl.Sync.Threading.{ThreadAttachment}
use qsl.Sync.Plan.{Entries, ExistingRow, Resolutions, lookup, put, note_thread}
use qsl.Sync.Chunk.Grows.{is_there}

module _ {A : Type 0} where
  lookup-append :
      (id : MessageId) (es fs : Entries A)
      → lookup id (es ++ fs)
        ≡ elim (lookup id es) as (λ _. Option A) [ some a ↦ some a | none ↦ lookup id fs ]
  unfolding lookup
  lookup-append id [] fs = refl
  lookup-append id (e ∷ es) fs = ground (arith, lookup-append id es fs)

  lookup-removed :
      (id k : MessageId) (es : Entries A)
      → lookup id (filter (λ e. not (eq_text e.0 k)) es)
        ≡ (if eq_text k id then none else lookup id es)
  unfolding lookup
  lookup-removed id k [] = ground arith
  lookup-removed id k (e ∷ es) = elim (Bool-cases (eq_text e.0 k)) [
    | inl same ↦
        ground (arith, lookup-removed id k es, ap (λ i. eq_text i id) ((eq_text_iff e.0 k).0 same))
    | inr other ↦ elim (Bool-cases (eq_text k id)) [
      | inl there ↦
          ground
            (arith, lookup-removed id k es, ap (λ i. eq_text e.0 i) ((eq_text_iff k id).0 there))
      | inr missing ↦ ground (arith, lookup-removed id k es)
    ]
  ]

  pub lookup-put :
      (id k : MessageId) (a : A) (es : Entries A)
      → lookup id (put k a es) ≡ (if eq_text k id then some a else lookup id es)
  unfolding lookup put
  lookup-put id k a es =
      lookup-append id (filter (λ e. not (eq_text e.0 k)) es) ((k, a) ∷ [])
      ∙ ground (arith, lookup-removed id k es)

  put-there :
      (id k : MessageId) (a : A) (es : Entries A)
      → is_there (lookup id es) ≡ true
      → is_there (lookup id (put k a es)) ≡ true
  put-there id k a es h = ap is_there (lookup-put id k a es) ∙ ground arith

  put-itself : (k : MessageId) (a : A) (es : Entries A) → is_there (lookup k (put k a es)) ≡ true
  put-itself k a es = ap is_there (lookup-put k k a es) ∙ ground (arith, eq_text_refl k)

  -- A key of the extended map is an old one or the new one.
  put-cases :
      (id k : MessageId) (a : A) (es : Entries A)
      → is_there (lookup id (put k a es)) ≡ true
      → (k ≡ id) ⊎ (is_there (lookup id es) ≡ true)
  put-cases id k a es h = elim (Bool-cases (eq_text k id)) [
    | inl same ↦ inl ((eq_text_iff k id).0 same)
    | inr other ↦ inr (sym (ap is_there (lookup-put id k a es) ∙ ground arith) ∙ h)
  ]

-- Whether a map has the entry that a header with this row needs.
abbrev pub needs : Option ExistingRow → Bool → Bool → Bool
needs none new heal = new
needs (some row) new heal = elim row.thread_id [ none ↦ heal | some t ↦ true ]

needs-weaken :
    (o : Option ExistingRow) (new new' heal heal' : Bool)
    → (new ≡ true → new' ≡ true)
    → (heal ≡ true → heal' ≡ true)
    → needs o new heal ≡ true
    → needs o new' heal' ≡ true
needs-weaken none new new' heal heal' f g h = f h
needs-weaken (some row) new new' heal heal' f g h = ground (arith, f, g, h)

module _ (existing : Entries ExistingRow) where
  abbrev pub Settled : Resolutions → MessageHeaders → Type 0
  Settled s h =
      needs (lookup h.id existing) (is_there (lookup h.id s.new)) (is_there (lookup h.id s.heal))
      ≡ true

  -- New headers have no row, and healed ones have one.
  pub record Apart (s : Resolutions) : Type 0 where
    pub new :
        (id : MessageId) → is_there (lookup id s.new) ≡ true → is_there (lookup id existing) ≡ false
    pub heal :
        (id : MessageId) → is_there (lookup id s.heal) ≡ true → is_there (lookup id existing) ≡ true

  pub record Step (h : MessageHeaders) (s s' : Resolutions) : Type 0 where
    pub keeps : (x : MessageHeaders) → Settled s x → Settled s' x
    pub settles : Settled s' h
    pub apart : Apart s → Apart s'

  pub noted-Step :
      (h : MessageHeaders) (t : ThreadId) (s : Resolutions)
      → Settled s h
      → Step h s (note_thread h t s)
  unfolding note_thread
  noted-Step h t s settled = go h.rfc822_message_id
    where
      go :
          (o : Option Text)
          → Step h s (elim o as (λ _. Resolutions) [
            | none ↦ s
            | some rfc ↦ record s {
              chunk_local = λ id. if eq_text rfc id then some t else s.chunk_local id;
            }
          ])
      go none = record { keeps = λ x e. e; settles = settled; apart = λ a. a }
      go (some rfc) = record {
        keeps = λ x e. e;
        settles = settled;
        apart = λ a. record { new = a.new; heal = a.heal };
      }

  -- `note_thread` leaves the resolutions alone.
  pub note_thread-same :
      (h : MessageHeaders) (t : ThreadId) (s : Resolutions)
      → ((note_thread h t s).new ≡ s.new) × ((note_thread h t s).heal ≡ s.heal)
  unfolding note_thread
  note_thread-same h t s = go h.rfc822_message_id
    where
      go :
          (o : Option Text)
          → (let s' : Resolutions = elim o as (λ _. Resolutions) [
            | none ↦ s
            | some rfc ↦ record s {
              chunk_local = λ id. if eq_text rfc id then some t else s.chunk_local id;
            }
          ] in
              (s'.new ≡ s.new) × (s'.heal ≡ s.heal))
      go none = (refl, refl)
      go (some rfc) = (refl, refl)

  pub new-Step :
      (h : MessageHeaders) (res : ThreadAttachment) (s s' : Resolutions)
      → lookup h.id existing ≡ none
      → s'.new ≡ put h.id res s.new
      → s'.heal ≡ s.heal
      → Step h s s'
  new-Step h res s s' missing e f = record {
    keeps = λ x k.
        needs-weaken (lookup x.id existing) _ _ _ _
          (λ g. ap (λ m. is_there (lookup x.id m)) e ∙ put-there x.id h.id res s.new g)
          (λ g. ap (λ m. is_there (lookup x.id m)) f ∙ g) k;
    settles =
        ap (λ o. needs o (is_there (lookup h.id s'.new)) (is_there (lookup h.id s'.heal))) missing
        ∙ ap (λ m. is_there (lookup h.id m)) e
        ∙ put-itself h.id res s.new;
    apart = λ a. record {
      new = λ id g.
          elim (put-cases id h.id res s.new (sym (ap (λ m. is_there (lookup id m)) e) ∙ g)) [
            | inl same ↦ ap (λ i. is_there (lookup i existing)) (sym same) ∙ ap is_there missing
            | inr old ↦ a.new id old
          ];
      heal = λ id g. a.heal id (sym (ap (λ m. is_there (lookup id m)) f) ∙ g);
    };
  }

  pub heal-Step :
      (h : MessageHeaders) (res : ThreadAttachment) (s s' : Resolutions) (row : ExistingRow)
      → lookup h.id existing ≡ some row
      → row.thread_id ≡ none
      → s'.new ≡ s.new
      → s'.heal ≡ put h.id res s.heal
      → Step h s s'
  heal-Step h res s s' row found loose e f = record {
    keeps = λ x k.
        needs-weaken (lookup x.id existing) _ _ _ _ (λ g. ap (λ m. is_there (lookup x.id m)) e ∙ g)
          (λ g. ap (λ m. is_there (lookup x.id m)) f ∙ put-there x.id h.id res s.heal g) k;
    settles =
        ap (λ o. needs o (is_there (lookup h.id s'.new)) (is_there (lookup h.id s'.heal))) found
        ∙ ap (λ o. elim o as (λ _. Bool) [ none ↦ is_there (lookup h.id s'.heal) | some t ↦ true ])
            loose
        ∙ ap (λ m. is_there (lookup h.id m)) f
        ∙ put-itself h.id res s.heal;
    apart = λ a. record {
      new = λ id g. a.new id (sym (ap (λ m. is_there (lookup id m)) e) ∙ g);
      heal = λ id g.
          elim (put-cases id h.id res s.heal (sym (ap (λ m. is_there (lookup id m)) f) ∙ g)) [
            | inl same ↦ ap (λ i. is_there (lookup i existing)) (sym same) ∙ ap is_there found
            | inr old ↦ a.heal id old
          ];
    };
  }
