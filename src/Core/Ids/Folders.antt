-- ===== src/Core/Ids/Folders.antt =====
-- Folder ids are unambiguous: what `scoped` packs, `backend_key` and `display_key` give back.
use qsl.Prelude.{
  false, ◌≡◌, ◌≢◌, ap, ◌∙◌, arith, Text, [], ◌∷◌, ◌++◌, some, inl, inr, Option-cases, some,
}
use qsl.Prelude.Split.{
  contains, split_once, split_once-append, strip_prefix, strip_prefix-append, strip_prefix-eq_some,
}
use qsl.Core.Ids.{AccountId, scope_sep, scoped, backend_key, display_key}

-- The wire name of a folder comes back from the id that was minted for it, whatever characters the
-- account and the name hold.
pub backend_key-scoped : (a : AccountId) (k : Text) → backend_key a (scoped a k) ≡ k
unfolding backend_key scoped
backend_key-scoped a k =
    ground (arith, strip_prefix-append a (scope_sep ∷ k), strip_prefix-append (scope_sep ∷ []) k)

-- For an account id without the separator, the name that is displayed is the backend's own.
pub display_key-scoped :
    (a : AccountId) (k : Text) → contains scope_sep a ≡ false → display_key (scoped a k) ≡ k
unfolding display_key scoped
display_key-scoped a k h = ground (arith, split_once-append scope_sep a k h)

split-scoped :
    (a : AccountId) (k : Text)
    → contains scope_sep a ≡ false
    → split_once scope_sep (scoped a k) ≡ some (a, k)
unfolding scoped
split-scoped a k h = split_once-append scope_sep a k h

-- Two accounts whose ids have no separator share no folder id: equal ids have the same account and
-- the same backend key.
pub scoped_injective :
    (a b : AccountId) (k j : Text)
    → contains scope_sep a ≡ false
    → contains scope_sep b ≡ false
    → scoped a k ≡ scoped b j
    → (a ≡ b) × (k ≡ j)
scoped_injective a b k j ha hb e =
    ground (arith, split-scoped a k ha, split-scoped b j hb, ap (split_once scope_sep) e)

stripped :
    (b : AccountId) (id rest key : Text)
    → strip_prefix b id ≡ some rest
    → strip_prefix (scope_sep ∷ []) rest ≡ some key
    → id ≡ scoped b key
unfolding scoped
stripped b id rest key e f =
    strip_prefix-eq_some b id rest e ∙ ap (λ t. b ++ t) (strip_prefix-eq_some _ rest key f)

-- Asked with another account, neither id holding the separator, `backend_key` leaves the id alone.
pub backend_key-scoped_ne :
    (a b : AccountId) (k : Text)
    → contains scope_sep a ≡ false
    → contains scope_sep b ≡ false
    → a ≢ b
    → backend_key b (scoped a k) ≡ scoped a k
unfolding backend_key
backend_key-scoped_ne a b k ha hb ne = elim (Option-cases (strip_prefix b (scoped a k))) [
  | inl e ↦ ground arith
  | inr (rest, e) ↦ elim (Option-cases (strip_prefix (scope_sep ∷ []) rest)) [
    | inl f ↦ ground arith
    | inr (key, f) ↦ absurd (ne (scoped_injective a b k key ha hb (stripped b _ rest key e f)).0)
  ]
]
