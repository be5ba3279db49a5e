-- ===== src/Core/Ids/Accounts.antt =====
-- What `AccountId::for_provider` accepts.
use qsl.Prelude.{
  ℕ, false, true, ◌≡◌, refl, arith, Text, [], ◌∷◌, ◌++◌, inl, inr, ◌↔◌, not, Option-cases,
  any-append, any-weaken, ◌==◌, any,
}
use qsl.Prelude.Split.{contains, split_once, split_once-append, split_once-eq_some, trim, is_nil}
use qsl.Prelude.Result.{ok}
use qsl.Core.Ids.{
  AccountId, is_forbidden, is_slug_char, has_address_shape, scope_sep, mint, for_provider,
}

-- `local@domain`, with one `@` and two parts that are not empty.
pub record IsAddress (email : Text) : Type 0 where
  pub user : Text
  pub domain : Text
  pub splits : email ≡ user ++ b'@' ∷ domain
  pub user_ne_nil : is_nil user ≡ false
  pub domain_ne_nil : is_nil domain ≡ false
  pub one_at : (contains b'@' user ≡ false) × (contains b'@' domain ≡ false)

-- What stands behind an accepted account id.
pub record IsAccount (provider email : Text) (id : AccountId) : Type 0 where
  pub id_is : id ≡ provider ++ b':' ∷ email
  pub address : IsAddress email
  pub clean : any is_forbidden email ≡ false
  pub provider_ne_nil : is_nil provider ≡ false
  pub slug : any (λ c. not (is_slug_char c)) provider ≡ false

IsAddress-of_shape : (email : Text) → has_address_shape email ≡ true → IsAddress email
unfolding has_address_shape
IsAddress-of_shape email h = elim (Option-cases (split_once b'@' email)) [
  | inl e ↦ absurd (ground arith)
  | inr ((u, d), e) ↦
      let found = split_once-eq_some b'@' email u d e in
      record {
        user = u;
        domain = d;
        splits = found.0;
        user_ne_nil = ground arith;
        domain_ne_nil = ground arith;
        one_at = (found.1, ground arith);
      }
]

shape_of-IsAddress : (email : Text) → IsAddress email → has_address_shape email ≡ true
unfolding has_address_shape
shape_of-IsAddress email a =
    rw a.splits (ground (arith, split_once-append b'@' a.user a.domain a.one_at.0))

IsAddress-ne_nil : (email : Text) → IsAddress email → is_nil email ≡ false
IsAddress-ne_nil email a = rw a.splits (ne_nil a.user a.user_ne_nil)
  where
    ne_nil : (u : Text) → is_nil u ≡ false → is_nil (u ++ b'@' ∷ a.domain) ≡ false
    ne_nil [] h = refl
    ne_nil (c ∷ u) h = refl

-- `for_provider` returns an id exactly for a provider slug and an email that, trimmed, is a clean
-- `local@domain`; the id is then `<provider>:<trimmed email>`.
pub for_provider_iff :
    (provider email : Text) (id : AccountId)
    → (for_provider provider email ≡ ok id) ↔ IsAccount provider (trim email) id
unfolding for_provider mint
for_provider_iff provider email id = (accepted, returned)
  where
    accepted : for_provider provider email ≡ ok id → IsAccount provider (trim email) id
    accepted h = record {
      id_is = ground arith;
      address = IsAddress-of_shape (trim email) (ground arith);
      clean = ground arith;
      provider_ne_nil = ground arith;
      slug = ground arith;
    }

    returned : IsAccount provider (trim email) id → for_provider provider email ≡ ok id
    returned a =
        ground (
          arith,
          shape_of-IsAddress (trim email) a.address,
          IsAddress-ne_nil (trim email) a.address,
        )

slug_char_ne_colon : (c : ℕ) → (c == b':') ≡ true → not (is_slug_char c) ≡ true
unfolding is_slug_char
slug_char_ne_colon c h = ground arith

slug_char_ne_sep : (c : ℕ) → (c == scope_sep) ≡ true → not (is_slug_char c) ≡ true
unfolding is_slug_char
slug_char_ne_sep c h = ground arith

sep-is_forbidden : (c : ℕ) → (c == scope_sep) ≡ true → is_forbidden c ≡ true
unfolding is_forbidden
sep-is_forbidden c h = ground arith

-- No id that `for_provider` returns holds the separator of folder ids.
pub for_provider-no_sep :
    (provider email : Text) (id : AccountId)
    → for_provider provider email ≡ ok id
    → contains scope_sep id ≡ false
for_provider-no_sep provider email id h =
    let a = (for_provider_iff provider email id).0 h in
    let p = any-weaken _ (λ c. c == scope_sep) provider slug_char_ne_sep a.slug in
    let q = any-weaken _ (λ c. c == scope_sep) (trim email) sep-is_forbidden a.clean in
    rw a.id_is (ground (arith, any-append (λ c. c == scope_sep) provider (b':' ∷ trim email)))

-- An id determines the provider and the trimmed email that it was minted for.
pub for_provider_injective :
    (p q e f : Text) (id : AccountId)
    → for_provider p e ≡ ok id
    → for_provider q f ≡ ok id
    → (p ≡ q) × (trim e ≡ trim f)
for_provider_injective p q e f id h k =
    let a = (for_provider_iff p e id).0 h in
    let b = (for_provider_iff q f id).0 k in
    let sp =
      split_once-append b':' p (trim e)
        (any-weaken _ (λ c. c == b':') p slug_char_ne_colon a.slug) in
    let sq =
      split_once-append b':' q (trim f)
        (any-weaken _ (λ c. c == b':') q slug_char_ne_colon b.slug) in
    (cc (sp, sq, a.id_is, b.id_is), cc (sp, sq, a.id_is, b.id_is))
