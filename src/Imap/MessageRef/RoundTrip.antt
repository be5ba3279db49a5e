-- ===== src/Imap/MessageRef/RoundTrip.antt =====
-- A message reference survives its packing, and only what has its shape is unpacked.
use qsl.Prelude.{
  ℕ, suc, ◌<◌, ◌≡◌, false, refl, ap, ◌∙◌, arith, [], ◌∷◌, ◌++◌, some, Text, codes, inl, inr,
  Option-cases, eq_text, eq_text_iff,
}
use qsl.Prelude.Decimal.{
  format_u32, parse_u32, u32_mod, parse_u32-format_u32, parse_u32-lt, format_u32-avoids,
}
use qsl.Prelude.Split.{contains, split_once, splitn, split_once-append, split_once-eq_some}
use qsl.Prelude.Result.{ok}
use qsl.Imap.MessageRef.{MessageRef, encode, decode, decode_parts}

-- Two parts and more: the first separator cuts.
splitn-append :
    (n sep : ℕ) (a b : Text)
    → contains sep a ≡ false
    → splitn (suc (suc n)) sep (a ++ sep ∷ b) ≡ a ∷ splitn (suc n) sep b
unfolding splitn
splitn-append n sep a b h = rw (split_once-append sep a b h, splitn)

parts-encode :
    (r : MessageRef)
    → splitn 4 b'|' (encode r)
      ≡ codes "imap" ∷ format_u32 r.uidvalidity ∷ format_u32 r.uid ∷ r.folder ∷ []
unfolding encode
parts-encode r =
    let bar = λ (n : ℕ). format_u32-avoids b'|' n (inr (omega arith)) in
    splitn-append 2 b'|' (codes "imap") _ refl
    ∙ ap (λ t. codes "imap" ∷ t)
        (splitn-append 1 b'|' (format_u32 r.uidvalidity) _ (bar r.uidvalidity)
          ∙ ap (λ t. format_u32 r.uidvalidity ∷ t)
              (splitn-append 0 b'|' (format_u32 r.uid) r.folder (bar r.uid)
                ∙ unfold splitn in refl))

-- Every reference whose two numbers are 32-bit words is unpacked as it was packed, also where its
-- folder holds the separator.
pub decode-encode :
    (r : MessageRef) → r.uidvalidity < u32_mod → r.uid < u32_mod → decode (encode r) ≡ ok r
unfolding decode eq_text
decode-encode r hv hu =
    rw (parts-encode r)
      (ground (arith, parse_u32-format_u32 r.uidvalidity hv, parse_u32-format_u32 r.uid hu))

-- `s` is `imap|v|u|folder` for texts `v` and `u` that parse to the numbers of `r`, which are 32-bit
-- words.
pub record IsPacked (s : Text) (r : MessageRef) : Type 0 where
  pub v : Text
  pub u : Text
  pub shape : s ≡ codes "imap" ++ (b'|' ∷ (v ++ (b'|' ∷ (u ++ (b'|' ∷ r.folder)))))
  pub uidvalidity_is : parse_u32 v ≡ some r.uidvalidity
  pub uid_is : parse_u32 u ≡ some r.uid
  pub in_range : (r.uidvalidity < u32_mod) × (r.uid < u32_mod)

fields_of :
    (s a v u f : Text) (r : MessageRef)
    → decode_parts s (a ∷ v ∷ u ∷ f ∷ []) ≡ ok r
    → (a ≡ codes "imap")
      × (parse_u32 v ≡ some r.uidvalidity)
      × (parse_u32 u ≡ some r.uid)
      × (r.folder ≡ f)
unfolding decode_parts
fields_of s a v u f r h =
    let e = eq_text_iff a (codes "imap") in
    (ground (arith, e), ground (arith, e), ground (arith, e), ground (arith, e))

-- Whatever `decode` accepts is an `imap|v|u|folder` whose two number texts parse to 32-bit words, and
-- the reference holds just those.
pub decode-IsPacked : (s : Text) (r : MessageRef) → decode s ≡ ok r → IsPacked s r
unfolding decode splitn
decode-IsPacked s r h = elim (Option-cases (split_once b'|' s)) [
  | inl e ↦ absurd (ground arith)
  | inr ((a, b), e) ↦ elim (Option-cases (split_once b'|' b)) [
    | inl e' ↦ absurd (ground arith)
    | inr ((v, c), e') ↦ elim (Option-cases (split_once b'|' c)) [
      | inl e'' ↦ absurd (ground arith)
      | inr ((u, f), e'') ↦
          let (scheme, p, q, folder) = fields_of s a v u f r (ground arith) in
          record {
            v = v;
            u = u;
            shape = cc (
              (split_once-eq_some b'|' s a b e).0,
              (split_once-eq_some b'|' b v c e').0,
              (split_once-eq_some b'|' c u f e'').0,
              scheme,
              folder,
            );
            uidvalidity_is = p;
            uid_is = q;
            in_range = (parse_u32-lt v r.uidvalidity p, parse_u32-lt u r.uid q);
          }
    ]
  ]
]
