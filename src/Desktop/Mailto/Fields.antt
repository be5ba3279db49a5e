-- ===== src/Desktop/Mailto/Fields.antt =====
-- Where the fields of a payload come from.
use qsl.Prelude.{
  ◌≡◌, refl, ap, ◌∙◌, arith, List, [], ◌∷◌, ◌++◌, append_assoc, append-nil, Option, none, some,
  Text, codes, eq_text, if◌then◌else◌, Bool-cases, inl, inr,
}
use qsl.Prelude.Result.{Result, ok}
use qsl.Prelude.Chars.{to_ascii_lowercase}
use qsl.Prelude.Split.{is_nil, join}
use qsl.Desktop.Mailto.{
  MailtoPayload, default, Url, append_addr, apply_pair, apply_pairs, parse_mailto,
}

-- The values of a key, in any case of its letters, in the order of the query.
unfoldable pub values : Text → List (Text × Text) → List Text
unfolding to_ascii_lowercase
values name [] = []
values name (pair ∷ pairs) =
    let rest = values name pairs in
    if eq_text (to_ascii_lowercase pair.0) name then pair.1 ∷ rest else rest

-- An address list, or nothing for no addresses.
unfoldable pub joined : List Text → Option Text
unfolding join
joined [] = none
joined (v ∷ vs) = some (join (codes ", ") (v ∷ vs))

join-concat :
    (v : Text) (vs : List Text) (value : Text)
    → join (codes ", ") (v ∷ vs) ++ (codes ", " ++ value)
      ≡ join (codes ", ") ((v ∷ vs) ++ value ∷ [])
unfolding join
join-concat v [] value = refl
join-concat v (w ∷ vs) value =
    append_assoc v _ _ ∙ ap (λ t. v ++ (codes ", " ++ t)) (join-concat w vs value)

append_addr-joined :
    (vs : List Text) (value : Text) → append_addr (joined vs) value ≡ joined (vs ++ value ∷ [])
unfolding append_addr joined
append_addr-joined [] value = unfold join in refl
append_addr-joined (v ∷ vs) value = ap some (join-concat v vs value)

-- The `to` of the pairs after a list of addresses.
to-apply_pairs :
    (before : List Text) (p : MailtoPayload) (pairs : List (Text × Text))
    → p.to ≡ joined before
    → (apply_pairs p pairs).to ≡ joined (before ++ values (codes "to") pairs)
unfolding apply_pairs values
to-apply_pairs before p [] h = rw append-nil h
to-apply_pairs before p (pair ∷ pairs) h =
    elim (Bool-cases (eq_text (to_ascii_lowercase pair.0) (codes "to"))) [
      | inl e ↦ rw e (
          to-apply_pairs (before ++ pair.1 ∷ []) (apply_pair p pair.0 pair.1) pairs
            (unfold apply_pair in rw (e, h) (append_addr-joined before pair.1))
          ∙ ap joined (append_assoc before (pair.1 ∷ []) (values (codes "to") pairs)))
      | inr e ↦ rw e (
          to-apply_pairs before (apply_pair p pair.0 pair.1) pairs
            (unfold apply_pair in ground arith))
    ]

-- The recipients on the link: its path, unless that is empty, and then every `to` of the query.
unfoldable pub recipients : Url → List Text
unfolding values
recipients url =
    let rest = values (codes "to") url.query_pairs in
    if is_nil url.path then rest else url.path ∷ rest

module _ (parse_url : Text → Result Text Url) where
  -- The `to` field is the list of the recipients on the link, in their order, between commas; it is
  -- absent exactly where there is none.
  pub parse_mailto-to :
      (input : Text) (url : Url) (p : MailtoPayload)
      → parse_url input ≡ ok url
      → parse_mailto parse_url input ≡ ok p
      → p.to ≡ joined (recipients url)
  unfolding parse_mailto recipients
  parse_mailto-to input url p u h = elim (Bool-cases (is_nil url.path)) [
    | inl e ↦ ground (arith, to-apply_pairs [] default url.query_pairs (unfold joined in refl))
    | inr e ↦ ground (
      arith,
      to-apply_pairs (url.path ∷ []) (record default { to = some url.path }) url.query_pairs
          (unfold joined join in refl),
    )
  ]
