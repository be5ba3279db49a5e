-- ===== src/Search/Escape.antt =====
-- What reaches Tantivy's query grammar.
use qsl.Prelude.{
  ℕ, ◌≡◌, refl, arith, Option, none, some, [], ◌∷◌, ◌++◌, Bool, true, false, ◌||◌, Text, codes,
  eq_text, ◌==◌, if◌then◌else◌, ◌⊎◌, inl, inr, Bool-cases,
}
use qsl.Prelude.Chars.{to_ascii_lowercase}
use qsl.Prelude.Split.{is_nil, trim, trim_matches}
use qsl.Search.Quotes.{IsQuotesOnly, inner-IsQuotesOnly, IsQuotesOnly-inner}
use qsl.Search.{Query, escape_body, is_plain_word, escape_for_tantivy, apply_operator}

-- The reading of a phrase's body: a quote that is not escaped, or a backslash at the end, is none.
unfoldable pub unescape : Text → Option Text
unescape [] = some []
unescape (c ∷ []) = if c == b'"' || c == b'\\' then none else some (c ∷ [])
unescape (c ∷ d ∷ s) =
    let escaped = unescape s in
    let plain = unescape (d ∷ s) in
    if c == b'"'
    then none
    else if c == b'\\'
    then elim escaped [ none ↦ none | some t ↦ some (d ∷ t) ]
    else elim plain [ none ↦ none | some t ↦ some (c ∷ t) ]

unescape-plain :
    (c : ℕ) (s t : Text)
    → (c == b'"' || c == b'\\') ≡ false
    → unescape s ≡ some t
    → unescape (c ∷ s) ≡ some (c ∷ t)
unfolding unescape
unescape-plain c [] t h e = ground arith
unescape-plain c (d ∷ s) t h e = ground arith

unescape-escaped :
    (c : ℕ) (s t : Text) → unescape s ≡ some t → unescape (b'\\' ∷ c ∷ s) ≡ some (c ∷ t)
unfolding unescape
unescape-escaped c s t e = ground arith

-- A phrase is read back as the text that was escaped.
pub unescape-escape_body : (s : Text) → unescape (escape_body s) ≡ some s
unfolding escape_body
unescape-escape_body [] = unfold unescape in refl
unescape-escape_body (c ∷ s) = elim (Bool-cases (c == b'"' || c == b'\\')) [
  | inl special ↦ rw special (unescape-escaped c (escape_body s) s (unescape-escape_body s))
  | inr plain ↦ rw plain (unescape-plain c (escape_body s) s plain (unescape-escape_body s))
]

module _ (is_alphanumeric : ℕ → Bool) where
  -- An atom that searches for `text`: a plain word, or a phrase whose body reads as the text.
  pub data IsAtom (text : Text) : Text → Type 0 where
    word :
        {atom : Text} → atom ≡ text → is_plain_word is_alphanumeric text ≡ true → IsAtom text atom
    phrase :
        {atom : Text} (body : Text)
        → atom ≡ b'"' ∷ (body ++ b'"' ∷ [])
        → unescape body ≡ some text
        → IsAtom text atom

  abbrev pub inner : Text → Text
  inner s = trim_matches b'"' (trim s)

  trim_matches-nil : (s : Text) → is_nil s ≡ true → is_nil (trim_matches b'"' s) ≡ true
  unfolding trim_matches
  trim_matches-nil [] h = refl
  trim_matches-nil (c ∷ s) h = cc

  -- A term of quotes only, with blanks around them, is rendered as the empty text. Any other term is
  -- rendered as one atom, which is not empty, for its text without surrounding blanks and then without
  -- surrounding quotes.
  pub escape_for_tantivy-IsAtom :
      (s : Text)
      → (IsQuotesOnly s × (escape_for_tantivy is_alphanumeric s ≡ []))
        ⊎ ((¬ IsQuotesOnly s)
            × (is_nil (escape_for_tantivy is_alphanumeric s) ≡ false)
            × IsAtom (inner s) (escape_for_tantivy is_alphanumeric s))
  unfolding escape_for_tantivy
  escape_for_tantivy-IsAtom s = elim (Bool-cases (is_nil (inner s))) [
    | inl nil ↦ inl (inner-IsQuotesOnly s nil, ground arith)
    | inr full ↦
        let nonblank : is_nil (trim s) ≡ false = ground (arith, trim_matches-nil (trim s)) in
        let more : ¬ IsQuotesOnly s = λ only. left_over full (IsQuotesOnly-inner s only) in
        elim (Bool-cases (is_plain_word is_alphanumeric (inner s))) [
          | inl plain ↦
              inr (more, rw (nonblank, full, plain) full, word (rw (nonblank, full, plain)) plain)
          | inr special ↦ inr (
            more,
            rw (nonblank, full, special),
            phrase (escape_body (inner s)) (rw (nonblank, full, special))
                (unescape-escape_body (inner s)),
          )
        ]
  ]
    where
      left_over : {t : Text} → is_nil t ≡ false → t ≡ [] → ⊥
      left_over h e = cc

-- A field operator with an empty value is kept, as the literal term `<op>:`.
pub apply_operator-empty :
    (parse_iso_date : Text → Option ℕ) (q : Query) (op value : Text)
    → (to_ascii_lowercase op ≡ codes "from")
      ⊎ ((to_ascii_lowercase op ≡ codes "to")
          ⊎ ((to_ascii_lowercase op ≡ codes "subject") ⊎ (to_ascii_lowercase op ≡ codes "in")))
    → trim_matches b'"' value ≡ []
    → apply_operator parse_iso_date q op value
      ≡ record q { fts_terms = q.fts_terms ++ (op ++ b':' ∷ []) ∷ [] }
unfolding apply_operator eq_text
apply_operator-empty parse_iso_date q op value (inl e) empty = rw (e, empty)
apply_operator-empty parse_iso_date q op value (inr (inl e)) empty = rw (e, empty)
apply_operator-empty parse_iso_date q op value (inr (inr (inl e))) empty = rw (e, empty)
apply_operator-empty parse_iso_date q op value (inr (inr (inr e))) empty = rw (e, empty)
