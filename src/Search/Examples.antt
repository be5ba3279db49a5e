-- ===== src/Search/Examples.antt =====
-- Tests of the search language.
use qsl.Prelude.{
  ℕ, ◌≡◌, ◌↔◌, refl, Text, codes, List, [], ◌∷◌, ◌++◌, Option, none, some, Bool, true, false, All,
  inl, inr, ◌⊎◌,
}
use qsl.Prelude.Chars.{is_ascii_alphanumeric, to_ascii_lowercase}
use qsl.Prelude.Split.{is_nil}
use qsl.Search.{
  default, from, parse, tokenize, to_tantivy_string, escape_for_tantivy, apply_operator,
}
use qsl.Search.Quotes.{IsQuotesOnly}
use qsl.Search.Escape.{IsAtom, inner, escape_for_tantivy-IsAtom, apply_operator-empty}
use qsl.Search.Tokens.{IsCut}
use qsl.Search.Cuts.{tokenize_iff}

abbrev no_dates : Text → Option ℕ
no_dates s = none

abbrev sample : Text
sample = codes "from:\"jane doe\"  is:unread a-b"

parsed : parse no_dates sample ≡ record default {
  fts_terms = codes "a-b" ∷ [];
  fts_fields = (from, codes "jane doe") ∷ [];
  is_unread = some true;
}
unfolding parse qsl.Prelude.Chars.is_whitespace qsl.Prelude.Split.split_once qsl.Prelude.eq_text
    qsl.Prelude.Chars.lower qsl.Prelude.Split.trim_matches
parsed = refl

rendered :
    to_tantivy_string is_ascii_alphanumeric (parse no_dates sample)
    ≡ some (codes "\"a-b\" AND from_json:\"jane doe\"")
unfolding to_tantivy_string parse is_ascii_alphanumeric qsl.Prelude.Chars.is_whitespace
    qsl.Prelude.Split.split_once qsl.Prelude.eq_text qsl.Prelude.Chars.lower
    qsl.Prelude.Split.trim_matches qsl.Prelude.Split.trim qsl.Prelude.Split.trim_end
    qsl.Prelude.Split.trim_start
rendered = refl

-- A pair of quotes is a term with an empty atom.
quotes_rendered :
    to_tantivy_string is_ascii_alphanumeric (parse no_dates (codes "\"\" foo"))
    ≡ some (codes " AND foo")
unfolding to_tantivy_string parse is_ascii_alphanumeric qsl.Prelude.Chars.is_whitespace
    qsl.Prelude.Split.split_once qsl.Prelude.Split.trim qsl.Prelude.Split.trim_end
    qsl.Prelude.Split.trim_start qsl.Prelude.Split.trim_matches qsl.Prelude.eq_text
quotes_rendered = refl

abbrev sample_tokens : List Text
sample_tokens = codes "from:\"jane doe\"" ∷ codes "is:unread" ∷ codes "a-b" ∷ []

tokenize_iff_example : (tokenize sample ≡ sample_tokens) ↔ IsCut sample sample_tokens
tokenize_iff_example = tokenize_iff sample sample_tokens

tokenized : tokenize sample ≡ sample_tokens
unfolding tokenize qsl.Prelude.Chars.is_whitespace
tokenized = refl

escape_for_tantivy-IsAtom_example :
    (IsQuotesOnly (codes "AND") × (escape_for_tantivy is_ascii_alphanumeric (codes "AND") ≡ []))
    ⊎ ((¬ IsQuotesOnly (codes "AND"))
        × (is_nil (escape_for_tantivy is_ascii_alphanumeric (codes "AND")) ≡ false)
        × IsAtom is_ascii_alphanumeric
            (inner is_ascii_alphanumeric (codes "AND"))
            (escape_for_tantivy is_ascii_alphanumeric (codes "AND")))
escape_for_tantivy-IsAtom_example = escape_for_tantivy-IsAtom is_ascii_alphanumeric (codes "AND")

empty_from :
    apply_operator no_dates default (codes "From") (codes "\"\"")
    ≡ record default { fts_terms = [] ++ (codes "From" ++ b':' ∷ []) ∷ [] }
unfolding qsl.Prelude.Chars.lower qsl.Prelude.Split.trim_matches
empty_from =
    apply_operator-empty no_dates default (codes "From") (codes "\"\"")
      (inl (unfold to_ascii_lowercase in refl)) refl
