-- ===== src/Search.antt =====
-- crates/search/src/lib.rs: operator-laced queries. Dates (`parse_iso_date` is chrono's parser and
-- calendar) and Unicode's alphanumeric characters are arguments.
pub mod Escape
pub mod Tokens
pub mod Cuts
pub mod Quotes
mod Examples
use mathlib.Core.List.{map}
use qsl.Prelude.{
  ℕ, ◌-◌, ◌+◌, Option, none, some, List, [], ◌∷◌, ◌++◌, Bool, true, false, not, ◌&&◌, ◌||◌, Text,
  codes, eq_text, ◌==◌, leb, if◌then◌else◌, any,
}
use qsl.Prelude.Chars.{lower, to_ascii_lowercase, is_whitespace}
use qsl.Prelude.Split.{is_nil, split_once, trim, join, trim_matches}

pub data SearchField : Type 0 where
  from to subject : SearchField

unfoldable pub tantivy_column : SearchField → Text
tantivy_column from = codes "from_json"
tantivy_column to = codes "to_json"
tantivy_column subject = codes "subject"

-- Dates are UNIX seconds of a midnight.
pub record Query : Type 0 where
  pub fts_terms : List Text
  pub fts_fields : List (SearchField × Text)
  pub is_unread : Option Bool
  pub has_attachment : Option Bool
  pub before : Option ℕ
  pub after : Option ℕ
  pub label : Option Text

abbrev pub default : Query
default = record {
  fts_terms = [];
  fts_fields = [];
  is_unread = none;
  has_attachment = none;
  before = none;
  after = none;
  label = none;
}

abbrev is_empty_list {ℓ} : {A : Type ℓ} → List A → Bool
is_empty_list [] = true
is_empty_list (x ∷ xs) = false

abbrev is_none {ℓ} : {A : Type ℓ} → Option A → Bool
is_none none = true
is_none (some x) = false

unfoldable pub has_fts : Query → Bool
has_fts q = not (is_empty_list q.fts_terms) || not (is_empty_list q.fts_fields)

unfoldable pub is_empty : Query → Bool
unfolding has_fts
is_empty q =
    not (has_fts q)
    && is_none q.is_unread
    && is_none q.has_attachment
    && is_none q.before
    && is_none q.after
    && is_none q.label

-- The loop of `tokenize`, with the token being read and the quote flag.
unfoldable pub tokens_from : Text → Bool → Text → List Text
tokens_from current in_quotes [] = if is_nil current then [] else current ∷ []
tokens_from current in_quotes (c ∷ s) =
    let quote = tokens_from (current ++ c ∷ []) (not in_quotes) s in
    let next = tokens_from [] in_quotes s in
    let longer = tokens_from (current ++ c ∷ []) in_quotes s in
    if c == b'"'
    then quote
    else if is_whitespace c && not in_quotes
    then (if is_nil current then next else current ∷ next)
    else longer

unfoldable pub tokenize : Text → List Text
unfolding tokens_from
tokenize = tokens_from [] false

abbrev pub known_operators : List Text
known_operators =
    codes "from"
    ∷ codes "to"
    ∷ codes "subject"
    ∷ codes "is"
    ∷ codes "has"
    ∷ codes "before"
    ∷ codes "after"
    ∷ codes "in"
    ∷ []

unfoldable pub is_known_operator : Text → Bool
unfolding to_ascii_lowercase
is_known_operator head =
    any (λ op. eq_text (to_ascii_lowercase op) (to_ascii_lowercase head)) known_operators

unfoldable pub split_operator : Text → Option (Text × Text)
unfolding is_known_operator
split_operator token = elim (split_once b':' token) [
  | none ↦ none
  | some (head, tail) ↦
      if is_nil head || not (is_known_operator head) then none else some (head, tail)
]

-- The two arms with values of their own; an unknown value is kept as a term.
unfoldable pub apply_is : Query → Text → Query
apply_is q value =
    if eq_text value (codes "unread")
    then record q { is_unread = some true }
    else if eq_text value (codes "read")
    then record q { is_unread = some false }
    else if not (is_nil value)
    then record q { fts_terms = q.fts_terms ++ (codes "is:" ++ value) ∷ [] }
    else q

unfoldable pub apply_has : Query → Text → Query
apply_has q value =
    if eq_text value (codes "attachment")
    then record q { has_attachment = some true }
    else if eq_text value (codes "noattachment")
    then record q { has_attachment = some false }
    else if not (is_nil value)
    then record q { fts_terms = q.fts_terms ++ (codes "has:" ++ value) ∷ [] }
    else q

unfoldable pub push_field : Query → SearchField → Text → Query
push_field q field value = record q { fts_fields = q.fts_fields ++ (field, value) ∷ [] }

-- `apply_operator`. A guarded arm whose value is empty falls through to the last one.
unfoldable pub apply_operator : (Text → Option ℕ) → Query → Text → Text → Query
unfolding apply_is apply_has push_field to_ascii_lowercase
apply_operator parse_iso_date q op raw =
    let name = to_ascii_lowercase op in
    let value = trim_matches b'"' raw in
    let full = not (is_nil value) in
    if eq_text name (codes "from") && full
    then push_field q from value
    else if eq_text name (codes "to") && full
    then push_field q to value
    else if eq_text name (codes "subject") && full
    then push_field q subject value
    else if eq_text name (codes "is")
    then apply_is q (to_ascii_lowercase value)
    else if eq_text name (codes "has")
    then apply_has q (to_ascii_lowercase value)
    else if eq_text name (codes "before")
    then elim (parse_iso_date value) [ none ↦ q | some t ↦ record q { before = some t } ]
    else if eq_text name (codes "after")
    then elim (parse_iso_date value) [ none ↦ q | some t ↦ record q { after = some t } ]
    else if eq_text name (codes "in") && full
    then record q { label = some value }
    else record q { fts_terms = q.fts_terms ++ (op ++ (b':' ∷ value)) ∷ [] }

unfoldable pub apply_token : (Text → Option ℕ) → Query → Text → Query
unfolding split_operator apply_operator
apply_token parse_iso_date q token = elim (split_operator token) [
  | some (op, value) ↦ apply_operator parse_iso_date q op value
  | none ↦ record q { fts_terms = q.fts_terms ++ token ∷ [] }
]

unfoldable pub apply_tokens : (Text → Option ℕ) → Query → List Text → Query
unfolding apply_token
apply_tokens parse_iso_date q [] = q
apply_tokens parse_iso_date q (t ∷ ts) =
    apply_tokens parse_iso_date (apply_token parse_iso_date q t) ts

unfoldable pub parse : (Text → Option ℕ) → Text → Query
unfolding apply_tokens tokenize
parse parse_iso_date input = apply_tokens parse_iso_date default (tokenize input)

abbrev upper : ℕ → ℕ
upper c = if leb b'a' c && leb c b'z' then c - 32 else c

-- The words of Tantivy's grammar.
unfoldable pub is_reserved : Text → Bool
is_reserved s =
    let t = map upper s in
    eq_text t (codes "AND") || eq_text t (codes "OR") || eq_text t (codes "NOT")

abbrev starts_with_dot : Text → Bool
starts_with_dot [] = false
starts_with_dot (c ∷ s) = c == b'.'

-- The body of a phrase: quotes and backslashes are escaped.
unfoldable pub escape_body : Text → Text
escape_body [] = []
escape_body (c ∷ s) =
    let rest = escape_body s in if c == b'"' || c == b'\\' then b'\\' ∷ c ∷ rest else c ∷ rest

module _ (is_alphanumeric : ℕ → Bool) where
  unfoldable pub is_plain_char : ℕ → Bool
  is_plain_char c = is_alphanumeric c || c == b'_' || c == b'@' || c == b'.' || c == b'\''

  unfoldable pub is_plain_word : Text → Bool
  unfolding is_plain_char is_reserved
  is_plain_word s =
      not (any (λ c. not (is_plain_char c)) s) && not (starts_with_dot s) && not (is_reserved s)

  unfoldable pub escape_for_tantivy : Text → Text
  unfolding is_plain_word escape_body
  escape_for_tantivy s =
      let trimmed = trim s in
      let inner = trim_matches b'"' trimmed in
      if is_nil trimmed
      then []
      else if is_nil inner
      then []
      else if is_plain_word inner
      then inner
      else b'"' ∷ (escape_body inner ++ b'"' ∷ [])

  unfoldable pub atoms : Query → List Text
  unfolding escape_for_tantivy tantivy_column
  atoms q =
      map escape_for_tantivy q.fts_terms
      ++ map (λ f. tantivy_column f.0 ++ (b':' ∷ escape_for_tantivy f.1)) q.fts_fields

  unfoldable pub to_tantivy_string : Query → Option Text
  unfolding has_fts atoms join
  to_tantivy_string q = if not (has_fts q) then none else some (join (codes " AND ") (atoms q))
