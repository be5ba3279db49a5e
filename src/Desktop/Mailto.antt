-- ===== src/Desktop/Mailto.antt =====
-- apps/desktop/src-tauri/src/mailto.rs: a mailto link becomes the fields of a new message. The `url`
-- and `percent_encoding` crates are arguments.
pub mod Fields
mod Examples
use qsl.Prelude.{
  Bool, true, false, not, ◌&&◌, List, [], ◌∷◌, ◌++◌, Option, none, some, Text, codes, eq_text,
  if◌then◌else◌,
}
use qsl.Prelude.Result.{Result, ok, err}
use qsl.Prelude.Chars.{to_ascii_lowercase}
use qsl.Prelude.Split.{is_nil}

pub record MailtoPayload : Type 0 where
  pub to : Option Text
  pub cc : Option Text
  pub bcc : Option Text
  pub subject : Option Text
  pub body : Option Text
  pub in_reply_to : Option Text

abbrev pub default : MailtoPayload
default = record {
  to = none;
  cc = none;
  bcc = none;
  subject = none;
  body = none;
  in_reply_to = none;
}

-- What the crates tell of a URL: its scheme, its path without percent signs, and its query's pairs.
pub record Url : Type 0 where
  pub scheme : Text
  pub path : Text
  pub query_pairs : List (Text × Text)

unfoldable pub append_addr : Option Text → Text → Option Text
append_addr (some existing) value = some (existing ++ (codes ", " ++ value))
append_addr none value = some value

-- The match on the key of a pair.
unfoldable pub apply_pair : MailtoPayload → Text → Text → MailtoPayload
unfolding append_addr to_ascii_lowercase
apply_pair p key value =
    let name = to_ascii_lowercase key in
    if eq_text name (codes "to")
    then record p { to = append_addr p.to value }
    else if eq_text name (codes "cc")
    then record p { cc = append_addr p.cc value }
    else if eq_text name (codes "bcc")
    then record p { bcc = append_addr p.bcc value }
    else if eq_text name (codes "subject")
    then record p { subject = some value }
    else if eq_text name (codes "body")
    then record p { body = some value }
    else if eq_text name (codes "in-reply-to")
    then record p { in_reply_to = some value }
    else p

unfoldable pub apply_pairs : MailtoPayload → List (Text × Text) → MailtoPayload
unfolding apply_pair
apply_pairs p [] = p
apply_pairs p (pair ∷ pairs) = apply_pairs (apply_pair p pair.0 pair.1) pairs

abbrev is_none : Option Text → Bool
is_none none = true
is_none (some x) = false

-- The test before the result: `in-reply-to` alone is not enough.
unfoldable pub has_no_fields : MailtoPayload → Bool
has_no_fields p =
    is_none p.to && is_none p.cc && is_none p.bcc && is_none p.subject && is_none p.body

unfoldable pub parse_mailto : (Text → Result Text Url) → Text → Result Text MailtoPayload
unfolding apply_pairs has_no_fields
parse_mailto parse_url input = elim (parse_url input) [
  | err e ↦ err (codes "not a URL: " ++ e)
  | ok url ↦
      if not (eq_text (to_ascii_lowercase url.scheme) (codes "mailto"))
      then err (codes "expected mailto: scheme, got " ++ url.scheme)
      else let start = if is_nil url.path then default else record default { to = some url.path } in
        let p = apply_pairs start url.query_pairs in
        if has_no_fields p then err (codes "mailto URL had no recognized fields") else ok p
]
