-- ===== src/Desktop/Reply.antt =====
-- apps/desktop/ui/src/reply.rs: whom a reply goes to, its subject and its references. Unicode's lower
-- case, `str::to_lowercase`, is an argument.
pub mod Recipients
mod Examples
use qsl.Prelude.{
  ℕ, List, [], ◌∷◌, ◌++◌, map, any, take, length, Option, none, some, Bool, true, false, ◌||◌, not,
  Text, codes, eq_text, if◌then◌else◌,
}
use qsl.Prelude.Split.{trim_start}
use qsl.Prelude.Chars.{to_ascii_lowercase}
use qsl.Core.Message.{EmailAddress, MessageHeaders}

-- The head in bytes is the head in characters where it can match, since the needle is ASCII.
unfoldable pub has_prefix : Text → Text → Bool
has_prefix s needle = eq_text (to_ascii_lowercase (take (length needle) s)) needle

unfoldable pub reply_subject : Text → Text
unfolding has_prefix
reply_subject original =
    let trimmed = trim_start original in
    if has_prefix trimmed (codes "re:") then original else codes "Re: " ++ trimmed

unfoldable pub forward_subject : Text → Text
unfolding has_prefix
forward_subject original =
    let trimmed = trim_start original in
    if has_prefix trimmed (codes "fwd:") || has_prefix trimmed (codes "fw:")
    then original
    else codes "Fwd: " ++ trimmed

unfoldable pub reply_to_recipients : MessageHeaders → List EmailAddress
reply_to_recipients h = elim h.reply_to [ [] ↦ h.from | a ∷ rest ↦ h.reply_to ]

abbrev pub contains_text : List Text → Text → Bool
contains_text seen t = any (eq_text t) seen

unfoldable pub reply_references : MessageHeaders → List Text
reply_references h =
    let chain : List Text = elim h.references [
      | [] ↦ elim h.in_reply_to [ none ↦ [] | some id ↦ id ∷ [] ]
      | r ∷ rest ↦ h.references
    ] in
    elim h.rfc822_message_id [
      | none ↦ chain
      | some id ↦ if contains_text chain id then chain else chain ++ id ∷ []
    ]

module _ (to_lowercase : Text → Text) where
  -- The loop over the addresses, behind those seen.
  unfoldable pub unseen : List Text → List EmailAddress → List EmailAddress
  unseen seen [] = []
  unseen seen (a ∷ addresses) =
      let skipped = unseen seen addresses in
      let kept = unseen (seen ++ to_lowercase a.address ∷ []) addresses in
      if contains_text seen (to_lowercase a.address) then skipped else a ∷ kept

  unfoldable pub reply_all_cc : MessageHeaders → List EmailAddress → Text → List EmailAddress
  unfolding unseen
  reply_all_cc h primary_to account_email =
      unseen
        (map (λ (a : EmailAddress). to_lowercase a.address) primary_to
          ++ to_lowercase account_email ∷ [])
        (h.to ++ h.cc)
