-- ===== src/Imap/MessageRef.antt =====
-- crates/imap-client/src/sync_state.rs, `MessageRef`: an IMAP message packed into the opaque
-- message id, `imap|<uidvalidity>|<uid>|<folder>`. The text of an error is its constructor.
pub mod RoundTrip
mod Examples
use qsl.Prelude.{
  ℕ, Bool, List, [], ◌∷◌, ◌++◌, Option, none, some, Text, codes, eq_text, if◌then◌else◌,
}
use qsl.Prelude.Decimal.{format_u32, parse_u32}
use qsl.Prelude.Split.{splitn}
use qsl.Prelude.Result.{Result, ok, err}
use qsl.Core.Ids.{MessageId}

pub record MessageRef : Type 0 where
  pub uidvalidity : ℕ
  pub uid : ℕ
  pub folder : Text

-- The three messages of `MailError::Protocol` that `decode` returns.
pub data RefError : Type 0 where
  bad_uidvalidity : Text → RefError
  bad_uid : Text → RefError
  not_an_imap_id : Text → RefError

unfoldable pub encode : MessageRef → MessageId
encode r =
    codes "imap|" ++ (format_u32 r.uidvalidity ++ (b'|' ∷ (format_u32 r.uid ++ (b'|' ∷ r.folder))))

-- The record literal of `decode`: its fields are parsed in order.
unfoldable pub decode_fields : MessageId → Text → Text → Text → Result RefError MessageRef
decode_fields s uv u f = elim (parse_u32 uv) [
  | none ↦ err (bad_uidvalidity s)
  | some v ↦ elim (parse_u32 u) [
    | none ↦ err (bad_uid s)
    | some n ↦ ok (record { uidvalidity = v; uid = n; folder = f })
  ]
]

-- The match on the four parts.
unfoldable pub decode_parts : MessageId → List Text → Result RefError MessageRef
unfolding decode_fields
decode_parts s (scheme ∷ uv ∷ u ∷ f ∷ _) =
    if eq_text scheme (codes "imap") then decode_fields s uv u f else err (not_an_imap_id s)
decode_parts s _ = err (not_an_imap_id s)

unfoldable pub decode : MessageId → Result RefError MessageRef
unfolding decode_parts
decode s = decode_parts s (splitn 4 b'|' s)
