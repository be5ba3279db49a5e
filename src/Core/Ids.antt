-- ===== src/Core/Ids.antt =====
-- crates/core/src/ids.rs: the identifiers, their minting and the account scope of a folder id.
-- A newtype over `String` is its text here; the messages of `for_provider` are constructors.
pub mod Accounts
pub mod Folders
mod Examples
use mathlib.Core.Option
use qsl.Prelude.{
  Bool, true, false, not, ◌&&◌, ◌||◌, List, [], ◌∷◌, ◌++◌, Option, none, some, Text, codes, ℕ, ◌==◌,
  if◌then◌else◌, any,
}
use qsl.Prelude.Chars.{is_whitespace, is_control, is_ascii_alphanumeric}
use qsl.Prelude.Split.{contains, split_once, strip_prefix, trim, is_nil}
use qsl.Prelude.Result.{Result, ok, err}

abbrev pub AccountId : Type 0
AccountId = Text

abbrev pub FolderId : Type 0
FolderId = Text

abbrev pub MessageId : Type 0
MessageId = Text

abbrev pub ThreadId : Type 0
ThreadId = Text

abbrev pub DraftId : Type 0
DraftId = Text

-- `FolderId::SCOPE_SEP`.
abbrev pub scope_sep : ℕ
scope_sep = b'|'

-- The errors of `AccountId::for_provider`, with what each message quotes.
pub data AccountIdError : Type 0 where
  empty_email : AccountIdError
  bad_character : Text → AccountIdError
  not_local_at_domain : Text → AccountIdError
  bad_provider : Text → AccountIdError

-- A character that no account id may hold.
unfoldable pub is_forbidden : ℕ → Bool
unfolding is_whitespace is_control
is_forbidden c = is_whitespace c || is_control c || c == scope_sep

-- The match on `email.split_once('@')`.
unfoldable pub has_address_shape : Text → Bool
has_address_shape email = elim (split_once b'@' email) [
  | none ↦ false
  | some (local, domain) ↦ not (is_nil local) && not (is_nil domain) && not (contains b'@' domain)
]

unfoldable pub is_slug_char : ℕ → Bool
unfolding is_ascii_alphanumeric
is_slug_char c = is_ascii_alphanumeric c || c == b'-' || c == b'_'

-- The checks behind the trim, in the order of the source.
unfoldable pub mint : Text → Text → Result AccountIdError AccountId
mint provider email =
    if is_nil email
    then err empty_email
    else if any is_forbidden email
    then err (bad_character email)
    else if not (has_address_shape email)
    then err (not_local_at_domain email)
    else if is_nil provider || any (λ c. not (is_slug_char c)) provider
    then err (bad_provider provider)
    else ok (provider ++ b':' ∷ email)

-- `AccountId::for_provider`.
unfoldable pub for_provider : Text → Text → Result AccountIdError AccountId
for_provider provider email = mint provider (trim email)

-- `FolderId::scoped`.
unfoldable pub scoped : AccountId → Text → FolderId
scoped account key = account ++ scope_sep ∷ key

-- `FolderId::backend_key`.
unfoldable pub backend_key : AccountId → FolderId → Text
backend_key account id = elim (strip_prefix account id) [
  | none ↦ id
  | some rest ↦ Option.get_or (strip_prefix (scope_sep ∷ []) rest) id
]

-- `FolderId::display_key`.
unfoldable pub display_key : FolderId → Text
display_key id = elim (split_once scope_sep id) [ none ↦ id | some (_, key) ↦ key ]
