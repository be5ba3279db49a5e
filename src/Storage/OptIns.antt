-- ===== src/Storage/OptIns.antt =====
-- crates/storage/src/repos/remote_content_opt_ins.rs: the senders whose remote content is loaded. The
-- clock is an argument.
pub mod Sequence
mod Examples
use qsl.Prelude.{
  ℕ, List, [], ◌∷◌, ◌++◌, map, filter, any, Bool, not, ◌&&◌, Text, eq_text, if◌then◌else◌,
}
use qsl.Prelude.Chars.{to_ascii_lowercase}
use qsl.Prelude.Result.{ok}
use qsl.Core.Ids.{AccountId}
use qsl.Storage.Rows.{OptInRow}
use qsl.Storage.Db.{Action, statement}

-- The composite primary key.
abbrev pub has_key : AccountId → Text → OptInRow → Bool
has_key account email r = eq_text r.account_id account && eq_text r.email_address email

-- INSERT_OR_REPLACE
unfoldable pub insert_or_replace : AccountId → Text → ℕ → List OptInRow → List OptInRow
insert_or_replace account email now rows =
    if any (has_key account email) rows
    then map (λ r. if has_key account email r then record r { created_at = now } else r) rows
    else rows ++ record { account_id = account; email_address = email; created_at = now } ∷ []

unfoldable pub add : ℕ → AccountId → Text → Action (Unit {0})
unfolding insert_or_replace to_ascii_lowercase statement
add now account email = statement λ d. (
  ok tt,
  record d { opt_ins = insert_or_replace account (to_ascii_lowercase email) now d.opt_ins },
)

-- DELETE_BY_KEY
unfoldable pub remove : AccountId → Text → Action (Unit {0})
unfolding to_ascii_lowercase statement
remove account email = statement λ d. (
  ok tt,
  record d { opt_ins = filter (λ r. not (has_key account (to_ascii_lowercase email) r)) d.opt_ins },
)

unfoldable pub is_trusted : AccountId → Text → Action Bool
unfolding to_ascii_lowercase statement
is_trusted account email =
    statement λ d. (ok (any (has_key account (to_ascii_lowercase email)) d.opt_ins), d)
