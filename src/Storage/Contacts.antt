-- ===== src/Storage/Contacts.antt =====
-- crates/storage/src/repos/contacts.rs: the addresses that were seen. The column `address` is the
-- primary key and ignores ASCII case. The function for a transaction makes the same statement on it.
pub mod Seen
mod Examples
use qsl.Prelude.{
  ℕ, ◌+◌, List, [], ◌∷◌, ◌++◌, map, any, Option, none, some, Bool, Text, codes, eq_text,
  if◌then◌else◌,
}
use qsl.Prelude.Split.{is_nil, trim}
use qsl.Prelude.Chars.{to_ascii_lowercase}
use qsl.Prelude.Result.{ok}
use qsl.Storage.Rows.{ContactRow}
use qsl.Storage.Db.{Action, statement, pure}

pub data Source : Type 0 where
  inbound outbound : Source

unfoldable pub as_str : Source → Text
as_str inbound = codes "inbound"
as_str outbound = codes "outbound"

pub record Contact : Type 0 where
  pub address : Text
  pub display_name : Option Text
  pub last_seen_at : ℕ
  pub seen_count : ℕ

-- COLLATE NOCASE
unfoldable pub is_at : Text → ContactRow → Bool
is_at address r = eq_text (to_ascii_lowercase r.address) (to_ascii_lowercase address)

-- `display_name.filter(|s| !s.is_empty())`
unfoldable pub non_empty : Option Text → Option Text
non_empty none = none
non_empty (some []) = none
non_empty (some (c ∷ s)) = some (c ∷ s)

module _ (trimmed : Text) (display : Option Text) (source : Source) (now : ℕ) where
  unfoldable pub first_sighting : ContactRow
  unfolding as_str
  first_sighting = record {
    address = trimmed;
    display_name = display;
    last_seen_at = now;
    seen_count = 1;
    source = as_str source;
  }

  -- ON CONFLICT(address) DO UPDATE
  unfoldable pub seen_again : ContactRow → ContactRow
  unfolding as_str
  seen_again r = record r {
    display_name = elim display [ some name ↦ some name | none ↦ r.display_name ];
    last_seen_at = now;
    seen_count = r.seen_count + 1;
    source = as_str source;
  }

  unfoldable pub upsert_contacts : List ContactRow → List ContactRow
  unfolding is_at first_sighting seen_again
  upsert_contacts rows =
      if any (is_at trimmed) rows
      then map (λ r. if is_at trimmed r then seen_again r else r) rows
      else rows ++ first_sighting ∷ []

unfoldable pub upsert_seen : Text → Option Text → Source → ℕ → Action (Unit {0})
unfolding upsert_contacts non_empty statement pure
upsert_seen address display_name source now =
    let trimmed = trim address in
    if is_nil trimmed
    then pure tt
    else statement λ d. (
      ok tt,
      record d {
        contacts = upsert_contacts trimmed (non_empty display_name) source now d.contacts;
      },
    )

unfoldable pub contact_at : Text → List ContactRow → Option ContactRow
unfolding is_at
contact_at address [] = none
contact_at address (r ∷ rows) = if is_at address r then some r else contact_at address rows

abbrev pub to_contact : ContactRow → Contact
to_contact r = record {
  address = r.address;
  display_name = r.display_name;
  last_seen_at = r.last_seen_at;
  seen_count = r.seen_count;
}

unfoldable pub find : Text → Action (Option Contact)
unfolding contact_at statement
find address = statement λ d. (
  ok (elim (contact_at (trim address) d.contacts) [ none ↦ none | some r ↦ some (to_contact r) ]),
  d,
)

unfoldable pub clear_all : Action (Unit {0})
unfolding statement
clear_all = statement λ d. (ok tt, record d { contacts = [] })
