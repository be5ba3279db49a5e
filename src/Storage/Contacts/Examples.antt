-- ===== src/Storage/Contacts/Examples.antt =====
-- Tests of the contacts: an address that is seen twice, the second time without a name.
use qsl.Prelude.{◌≡◌, refl, codes, List, [], ◌∷◌, none, some, Text}
use qsl.Prelude.Result.{ok}
use qsl.Storage.Db.{Db}
use qsl.Storage.Samples.{empty_db}
use qsl.Storage.Contacts.{Source, inbound, outbound, upsert_seen, find}
use qsl.Storage.Contacts.Seen.{upsert_seen-find}

abbrev one_contact : Db
one_contact = record empty_db {
  contacts =
      record {
        address = codes "Ann@x.org";
        display_name = some (codes "Ann");
        last_seen_at = 5;
        seen_count = 1;
        source = codes "inbound";
      }
      ∷ [];
}

upsert_seen-find_example :
    (find
      (codes "ANN@x.org")
      (upsert_seen (codes " ann@x.org") (some []) outbound 9 one_contact).1).0
    ≡ ok (
        some (record {
          address = codes "Ann@x.org";
          display_name = some (codes "Ann");
          last_seen_at = 9;
          seen_count = 2;
        }))
unfolding qsl.Prelude.Split.trim qsl.Prelude.Split.trim_end qsl.Prelude.Split.trim_start
    qsl.Prelude.Chars.is_whitespace qsl.Prelude.Chars.to_ascii_lowercase qsl.Prelude.Chars.lower
    qsl.Storage.Contacts.contact_at qsl.Prelude.eq_text qsl.Storage.Contacts.seen_again
    qsl.Storage.Contacts.non_empty
upsert_seen-find_example =
    upsert_seen-find (codes " ann@x.org") (codes "ANN@x.org") (some []) outbound 9 one_contact refl
      refl refl
