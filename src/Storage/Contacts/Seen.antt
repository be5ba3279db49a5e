-- ===== src/Storage/Contacts/Seen.antt =====
-- crates/storage/src/repos/contacts.rs: what a sighting leaves to be found.
use qsl.Prelude.{
  ℕ, ◌≡◌, ◌+◌, refl, ap, ◌∙◌, arith, List, [], ◌∷◌, ◌++◌, map, any, Option, none, some, true, false,
  Text, eq_text_refl, if◌then◌else◌, Bool-cases, inl, inr,
}
use qsl.Prelude.Split.{is_nil, trim}
use qsl.Prelude.Chars.{to_ascii_lowercase}
use qsl.Prelude.Result.{ok}
use qsl.Storage.Rows.{ContactRow}
use qsl.Storage.Db.{Db, statement}
use qsl.Storage.Contacts.{
  Source, Contact, is_at, non_empty, first_sighting, seen_again, upsert_contacts, upsert_seen,
  contact_at, to_contact, find,
}

module _ (trimmed : Text) (display : Option Text) (source : Source) (now : ℕ) where
  -- The row that a sighting leaves, from the row before it.
  abbrev pub sighted : Option ContactRow → ContactRow
  sighted none = first_sighting trimmed display source now
  sighted (some r) = seen_again trimmed display source now r

  contact_at-seen :
      (rows : List ContactRow)
      → any (is_at trimmed) rows ≡ true
      → contact_at trimmed
          (map (λ r. if is_at trimmed r then seen_again trimmed display source now r else r) rows)
        ≡ some (sighted (contact_at trimmed rows))
  unfolding contact_at
  contact_at-seen [] e = absurd (ground arith)
  contact_at-seen (r ∷ rows) e = ground (arith, still, contact_at-seen rows)
    where
      still : is_at trimmed (seen_again trimmed display source now r) ≡ is_at trimmed r
      still = unfold is_at seen_again in refl

  contact_at-first :
      (rows : List ContactRow)
      → any (is_at trimmed) rows ≡ false
      → contact_at trimmed (rows ++ first_sighting trimmed display source now ∷ [])
        ≡ some (sighted (contact_at trimmed rows))
  unfolding contact_at
  contact_at-first [] e = ground (arith, own)
    where
      own : is_at trimmed (first_sighting trimmed display source now) ≡ true
      own = unfold is_at first_sighting in eq_text_refl (to_ascii_lowercase trimmed)
  contact_at-first (r ∷ rows) e = ground (arith, contact_at-first rows)

  contact_at-upsert :
      (rows : List ContactRow)
      → contact_at trimmed (upsert_contacts trimmed display source now rows)
        ≡ some (sighted (contact_at trimmed rows))
  unfolding upsert_contacts
  contact_at-upsert rows = elim (Bool-cases (any (is_at trimmed) rows)) [
    | inl e ↦ rw e (contact_at-seen rows e)
    | inr e ↦ rw e (contact_at-first rows e)
  ]

contact_at-case :
    (a b : Text) (rows : List ContactRow)
    → to_ascii_lowercase a ≡ to_ascii_lowercase b
    → contact_at a rows ≡ contact_at b rows
unfolding contact_at is_at
contact_at-case a b [] e = refl
contact_at-case a b (r ∷ rows) e = ground (arith, e, contact_at-case a b rows e)

abbrev view : Option ContactRow → Option Contact
view none = none
view (some r) = some (to_contact r)

find-quiet :
    (address : Text) (d : Db)
    → d.faults ≡ []
    → (find address d).0 ≡ ok (view (contact_at (trim address) d.contacts))
unfolding find statement
find-quiet address d quiet = ground arith

-- The contact to be found, from the row before the sighting.
abbrev pub expected : Text → Option Text → ℕ → Option ContactRow → Contact
expected trimmed display now none = record {
  address = trimmed;
  display_name = display;
  last_seen_at = now;
  seen_count = 1;
}
expected trimmed (some name) now (some r) = record {
  address = r.address;
  display_name = some name;
  last_seen_at = now;
  seen_count = r.seen_count + 1;
}
expected trimmed none now (some r) = record {
  address = r.address;
  display_name = r.display_name;
  last_seen_at = now;
  seen_count = r.seen_count + 1;
}

sighted-expected :
    (trimmed : Text) (display : Option Text) (source : Source) (now : ℕ)
    (before : Option ContactRow)
    → to_contact (sighted trimmed display source now before) ≡ expected trimmed display now before
unfolding first_sighting seen_again
sighted-expected trimmed display source now none = refl
sighted-expected trimmed none source now (some r) = refl
sighted-expected trimmed (some name) source now (some r) = refl

-- Where no statement fails: behind the sighting of a non-blank address, that address in any case finds
-- one contact, seen now, once more than before, and under the new name, or under the name before where
-- the new one is missing or empty.
pub upsert_seen-find :
    (address other : Text) (display_name : Option Text) (source : Source) (now : ℕ) (d : Db)
    → d.faults ≡ []
    → is_nil (trim address) ≡ false
    → to_ascii_lowercase (trim other) ≡ to_ascii_lowercase (trim address)
    → (find other (upsert_seen address display_name source now d).1).0
      ≡ ok (
          some (
            expected
              (trim address)
              (non_empty display_name)
              now
              (contact_at (trim address) d.contacts)))
upsert_seen-find address other display_name source now d quiet some_text same =
    ap (λ d'. (find other d').0) ran
    ∙ find-quiet other after quiet
    ∙ ap (λ o. ok (view o)) found
    ∙ ap (λ c. ok (some c))
        (sighted-expected trimmed display source now (contact_at trimmed d.contacts))
  where
    trimmed : Text
    trimmed = trim address

    display : Option Text
    display = non_empty display_name

    after : Db
    after = record d { contacts = upsert_contacts trimmed display source now d.contacts }

    ran : (upsert_seen address display_name source now d).1 ≡ after
    ran = unfold upsert_seen statement in ground arith

    found :
        contact_at (trim other) after.contacts
        ≡ some (sighted trimmed display source now (contact_at trimmed d.contacts))
    found =
        contact_at-case (trim other) trimmed after.contacts same
        ∙ contact_at-upsert trimmed display source now d.contacts
