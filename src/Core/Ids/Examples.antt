-- ===== src/Core/Ids/Examples.antt =====
-- Tests of the identifiers: two accounts and a folder whose name holds the separator.
use qsl.Prelude.{◌≡◌, ◌≢◌, ◌↔◌, false, true, refl, ap, arith, Text, codes, List, [], ◌∷◌}
use qsl.Prelude.Split.{contains, trim}
use qsl.Prelude.Result.{ok, err}
use qsl.Core.Ids.{bad_character, mint, for_provider, scope_sep, scoped, backend_key, display_key}
use qsl.Core.Ids.Accounts.{IsAccount, for_provider_iff, for_provider-no_sep, for_provider_injective}
use qsl.Core.Ids.Folders.{
  backend_key-scoped, display_key-scoped, scoped_injective, backend_key-scoped_ne,
}

abbrev ann : Text
ann = codes "gmail:ann@x.org"

abbrev bob : Text
bob = codes "fastmail:bob@y.org"

abbrev archive : Text
archive = codes "Archive|2024"

minted : for_provider (codes "gmail") (codes " ann@x.org ") ≡ ok ann
unfolding for_provider mint trim qsl.Prelude.Split.trim_end qsl.Prelude.Split.trim_start
    qsl.Prelude.Chars.is_whitespace qsl.Core.Ids.is_forbidden qsl.Core.Ids.has_address_shape
    qsl.Prelude.Split.split_once qsl.Core.Ids.is_slug_char
minted = refl

pipe_refused :
    for_provider (codes "gmail") (codes "a|b@x.org") ≡ err (bad_character (codes "a|b@x.org"))
unfolding for_provider mint trim qsl.Prelude.Split.trim_end qsl.Prelude.Split.trim_start
    qsl.Prelude.Chars.is_whitespace qsl.Core.Ids.is_forbidden
pipe_refused = refl

ann_ne_bob : ann ≢ bob
ann_ne_bob e = cc

for_provider_iff_example :
    (for_provider (codes "gmail") (codes " ann@x.org ") ≡ ok ann)
    ↔ IsAccount (codes "gmail") (trim (codes " ann@x.org ")) ann
for_provider_iff_example = for_provider_iff (codes "gmail") (codes " ann@x.org ") ann

ann_without_sep : contains scope_sep ann ≡ false
ann_without_sep = for_provider-no_sep (codes "gmail") (codes " ann@x.org ") ann minted

ann_only :
    (codes "gmail" ≡ codes "gmail") × (trim (codes " ann@x.org ") ≡ trim (codes " ann@x.org "))
ann_only =
    for_provider_injective (codes "gmail") (codes "gmail") (codes " ann@x.org ")
      (codes " ann@x.org ") ann minted minted

archive_unscoped : backend_key ann (scoped ann archive) ≡ archive
archive_unscoped = backend_key-scoped ann archive

archive_displayed : display_key (scoped ann archive) ≡ archive
archive_displayed = display_key-scoped ann archive refl

scoped_injective_example : (ann ≡ ann) × (archive ≡ archive)
scoped_injective_example = scoped_injective ann ann archive archive refl refl refl

backend_key-scoped_ne_example : backend_key bob (scoped ann archive) ≡ scoped ann archive
backend_key-scoped_ne_example = backend_key-scoped_ne ann bob archive refl refl ann_ne_bob
