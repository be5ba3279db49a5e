-- ===== src/Desktop/Mailto/Examples.antt =====
-- Tests of mailto links.
use qsl.Prelude.{◌≡◌, refl, List, [], ◌∷◌, some, none, Text, codes}
use qsl.Prelude.Result.{Result, ok}
use qsl.Desktop.Mailto.{MailtoPayload, default, Url, parse_mailto}
use qsl.Desktop.Mailto.Fields.{joined, recipients, parse_mailto-to}

abbrev link : Url
link = record {
  scheme = codes "mailto";
  path = codes "a@x";
  query_pairs = (codes "TO", codes "b@x") ∷ (codes "subject", codes "Hi") ∷ [];
}

-- A parser that knows one link.
abbrev parse_link : Text → Result Text Url
parse_link input = ok link

abbrev payload : MailtoPayload
payload = record default { to = some (codes "a@x, b@x"); subject = some (codes "Hi") }

parsed : parse_mailto parse_link (codes "mailto:a@x?TO=b@x&subject=Hi") ≡ ok payload
unfolding parse_mailto qsl.Prelude.eq_text qsl.Prelude.Chars.lower qsl.Desktop.Mailto.apply_pairs
    qsl.Desktop.Mailto.apply_pair qsl.Desktop.Mailto.append_addr
parsed = refl

parse_mailto-to_example : payload.to ≡ joined (recipients link)
parse_mailto-to_example =
    parse_mailto-to parse_link (codes "mailto:a@x?TO=b@x&subject=Hi") link payload refl parsed
