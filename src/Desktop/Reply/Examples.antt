-- ===== src/Desktop/Reply/Examples.antt =====
-- Tests of the replies: a message to two people, one of them the account's own address.
use qsl.Prelude.{◌≡◌, ◌++◌, refl, codes, List, [], ◌∷◌, none, some, Text}
use qsl.Prelude.Chars.{to_ascii_lowercase}
use qsl.Core.Message.{EmailAddress, MessageHeaders}
use qsl.Storage.Samples.{blank_headers}
use qsl.Desktop.Reply.{
  reply_subject, forward_subject, reply_to_recipients, reply_references, reply_all_cc,
}
use qsl.Desktop.Reply.Recipients.{Fresh, keys, reply_all_cc-Fresh}

abbrev person : Text → EmailAddress
person address = record { address = address; display_name = none }

abbrev to_two : MessageHeaders
to_two = record (blank_headers (codes "m1")) {
  from = person (codes "eve@x.org") ∷ [];
  to = person (codes "Me@b.org") ∷ person (codes "ann@x.org") ∷ [];
  cc = person (codes "ANN@x.org") ∷ person (codes "Eve@x.org") ∷ [];
  rfc822_message_id = some (codes "<3@x>");
  in_reply_to = some (codes "<2@x>");
}

copies :
    reply_all_cc to_ascii_lowercase to_two (reply_to_recipients to_two) (codes "me@b.org")
    ≡ person (codes "ann@x.org") ∷ []
unfolding reply_all_cc reply_to_recipients qsl.Prelude.eq_text to_ascii_lowercase
    qsl.Prelude.Chars.lower
copies = refl

chain : reply_references to_two ≡ codes "<2@x>" ∷ codes "<3@x>" ∷ []
unfolding reply_references qsl.Prelude.eq_text
chain = refl

-- A blank before the colon is no prefix.
blank_prefix : reply_subject (codes "Re : x") ≡ codes "Re: Re : x"
unfolding reply_subject qsl.Prelude.eq_text to_ascii_lowercase qsl.Prelude.Split.trim_start
    qsl.Prelude.Chars.is_whitespace qsl.Prelude.Chars.lower
blank_prefix = refl

reforward : forward_subject (codes "FW: x") ≡ codes "FW: x"
unfolding forward_subject qsl.Prelude.eq_text to_ascii_lowercase qsl.Prelude.Split.trim_start
    qsl.Prelude.Chars.is_whitespace qsl.Prelude.Chars.lower
reforward = refl

reply_all_cc-Fresh_example :
    Fresh to_ascii_lowercase
      (keys to_ascii_lowercase (person (codes "eve@x.org") ∷ []) ++ codes "me@b.org" ∷ [])
      (to_two.to ++ to_two.cc)
      (reply_all_cc to_ascii_lowercase to_two (person (codes "eve@x.org") ∷ []) (codes "Me@b.org"))
unfolding to_ascii_lowercase qsl.Prelude.Chars.lower
reply_all_cc-Fresh_example =
    reply_all_cc-Fresh to_ascii_lowercase to_two (person (codes "eve@x.org") ∷ [])
      (codes "Me@b.org")
