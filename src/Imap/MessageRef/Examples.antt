-- ===== src/Imap/MessageRef/Examples.antt =====
-- Tests of the packed message ids: a folder whose name holds the separator.
use qsl.Prelude.{ℕ, ◌<◌, ◌≡◌, refl, arith, Text, codes}
use qsl.Prelude.Decimal.{u32_mod}
use qsl.Prelude.Result.{ok, err}
use qsl.Imap.MessageRef.{MessageRef, encode, decode, bad_uid}
use qsl.Imap.MessageRef.RoundTrip.{IsPacked, decode-encode, decode-IsPacked}

abbrev in_work : MessageRef
in_work = record { uidvalidity = 1700000000; uid = 42; folder = codes "Work|2024" }

encoded : encode in_work ≡ codes "imap|1700000000|42|Work|2024"
unfolding encode qsl.Prelude.Decimal.format_u32
encoded = refl

too_large :
    decode (codes "imap|1|4294967296|INBOX") ≡ err (bad_uid (codes "imap|1|4294967296|INBOX"))
unfolding decode qsl.Prelude.Split.splitn qsl.Prelude.Split.split_once qsl.Prelude.eq_text
    qsl.Prelude.Decimal.parse_u32
too_large = refl

decode-encode_example : decode (encode in_work) ≡ ok in_work
decode-encode_example = decode-encode in_work (omega arith) (omega arith)

decode-IsPacked_example :
    IsPacked
      (codes "imap|7|+42|INBOX")
      (record { uidvalidity = 7; uid = 42; folder = codes "INBOX" })
unfolding qsl.Prelude.Split.splitn qsl.Prelude.Split.split_once qsl.Prelude.eq_text
    qsl.Prelude.Decimal.parse_u32
decode-IsPacked_example =
    decode-IsPacked (codes "imap|7|+42|INBOX")
      (record { uidvalidity = 7; uid = 42; folder = codes "INBOX" }) (unfold decode in refl)
