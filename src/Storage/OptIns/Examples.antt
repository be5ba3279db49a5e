-- ===== src/Storage/OptIns/Examples.antt =====
-- Tests of the trusted senders: one is trusted twice, in two cases, and then no longer.
use qsl.Prelude.{◌≡◌, codes, refl, false, List, [], ◌∷◌}
use qsl.Prelude.Result.{ok}
use qsl.Storage.Db.{◌>>◌}
use qsl.Storage.Samples.{empty_db}
use qsl.Storage.OptIns.{is_trusted}
use qsl.Storage.OptIns.Sequence.{Decision, trust, distrust, decide_all, is_trusted-decided}

abbrev decisions : List Decision
decisions =
    trust 1 (codes "gmail:a@b") (codes "News@shop.com")
    ∷ trust 2 (codes "gmail:a@b") (codes "news@shop.com")
    ∷ distrust (codes "gmail:a@b") (codes "NEWS@shop.com")
    ∷ []

is_trusted-decided_example :
    ((decide_all decisions >> is_trusted (codes "gmail:a@b") (codes "news@shop.com")) empty_db).0
    ≡ ok false
unfolding qsl.Storage.OptIns.Sequence.decided_all qsl.Prelude.eq_text
    qsl.Prelude.Chars.to_ascii_lowercase qsl.Prelude.Chars.lower
is_trusted-decided_example =
    is_trusted-decided (codes "gmail:a@b") (codes "news@shop.com") decisions empty_db refl
