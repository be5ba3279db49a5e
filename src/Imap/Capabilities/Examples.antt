-- ===== src/Imap/Capabilities/Examples.antt =====
-- Tests of the capability check.
use qsl.Prelude.{◌≡◌, ◌↔◌, true, ◌||◌, List, [], ◌∷◌, Text, codes}
use qsl.Prelude.Result.{ok}
use qsl.Imap.Capabilities.{advertises, require, require-ok_iff}

abbrev gmail : List Text
gmail = codes "condstore" ∷ codes "Idle" ∷ codes "X-GM-EXT-1" ∷ []

gmail_accepted : (require gmail ≡ ok tt) ↔ (
    (advertises (codes "CONDSTORE") gmail ≡ true)
    × (advertises (codes "IDLE") gmail ≡ true)
    × ((advertises (codes "QRESYNC") gmail || advertises (codes "X-GM-EXT-1") gmail) ≡ true))
gmail_accepted = require-ok_iff gmail
