-- ===== src/Imap/Capabilities.antt =====
-- crates/imap-client/src/capabilities.rs: what an IMAP server must advertise.
mod Examples
use qsl.Prelude.{
  ◌≡◌, ◌↔◌, refl, arith, Bool, true, false, not, ◌&&◌, ◌||◌, List, [], ◌∷◌, ◌++◌, map, filter, any,
  Text, codes, eq_text, if◌then◌else◌, leb, ◌-◌, ℕ, Bool-cases, inl, inr,
}
use qsl.Prelude.Result.{Result, ok, err}
use qsl.Prelude.Split.{join}
use qsl.Core.Error.{MailError}

abbrev pub required : List Text
required = codes "CONDSTORE" ∷ codes "IDLE" ∷ []

abbrev pub resync_any : List Text
resync_any = codes "QRESYNC" ∷ codes "X-GM-EXT-1" ∷ []

-- `to_ascii_uppercase`
abbrev pub upper : ℕ → ℕ
upper c = if leb b'a' c && leb c b'z' then c - 32 else c

-- The capability is in the list, in any case.
unfoldable pub advertises : Text → List Text → Bool
advertises name = any (λ c. eq_text (map upper c) name)

-- The `missing` of `require`.
unfoldable pub missing : List Text → List Text
unfolding advertises
missing advertised =
    filter (λ r. not (advertises r advertised)) required
    ++ (if any (λ o. advertises o advertised) resync_any
        then []
        else (codes "one of {" ++ (join (codes ", ") resync_any ++ codes "}")) ∷ [])

-- `require`
unfoldable pub require : List Text → Result MailError (Unit {0})
unfolding missing
require advertised = elim (missing advertised) [
  | [] ↦ ok tt
  | m ∷ ms ↦ err (
      MailError.protocol
        (codes "server is missing required IMAP capabilities: " ++ join (codes ", ") (m ∷ ms)))
]

-- A server is accepted exactly if it has CONDSTORE and IDLE and one of QRESYNC and X-GM-EXT-1, in any
-- case of the letters.
pub require-ok_iff :
    (advertised : List Text)
    → (require advertised ≡ ok tt) ↔ (
        (advertises (codes "CONDSTORE") advertised ≡ true)
        × (advertises (codes "IDLE") advertised ≡ true)
        × ((advertises (codes "QRESYNC") advertised || advertises (codes "X-GM-EXT-1") advertised)
            ≡ true))
unfolding require missing
require-ok_iff advertised = ground arith

-- A server without IDLE that has the others is refused with a message that names just IDLE.
pub require-no_idle :
    (advertised : List Text)
    → advertises (codes "CONDSTORE") advertised ≡ true
    → advertises (codes "IDLE") advertised ≡ false
    → (advertises (codes "QRESYNC") advertised || advertises (codes "X-GM-EXT-1") advertised) ≡ true
    → require advertised
      ≡ err (MailError.protocol (codes "server is missing required IMAP capabilities: IDLE"))
unfolding require missing join
require-no_idle advertised c i q = ground arith
