-- ===== src/Sync/Threading/Subject.antt =====
-- crates/sync/src/threading.rs: `normalize_subject` and `strip_one_prefix`.
pub mod Loop
pub mod Prefixes
use qsl.Prelude.{
  ℕ, zero, suc, ◌≡◌, ◌≤◌, ◌<◌, refl, arith, List, [], ◌∷◌, ◌++◌, Option, none, some, Bool, true,
  false, Text, codes, ◌==◌, if◌then◌else◌, length,
}
use qsl.Prelude.Chars.{lower, to_ascii_lowercase}
use qsl.Prelude.Split.{trim, trim_start, split_whitespace, join}

-- The text behind the prefix, if the text begins with it but for ASCII case. The prefixes are ASCII,
-- so their length in bytes is the one in characters.
unfoldable pub strip_ignore_case : Text → Text → Option Text
strip_ignore_case [] s = some s
strip_ignore_case (p ∷ ps) [] = none
strip_ignore_case (p ∷ ps) (c ∷ s) = if lower c == lower p then strip_ignore_case ps s else none

-- `none` where the source returns its argument.
unfoldable pub strip_one_prefix : Text → Option Text
strip_one_prefix s = elim (strip_ignore_case (codes "re:") s) [
  | some rest ↦ some rest
  | none ↦ elim (strip_ignore_case (codes "fw:") s) [
    | some rest ↦ some rest
    | none ↦ strip_ignore_case (codes "fwd:") s
  ]
]

-- The loop; each round but the last shortens the text.
unfoldable pub strip_prefixes : ℕ → Text → Text
strip_prefixes zero s = s
strip_prefixes (suc fuel) s = elim (strip_one_prefix s) [
  | none ↦ s
  | some rest ↦ strip_prefixes fuel (trim_start rest)
]

unfoldable pub normalize_subject : Text → Text
unfolding trim to_ascii_lowercase split_whitespace join
normalize_subject raw =
    let s = trim raw in
    join (codes " ") (split_whitespace (to_ascii_lowercase (strip_prefixes (length s) s)))
