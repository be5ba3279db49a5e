-- ===== src/Sync/Threading/Subject/Prefixes.antt =====
-- Reply and forward prefixes do not change the normal form of a subject.
use qsl.Prelude.{
  ℕ, suc, ◌+◌, ◌≡◌, refl, sym, ap, ◌∙◌, arith, [], ◌∷◌, ◌++◌, some, true, Text, codes,
  if◌then◌else◌, length, Bool-cases, ◌⊎◌, inl, inr, ◌&&◌,
}
use mathlib.Core.List.{map-append}
use qsl.Prelude.Chars.{lower, to_ascii_lowercase, is_whitespace}
use qsl.Prelude.Split.{trim, trim_start, trim_end, is_nil, split_whitespace, join}
use qsl.Sync.Threading.Subject.{
  strip_ignore_case, strip_one_prefix, strip_prefixes, normalize_subject,
}
use qsl.Sync.Threading.Subject.Loop.{
  again, strip_prefixes-fuel, normalize_subject-lower, length-trim_start,
}

trim_start-trim_end : (s : Text) → trim_start (trim_end s) ≡ trim_end (trim_start s)
unfolding trim_start trim_end
trim_start-trim_end [] = refl
trim_start-trim_end (c ∷ s) = elim (Bool-cases (is_whitespace c)) [
  | inl blank ↦ rw blank (behind blank (trim_end s) (trim_start-trim_end s))
  | inr solid ↦ ground arith
]
  where
    behind :
        is_whitespace c ≡ true
        → (t : Text) → trim_start t ≡ trim_end (trim_start s)
        → trim_start (if is_nil t && true then [] else c ∷ t) ≡ trim_end (trim_start s)
    behind blank [] e = e
    behind blank (d ∷ t) e = rw blank e

-- The prefix as the source spells it.
abbrev pub IsPrefixWord : Text → Type 0
IsPrefixWord p = (p ≡ codes "re:") ⊎ ((p ≡ codes "fw:") ⊎ (p ≡ codes "fwd:"))

trim-word : (p s : Text) → IsPrefixWord p → trim (p ++ s) ≡ p ++ trim_end s
trim-word p s (inl e) = rw e (unfold trim trim_start trim_end is_whitespace in ground arith)
trim-word p s (inr (inl e)) = rw e (unfold trim trim_start trim_end is_whitespace in ground arith)
trim-word p s (inr (inr e)) = rw e (unfold trim trim_start trim_end is_whitespace in ground arith)

strip-word : (p s : Text) → IsPrefixWord p → strip_one_prefix (p ++ s) ≡ some s
strip-word p s (inl e) = rw e (unfold strip_one_prefix strip_ignore_case lower in refl)
strip-word p s (inr (inl e)) = rw e (unfold strip_one_prefix strip_ignore_case lower in refl)
strip-word p s (inr (inr e)) = rw e (unfold strip_one_prefix strip_ignore_case lower in refl)

length-word : (p s : Text) → IsPrefixWord p → (n : ℕ) × (length (p ++ s) ≡ suc (n + length s))
length-word p s (inl e) = (2, rw e (omega arith))
length-word p s (inr (inl e)) = (2, rw e (omega arith))
length-word p s (inr (inr e)) = (3, rw e (omega arith))

stripped-word :
    (p s : Text)
    → IsPrefixWord p
    → strip_prefixes (length (trim (p ++ s))) (trim (p ++ s))
      ≡ strip_prefixes (length (trim s)) (trim s)
stripped-word p s w =
    let u = trim_end s in
    let (n, len) = length-word p u w in
    let swap : trim_start u ≡ trim s = unfold trim in trim_start-trim_end s in
    rw (trim-word p s w, len)
      (again (n + length u) (p ++ u) u (strip-word p u w)
        ∙ strip_prefixes-fuel (n + length u) (length (trim_start u)) (trim_start u)
            (omega (arith, length-trim_start u)) (omega arith)
        ∙ ap (λ t. strip_prefixes (length t) t) swap)

normalize_subject-word :
    (p s : Text) → IsPrefixWord p → normalize_subject (p ++ s) ≡ normalize_subject s
normalize_subject-word p s w =
    unfold normalize_subject in
    ap (λ t. join (codes " ") (split_whitespace (to_ascii_lowercase t))) (stripped-word p s w)

lower-append :
    (p s : Text) → to_ascii_lowercase (p ++ s) ≡ to_ascii_lowercase p ++ to_ascii_lowercase s
unfolding to_ascii_lowercase
lower-append p s = map-append lower p s

-- A reply or forward prefix in any case, before any subject, leaves its normal form as it is.
pub normalize_subject-prefix :
    (p s : Text)
    → IsPrefixWord (to_ascii_lowercase p)
    → normalize_subject (p ++ s) ≡ normalize_subject s
normalize_subject-prefix p s w =
    sym (normalize_subject-lower (p ++ s))
    ∙ ap normalize_subject (lower-append p s)
    ∙ normalize_subject-word (to_ascii_lowercase p) (to_ascii_lowercase s) w
    ∙ normalize_subject-lower s
