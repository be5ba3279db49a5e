-- ===== src/Sync/Threading/Subject/Loop.antt =====
-- The prefix loop of `normalize_subject`: its fuel is enough, and ASCII case does not matter.
use qsl.Prelude.{
  ℕ, zero, suc, ◌+◌, ◌≡◌, ◌≤◌, ◌<◌, refl, sym, ap, ◌∙◌, arith, [], ◌∷◌, map, Option, none, some,
  Text, codes, if◌then◌else◌, length, length-map, Option-cases, inl, inr, ◌&&◌,
}
use qsl.Prelude.Chars.{lower, lower-lower, to_ascii_lowercase, is_whitespace, is_whitespace-lower}
use qsl.Prelude.Split.{trim_start, trim_end, is_nil, split_whitespace, join}
use qsl.Sync.Threading.Subject.{
  strip_ignore_case, strip_one_prefix, strip_prefixes, normalize_subject,
}

length-strip_ignore_case :
    (p s r : Text) → strip_ignore_case p s ≡ some r → length s ≡ length p + length r
unfolding strip_ignore_case
length-strip_ignore_case [] s r h = ground arith
length-strip_ignore_case (p ∷ ps) [] r h = cc
length-strip_ignore_case (p ∷ ps) (c ∷ s) r h = ground (arith, length-strip_ignore_case ps s r)

length-strip_one_prefix : (s r : Text) → strip_one_prefix s ≡ some r → length r < length s
unfolding strip_one_prefix
length-strip_one_prefix s r h = ground (
  arith,
  length-strip_ignore_case (codes "re:") s r,
  length-strip_ignore_case (codes "fw:") s r,
  length-strip_ignore_case (codes "fwd:") s r,
)

pub length-trim_start : (s : Text) → length (trim_start s) ≤ length s
unfolding trim_start
length-trim_start [] = omega arith
length-trim_start (c ∷ s) = ground (arith, length-trim_start s)

stop : (fuel : ℕ) (s : Text) → strip_one_prefix s ≡ none → strip_prefixes (suc fuel) s ≡ s
unfolding strip_prefixes
stop fuel s e = ground arith

pub again :
    (fuel : ℕ) (s r : Text)
    → strip_one_prefix s ≡ some r
    → strip_prefixes (suc fuel) s ≡ strip_prefixes fuel (trim_start r)
unfolding strip_prefixes
again fuel s r e = ground arith

-- With the length of the text as fuel, the loop ends by its test: no prefix is left.
pub strip_prefixes-done :
    (fuel : ℕ) (s : Text) → length s ≤ fuel → strip_one_prefix (strip_prefixes fuel s) ≡ none
strip_prefixes-done zero [] h = unfold strip_one_prefix strip_prefixes strip_ignore_case in refl
strip_prefixes-done zero (c ∷ s) h = absurd (omega arith)
strip_prefixes-done (suc fuel) s h = elim (Option-cases (strip_one_prefix s)) [
  | inl e ↦ ap strip_one_prefix (stop fuel s e) ∙ e
  | inr (r, e) ↦
      ap strip_one_prefix (again fuel s r e)
      ∙ strip_prefixes-done fuel (trim_start r)
          (omega (arith, length-trim_start r, length-strip_one_prefix s r e))
]

-- More fuel changes nothing.
pub strip_prefixes-fuel :
    (f g : ℕ) (s : Text) → length s ≤ f → length s ≤ g → strip_prefixes f s ≡ strip_prefixes g s
unfolding strip_prefixes strip_one_prefix strip_ignore_case
strip_prefixes-fuel zero zero s h k = refl
strip_prefixes-fuel zero (suc g) [] h k = refl
strip_prefixes-fuel zero (suc g) (c ∷ s) h k = absurd (omega arith)
strip_prefixes-fuel (suc f) zero [] h k = refl
strip_prefixes-fuel (suc f) zero (c ∷ s) h k = absurd (omega arith)
strip_prefixes-fuel (suc f) (suc g) s h k = elim (Option-cases (strip_one_prefix s)) [
  | inl e ↦ ground arith
  | inr (r, e) ↦ ground (
    arith,
    strip_prefixes-fuel f g (trim_start r),
    length-trim_start r,
    length-strip_one_prefix s r,
  )
]

abbrev on_rest : Option Text → Option Text
on_rest none = none
on_rest (some r) = some (map lower r)

strip_ignore_case-lower :
    (p s : Text) → strip_ignore_case p (map lower s) ≡ on_rest (strip_ignore_case p s)
unfolding strip_ignore_case
strip_ignore_case-lower [] s = refl
strip_ignore_case-lower (p ∷ ps) [] = refl
strip_ignore_case-lower (p ∷ ps) (c ∷ s) =
    rw lower-lower (ground (arith, strip_ignore_case-lower ps s))

strip_one_prefix-lower : (s : Text) → strip_one_prefix (map lower s) ≡ on_rest (strip_one_prefix s)
unfolding strip_one_prefix
strip_one_prefix-lower s = ground (
  arith,
  strip_ignore_case-lower (codes "re:") s,
  strip_ignore_case-lower (codes "fw:") s,
  strip_ignore_case-lower (codes "fwd:") s,
)

trim_start-lower : (s : Text) → trim_start (map lower s) ≡ map lower (trim_start s)
unfolding trim_start
trim_start-lower [] = refl
trim_start-lower (c ∷ s) = rw is_whitespace-lower (ground (arith, trim_start-lower s))

trim_end-lower : (s : Text) → trim_end (map lower s) ≡ map lower (trim_end s)
unfolding trim_end
trim_end-lower [] = refl
trim_end-lower (c ∷ s) = rw (trim_end-lower s, is_whitespace-lower) (go (trim_end s))
  where
    go :
        (t : Text)
        → (if is_nil (map lower t) && is_whitespace c then [] else lower c ∷ map lower t)
          ≡ map lower (if is_nil t && is_whitespace c then [] else c ∷ t)
    go [] = ground arith
    go (d ∷ t) = refl

strip_prefixes-lower :
    (fuel : ℕ) (s : Text) → strip_prefixes fuel (map lower s) ≡ map lower (strip_prefixes fuel s)
strip_prefixes-lower zero s = unfold strip_prefixes in refl
strip_prefixes-lower (suc fuel) s = elim (Option-cases (strip_one_prefix s)) [
  | inl e ↦
      stop fuel (map lower s) (strip_one_prefix-lower s ∙ ap on_rest e)
      ∙ ap (map lower) (sym (stop fuel s e))
  | inr (r, e) ↦
      again fuel (map lower s) (map lower r) (strip_one_prefix-lower s ∙ ap on_rest e)
      ∙ ap (strip_prefixes fuel) (trim_start-lower r)
      ∙ strip_prefixes-lower fuel (trim_start r)
      ∙ ap (map lower) (sym (again fuel s r e))
]

map-lower-lower : (s : Text) → map lower (map lower s) ≡ map lower s
map-lower-lower [] = refl
map-lower-lower (c ∷ s) = rw (lower-lower c, map-lower-lower s)

-- Subjects that differ by ASCII case only have one normal form.
pub normalize_subject-lower :
    (s : Text) → normalize_subject (to_ascii_lowercase s) ≡ normalize_subject s
unfolding normalize_subject
normalize_subject-lower s =
    let t = trim_end (trim_start s) in
    let trimmed : trim_end (trim_start (map lower s)) ≡ map lower t =
      ap trim_end (trim_start-lower s) ∙ trim_end-lower (trim_start s) in
    rw (trimmed, length-map t lower)
      (ap (λ u. join (codes " ") (split_whitespace u))
        (ap (map lower) (strip_prefixes-lower (length t) t)
          ∙ map-lower-lower (strip_prefixes (length t) t)))
