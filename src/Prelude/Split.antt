-- ===== src/Prelude/Split.antt =====
-- The functions of Rust's `str` that cut a text: by a separator, a prefix, or white space.
use qsl.Prelude.Names.{
  ℕ, zero, suc, Bool, true, false, ◌&&◌, ◌≡◌, refl, arith, List, [], ◌∷◌, ◌++◌, Option, none, some,
  Text, ◌==◌, if◌then◌else◌, any, Bool-cases, Option-cases, inl, inr,
}
use qsl.Prelude.Chars.{is_whitespace}

-- `str::contains` of a character.
abbrev pub contains : ℕ → Text → Bool
contains sep = any (λ c. c == sep)

-- `str::split_once`: the parts before and behind the first separator.
unfoldable pub split_once : ℕ → Text → Option (Text × Text)
split_once sep [] = none
split_once sep (c ∷ s) =
    let rest = split_once sep s in
    if c == sep then some ([], s) else elim rest [ none ↦ none | some (a, b) ↦ some (c ∷ a, b) ]

pub split_once-append :
    (sep : ℕ) (a b : Text) → contains sep a ≡ false → split_once sep (a ++ sep ∷ b) ≡ some (a, b)
unfolding split_once
split_once-append sep [] b h = ground arith
split_once-append sep (c ∷ a) b h = ground (arith, split_once-append sep a b)

pub split_once-eq_some :
    (sep : ℕ) (s a b : Text)
    → split_once sep s ≡ some (a, b)
    → (s ≡ a ++ sep ∷ b) × (contains sep a ≡ false)
unfolding split_once
split_once-eq_some sep [] a b h = cc
split_once-eq_some sep (c ∷ s) a b h = elim (Bool-cases (c == sep)) [
  | inl here ↦ ground arith
  | inr later ↦ elim (Option-cases (split_once sep s)) [
    | inl e ↦ cc (rw (later, e) at h)
    | inr ((u, v), e) ↦
        let same : ◌≡◌ {A = Option (Text × Text)} (some (c ∷ u, v)) (some (a, b)) =
          rw (later, e) at h in
        let found = split_once-eq_some sep s u v e in ground arith
  ]
]

-- `str::splitn`: at most `n` parts, the last one with all that is left.
unfoldable pub splitn : ℕ → ℕ → Text → List Text
splitn zero sep s = []
splitn (suc zero) sep s = s ∷ []
splitn (suc (suc n)) sep s = elim (split_once sep s) [
  | none ↦ s ∷ []
  | some (a, b) ↦ a ∷ splitn (suc n) sep b
]

-- `str::strip_prefix`.
unfoldable pub strip_prefix : Text → Text → Option Text
strip_prefix [] s = some s
strip_prefix (p ∷ ps) [] = none
strip_prefix (p ∷ ps) (c ∷ s) = if p == c then strip_prefix ps s else none

pub strip_prefix-append : (p s : Text) → strip_prefix p (p ++ s) ≡ some s
unfolding strip_prefix
strip_prefix-append [] s = refl
strip_prefix-append (p ∷ ps) s = ground (arith, strip_prefix-append ps s)

pub strip_prefix-eq_some : (p s t : Text) → strip_prefix p s ≡ some t → s ≡ p ++ t
unfolding strip_prefix
strip_prefix-eq_some [] s t h = ground arith
strip_prefix-eq_some (p ∷ ps) [] t h = cc
strip_prefix-eq_some (p ∷ ps) (c ∷ s) t h = ground (arith, strip_prefix-eq_some ps s t)

-- `str::trim_start`, `str::trim_end`, `str::trim`.
unfoldable pub trim_start : Text → Text
trim_start [] = []
trim_start (c ∷ s) = if is_whitespace c then trim_start s else c ∷ s

abbrev pub is_nil : Text → Bool
is_nil [] = true
is_nil (c ∷ s) = false

unfoldable pub trim_end : Text → Text
trim_end [] = []
trim_end (c ∷ s) = let rest = trim_end s in if is_nil rest && is_whitespace c then [] else c ∷ rest

unfoldable pub trim : Text → Text
trim s = trim_end (trim_start s)

-- `str::split_whitespace`, with the word that is being read.
unfoldable pub words_from : Text → Text → List Text
words_from word [] = if is_nil word then [] else word ∷ []
words_from word (c ∷ s) =
    let next = words_from [] s in
    let longer = words_from (word ++ c ∷ []) s in
    if is_whitespace c then (if is_nil word then next else word ∷ next) else longer

unfoldable pub split_whitespace : Text → List Text
unfolding words_from
split_whitespace = words_from []

-- `[String]::join`
unfoldable pub join : Text → List Text → Text
join sep [] = []
join sep (w ∷ []) = w
join sep (w ∷ v ∷ ws) = w ++ (sep ++ join sep (v ∷ ws))

-- `str::trim_matches` of a character.
unfoldable pub strip_leading : ℕ → Text → Text
strip_leading m [] = []
strip_leading m (c ∷ s) = if c == m then strip_leading m s else c ∷ s

unfoldable pub strip_trailing : ℕ → Text → Text
strip_trailing m [] = []
strip_trailing m (c ∷ s) =
    let rest = strip_trailing m s in if is_nil rest && c == m then [] else c ∷ rest

unfoldable pub trim_matches : ℕ → Text → Text
unfolding strip_leading strip_trailing
trim_matches m s = strip_trailing m (strip_leading m s)
