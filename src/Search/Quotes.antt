-- ===== src/Search/Quotes.antt =====
-- Terms of nothing but quotes, with blanks around them.
use qsl.Prelude.{
  ℕ, ◌≡◌, refl, ap, ◌∙◌, arith, [], ◌∷◌, ◌++◌, true, false, ◌&&◌, Text, ◌==◌, ==_iff, All,
  Bool-cases, inl, inr,
}
use qsl.Prelude.Chars.{is_whitespace}
use qsl.Prelude.Split.{
  is_nil, trim, trim_start, trim_end, trim_matches, strip_leading, strip_trailing,
}
use qsl.Search.Tokens.{AreBlank}

abbrev pub AreQuotes : Text → Type 0
AreQuotes = All (λ c. c ≡ b'"')

-- Blanks, quotes, and blanks again; any of the three may be missing.
pub record IsQuotesOnly (s : Text) : Type 0 where
  pub before : Text
  pub quotes : Text
  pub behind : Text
  pub made : s ≡ before ++ (quotes ++ behind)
  pub blank_before : AreBlank before
  pub quoted : AreQuotes quotes
  pub blank_behind : AreBlank behind

trim_start-cut : (s : Text) → (a : Text) × (s ≡ a ++ trim_start s) × AreBlank a
unfolding trim_start
trim_start-cut [] = ([], refl, tt)
trim_start-cut (c ∷ s) = elim (Bool-cases (is_whitespace c)) [
  | inl blank ↦
      let (a, e, all) = trim_start-cut s in rw blank (c ∷ a, ap (λ u. c ∷ u) e, (blank, all))
  | inr other ↦ rw other ([], refl, tt)
]

all_blank : (s t b : Text) → is_nil t ≡ true → s ≡ t ++ b → AreBlank b → AreBlank s
all_blank s [] b h e all = rw e all
all_blank s (c ∷ t) b h e all = absurd cc

trim_end-cut : (s : Text) → (b : Text) × (s ≡ trim_end s ++ b) × AreBlank b
unfolding trim_end
trim_end-cut [] = ([], refl, tt)
trim_end-cut (c ∷ s) =
    let (b, e, all) = trim_end-cut s in
    elim (Bool-cases (is_nil (trim_end s) && is_whitespace c)) [
      | inl blank ↦
          rw blank (c ∷ s, refl, (ground arith, all_blank s (trim_end s) b (ground arith) e all))
      | inr other ↦ rw other (b, ap (λ u. c ∷ u) e, all)
    ]

trailing_quotes : (s : Text) → is_nil (strip_trailing b'"' s) ≡ true → AreQuotes s
unfolding strip_trailing
trailing_quotes [] h = tt
trailing_quotes (c ∷ s) h = (ground (arith, ==_iff c b'"'), trailing_quotes s (ground arith))

leading_quotes : (s : Text) → AreQuotes (strip_leading b'"' s) → AreQuotes s
unfolding strip_leading
leading_quotes [] h = tt
leading_quotes (c ∷ s) h = elim (Bool-cases (c == b'"')) [
  | inl quote ↦ ((==_iff c b'"').0 quote, leading_quotes s (rw quote at h))
  | inr other ↦ rw other at h
]

-- Where nothing is left of a term without its blanks and quotes, it is of nothing else.
pub inner-IsQuotesOnly : (s : Text) → is_nil (trim_matches b'"' (trim s)) ≡ true → IsQuotesOnly s
unfolding trim trim_matches
inner-IsQuotesOnly s h =
    let (a, e, before) = trim_start-cut s in
    let (b, f, behind) = trim_end-cut (trim_start s) in
    record {
      before = a;
      quotes = trim s;
      behind = b;
      made = e ∙ ap (λ u. a ++ u) f;
      blank_before = before;
      quoted = leading_quotes (trim s) (trailing_quotes (strip_leading b'"' (trim s)) h);
      blank_behind = behind;
    }

trim_start-blanks : (a s : Text) → AreBlank a → trim_start (a ++ s) ≡ trim_start s
unfolding trim_start
trim_start-blanks [] s all = refl
trim_start-blanks (c ∷ a) s all = ground (arith, trim_start-blanks a s)

trim_end-blanks : (b : Text) → AreBlank b → trim_end b ≡ []
unfolding trim_end
trim_end-blanks [] all = refl
trim_end-blanks (c ∷ b) all = ground (arith, trim_end-blanks b)

quote-solid : (c : ℕ) → c ≡ b'"' → is_whitespace c ≡ false
unfolding is_whitespace
quote-solid c h = ground arith

trim_end-quotes : (q b : Text) → AreQuotes q → AreBlank b → trim_end (q ++ b) ≡ q
unfolding trim_end
trim_end-quotes [] b quoted all = trim_end-blanks b all
trim_end-quotes (c ∷ q) b quoted all = ground (arith, quote-solid c, trim_end-quotes q b)

trim_start-nil : (b : Text) → AreBlank b → trim_start b ≡ []
unfolding trim_start
trim_start-nil [] all = refl
trim_start-nil (c ∷ b) all = ground (arith, trim_start-nil b)

quote_first : (c : ℕ) (s : Text) → c ≡ b'"' → trim_start (c ∷ s) ≡ c ∷ s
unfolding trim_start
quote_first c s h = ground (arith, quote-solid c)

trim_start-quotes : (q b : Text) → AreQuotes q → AreBlank b → trim_end (trim_start (q ++ b)) ≡ q
trim_start-quotes [] b quoted all = ap trim_end (trim_start-nil b all) ∙ trim_end-blanks [] tt
trim_start-quotes (c ∷ q) b quoted all =
    ap trim_end (quote_first c (q ++ b) quoted.0) ∙ trim_end-quotes (c ∷ q) b quoted all

strip-quotes : (q : Text) → AreQuotes q → trim_matches b'"' q ≡ []
unfolding trim_matches strip_leading strip_trailing
strip-quotes [] quoted = refl
strip-quotes (c ∷ q) quoted = ground (arith, strip-quotes q)

-- Nothing is left of a term of quotes only.
pub IsQuotesOnly-inner : (s : Text) → IsQuotesOnly s → trim_matches b'"' (trim s) ≡ []
unfolding trim
IsQuotesOnly-inner s only =
    ap (trim_matches b'"') (
      ap (λ u. trim_end (trim_start u)) only.made
      ∙ ap trim_end (trim_start-blanks only.before _ only.blank_before)
      ∙ trim_start-quotes only.quotes only.behind only.quoted only.blank_behind)
    ∙ strip-quotes only.quotes only.quoted
