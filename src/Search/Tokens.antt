-- ===== src/Search/Tokens.antt =====
-- The tokens of a query.
use qsl.Prelude.{
  ℕ, ◌≡◌, refl, ap, subst, sym, ◌∙◌, arith, List, [], ◌∷◌, ◌++◌, append_assoc, Bool, true, false,
  not, ◌&&◌, Text, ◌==◌, if◌then◌else◌, All, Bool-cases, inl, inr,
}
use qsl.Prelude.Chars.{is_whitespace}
use qsl.Prelude.Split.{is_nil}
use qsl.Search.{tokens_from, tokenize}

-- The quote flag behind a text, and the text without the white space that stands outside quotes.
abbrev pub flag_behind : Bool → Text → Bool
flag_behind q [] = q
flag_behind q (c ∷ s) = flag_behind (if c == b'"' then not q else q) s

abbrev pub squeeze : Bool → Text → Text
squeeze q [] = []
squeeze q (c ∷ s) =
    let rest = squeeze (if c == b'"' then not q else q) s in
    if is_whitespace c && not q then rest else c ∷ rest

-- A token has a character, and no white space outside quotes.
pub record IsToken (t : Text) : Type 0 where
  pub ne_nil : is_nil t ≡ false
  pub solid : squeeze false t ≡ t

flag-concat :
    (q : Bool) (s : Text) (c : ℕ)
    → flag_behind q (s ++ c ∷ []) ≡ (if c == b'"' then not (flag_behind q s) else flag_behind q s)
flag-concat q [] c = refl
flag-concat q (d ∷ s) c = flag-concat (if d == b'"' then not q else q) s c

squeeze-concat :
    (q : Bool) (s : Text) (c : ℕ)
    → squeeze q (s ++ c ∷ [])
      ≡ squeeze q s ++ (if is_whitespace c && not (flag_behind q s) then [] else c ∷ [])
squeeze-concat q [] c = refl
squeeze-concat q (d ∷ s) c = ground (arith, squeeze-concat (if d == b'"' then not q else q) s c)

is_nil-concat : (s : Text) (c : ℕ) → is_nil (s ++ c ∷ []) ≡ false
is_nil-concat [] c = refl
is_nil-concat (d ∷ s) c = refl

-- The three branches of the loop.
module _ (current : Text) (c : ℕ) (s : Text) where
  pub tokens-quote :
      (q : Bool)
      → (c == b'"') ≡ true
      → tokens_from current q (c ∷ s) ≡ tokens_from (current ++ c ∷ []) (not q) s
  unfolding tokens_from
  tokens-quote q h = rw h

  pub tokens-longer :
      (q : Bool)
      → (c == b'"') ≡ false
      → (is_whitespace c && not q) ≡ false
      → tokens_from current q (c ∷ s) ≡ tokens_from (current ++ c ∷ []) q s
  unfolding tokens_from
  tokens-longer q h k = rw (h, k)

  pub tokens-cut :
      (q : Bool)
      → (c == b'"') ≡ false
      → (is_whitespace c && not q) ≡ true
      → tokens_from current q (c ∷ s)
        ≡ (if is_nil current then tokens_from [] q s else current ∷ tokens_from [] q s)
  unfolding tokens_from
  tokens-cut q h k = rw (h, k)

pub quote-solid : (c : ℕ) → (c == b'"') ≡ true → is_whitespace c ≡ false
unfolding is_whitespace
quote-solid c h = ground arith

-- A text and the tokens that it is cut into: blanks, and then a token that reaches to the end, or to
-- a blank behind closed quotes.
abbrev pub AreBlank : Text → Type 0
AreBlank = All (λ c. is_whitespace c ≡ true)

abbrev pub EndsBefore : Text → Text → Type 0
EndsBefore t [] = Unit
EndsBefore t (c ∷ rest) = (flag_behind false t ≡ false) × (is_whitespace c ≡ true)

pub data IsCut : Text → List Text → Type 0 where
  blanks : {s : Text} → AreBlank s → IsCut s []
  token :
      {s : Text} {ts : List Text} (gap t rest : Text)
      → s ≡ gap ++ (t ++ rest)
      → AreBlank gap
      → IsToken t
      → EndsBefore t rest
      → IsCut rest ts
      → IsCut s (t ∷ ts)

IsCut-blank :
    (c : ℕ) (s : Text) (ts : List Text) → is_whitespace c ≡ true → IsCut s ts → IsCut (c ∷ s) ts
IsCut-blank c s ts h (blanks all) = blanks (h, all)
IsCut-blank c s ts h (token gap t rest e all good ends later) =
    token (c ∷ gap) t rest (ap (λ u. c ∷ u) e) (h, all) good ends later

tokens_from-IsCut :
    (current : Text) (q : Bool) (s : Text)
    → squeeze false current ≡ current
    → flag_behind false current ≡ q
    → IsCut (current ++ s) (tokens_from current q s)
tokens_from-IsCut [] q [] clean flag = unfold tokens_from in blanks tt
tokens_from-IsCut (d ∷ current) q [] clean flag =
    unfold tokens_from in
    token [] (d ∷ current) [] refl tt (record { ne_nil = refl; solid = clean }) tt (blanks tt)
tokens_from-IsCut current q (c ∷ s) clean flag = elim (Bool-cases (c == b'"')) [
  | inl quote ↦ subst (IsCut (current ++ c ∷ s)) (sym (tokens-quote current c s q quote)) (
      longer (not q) (
        tokens_from-IsCut (current ++ c ∷ []) (not q) s (grown (ground (arith, quote-solid c)))
          (flag-concat false current c ∙ ground arith)))
  | inr other ↦ elim (Bool-cases (is_whitespace c && not q)) [
    | inl blank ↦ subst (IsCut (current ++ c ∷ s)) (sym (tokens-cut current c s q other blank)) (
        started current clean flag blank (
          IsCut-blank c s (tokens_from [] q s) (ground arith)
            (tokens_from-IsCut [] q s refl (ground arith))))
    | inr solid ↦ subst (IsCut (current ++ c ∷ s)) (sym (tokens-longer current c s q other solid)) (
        longer q (
          tokens_from-IsCut (current ++ c ∷ []) q s (grown (ground arith))
            (flag-concat false current c ∙ ground arith)))
  ]
]
  where
    grown :
        (is_whitespace c && not (flag_behind false current)) ≡ false
        → squeeze false (current ++ c ∷ []) ≡ current ++ c ∷ []
    grown keep = squeeze-concat false current c ∙ rw (keep, clean)

    longer :
        (q' : Bool)
        → IsCut ((current ++ c ∷ []) ++ s) (tokens_from (current ++ c ∷ []) q' s)
        → IsCut (current ++ c ∷ s) (tokens_from (current ++ c ∷ []) q' s)
    longer q' =
        subst (λ u. IsCut u (tokens_from (current ++ c ∷ []) q' s))
          (append_assoc current (c ∷ []) s)

    started :
        (w : Text)
        → squeeze false w ≡ w
        → flag_behind false w ≡ q
        → (is_whitespace c && not q) ≡ true
        → IsCut (c ∷ s) (tokens_from [] q s)
        → IsCut (w ++ c ∷ s) (if is_nil w then tokens_from [] q s else w ∷ tokens_from [] q s)
    started [] e f blank later = later
    started (d ∷ w) e f blank later =
        token [] (d ∷ w) (c ∷ s) refl tt (record { ne_nil = refl; solid = e })
          (f ∙ ground arith, ground arith) later

-- The input is its tokens in their order, with blanks around them. A token is not empty and has no
-- blank outside quotes, and it reaches to the end of the input or to a blank behind closed quotes.
pub tokenize-IsCut : (input : Text) → IsCut input (tokenize input)
unfolding tokenize
tokenize-IsCut input = tokens_from-IsCut [] false input refl refl
