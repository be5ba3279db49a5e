-- ===== src/Search/Cuts.antt =====
-- A query has one cut into tokens.
use qsl.Prelude.{
  ℕ, ◌≤◌, ◌≡◌, ◌↔◌, ◌⊎◌, refl, ap, subst, sym, ◌∙◌, arith, List, [], ◌∷◌, ◌++◌, append-nil,
  append_assoc, Bool, true, false, not, ◌&&◌, Text, ◌==◌, if◌then◌else◌, length, Bool-cases, inl,
  inr,
}
use qsl.Prelude.Chars.{is_whitespace}
use qsl.Prelude.Split.{is_nil}
use qsl.Search.{tokens_from, tokenize}
use qsl.Search.Tokens.{
  flag_behind, squeeze, AreBlank, EndsBefore, IsCut, blanks, token, quote-solid, tokens-quote,
  tokens-longer, tokens-cut, tokenize-IsCut,
}

length-squeeze : (q : Bool) (s : Text) → length (squeeze q s) ≤ length s
length-squeeze q [] = omega arith
length-squeeze q (c ∷ s) = ground (arith, length-squeeze (if c == b'"' then not q else q) s)

-- A text that loses nothing does not begin with a blank outside quotes.
solid_head :
    (q : Bool) (c : ℕ) (s : Text) → squeeze q (c ∷ s) ≡ c ∷ s → (is_whitespace c && not q) ≡ false
solid_head q c s solid = elim (Bool-cases (is_whitespace c && not q)) [
  | inl blank ↦
      let lost : squeeze (if c == b'"' then not q else q) s ≡ c ∷ s = rw blank at solid in
      let short = length-squeeze (if c == b'"' then not q else q) s in
      absurd (let same = ap length lost in omega arith)
  | inr keep ↦ keep
]

solid_tail :
    (q : Bool) (c : ℕ) (s : Text)
    → squeeze q (c ∷ s) ≡ c ∷ s
    → squeeze (if c == b'"' then not q else q) s ≡ s
solid_tail q c s solid =
    let keep = solid_head q c s solid in
    let same : ◌≡◌ {A = Text} (c ∷ squeeze (if c == b'"' then not q else q) s) (c ∷ s) =
      rw keep at solid in
    ground arith

blank_plain : (c : ℕ) → is_whitespace c ≡ true → (c == b'"') ≡ false
blank_plain c h = elim (Bool-cases (c == b'"')) [
  | inl quote ↦ absurd (let solid = quote-solid c quote in ground arith)
  | inr other ↦ other
]

-- The loop runs over a token.
tokens_from-solid :
    (current : Text) (q : Bool) (t rest : Text)
    → squeeze q t ≡ t
    → tokens_from current q (t ++ rest) ≡ tokens_from (current ++ t) (flag_behind q t) rest
tokens_from-solid current q [] rest solid =
    ap (λ u. tokens_from u q rest) (sym (append-nil current))
tokens_from-solid current q (c ∷ t) rest solid =
    step (Bool-cases (c == b'"'))
    ∙ tokens_from-solid (current ++ c ∷ []) (if c == b'"' then not q else q) t rest
        (solid_tail q c t solid)
    ∙ ap (λ u. tokens_from u (flag_behind (if c == b'"' then not q else q) t) rest)
        (append_assoc current (c ∷ []) t)
  where
    step :
        ((c == b'"') ≡ true) ⊎ ((c == b'"') ≡ false)
        → tokens_from current q (c ∷ (t ++ rest))
          ≡ tokens_from (current ++ c ∷ []) (if c == b'"' then not q else q) (t ++ rest)
    step (inl quote) = rw quote (tokens-quote current c (t ++ rest) q quote)
    step (inr other) =
        rw other (tokens-longer current c (t ++ rest) q other (solid_head q c t solid))

-- It runs over blanks.
tokens_from-blank :
    (c : ℕ) (s : Text)
    → is_whitespace c ≡ true
    → tokens_from [] false (c ∷ s) ≡ tokens_from [] false s
tokens_from-blank c s h = tokens-cut [] c s false (blank_plain c h) (ground arith)

tokens_from-blanks :
    (gap s : Text) → AreBlank gap → tokens_from [] false (gap ++ s) ≡ tokens_from [] false s
tokens_from-blanks [] s all = refl
tokens_from-blanks (c ∷ gap) s all =
    tokens_from-blank c (gap ++ s) all.0 ∙ tokens_from-blanks gap s all.1

-- It cuts at the end, or at a blank behind closed quotes.
tokens_from-ends :
    (t rest : Text)
    → is_nil t ≡ false
    → EndsBefore t rest
    → tokens_from t (flag_behind false t) rest ≡ t ∷ tokens_from [] false rest
tokens_from-ends [] rest full ends = absurd cc
tokens_from-ends (d ∷ t) [] full ends = unfold tokens_from in refl
tokens_from-ends (d ∷ t) (c ∷ rest) full ends =
    ap (λ q. tokens_from (d ∷ t) q (c ∷ rest)) ends.0
    ∙ tokens-cut (d ∷ t) c rest false (blank_plain c ends.1) (ground arith)
    ∙ ap (λ ts. (d ∷ t) ∷ ts) (sym (tokens_from-blank c rest ends.1))

IsCut-tokens_from : (s : Text) (ts : List Text) → IsCut s ts → tokens_from [] false s ≡ ts
IsCut-tokens_from s ts (blanks all) =
    ap (tokens_from [] false) (sym (append-nil s))
    ∙ tokens_from-blanks s [] all
    ∙ unfold tokens_from in refl
IsCut-tokens_from s ts (token {ts = us} gap t rest e all good ends later) =
    ap (tokens_from [] false) e
    ∙ tokens_from-blanks gap (t ++ rest) all
    ∙ tokens_from-solid [] false t rest good.solid
    ∙ tokens_from-ends t rest good.ne_nil ends
    ∙ ap (λ vs. t ∷ vs) (IsCut-tokens_from rest us later)

-- The tokens of an input are the one list of texts that stand in it in their order with blanks around
-- them, none of them empty or with a blank outside quotes, and each reaching to the end of the input
-- or to a blank behind closed quotes.
pub tokenize_iff : (input : Text) (ts : List Text) → (tokenize input ≡ ts) ↔ IsCut input ts
tokenize_iff input ts = (
  λ same. subst (IsCut input) same (tokenize-IsCut input),
  λ cut. unfold tokenize in IsCut-tokens_from input ts cut,
)
