-- ===== src/Prelude/Decimal.antt =====
-- `u32` as decimal text: `{}` of `format!`, and `str::parse::<u32>`.
use native.Mathlib.Nat.{pow-suc}
use qsl.Prelude.Names.{
  ℕ, zero, suc, ◌+◌, ◌-◌, ◌*◌, ◌/◌, ◌%◌, ◌^◌, ◌<◌, false, ◌≡◌, refl, sym, ap, ◌∙◌, arith, [], ◌∷◌,
  ◌++◌, Option, none, some, Text, ltb, ◌==◌, if◌then◌else◌, any, any-append, append_assoc,
  Bool-cases, inl, inr, ◌⊎◌, append-nil,
}
use qsl.Prelude.Chars.{is_ascii_digit}

abbrev pub u32_mod : ℕ
u32_mod = 4294967296

-- The digits of `n`, most significant first; the fuel bounds their number.
abbrev pub digit : ℕ → ℕ
digit d = 48 + d

unfoldable pub decimal : ℕ → ℕ → Text
decimal zero n = []
decimal (suc fuel) n =
    let front = decimal fuel (n / 10) in
    if ltb n 10 then digit n ∷ [] else front ++ digit (n % 10) ∷ []

-- Ten digits are enough for a `u32`.
unfoldable pub format_u32 : ℕ → Text
unfolding decimal
format_u32 = decimal 10

-- The loop of `from_str_radix`: a character that is no digit and an overflow end it.
unfoldable pub parse_digits : ℕ → Text → Option ℕ
unfolding is_ascii_digit
parse_digits acc [] = some acc
parse_digits acc (c ∷ s) =
    let next = acc * 10 + (c - 48) in
    let rest = parse_digits next s in
    if is_ascii_digit c then (if ltb next u32_mod then rest else none) else none

-- One leading `+` is accepted, and then a digit is wanted.
unfoldable pub parse_u32 : Text → Option ℕ
unfolding parse_digits
parse_u32 [] = none
parse_u32 (c ∷ []) = if c == b'+' then none else parse_digits 0 (c ∷ [])
parse_u32 (c ∷ d ∷ s) = if c == b'+' then parse_digits 0 (d ∷ s) else parse_digits 0 (c ∷ d ∷ s)

parse_digits-lt :
    (acc : ℕ) (s : Text) (n : ℕ) → acc < u32_mod → parse_digits acc s ≡ some n → n < u32_mod
unfolding parse_digits
parse_digits-lt acc [] n h e = ground arith
parse_digits-lt acc (c ∷ s) n h e = ground (arith, parse_digits-lt (acc * 10 + (c - 48)) s n)

-- What is parsed fits.
pub parse_u32-lt : (s : Text) (n : ℕ) → parse_u32 s ≡ some n → n < u32_mod
unfolding parse_u32
parse_u32-lt [] n e = cc
parse_u32-lt (c ∷ []) n e = ground (arith, parse_digits-lt 0 (c ∷ []) n)
parse_u32-lt (c ∷ d ∷ s) n e =
    ground (arith, parse_digits-lt 0 (c ∷ d ∷ s) n, parse_digits-lt 0 (d ∷ s) n)

one_digit :
    (acc d : ℕ) (rest : Text)
    → d < 10
    → acc * 10 + d < u32_mod
    → parse_digits acc (digit d ∷ rest) ≡ parse_digits (acc * 10 + d) rest
unfolding parse_digits
one_digit acc d rest h k = let e : digit d - 48 ≡ d = omega arith in rw e (ground arith)

parse_digits-decimal :
    (fuel n : ℕ) (rest : Text)
    → n < 10 ^ fuel
    → n < u32_mod
    → parse_digits 0 (decimal fuel n ++ rest) ≡ parse_digits n rest
unfolding decimal
parse_digits-decimal zero n rest h k = let e : n ≡ 0 = omega arith in rw e refl
parse_digits-decimal (suc fuel) n rest h k = elim (Bool-cases (ltb n 10)) [
  | inl small ↦ rw small (
      one_digit 0 n rest (ground arith) (ground arith)
      ∙ ap (λ m. parse_digits m rest) (omega arith))
  | inr large ↦
      let q : n / 10 < 10 ^ fuel = omega (arith, pow-suc 10 fuel) in
      rw large (
        rw append_assoc (
          parse_digits-decimal fuel (n / 10) (digit (n % 10) ∷ rest) q (omega arith)
          ∙ one_digit (n / 10) (n % 10) rest (omega arith) (omega arith)
          ∙ ap (λ m. parse_digits m rest) (omega arith)))
]

-- A digit stands first.
decimal-head : (fuel n : ℕ) → (d : ℕ) × (t : Text) × (decimal (suc fuel) n ≡ digit d ∷ t) × (d < 10)
unfolding decimal
decimal-head zero n = elim (Bool-cases (ltb n 10)) [
  | inl small ↦ (n, [], rw small, ground arith)
  | inr large ↦ (n % 10, [], rw large, omega arith)
]
decimal-head (suc fuel) n = elim (Bool-cases (ltb n 10)) [
  | inl small ↦ (n, [], rw small, ground arith)
  | inr large ↦
      let (d, t, e, h) = decimal-head fuel (n / 10) in
      (d, t ++ digit (n % 10) ∷ [], rw large (ap (λ x. x ++ digit (n % 10) ∷ []) e), h)
]

parse_u32-digits : (s t : Text) (d : ℕ) → s ≡ digit d ∷ t → d < 10 → parse_u32 s ≡ parse_digits 0 s
unfolding parse_u32
parse_u32-digits s t d e h = rw e (go t)
  where
    go : (t : Text) → parse_u32 (digit d ∷ t) ≡ parse_digits 0 (digit d ∷ t)
    go [] = ground arith
    go (c ∷ r) = ground arith

-- Printing and parsing a `u32` gives it back.
pub parse_u32-format_u32 : (n : ℕ) → n < u32_mod → parse_u32 (format_u32 n) ≡ some n
unfolding format_u32
parse_u32-format_u32 n h =
    let (d, t, e, k) = decimal-head 9 n in
    parse_u32-digits (decimal 10 n) t d e k
    ∙ ap (parse_digits 0) (sym (append-nil (decimal 10 n)))
    ∙ parse_digits-decimal 10 n [] (omega arith) h
    ∙ unfold parse_digits in refl

-- No separator stands among digits.
pub decimal-avoids :
    (sep fuel n : ℕ) → sep < 48 ⊎ (57 < sep) → any (λ c. c == sep) (decimal fuel n) ≡ false
unfolding decimal
decimal-avoids sep zero n h = refl
decimal-avoids sep (suc fuel) n h = elim (Bool-cases (ltb n 10)) [
  | inl small ↦ rw small (ground arith)
  | inr large ↦ rw large (
      any-append (λ c. c == sep) (decimal fuel (n / 10)) (digit (n % 10) ∷ [])
      ∙ rw (decimal-avoids sep fuel (n / 10) h) (ground arith))
]

pub format_u32-avoids :
    (sep n : ℕ) → sep < 48 ⊎ (57 < sep) → any (λ c. c == sep) (format_u32 n) ≡ false
unfolding format_u32
format_u32-avoids sep n h = decimal-avoids sep 10 n h
