-- ===== src/Prelude/Int.antt =====
-- Signed integers over the native numbers, and the `i64` arithmetic of the sources on them.
use qsl.Prelude.Names.{ℕ, suc, ◌+◌, ◌-◌, ◌*◌, ◌/◌, ◌%◌, ◌^◌, min, leb, if◌then◌else◌}

-- `negsuc n` is -(n + 1).
pub data ℤ : Type 0 where
  pos : ℕ → ℤ
  negsuc : ℕ → ℤ

abbrev pub pos_part : ℤ → ℕ
pos_part (pos n) = n
pos_part (negsuc n) = 0

abbrev pub neg_part : ℤ → ℕ
neg_part (pos n) = 0
neg_part (negsuc n) = suc n

-- a - b, as an integer.
abbrev pub sub_ℕ : ℕ → ℕ → ℤ
sub_ℕ a b = if leb b a then pos (a - b) else negsuc (b - a - 1)

infixl 65 ◌+ℤ◌
infixl 70 ◌*ℤ◌
unfoldable pub ◌+ℤ◌ : ℤ → ℤ → ℤ
a +ℤ b = sub_ℕ (pos_part a + pos_part b) (neg_part a + neg_part b)

unfoldable pub ◌*ℤ◌ : ℤ → ℤ → ℤ
a *ℤ b =
    sub_ℕ (pos_part a * pos_part b + neg_part a * neg_part b)
      (pos_part a * neg_part b + neg_part a * pos_part b)

-- `i64`: the two's complement reading of a result, and the saturating one.
abbrev pub i64_max : ℕ
i64_max = 2 ^ 63 - 1

abbrev word_to_ℤ : ℕ → ℤ
word_to_ℤ w = if leb w i64_max then pos w else negsuc (2 ^ 64 - 1 - w)

unfoldable pub wrap_i64 : ℤ → ℤ
wrap_i64 (pos n) = word_to_ℤ (n % 2 ^ 64)
wrap_i64 (negsuc n) = word_to_ℤ (2 ^ 64 - 1 - n % 2 ^ 64)

unfoldable pub saturate_i64 : ℤ → ℤ
saturate_i64 (pos n) = pos (min n i64_max)
saturate_i64 (negsuc n) = negsuc (min n i64_max)

-- `a / d` rounds towards zero.
unfoldable pub div_trunc : ℤ → ℕ → ℤ
div_trunc (pos n) d = pos (n / d)
div_trunc (negsuc n) d = sub_ℕ 0 (suc n / d)
