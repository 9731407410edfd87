-- ===== src/Prelude/Int.antt =====
-- Signed integers over the native numbers, for Go's int64 and for math/big (below 2^63 the two
-- agree). Sums and orders go through the two parts of an integer, which are numbers.
use elrond_go.Prelude.{
  ℕ, suc, ◌+◌, ◌-◌, ◌%◌, ◌≤◌, ◌<◌, ◌≡◌, Bool, arith, ltb, leb, ◌==◌, if◌then◌else◌,
}

-- `negsuc n` is -(n + 1).
pub data ℤ : Type 0 where
  pos : ℕ → ℤ
  negsuc : ℕ → ℤ

abbrev pub pos_part : ℤ → ℕ
pos_part (pos n) = n
pos_part (negsuc n) = 0

abbrev pub neg_part : ℤ → ℕ
neg_part (pos n) = 0
neg_part (negsuc n) = suc n

-- a - b, as an integer.
abbrev pub sub_ℕ : ℕ → ℕ → ℤ
sub_ℕ a b = if leb b a then pos (a - b) else negsuc (b - a - 1)

infixl 65 ◌+ℤ◌ ◌-ℤ◌
infix 50 ◌≤ℤ◌ ◌<ℤ◌
unfoldable pub ◌+ℤ◌ : ℤ → ℤ → ℤ
a +ℤ b = sub_ℕ (pos_part a + pos_part b) (neg_part a + neg_part b)

unfoldable pub ◌-ℤ◌ : ℤ → ℤ → ℤ
a -ℤ b = sub_ℕ (pos_part a + neg_part b) (neg_part a + pos_part b)

abbrev pub ◌≤ℤ◌ : ℤ → ℤ → Type 0
a ≤ℤ b = pos_part a + neg_part b ≤ pos_part b + neg_part a

abbrev pub ◌<ℤ◌ : ℤ → ℤ → Type 0
a <ℤ b = pos_part a + neg_part b < pos_part b + neg_part a

abbrev pub ltb_ℤ : ℤ → ℤ → Bool
ltb_ℤ a b = ltb (pos_part a + neg_part b) (pos_part b + neg_part a)

abbrev pub eqb_ℤ : ℤ → ℤ → Bool
eqb_ℤ a b = (pos_part a + neg_part b) == (pos_part b + neg_part a)

pub +ℤ_parts :
    (a b : ℤ)
    → pos_part (a +ℤ b) + neg_part a + neg_part b ≡ neg_part (a +ℤ b) + pos_part a + pos_part b
unfolding ◌+ℤ◌
+ℤ_parts a b = ground arith

pub -ℤ_parts :
    (a b : ℤ)
    → pos_part (a -ℤ b) + neg_part a + pos_part b ≡ neg_part (a -ℤ b) + pos_part a + neg_part b
unfolding ◌-ℤ◌
-ℤ_parts a b = ground arith

pub eq_of_parts : (a b : ℤ) → pos_part a + neg_part b ≡ pos_part b + neg_part a → a ≡ b
eq_of_parts a b h = ground arith

pub ruleset int_laws = (arith, +ℤ_parts, -ℤ_parts, eq_of_parts)

-- 2 ^ 63 and 2 ^ 64.
abbrev pub two63 : ℕ
two63 = 9223372036854775808

abbrev pub two64 : ℕ
two64 = 18446744073709551616

-- the int64 with the same low 64 bits
unfoldable pub wrap_int64 : ℤ → ℤ
wrap_int64 (pos n) =
    if ltb (n % two64) two63 then pos (n % two64) else negsuc (two64 - 1 - n % two64)
wrap_int64 (negsuc n) =
    if ltb (n % two64) two63 then negsuc (n % two64) else pos (two64 - 1 - n % two64)

-- Go's int64(n) of a uint64, and the difference of two int64 values
unfoldable pub to_int64 : ℕ → ℤ
to_int64 n = wrap_int64 (pos n)

unfoldable pub sub_int64 : ℤ → ℤ → ℤ
sub_int64 a b = wrap_int64 (a -ℤ b)

-- nothing wraps below 2 ^ 63
pub to_int64_lem : (n : ℕ) → n < two63 → to_int64 n ≡ pos n
unfolding to_int64 wrap_int64
to_int64_lem n h = ground arith

pub sub_int64_lem : (a b : ℕ) → a < two63 → b < two63 → sub_int64 (pos a) (pos b) ≡ sub_ℕ a b
unfolding sub_int64 wrap_int64 ◌-ℤ◌
sub_int64_lem a b h k = ground arith
