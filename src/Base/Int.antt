-- ===== src/Base/Int.antt =====
-- Python's unbounded integers over the native numbers, with the operations that the code applies
-- to values that may be negative: sums, floor division, and `&`, `|`, `^` in two's complement.
use Prim.Native.Nat.{ℕ, suc, ◌+◌, ◌-◌, ◌*◌, ◌/◌, ◌%◌, ◌^◌, ◌<◌, bit_and, bit_or, bit_xor}
use mathlib.Core.Path.{◌≡◌, refl}
use mathlib.Core.Bool.{Bool, true}
use native.Mathlib.Omega.{arith}
use light_packet.Base.Tests.{ltb, leb, ◌==◌, if◌then◌else◌}

-- `negsuc n` is -(n + 1).
pub data ℤ : Type 0 where
  pos : ℕ → ℤ
  negsuc : ℕ → ℤ

abbrev pub pos_part : ℤ → ℕ
pos_part (pos n) = n
pos_part (negsuc n) = 0

abbrev pub neg_part : ℤ → ℕ
neg_part (pos n) = 0
neg_part (negsuc n) = suc n

abbrev pub sub_ℕ : ℕ → ℕ → ℤ
sub_ℕ a b = if leb b a then pos (a - b) else negsuc (b - a - 1)

infixl 65 ◌+ℤ◌ ◌-ℤ◌
infixl 70 ◌*ℤ◌
unfoldable pub ◌+ℤ◌ : ℤ → ℤ → ℤ
a +ℤ b = sub_ℕ (pos_part a + pos_part b) (neg_part a + neg_part b)

unfoldable pub ◌-ℤ◌ : ℤ → ℤ → ℤ
a -ℤ b = sub_ℕ (pos_part a + neg_part b) (neg_part a + pos_part b)

unfoldable pub ◌*ℤ◌ : ℤ → ℤ → ℤ
a *ℤ b =
    sub_ℕ (pos_part a * pos_part b + neg_part a * neg_part b)
      (pos_part a * neg_part b + neg_part a * pos_part b)

abbrev pub ltb_ℤ : ℤ → ℤ → Bool
ltb_ℤ a b = ltb (pos_part a + neg_part b) (pos_part b + neg_part a)

abbrev pub leb_ℤ : ℤ → ℤ → Bool
leb_ℤ a b = leb (pos_part a + neg_part b) (pos_part b + neg_part a)

abbrev pub eqb_ℤ : ℤ → ℤ → Bool
eqb_ℤ a b = pos_part a + neg_part b == pos_part b + neg_part a

-- `v & (2 ** k - 1)`: the remainder modulo 2 ^ k, also of a negative number.
unfoldable pub low_bits : ℕ → ℤ → ℕ
low_bits k (pos n) = n % 2 ^ k
low_bits k (negsuc n) = 2 ^ k - 1 - n % 2 ^ k

-- `a // v` and `a % v` of a number `a` by `v`, which is not 0: the floor, and the sign of `v`.
unfoldable pub floor_div : ℕ → ℤ → ℤ
floor_div a (pos n) = pos (a / n)
floor_div a (negsuc n) = sub_ℕ 0 ((a + n) / (n + 1))

unfoldable pub floor_mod : ℕ → ℤ → ℤ
floor_mod a (pos n) = pos (a % n)
floor_mod a (negsuc n) = if a % (n + 1) == 0 then pos 0 else sub_ℕ (a % (n + 1)) (n + 1)

-- `a & v`, `a | v`, `a ^ v` of a number `a`; `negsuc n` is the complement of `n`.
unfoldable pub int_and : ℕ → ℤ → ℕ
int_and a (pos n) = bit_and a n
int_and a (negsuc n) = a - bit_and a n

unfoldable pub int_or : ℕ → ℤ → ℤ
int_or a (pos n) = pos (bit_or a n)
int_or a (negsuc n) = negsuc (n - bit_and n a)

unfoldable pub int_xor : ℕ → ℤ → ℤ
int_xor a (pos n) = pos (bit_xor a n)
int_xor a (negsuc n) = negsuc (bit_xor a n)

pub +ℤ_parts :
    (a b : ℤ)
    → pos_part (a +ℤ b) + neg_part a + neg_part b ≡ neg_part (a +ℤ b) + pos_part a + pos_part b
unfolding ◌+ℤ◌
+ℤ_parts a b = ground arith

pub -ℤ_parts :
    (a b : ℤ)
    → pos_part (a -ℤ b) + neg_part a + pos_part b ≡ neg_part (a -ℤ b) + pos_part a + neg_part b
unfolding ◌-ℤ◌
-ℤ_parts a b = ground arith

pub eq_of_parts : (a b : ℤ) → pos_part a + neg_part b ≡ pos_part b + neg_part a → a ≡ b
eq_of_parts a b h = ground arith

pub ruleset int_laws = (arith, +ℤ_parts, -ℤ_parts, eq_of_parts)

-- The offset that leads from `r` to `t`, added to `r` again.
pub jump_back : (r : ℕ) (t : ℤ) → pos r +ℤ (pos 1 +ℤ (t -ℤ pos (r + 1))) ≡ t
jump_back r t = omega int_laws

pub pos-+ℤ : (a b : ℕ) → pos a +ℤ pos b ≡ pos (a + b)
unfolding ◌+ℤ◌
pos-+ℤ a b = ground arith

pub +ℤ_assoc : (a b c : ℤ) → a +ℤ b +ℤ c ≡ a +ℤ (b +ℤ c)
+ℤ_assoc a b c = omega int_laws

pub low_bits_32-lt : (v : ℤ) → low_bits 32 v < 2 ^ 32
unfolding low_bits
low_bits_32-lt (pos n) = omega arith
low_bits_32-lt (negsuc n) = omega arith

-- A sum of numbers that are not negative.
pub +ℤ_unsigned :
    (a b : ℤ)
    → neg_part a ≡ 0
    → neg_part b ≡ 0
    → (neg_part (a +ℤ b) ≡ 0) × (pos_part (a +ℤ b) ≡ pos_part a + pos_part b)
unfolding ◌+ℤ◌
+ℤ_unsigned (pos a) (pos b) h k = ground arith
+ℤ_unsigned (pos a) (negsuc b) h k = absurd (omega arith)
+ℤ_unsigned (negsuc a) b h k = absurd (omega arith)

pub eq_pos : (a : ℤ) → neg_part a ≡ 0 → a ≡ pos (pos_part a)
eq_pos (pos a) h = refl
eq_pos (negsuc a) h = absurd (omega arith)

pub eqb_ℤ→eq : (a b : ℤ) → eqb_ℤ a b ≡ true → a ≡ b
eqb_ℤ→eq a b h = ground (arith, eq_of_parts a b)

pub eqb_ℤ-refl : (a : ℤ) → eqb_ℤ a a ≡ true
eqb_ℤ-refl a = ground arith

pub pos-+ℤ_one : (n : ℕ) → pos n +ℤ pos 1 ≡ pos (suc n)
unfolding ◌+ℤ◌
pos-+ℤ_one n = ground arith

pub low_bits_16-lt : (v : ℤ) → low_bits 16 v < 2 ^ 16
unfolding low_bits
low_bits_16-lt (pos n) = omega arith
low_bits_16-lt (negsuc n) = omega arith
