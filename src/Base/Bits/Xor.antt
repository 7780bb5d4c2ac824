-- ===== src/Base/Bits/Xor.antt =====
-- `^` on native numbers: it undoes itself, keeps the width, and acts field by field.
use Prim.Native.Nat.{
  ℕ, zero, suc, ◌+◌, ◌*◌, ◌/◌, ◌%◌, ◌^◌, ◌≤◌, ◌<◌, bit_and, bit_xor, differ, bit_xor-bitwise,
}
use native.Mathlib.Nat.{pow-suc}
use mathlib.Core.Path.{◌≡◌, refl, ap, sym, ◌∙◌}
use light_packet.Base.Tests.{if◌then◌else◌, ltb}
use native.Mathlib.Omega.{arith}
use light_packet.Base.Bits.{digits_enough, and_lowest, times_pow-suc}

-- One binary digit of `^`.
differ_digit : (a b : ℕ) → a < 2 → b < 2 → differ a b ≡ (a + b) % 2
differ_digit zero zero h g = refl
differ_digit zero (suc zero) h g = refl
differ_digit (suc zero) zero h g = refl
differ_digit (suc zero) (suc zero) h g = refl
differ_digit zero (suc (suc b)) h g = absurd (omega arith)
differ_digit (suc zero) (suc (suc b)) h g = absurd (omega arith)
differ_digit (suc (suc a)) b h g = absurd (omega arith)

pub xor_lowest : (a b : ℕ) → bit_xor a b ≡ bit_xor (a / 2) (b / 2) * 2 + (a % 2 + b % 2) % 2
xor_lowest zero b = omega (arith, bit_xor-bitwise 0 b, bit_xor-bitwise 0 (b / 2))
xor_lowest (suc a) b = omega (
  arith,
  bit_xor-bitwise (suc a) b,
  bit_xor-bitwise (suc a / 2) (b / 2),
  digits_enough (λ y. y) differ a (suc a / 2) (suc a / 2) (b / 2) (omega arith) (omega arith),
  differ_digit (suc a % 2) (b % 2) (omega arith) (omega arith),
)

xor-twice_below : (n a c : ℕ) → a ≤ n → c ≤ n → bit_xor (bit_xor a c) c ≡ a
xor-twice_below zero zero zero h g = refl
xor-twice_below zero (suc a) c h g = absurd (omega arith)
xor-twice_below zero zero (suc c) h g = absurd (omega arith)
xor-twice_below (suc n) a c h g = omega (
  arith,
  xor_lowest (bit_xor a c) c,
  xor_lowest a c,
  ap (λ t. bit_xor t (c / 2)) halves,
  xor-twice_below n (a / 2) (c / 2) (omega arith) (omega arith),
)
  where
    halves : bit_xor a c / 2 ≡ bit_xor (a / 2) (c / 2)
    halves = omega (arith, xor_lowest a c)

pub xor-twice : (a c : ℕ) → bit_xor (bit_xor a c) c ≡ a
xor-twice a c = xor-twice_below (a + c) a c (omega arith) (omega arith)

xor-comm_below : (n a c : ℕ) → a ≤ n → c ≤ n → bit_xor a c ≡ bit_xor c a
xor-comm_below zero zero zero h g = refl
xor-comm_below zero (suc a) c h g = absurd (omega arith)
xor-comm_below zero zero (suc c) h g = absurd (omega arith)
xor-comm_below (suc n) a c h g = omega (
  arith,
  xor_lowest a c,
  xor_lowest c a,
  xor-comm_below n (a / 2) (c / 2) (omega arith) (omega arith),
)

pub xor_comm : (a c : ℕ) → bit_xor a c ≡ bit_xor c a
xor_comm a c = xor-comm_below (a + c) a c (omega arith) (omega arith)

-- `^` cancels on either side.
pub xor_right_cancel : (a b c : ℕ) → bit_xor a c ≡ bit_xor b c → a ≡ b
xor_right_cancel a b c e = sym (xor-twice a c) ∙ ap (λ t. bit_xor t c) e ∙ xor-twice b c

pub xor_left_cancel : (a b c : ℕ) → bit_xor c a ≡ bit_xor c b → a ≡ b
xor_left_cancel a b c e = xor_right_cancel a b c (xor_comm a c ∙ e ∙ xor_comm c b)

pub xor-lt : (k a b : ℕ) → a < 2 ^ k → b < 2 ^ k → bit_xor a b < 2 ^ k
xor-lt zero zero zero h g = omega arith
xor-lt zero (suc a) b h g = absurd (omega arith)
xor-lt zero zero (suc b) h g = absurd (omega arith)
xor-lt (suc k) a b h g = omega (
  arith,
  pow-suc 2 k,
  xor_lowest a b,
  xor-lt k (a / 2) (b / 2) (omega (arith, pow-suc 2 k)) (omega (arith, pow-suc 2 k)),
)

-- The bits above the second operand stay.
pub xor-fields :
    (k q r b : ℕ) → r < 2 ^ k → b < 2 ^ k → bit_xor (q * 2 ^ k + r) b ≡ q * 2 ^ k + bit_xor r b
xor-fields zero q zero zero h g = ground (arith, xor_comm q 0, bit_xor-bitwise 0 q)
xor-fields zero q (suc r) b h g = absurd (omega arith)
xor-fields zero q zero (suc b) h g = absurd (omega arith)
xor-fields (suc k) q r b h g = omega (
  arith,
  xor_lowest (q * 2 ^ suc k + r) b,
  xor_lowest r b,
  times_pow-suc q k,
  ap (λ t. bit_xor t (b / 2)) halves,
  xor-fields k q (r / 2) (b / 2) (omega (arith, pow-suc 2 k)) (omega (arith, pow-suc 2 k)),
)
  where
    halves : (q * 2 ^ suc k + r) / 2 ≡ q * 2 ^ k + r / 2
    halves = omega (arith, times_pow-suc q k)

-- Testing the top bit of a register of `j + 1` bits.
pub and-top : (j c : ℕ) → c < 2 ^ suc j → bit_and c (2 ^ j) ≡ (if ltb c (2 ^ j) then 0 else 2 ^ j)
and-top zero zero h = refl
and-top zero (suc zero) h = refl
and-top zero (suc (suc c)) h = absurd (omega arith)
and-top (suc j) c h = ground (
  arith,
  pow-suc 2 j,
  pow-suc 2 (suc j),
  and_lowest c (2 ^ suc j),
  and-half,
  and-top j (c / 2) (omega (arith, pow-suc 2 (suc j))),
)
  where
    and-half : bit_and (c / 2) (2 ^ suc j / 2) ≡ bit_and (c / 2) (2 ^ j)
    and-half = ap (bit_and (c / 2)) (omega (arith, pow-suc 2 j))
