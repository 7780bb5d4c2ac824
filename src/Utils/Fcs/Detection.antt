-- ===== src/Utils/Fcs/Detection.antt =====
-- What the cyclic redundancy codes detect: the register never forgets a difference.
use light_packet.Base.{
  ℕ, zero, suc, ◌+◌, ◌-◌, ◌*◌, ◌%◌, ◌^◌, ◌<◌, ◌≤◌, ◌≡◌, ap, ◌∙◌, bit_and, bit_xor, List, [], ◌∷◌,
  ◌++◌, arith, ltb, if◌then◌else◌,
}
use light_packet.Base.Bits.{and_mask_fields}
use light_packet.Base.Bits.Xor.{
  xor_lowest, xor-lt, xor-fields, xor_left_cancel, xor_right_cancel, and-top,
}
use light_packet.Base.Bytes.{IsBytes}
use light_packet.Utils.Fcs.{crc_bit, crc_bits, crc_bytes}
use native.Mathlib.Nat.{pow-suc, one-le-pow, mul-lt-mul_of_pos_right, eq_of_mul-eq-mul_right}

-- A register of `j + 1` bits, and a polynomial with a constant term.
module _ (j poly : ℕ) (fits : poly < 2 ^ suc j) (odd : poly % 2 ≡ 1) where
  -- The shift keeps an even number, or adds the polynomial and makes it odd.
  crc_bit-value :
      (c : ℕ)
      → c < 2 ^ suc j
      → crc_bit (2 ^ j) poly (2 ^ suc j - 1) c
        ≡ (if ltb c (2 ^ j) then c * 2 else bit_xor (c * 2 - 2 ^ suc j) poly)
  unfolding crc_bit
  crc_bit-value c h = ground (arith, pow-suc 2 j, one-le-pow j 2, and-top j c h, low, high)
    where
      low : c < 2 ^ j → bit_and (c * 2) (2 ^ suc j - 1) ≡ c * 2
      low g =
          ap (λ t. bit_and t (2 ^ suc j - 1)) whole
          ∙ and_mask_fields (suc j) 0 (c * 2) (omega (arith, pow-suc 2 j))
        where
          whole : c * 2 ≡ 0 * 2 ^ suc j + c * 2
          whole = omega arith

      high :
          2 ^ j ≤ c
          → bit_and (bit_xor (c * 2) poly) (2 ^ suc j - 1) ≡ bit_xor (c * 2 - 2 ^ suc j) poly
      high g =
          let r = c * 2 - 2 ^ suc j in
          let small : r < 2 ^ suc j = omega (arith, pow-suc 2 j) in
          ap (λ t. bit_and t (2 ^ suc j - 1))
            (ap (λ t. bit_xor t poly) (split g) ∙ xor-fields (suc j) 1 r poly small fits)
          ∙ and_mask_fields (suc j) 1 (bit_xor r poly) (xor-lt (suc j) r poly small fits)
        where
          split : 2 ^ j ≤ c → c * 2 ≡ 1 * 2 ^ suc j + (c * 2 - 2 ^ suc j)
          split g = omega (arith, pow-suc 2 j)

  crc_bit-lt : (c : ℕ) → c < 2 ^ suc j → crc_bit (2 ^ j) poly (2 ^ suc j - 1) c < 2 ^ suc j
  crc_bit-lt c h = ground (
    arith,
    crc_bit-value c h,
    pow-suc 2 j,
    xor-lt (suc j) (c * 2 - 2 ^ suc j) poly (omega (arith, pow-suc 2 j)) fits,
  )

  -- Two registers never fall together: the low bit tells which branch was taken.
  crc_bit-eq :
      (c d : ℕ)
      → c < 2 ^ suc j
      → d < 2 ^ suc j
      → crc_bit (2 ^ j) poly (2 ^ suc j - 1) c ≡ crc_bit (2 ^ j) poly (2 ^ suc j - 1) d
      → c ≡ d
  crc_bit-eq c d h g e = ground (
    arith,
    pow-suc 2 j,
    crc_bit-value c h,
    crc_bit-value d g,
    xor_lowest (c * 2 - 2 ^ suc j) poly,
    xor_lowest (d * 2 - 2 ^ suc j) poly,
    xor_right_cancel (c * 2 - 2 ^ suc j) (d * 2 - 2 ^ suc j) poly,
  )

  crc_bits-lt : (n c : ℕ) → c < 2 ^ suc j → crc_bits (2 ^ j) poly (2 ^ suc j - 1) n c < 2 ^ suc j
  unfolding crc_bits
  crc_bits-lt zero c h = h
  crc_bits-lt (suc n) c h = crc_bits-lt n _ (crc_bit-lt c h)

  crc_bits-eq :
      (n c d : ℕ)
      → c < 2 ^ suc j
      → d < 2 ^ suc j
      → crc_bits (2 ^ j) poly (2 ^ suc j - 1) n c ≡ crc_bits (2 ^ j) poly (2 ^ suc j - 1) n d
      → c ≡ d
  unfolding crc_bits
  crc_bits-eq zero c d h g e = e
  crc_bits-eq (suc n) c d h g e =
      crc_bit-eq c d h g (crc_bits-eq n _ _ (crc_bit-lt c h) (crc_bit-lt d g) e)

  -- A byte is added at the top of the register.
  module _ (shift : ℕ) (top : 256 * 2 ^ shift ≡ 2 ^ suc j) where
    added-lt : (c b : ℕ) → c < 2 ^ suc j → b < 256 → bit_xor c (b * 2 ^ shift) < 2 ^ suc j
    added-lt c b h g = xor-lt (suc j) c (b * 2 ^ shift) h (
        omega (
          arith,
          mul-lt-mul_of_pos_right {m = b} {n = 256} {k = 2 ^ shift} g
              (omega (arith, one-le-pow shift 2)),
        ))

    pub crc_bytes-lt :
        (bs : List ℕ) (c : ℕ)
        → c < 2 ^ suc j
        → IsBytes bs
        → crc_bytes shift (2 ^ j) poly (2 ^ suc j - 1) c bs < 2 ^ suc j
    unfolding crc_bytes
    crc_bytes-lt [] c h b = h
    crc_bytes-lt (x ∷ bs) c h b = crc_bytes-lt bs _ (crc_bits-lt 8 _ (added-lt c x h b.0)) b.1

    crc_bytes-eq :
        (bs : List ℕ) (c d : ℕ)
        → c < 2 ^ suc j
        → d < 2 ^ suc j
        → IsBytes bs
        → crc_bytes shift (2 ^ j) poly (2 ^ suc j - 1) c bs
          ≡ crc_bytes shift (2 ^ j) poly (2 ^ suc j - 1) d bs
        → c ≡ d
    unfolding crc_bytes
    crc_bytes-eq [] c d h g b e = e
    crc_bytes-eq (x ∷ bs) c d h g b e = xor_right_cancel c d (x * 2 ^ shift) (
        crc_bits-eq 8 _ _ (added-lt c x h b.0) (added-lt d x g b.0) (
          crc_bytes-eq bs _ _ (crc_bits-lt 8 _ (added-lt c x h b.0))
            (crc_bits-lt 8 _ (added-lt d x g b.0)) b.1 e))

    pub crc_bytes-changed :
        (pre : List ℕ) (c x y : ℕ) (post : List ℕ)
        → c < 2 ^ suc j
        → IsBytes pre
        → x < 256
        → y < 256
        → IsBytes post
        → crc_bytes shift (2 ^ j) poly (2 ^ suc j - 1) c (pre ++ x ∷ post)
          ≡ crc_bytes shift (2 ^ j) poly (2 ^ suc j - 1) c (pre ++ y ∷ post)
        → x ≡ y
    unfolding crc_bytes
    crc_bytes-changed [] c x y post h bp hx hy b e = times_cancel (
        xor_left_cancel (x * 2 ^ shift) (y * 2 ^ shift) c (
          crc_bits-eq 8 _ _ (added-lt c x h hx) (added-lt c y h hy) (
            crc_bytes-eq post _ _ (crc_bits-lt 8 _ (added-lt c x h hx))
              (crc_bits-lt 8 _ (added-lt c y h hy)) b e)))
      where
        times_cancel : x * 2 ^ shift ≡ y * 2 ^ shift → x ≡ y
        times_cancel e =
            eq_of_mul-eq-mul_right (2 ^ shift) (omega (arith, one-le-pow shift 2)) x y e
    crc_bytes-changed (z ∷ pre) c x y post h bp hx hy b e =
        crc_bytes-changed pre _ x y post (crc_bits-lt 8 _ (added-lt c z h bp.0)) bp.1 hx hy b e
