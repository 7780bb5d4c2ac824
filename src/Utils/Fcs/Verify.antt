-- ===== src/Utils/Fcs/Verify.antt =====
-- What `FCS.verify` accepts and what it refuses.
use light_packet.Base.{
  ℕ, ◌+◌, ◌-◌, ◌/◌, ◌%◌, ◌^◌, ◌<◌, ◌≡◌, ◌≢◌, refl, ap, sym, ◌∙◌, Bool, true, false, List, [], ◌∷◌,
  ◌++◌, arith, length, length-append, take-length, drop-length, ltb, if◌then◌else◌, All-append,
  append_assoc,
}
use light_packet.Base.Bits.Xor.{xor-lt, xor_right_cancel}
use light_packet.Base.Bytes.{IsBytes}
use light_packet.Base.Exceptions.{ok, ◌>>=◌, ok-eq}
use light_packet.Utils.Checksum.{two_bytes, four_bytes}
use light_packet.Utils.Fcs.{
  crc32_register, crc32_ethernet, crc16_register, crc16_ccitt, ethernet, frame_relay, bytes_eqb,
  all_but_last, last_bytes, verify_as, verify,
}
use light_packet.Utils.Fcs.Detection.{crc_bytes-lt, crc_bytes-changed}

bytes_eqb_refl : (xs : List ℕ) → bytes_eqb xs xs ≡ true
unfolding bytes_eqb
bytes_eqb_refl [] = refl
bytes_eqb_refl (x ∷ xs) = ground (arith, bytes_eqb_refl xs)

bytes_eqb-eq : (xs ys : List ℕ) → bytes_eqb xs ys ≡ true → xs ≡ ys
unfolding bytes_eqb
bytes_eqb-eq [] [] h = refl
bytes_eqb-eq [] (y ∷ ys) h = cc
bytes_eqb-eq (x ∷ xs) [] h = cc
bytes_eqb-eq (x ∷ xs) (y ∷ ys) h = ground (arith, bytes_eqb-eq xs ys)

crc32_register-lt : (bs : List ℕ) → IsBytes bs → crc32_register bs < 2 ^ 32
unfolding crc32_register
crc32_register-lt bs b =
    xor-lt 32 _ 0xFFFFFFFF
      (crc_bytes-lt 31 0x04C11DB7 (omega arith) refl 24 refl bs 0xFFFFFFFF (omega arith) b)
      (omega arith)

crc16_register-lt : (bs : List ℕ) → IsBytes bs → crc16_register bs < 2 ^ 16
unfolding crc16_register
crc16_register-lt bs b =
    xor-lt 16 _ 0xFFFF (crc_bytes-lt 15 0x1021 (omega arith) refl 8 refl bs 0xFFFF (omega arith) b)
      (omega arith)

-- `n` in four bytes, and in two.
abbrev be_4 : ℕ → List ℕ
be_4 n = n / 2 ^ 24 ∷ n / 2 ^ 16 % 256 ∷ n / 2 ^ 8 % 256 ∷ n % 256 ∷ []

abbrev be_2 : ℕ → List ℕ
be_2 n = n / 256 ∷ n % 256 ∷ []

crc32_ethernet_lem : (bs : List ℕ) → IsBytes bs → crc32_ethernet bs ≡ ok (be_4 (crc32_register bs))
unfolding crc32_ethernet four_bytes
crc32_ethernet_lem bs b = ground (arith, crc32_register-lt bs b)

crc16_ccitt_lem : (bs : List ℕ) → IsBytes bs → crc16_ccitt bs ≡ ok (be_2 (crc16_register bs))
unfolding crc16_ccitt two_bytes
crc16_ccitt_lem bs b = ground (arith, crc16_register-lt bs b)

all_but_last-append : (n : ℕ) (bs fcs : List ℕ) → length fcs ≡ n → all_but_last n (bs ++ fcs) ≡ bs
all_but_last-append n bs fcs e = rw size (take-length bs fcs)
  where
    size : length (bs ++ fcs) - n ≡ length bs
    size = omega (arith, length-append bs fcs)

last_bytes-append : (n : ℕ) (bs fcs : List ℕ) → length fcs ≡ n → last_bytes n (bs ++ fcs) ≡ fcs
last_bytes-append n bs fcs e = rw size (drop-length bs fcs)
  where
    size : length (bs ++ fcs) - n ≡ length bs
    size = omega (arith, length-append bs fcs)

length-be_4 : (n : ℕ) → length (be_4 n) ≡ 4
length-be_4 n = refl

-- The four bytes of a 32-bit number tell it.
be_4-eq : (m n : ℕ) → m < 2 ^ 32 → n < 2 ^ 32 → be_4 m ≡ be_4 n → m ≡ n
be_4-eq m n h g e = omega (arith, four-eq e)
  where
    four-eq :
        {a b c d a' b' c' d' : ℕ}
        → a ∷ b ∷ c ∷ d ∷ [] ≡ a' ∷ b' ∷ c' ∷ d' ∷ []
        → (a ≡ a') × (b ≡ b') × (c ≡ c') × (d ≡ d')
    four-eq p = (cc, cc, cc, cc)

eq-false : (b : Bool) → (b ≡ true → ⊥) → b ≡ false
eq-false true h = absurd (h refl)
eq-false false h = refl

crc32_register-changed :
    (pre post : List ℕ) (x y : ℕ)
    → IsBytes pre
    → IsBytes post
    → x < 256
    → y < 256
    → crc32_register (pre ++ x ∷ post) ≡ crc32_register (pre ++ y ∷ post)
    → x ≡ y
unfolding crc32_register
crc32_register-changed pre post x y hpre hpost hx hy e =
    crc_bytes-changed 31 0x04C11DB7 (omega arith) refl 24 refl pre 0xFFFFFFFF x y post (omega arith)
      hpre hx hy hpost (xor_right_cancel _ _ 0xFFFFFFFF e)

module _ (binascii_crc32 : List ℕ → ℕ) where
  -- On a frame that carries four bytes after its data, the check compares them with the CRC.
  verify-ethernet :
      (bs fcs : List ℕ)
      → IsBytes bs
      → length fcs ≡ 4
      → verify binascii_crc32 (bs ++ fcs) ethernet ≡ ok (bytes_eqb fcs (be_4 (crc32_register bs)))
  unfolding verify verify_as
  verify-ethernet bs fcs h e =
      rw (all_but_last-append 4 bs fcs e, last_bytes-append 4 bs fcs e, crc32_ethernet_lem bs h)
        (long (length-append bs fcs))
    where
      long :
          length (bs ++ fcs) ≡ length bs + length fcs
          → (if ltb (length (bs ++ fcs)) 4
              then ok false
              else ok (bytes_eqb fcs (be_4 (crc32_register bs))))
            ≡ ok (bytes_eqb fcs (be_4 (crc32_register bs)))
      long g = ground arith

  -- The CRC of a string of bytes is computed without an exception, and a frame that ends in the CRC
  -- of its data is accepted.
  pub verify-crc32_ethernet :
      (bs : List ℕ)
      → IsBytes bs
      → (fcs : List ℕ) × (crc32_ethernet bs ≡ ok fcs)
        × (verify binascii_crc32 (bs ++ fcs) ethernet ≡ ok true)
  verify-crc32_ethernet bs h = (
    be_4 (crc32_register bs),
    crc32_ethernet_lem bs h,
    verify-ethernet bs (be_4 (crc32_register bs)) h refl
        ∙ ap ok (bytes_eqb_refl (be_4 (crc32_register bs))),
  )

  -- A frame of bytes in which one byte of the data is another than the CRC was taken of is refused.
  pub verify-changed_byte :
      (pre post fcs : List ℕ) (x y : ℕ)
      → IsBytes pre
      → IsBytes post
      → x < 256
      → y < 256
      → x ≢ y
      → crc32_ethernet (pre ++ x ∷ post) ≡ ok fcs
      → verify binascii_crc32 (pre ++ y ∷ post ++ fcs) ethernet ≡ ok false
  verify-changed_byte pre post fcs x y hpre hpost hx hy n e =
      verify-ethernet (pre ++ y ∷ post) fcs (whole y hy) (rw given refl)
      ∙ ap ok (
          rw given (
            eq-false _ λ t. n (
              crc32_register-changed pre post x y hpre hpost hx hy (
                be_4-eq _ _ (crc32_register-lt _ (whole x hx)) (crc32_register-lt _ (whole y hy))
                  (bytes_eqb-eq _ _ t)))))
    where
      whole : (z : ℕ) → z < 256 → IsBytes (pre ++ z ∷ post)
      whole z h = All-append (λ (b : ℕ). b < 256) pre (z ∷ post) hpre (h, hpost)

      given : fcs ≡ be_4 (crc32_register (pre ++ x ∷ post))
      given = ok-eq (sym e ∙ crc32_ethernet_lem (pre ++ x ∷ post) (whole x hx))

  verify-frame_relay :
      (bs : List ℕ) (p q c d : ℕ)
      → verify binascii_crc32 (bs ++ p ∷ q ∷ c ∷ d ∷ []) frame_relay
        ≡ (crc16_ccitt bs >>= λ calculated_fcs. ok (bytes_eqb (c ∷ d ∷ []) calculated_fcs))
  unfolding verify verify_as
  verify-frame_relay bs p q c d =
      rw (all_but_last-append 4 bs (p ∷ q ∷ c ∷ d ∷ []) refl, tail)
        (long (length-append bs (p ∷ q ∷ c ∷ d ∷ [])))
    where
      tail : last_bytes 2 (bs ++ p ∷ q ∷ c ∷ d ∷ []) ≡ c ∷ d ∷ []
      tail =
          ap (last_bytes 2) (sym (append_assoc bs (p ∷ q ∷ []) (c ∷ d ∷ [])))
          ∙ last_bytes-append 2 (bs ++ p ∷ q ∷ []) (c ∷ d ∷ []) refl

      long :
          length (bs ++ p ∷ q ∷ c ∷ d ∷ []) ≡ length bs + 4
          → (if ltb (length (bs ++ p ∷ q ∷ c ∷ d ∷ [])) 4
              then ok false
              else (crc16_ccitt bs >>= λ calculated_fcs.
                  ok (bytes_eqb (c ∷ d ∷ []) calculated_fcs)))
            ≡ (crc16_ccitt bs >>= λ calculated_fcs. ok (bytes_eqb (c ∷ d ∷ []) calculated_fcs))
      long g = ground arith

  -- The two bytes before the FCS of a Frame Relay frame are in neither side of the comparison.
  pub verify-frame_relay_ignores :
      (bs : List ℕ) (p q p' q' c d : ℕ)
      → verify binascii_crc32 (bs ++ p ∷ q ∷ c ∷ d ∷ []) frame_relay
        ≡ verify binascii_crc32 (bs ++ p' ∷ q' ∷ c ∷ d ∷ []) frame_relay
  verify-frame_relay_ignores bs p q p' q' c d =
      verify-frame_relay bs p q c d ∙ sym (verify-frame_relay bs p' q' c d)
