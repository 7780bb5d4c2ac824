-- ===== src/Utils/Fcs.antt =====
-- utils/FCS.py: the frame check sequences of Ethernet and of Frame Relay.
pub mod Detection
pub mod Verify
use light_packet.Base.{
  ℕ, zero, suc, ◌+◌, ◌-◌, ◌*◌, ◌^◌, bit_and, bit_or, bit_xor, Bool, true, false, List, [], ◌∷◌,
  ◌++◌, length, take, drop, ltb, ◌==◌, ◌&&◌, if◌then◌else◌,
}
use light_packet.Base.Exceptions.{Result, ok, raise, ◌>>=◌}
use light_packet.Utils.Checksum.{two_bytes, four_bytes}

-- One turn of the inner loop: `top` is the bit tested, `mask` the register's width.
unfoldable pub crc_bit : ℕ → ℕ → ℕ → ℕ → ℕ
crc_bit top poly mask crc =
    bit_and (if bit_and crc top == 0 then crc * 2 else bit_xor (crc * 2) poly) mask

-- `for _ in range(n)`.
unfoldable pub crc_bits : ℕ → ℕ → ℕ → ℕ → ℕ → ℕ
unfolding crc_bit
crc_bits top poly mask zero crc = crc
crc_bits top poly mask (suc n) crc = crc_bits top poly mask n (crc_bit top poly mask crc)

-- `for byte in data`, with the byte shifted to the top of the register.
unfoldable pub crc_bytes : ℕ → ℕ → ℕ → ℕ → ℕ → List ℕ → ℕ
unfolding crc_bits
crc_bytes shift top poly mask crc [] = crc
crc_bytes shift top poly mask crc (byte ∷ bs) =
    crc_bytes shift top poly mask (crc_bits top poly mask 8 (bit_xor crc (byte * 2 ^ shift))) bs

unfoldable pub crc32_register : List ℕ → ℕ
crc32_register bs = bit_xor (crc_bytes 24 0x80000000 0x04C11DB7 0xFFFFFFFF 0xFFFFFFFF bs) 0xFFFFFFFF

unfoldable pub crc32_ethernet : List ℕ → Result (List ℕ)
crc32_ethernet bs = four_bytes (crc32_register bs)

unfoldable pub crc16_register : List ℕ → ℕ
crc16_register bs = bit_xor (crc_bytes 8 0x8000 0x1021 0xFFFF 0xFFFF bs) 0xFFFF

unfoldable pub crc16_ccitt : List ℕ → Result (List ℕ)
crc16_ccitt bs = two_bytes (crc16_register bs)

-- The values of `fcs_type`.
pub data FcsType : Type 0 where
  ethernet ieee frame_relay other : FcsType

-- `received_fcs == calculated_fcs`.
unfoldable pub bytes_eqb : List ℕ → List ℕ → Bool
bytes_eqb [] [] = true
bytes_eqb (x ∷ xs) (y ∷ ys) = (x == y) && bytes_eqb xs ys
bytes_eqb xs ys = false

-- `packet[:-n]` and `packet[-n:]`, for a packet of at least `n` bytes.
abbrev pub all_but_last : ℕ → List ℕ → List ℕ
all_but_last n packet = take (length packet - n) packet

abbrev pub last_bytes : ℕ → List ℕ → List ℕ
last_bytes n packet = drop (length packet - n) packet

-- `binascii.crc32` is a parameter: it is a number, which the code masks to 32 bits.
module _ (binascii_crc32 : List ℕ → ℕ) where
  unfoldable pub crc32_ieee : List ℕ → Result (List ℕ)
  crc32_ieee bs = four_bytes (bit_and (binascii_crc32 bs) 0xFFFFFFFF)

  unfoldable pub verify_as : FcsType → List ℕ → Result Bool
  verify_as ethernet packet = do
    calculated_fcs ← crc32_ethernet (all_but_last 4 packet)
    ok (bytes_eqb (last_bytes 4 packet) calculated_fcs)
  verify_as ieee packet = do
    calculated_fcs ← crc32_ieee (all_but_last 4 packet)
    ok (bytes_eqb (last_bytes 4 packet) calculated_fcs)
  verify_as frame_relay packet = do
    calculated_fcs ← crc16_ccitt (all_but_last 4 packet)
    ok (bytes_eqb (last_bytes 2 packet) calculated_fcs)
  verify_as other packet = ok false

  unfoldable pub verify : List ℕ → FcsType → Result Bool
  verify packet fcs_type = if ltb (length packet) 4 then ok false else verify_as fcs_type packet
