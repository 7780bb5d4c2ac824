-- ===== src/Utils/Checksum.antt =====
-- utils/Checksum.py: the Internet checksum, and the pseudo-headers of UDP and TCP.
pub mod Sums
pub mod Verify
use light_packet.Base.{
  ℕ, ◌+◌, ◌*◌, ◌/◌, ◌%◌, ◌^◌, bit_or, Bool, List, [], ◌∷◌, ◌++◌, length, ltb, ◌==◌, ◌&&◌,
  if◌then◌else◌,
}
use light_packet.Base.Int.{negsuc, low_bits}
use light_packet.Base.Exceptions.{Result, ok, raise, ◌>>=◌, value_error, overflow_error}

-- `if len(data) % 2: data += b'\x00'`.
unfoldable pub pad_even : List ℕ → List ℕ
pad_even bs = if length bs % 2 == 0 then bs else bs ++ 0 ∷ []

-- `total = (total & 0xFFFF) + (total >> 16)`.
unfoldable pub fold_carry : ℕ → ℕ
fold_carry total = total % 2 ^ 16 + total / 2 ^ 16

-- The loop over the 16-bit words of padded data.
unfoldable pub add_words : ℕ → List ℕ → ℕ
unfolding fold_carry
add_words total (hi ∷ lo ∷ rest) = add_words (fold_carry (total + bit_or (hi * 2 ^ 8) lo)) rest
add_words total (hi ∷ []) = total
add_words total [] = total

-- `(~total) & 0xFFFF`: `~total` is `negsuc total`.
unfoldable pub ones_complement : List ℕ → ℕ
ones_complement bs = low_bits 16 (negsuc (add_words 0 (pad_even bs)))

unfoldable pub ipv4_header_checksum : List ℕ → ℕ
ipv4_header_checksum header_with_zero_csum = ones_complement header_with_zero_csum

unfoldable pub verify_ipv4_header : List ℕ → Bool
verify_ipv4_header header_with_csum = ones_complement header_with_csum == 0

-- `bytes([v])`.
unfoldable pub one_byte : ℕ → Result (List ℕ)
one_byte v = if ltb v 256 then ok (v ∷ []) else raise value_error

-- `length.to_bytes(2, 'big')` and `length.to_bytes(4, 'big')`.
unfoldable pub two_bytes : ℕ → Result (List ℕ)
two_bytes n = if ltb n (2 ^ 16) then ok (n / 256 ∷ n % 256 ∷ []) else raise overflow_error

unfoldable pub four_bytes : ℕ → Result (List ℕ)
four_bytes n =
    if ltb n (2 ^ 32)
    then ok (n / 2 ^ 24 ∷ n / 2 ^ 16 % 256 ∷ n / 2 ^ 8 % 256 ∷ n % 256 ∷ [])
    else raise overflow_error

unfoldable pub build_pseudo_header : List ℕ → List ℕ → ℕ → ℕ → Result (List ℕ)
build_pseudo_header src dst protocol len =
    if length src == 4 && length dst == 4
    then (do p ← one_byte protocol; l ← two_bytes len; ok (src ++ (dst ++ 0 ∷ (p ++ l))))
    else if length src == 16 && length dst == 16
    then (do l ← four_bytes len; p ← one_byte protocol; ok (src ++ (dst ++ (l ++ 0 ∷ 0 ∷ 0 ∷ p))))
    else raise value_error

unfoldable pub transport_checksum : List ℕ → List ℕ → ℕ → List ℕ → Result ℕ
transport_checksum src dst protocol transport = do
  pseudo ← build_pseudo_header src dst protocol (length transport)
  let csum = ones_complement (pseudo ++ transport)
  ok (if csum == 0 then 0xFFFF else csum)

unfoldable pub verify_transport_checksum : List ℕ → List ℕ → ℕ → List ℕ → Result Bool
verify_transport_checksum src dst protocol transport = do
  pseudo ← build_pseudo_header src dst protocol (length transport)
  ok (ones_complement (pseudo ++ transport) == 0)
