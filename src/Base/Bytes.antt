-- ===== src/Base/Bytes.antt =====
-- Byte strings as lists of numbers below 256, and the big-endian integers of `struct`, of
-- `int.to_bytes` and of slices.
use light_packet.Base.Exceptions.{Result, ok, raise, struct_error}
use light_packet.Base.{
  if◌then◌else◌, zero, suc, ◌/◌, ◌%◌, ◌++◌, Bool, true, ◌&&◌, ◌≡◌, ltb, ℕ, ◌+◌, ◌*◌, ◌^◌, ◌<◌, List,
  [], ◌∷◌, arith, All, take,
}

abbrev pub IsByte : ℕ → Type 0
IsByte b = b < 256

abbrev pub IsBytes : List ℕ → Type 0
IsBytes = All IsByte

-- `int.from_bytes(b, 'big')`, which `struct.unpack` applies to each field.
unfoldable pub unpack_from : ℕ → List ℕ → ℕ
unpack_from acc [] = acc
unpack_from acc (b ∷ bs) = unpack_from (acc * 256 + b) bs

unfoldable pub unpack_be : List ℕ → ℕ
unfolding unpack_from
unpack_be bs = unpack_from 0 bs

-- Four bytes at most make a 32-bit number, two a 16-bit number.
pub unpack_be-take_4 : (bs : List ℕ) → IsBytes bs → unpack_be (take 4 bs) < 2 ^ 32
unfolding unpack_be
unpack_be-take_4 [] h = omega arith
unpack_be-take_4 (a ∷ []) h = omega arith
unpack_be-take_4 (a ∷ b ∷ []) h = omega arith
unpack_be-take_4 (a ∷ b ∷ c ∷ []) h = omega arith
unpack_be-take_4 (a ∷ b ∷ c ∷ d ∷ r) h = omega arith

pub unpack_be-take_2 : (bs : List ℕ) → IsBytes bs → unpack_be (take 2 bs) < 2 ^ 16
unfolding unpack_be
unpack_be-take_2 [] h = omega arith
unpack_be-take_2 (a ∷ []) h = omega arith
unpack_be-take_2 (a ∷ b ∷ r) h = omega arith

-- The test for byte strings, which a concrete string passes by computing.
abbrev pub is_bytes : List ℕ → Bool
is_bytes [] = true
is_bytes (b ∷ bs) = ltb b 256 && is_bytes bs

pub is_bytes-IsBytes : (bs : List ℕ) → is_bytes bs ≡ true → IsBytes bs
is_bytes-IsBytes [] h = tt
is_bytes-IsBytes (b ∷ bs) h = (ground arith, is_bytes-IsBytes bs (ground arith))

-- `n` in `w` big-endian bytes, for `n` below `256 ^ w`.
unfoldable pub pack_be : ℕ → ℕ → List ℕ
pack_be zero n = []
pack_be (suc w) n = pack_be w (n / 256) ++ (n % 256) ∷ []

-- `struct.pack('>H', n)`.
unfoldable pub pack_h : ℕ → Result (List ℕ)
pack_h n = if ltb n (2 ^ 16) then ok (n / 256 ∷ n % 256 ∷ []) else raise struct_error
