-- ===== src/LightBpf/Compiler/Platform.antt =====
-- What the compiler asks of Python's standard library.
use Prim.Native.String.{String}
use light_packet.Base.{ℕ, Option}
use light_packet.Base.Exceptions.{Result}

-- The four 32-bit words of an IPv6 address.
pub record Words : Type 0 where
  pub w0 : ℕ
  pub w1 : ℕ
  pub w2 : ℕ
  pub w3 : ℕ

-- `inet_aton` and its 32-bit word; `IPv6Address(...).packed`; `bytes.fromhex` of a MAC address, as
-- its first four bytes and its last two; `gethostbyname` and `getservbyname`; the network address
-- and the mask of `IPv4Network` and `IPv6Network`; `int(text)`, and `int(text, 0)` where it succeeds; `int(text)` where `text.isdigit()`.
pub record Platform : Type 0 where
  pub inet_aton : String → Result ℕ
  pub ipv6_address : String → Result Words
  pub mac_address : String → Result (ℕ × ℕ)
  pub gethostbyname : String → Option String
  pub getservbyname : String → Option ℕ
  pub ipv4_network : String → Option String → Result (ℕ × ℕ)
  pub ipv6_network : String → Result (Words × Words)
  pub int_of_text : String → Result ℕ
  pub int_base_0 : String → Option ℕ
  pub decimal : String → Option ℕ
  pub lower : String → String
