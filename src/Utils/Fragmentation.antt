-- ===== src/Utils/Fragmentation.antt =====
-- utils/fragmentation.py: the fragments of an IPv4 packet, and what both kinds share.
pub mod Pieces
pub mod Reassembly
pub mod Ipv6
use light_packet.Base.{
  ℕ, zero, suc, ◌+◌, ◌-◌, ◌*◌, ◌/◌, ◌%◌, ◌^◌, bit_and, bit_or, Bool, true, false, Option, none,
  some, List, [], ◌∷◌, ◌++◌, length, take, drop, ltb, leb, ◌==◌, not, if◌then◌else◌,
}
use light_packet.Base.Int.{negsuc, int_and}
use light_packet.Base.Exceptions.{Result, ok, raise, ◌>>=◌, type_error}

-- The loop `while offset < len(payload)`, which makes a fragment of each chunk. Each chunk has a
-- byte at least, when `max_data` is not 0, so that the length of the payload is enough fuel.
unfoldable pub fragment_loop {ℓ} :
    {F : Type ℓ} → (ℕ → Bool → List ℕ → F) → ℕ → List ℕ → ℕ → ℕ → List F
fragment_loop make max_data payload zero offset = []
fragment_loop make max_data payload (suc n) offset = elim (ltb offset (length payload)) [
  | true ↦
      let chunk = take max_data (drop offset payload) in
      make offset (ltb (offset + length chunk) (length payload)) chunk
      ∷ fragment_loop make max_data payload n (offset + length chunk)
  | false ↦ []
]

-- An IPv4 header; `ihl` is 0 where the source has None.
pub record Ipv4 : Type 0 where
  pub version : ℕ
  pub ihl : ℕ
  pub tos : ℕ
  pub total_len : ℕ
  pub id : ℕ
  pub flags : ℕ
  pub frag_offset : ℕ
  pub ttl : ℕ
  pub proto : ℕ
  pub src : List ℕ
  pub dst : List ℕ
  pub options : Option (List ℕ)

-- `IPv4(...) / Fragment(payload=chunk)`.
pub record Fragment4 : Type 0 where
  pub header : Ipv4
  pub payload : List ℕ

-- The packet itself, or its fragments.
pub data Fragments {ℓ} (F : Type ℓ) : Type ℓ where
  unchanged : Fragments F
  split : List F → Fragments F

unfoldable pub ihl_bytes : Ipv4 → ℕ
ihl_bytes ip = (if ip.ihl == 0 then 5 else ip.ihl) * 4

-- `ident`, or else the packet's, or else a random one.
unfoldable pub ident_or : Option ℕ → ℕ → ℕ → ℕ
ident_or none id random = if id == 0 then random else id
ident_or (some ident) id random = ident

-- `IPv4(...)` of ipv4.py keeps three bits of the flags and thirteen of the offset.
unfoldable pub new_ipv4 : Ipv4 → Ipv4
new_ipv4 ip = record ip {
  flags = bit_and ip.flags 0x07;
  frag_offset = bit_and ip.frag_offset 0x1fff;
}

unfoldable pub make_fragment4 : Ipv4 → ℕ → ℕ → Bool → List ℕ → Fragment4
make_fragment4 ip ident offset more chunk = record {
  header = new_ipv4 (record ip {
    version = 4;
    ihl = ihl_bytes ip / 4;
    total_len = ihl_bytes ip + length chunk;
    id = ident;
    flags = (if more then 1 else 0);
    frag_offset = offset / 8;
  });
  payload = chunk;
}

-- `(mtu - header) & ~7`, 0 where the difference is negative: the code refuses both.
unfoldable pub max_data : ℕ → ℕ → ℕ
max_data mtu header = int_and (mtu - header) (negsuc 7)

-- `wire` is `pkt.build()`, which has run on `ip`; FRAGMENT_ERROR is no class, so that its call raises TypeError.
unfoldable pub fragment4 : Ipv4 → List ℕ → ℕ → Option ℕ → ℕ → Result (Fragments Fragment4)
fragment4 ip wire mtu ident random =
    if not (bit_and ip.flags 2 == 0)
    then raise type_error
    else if leb (length wire) mtu
    then ok unchanged
    else if max_data mtu (ihl_bytes ip) == 0
    then raise type_error
    else ok (
        split (
          fragment_loop (make_fragment4 ip (ident_or ident ip.id random))
            (max_data mtu (ihl_bytes ip)) (drop (ihl_bytes ip) wire)
            (length (drop (ihl_bytes ip) wire)) 0))
