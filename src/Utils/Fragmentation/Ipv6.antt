-- ===== src/Utils/Fragmentation/Ipv6.antt =====
-- utils/fragmentation.py: the fragments of an IPv6 packet.
pub mod Chunks
use light_packet.Base.{
  ℕ, ◌+◌, ◌*◌, ◌/◌, ◌%◌, ◌^◌, bit_and, bit_or, Bool, Option, none, some, List, [], ◌∷◌, ◌++◌,
  length, drop, ltb, leb, ◌==◌, if◌then◌else◌,
}
use light_packet.Base.Exceptions.{Result, ok, raise, ◌>>=◌, type_error}
use light_packet.Base.Bytes.{pack_be, pack_h}
use light_packet.Utils.Fragmentation.{Fragments, unchanged, split, fragment_loop, max_data}

-- The fields of an IPv6 header that `fragment6` reads or sets; `next_header` is 0 for None.
pub record Ipv6 : Type 0 where
  pub version : ℕ
  pub traffic_class : ℕ
  pub flow_label : ℕ
  pub payload_len : ℕ
  pub next_header : ℕ
  pub hop_limit : ℕ
  pub src : List ℕ
  pub dst : List ℕ

-- `IPv6(...) / IPv6ExtHeader(type=44, next_header=original_nh, data=frag_body) / Fragment(chunk)`.
pub record Fragment6 : Type 0 where
  pub header : Ipv6
  pub original_nh : ℕ
  pub frag_body : List ℕ
  pub payload : List ℕ

-- `((offset // 8) << 3) | (more & 0x1)`.
unfoldable pub offset_word : ℕ → Bool → ℕ
offset_word offset more = bit_or (offset / 8 * 2 ^ 3) (if more then 1 else 0)

-- `struct.pack('>BHI', 0, word, ident & 0xFFFFFFFF)`.
unfoldable pub pack_bhi : ℕ → ℕ → Result (List ℕ)
pack_bhi word ident = do w ← pack_h word; ok (0 ∷ (w ++ pack_be 4 (ident % 2 ^ 32)))

-- `IPv6(...)` of ipv6.py keeps eight bits of the traffic class and twenty of the flow label.
unfoldable pub new_ipv6 : Ipv6 → Ipv6
new_ipv6 ip6 = record ip6 {
  traffic_class = bit_and ip6.traffic_class 0xff;
  flow_label = bit_and ip6.flow_label 0xfffff;
}

unfoldable pub make_fragment6 : Ipv6 → ℕ → ℕ → Bool → List ℕ → Result Fragment6
make_fragment6 ip6 ident offset more chunk = do
  body ← pack_bhi (offset_word offset more) ident
  ok (record {
    header =
        new_ipv6 (record ip6 { version = 6; payload_len = 8 + length chunk; next_header = 44 });
    original_nh = (if ip6.next_header == 0 then 59 else ip6.next_header);
    frag_body = body;
    payload = chunk;
  })

-- The fragments of the rounds of the loop, or the exception of the first that raises.
unfoldable pub sequence {ℓ} : {A : Type ℓ} → List (Result A) → Result (List A)
sequence [] = ok []
sequence (m ∷ ms) = do first ← m; others ← sequence ms; ok (first ∷ others)

-- `ident`, or else a random one.
unfoldable pub ident_or_random : Option ℕ → ℕ → ℕ
ident_or_random none random = random
ident_or_random (some ident) random = ident

-- `wire` is `pkt.build()`. The header is 40 bytes and the fragment header 8.
unfoldable pub fragment6 : Ipv6 → List ℕ → ℕ → Option ℕ → ℕ → Result (Fragments Fragment6)
fragment6 ip6 wire mtu ident random =
    if ltb mtu 1280
    then raise type_error
    else if leb (length wire) mtu
    then ok unchanged
    else if max_data mtu 48 == 0
    then raise type_error
    else (sequence (
          fragment_loop (make_fragment6 ip6 (ident_or_random ident random)) (max_data mtu 48)
            (drop 40 wire) (length (drop 40 wire)) 0)
        >>= λ fragments. ok (split fragments))
