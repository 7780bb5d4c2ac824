-- ===== src/Utils/Tests.antt =====
-- Runs of the utilities on small inputs, and the theorems applied to them.
use light_packet.Base.{
  ℕ, ◌≡◌, refl, true, false, List, [], ◌∷◌, ◌++◌, ◌+◌, ◌≤◌, arith, none, replicate, drop, All,
}
use light_packet.Base.Exceptions.{ok}
use light_packet.Base.Bytes.{IsBytes, is_bytes-IsBytes}
use light_packet.Utils.Checksum.{
  ipv4_header_checksum, verify_ipv4_header, transport_checksum, verify_transport_checksum, pad_even,
  fold_carry, add_words, ones_complement, build_pseudo_header, one_byte, two_bytes,
}
use light_packet.Base.Int.{low_bits}
use light_packet.Utils.Checksum.Verify.{
  with_field, verify_ipv4_header-checksum, verify_transport_checksum-transport_checksum,
}
use light_packet.Utils.Fcs.{
  verify, ethernet, frame_relay, crc32_ethernet, crc32_register, crc_bytes, crc_bits, crc_bit,
}
use light_packet.Utils.Checksum.{four_bytes}
use light_packet.Utils.Fcs.Verify.{
  verify-crc32_ethernet, verify-changed_byte, verify-frame_relay_ignores,
}
use light_packet.Utils.Fragmentation.{Ipv4, Fragment4, split, fragment4, ihl_bytes}
use light_packet.Base.{length, length-replicate, ◌^◌}
use light_packet.Utils.Fragmentation.Ipv6.{Ipv6, Fragment6, fragment6}
use light_packet.Utils.Fragmentation.Ipv6.Chunks.{payloads, IsChain6, Fits6, fragment6-payloads}
use light_packet.Utils.Fragmentation.Reassembly.{reassemble, IsChain, Fits, fragment4-reassemble}

-- An IPv4 header, before and after its checksum field.
abbrev header_start : List ℕ
header_start = 0x45 ∷ 0 ∷ 0 ∷ 0x73 ∷ 0 ∷ 0 ∷ 0x40 ∷ 0 ∷ 0x40 ∷ 0x11 ∷ []

abbrev addresses : List ℕ
addresses = 0xc0 ∷ 0xa8 ∷ 0 ∷ 1 ∷ 0xc0 ∷ 0xa8 ∷ 0 ∷ 0xc7 ∷ []

header_checksum_value : ipv4_header_checksum (with_field header_start 0 addresses) ≡ 0xb861
unfolding ipv4_header_checksum ones_complement pad_even add_words fold_carry low_bits
header_checksum_value = refl

header_start-IsBytes : IsBytes header_start
header_start-IsBytes = is_bytes-IsBytes header_start refl

addresses-IsBytes : IsBytes addresses
addresses-IsBytes = is_bytes-IsBytes addresses refl

verify_ipv4_header-checksum_example :
    verify_ipv4_header (
      with_field header_start
        (ipv4_header_checksum (with_field header_start 0 addresses))
        addresses)
    ≡ true
verify_ipv4_header-checksum_example =
    verify_ipv4_header-checksum header_start addresses refl header_start-IsBytes addresses-IsBytes

-- A UDP datagram from 192.168.0.1 to 192.168.0.199.
abbrev source : List ℕ
source = 0xc0 ∷ 0xa8 ∷ 0 ∷ 1 ∷ []

abbrev ports : List ℕ
ports = 0x30 ∷ 0x39 ∷ 0 ∷ 0x35 ∷ 0 ∷ 9 ∷ []

abbrev body : List ℕ
body = 0x7f ∷ []

source-IsBytes : IsBytes source
source-IsBytes = is_bytes-IsBytes source refl

ports-IsBytes : IsBytes ports
ports-IsBytes = is_bytes-IsBytes ports refl

body-IsBytes : IsBytes body
body-IsBytes = is_bytes-IsBytes body refl

udp_checksum : transport_checksum source source 17 (with_field ports 0 body) ≡ ok 0xcf1a
unfolding transport_checksum build_pseudo_header one_byte two_bytes ones_complement pad_even
    add_words fold_carry low_bits
udp_checksum = refl

verify_transport_checksum-transport_checksum_example :
    verify_transport_checksum source source 17 (with_field ports 0xcf1a body) ≡ ok true
verify_transport_checksum-transport_checksum_example =
    verify_transport_checksum-transport_checksum source source 17 ports body refl source-IsBytes
      source-IsBytes ports-IsBytes body-IsBytes 0xcf1a udp_checksum

-- `binascii.crc32`, here any function.
abbrev some_crc32 : List ℕ → ℕ
some_crc32 bs = 0

crc_of_check : crc32_ethernet (0x31 ∷ 0x32 ∷ []) ≡ ok (192 ∷ 19 ∷ 161 ∷ 149 ∷ [])
unfolding crc32_ethernet crc32_register crc_bytes crc_bits crc_bit four_bytes
crc_of_check = refl

verify-crc32_ethernet_example :
    (fcs : List ℕ) × (crc32_ethernet source ≡ ok fcs)
    × (verify some_crc32 (source ++ fcs) ethernet ≡ ok true)
verify-crc32_ethernet_example = verify-crc32_ethernet some_crc32 source source-IsBytes

verify-frame_relay_ignores_example :
    verify some_crc32 (source ++ 1 ∷ 2 ∷ 3 ∷ 4 ∷ []) frame_relay
    ≡ verify some_crc32 (source ++ 5 ∷ 6 ∷ 3 ∷ 4 ∷ []) frame_relay
verify-frame_relay_ignores_example = verify-frame_relay_ignores some_crc32 source 1 2 5 6 3 4

verify-changed_byte_example :
    verify some_crc32 ((0x31 ∷ 0x33 ∷ []) ++ 192 ∷ 19 ∷ 161 ∷ 149 ∷ []) ethernet ≡ ok false
verify-changed_byte_example =
    verify-changed_byte some_crc32 (0x31 ∷ []) [] (192 ∷ 19 ∷ 161 ∷ 149 ∷ []) 0x32 0x33
      (is_bytes-IsBytes (0x31 ∷ []) refl) tt (omega arith) (omega arith) (omega arith) crc_of_check

-- A packet of 20 bytes of header and 20 of payload, over a link of 36 bytes.
abbrev packet_header : Ipv4
packet_header = record {
  version = 4;
  ihl = 5;
  tos = 0;
  total_len = 40;
  id = 7;
  flags = 0;
  frag_offset = 0;
  ttl = 64;
  proto = 17;
  src = source;
  dst = source;
  options = none;
}

abbrev packet_bytes : List ℕ
packet_bytes = replicate 40 1

fragment4-reassemble_example :
    (fs : List Fragment4) × (fragment4 packet_header packet_bytes 36 none 9 ≡ ok (split fs))
    × (reassemble fs ≡ drop (ihl_bytes packet_header) packet_bytes)
    × IsChain 0 fs
    × All (Fits packet_header 36) fs
fragment4-reassemble_example =
    fragment4-reassemble packet_header packet_bytes 36 none 9 refl (omega arith) room short
  where
    room : ihl_bytes packet_header + 8 ≤ 36
    room = unfold ihl_bytes in omega arith

    short : length packet_bytes ≤ ihl_bytes packet_header + 2 ^ 16
    short = omega arith

-- A packet of 40 bytes of header and 1260 of payload, over a link of 1280 bytes.
abbrev packet6_header : Ipv6
packet6_header = record {
  version = 6;
  traffic_class = 0;
  flow_label = 0;
  payload_len = 1260;
  next_header = 17;
  hop_limit = 64;
  src = replicate 16 1;
  dst = replicate 16 2;
}

abbrev packet6_bytes : List ℕ
packet6_bytes = replicate 1300 1

fragment6-payloads_example :
    (fs : List Fragment6) × (fragment6 packet6_header packet6_bytes 1280 none 9 ≡ ok (split fs))
    × (payloads fs ≡ drop 40 packet6_bytes)
    × IsChain6 0 fs
    × All (Fits6 1280) fs
fragment6-payloads_example =
    fragment6-payloads packet6_header packet6_bytes 1280 none 9 (omega arith) (omega (arith, size))
      (omega (arith, size))
  where
    size : length packet6_bytes ≡ 1300
    size = length-replicate {A = ℕ} 1300 1
