-- ===== src/Layers/Tests.antt =====
-- A UDP datagram and a stack of VLAN tags, and the theorems applied to them.
use light_packet.Base.{ℕ, ◌≡◌, refl, arith, some, none, true, length, List, [], ◌∷◌}
use light_packet.Base.Exceptions.{ok}
use light_packet.Base.Bytes.{pack_h, is_bytes-IsBytes}
use light_packet.Base.Int.{low_bits}
use light_packet.Utils.Checksum.{
  verify_transport_checksum, transport_checksum, pad_even, fold_carry, add_words, ones_complement,
  build_pseudo_header, one_byte, two_bytes,
}
use light_packet.Layers.Udp.{
  Udp, build, compute_checksum, load_as_udp_layer, length_field, pack_hhhh,
}
use light_packet.Layers.Udp.Datagram.{
  filled, load_as_udp_layer-build, verify_transport_checksum-compute_checksum,
}
use light_packet.Layers.Vlan as Tagged
use light_packet.Layers.Vlan.{Vlan, load_as_vlan_layer, check_layers, vlannum}
use light_packet.Layers.Vlan.Stacked.{fits}
use light_packet.Layers.Vlan.RoundTrip.{inner, outer, load_as_vlan_layer-build}

abbrev query : Udp
query = record { sport = 12345; dport = 53; len = none; checksum = none; payload = 0x7f ∷ [] }

abbrev client : List ℕ
client = 0xc0 ∷ 0xa8 ∷ 0 ∷ 1 ∷ []

load_as_udp_layer-build_example :
    (raw : List ℕ) × (build query ≡ ok (filled query, raw))
    × (load_as_udp_layer raw ≡ ok (filled query))
load_as_udp_layer-build_example =
    load_as_udp_layer-build query (omega arith) (omega arith) (omega arith) refl (omega arith)

query_checksum : compute_checksum query client client ≡ ok (record query { checksum = some 0xcf1a })
unfolding compute_checksum length_field pack_hhhh pack_h transport_checksum build_pseudo_header
    one_byte two_bytes ones_complement pad_even add_words fold_carry low_bits
query_checksum = refl

verify_transport_checksum-compute_checksum_example :
    (w : Udp) × (raw : List ℕ) × (build (record query { checksum = some 0xcf1a }) ≡ ok (w, raw))
    × (verify_transport_checksum client client 17 raw ≡ ok true)
verify_transport_checksum-compute_checksum_example =
    verify_transport_checksum-compute_checksum query (record query { checksum = some 0xcf1a })
      client client (is_bytes-IsBytes client refl) (is_bytes-IsBytes client refl)
      (is_bytes-IsBytes (0x7f ∷ []) refl) query_checksum

-- A customer tag under a service tag, over an IPv4 type.
abbrev two_tags : List Vlan
two_tags =
    record { tpid = 0x8100; priority = 3; dei = 0; vlan_id = 100 }
    ∷ record { tpid = 0x8100; priority = 0; dei = 1; vlan_id = 20 }
    ∷ []

load_as_vlan_layer-build_example :
    (raw : List ℕ) × (Tagged.build two_tags (8 ∷ 0 ∷ []) ≡ ok raw)
    × (load_as_vlan_layer raw ≡ ok (check_layers two_tags))
    × (vlannum raw ≡ length two_tags)
load_as_vlan_layer-build_example =
    load_as_vlan_layer-build two_tags (8 ∷ 0 ∷ [])
      (outer _ _ [] (fits _ (omega arith) (omega arith) (omega arith) (omega arith)) (
        inner _ (fits _ (omega arith) (omega arith) (omega arith) (omega arith)) (omega arith)
          refl))
      refl
