-- ===== src/Utils/Fragmentation/Ipv6/Chunks.antt =====
-- The fragments of an IPv6 packet fit the link and put together give the payload.
use light_packet.Base.{
  ℕ, ◌+◌, ◌/◌, ◌%◌, ◌^◌, ◌≤◌, ◌<◌, ◌≡◌, refl, ap, ◌∙◌, Bool, true, false, Option, List, [], ◌∷◌,
  ◌++◌, arith, length, length-append, length-drop, take, drop, ltb, leb, ◌==◌, if◌then◌else◌, All,
  lt→ltb,
}
use mathlib.Core.List.{append-nil}
use light_packet.Base.Bits.{or_disjoint}
use light_packet.Base.Bytes.{unpack_be, pack_be, pack_h}
use light_packet.Base.Exceptions.{Result, ok}
use light_packet.Utils.Fragmentation.{split, max_data}
use light_packet.Utils.Fragmentation.Pieces.{Covers, last, more, fragment_loop-Covers}
use light_packet.Utils.Fragmentation.Reassembly.{max_data_lem}
use light_packet.Utils.Fragmentation.Ipv6.{
  Ipv6, Fragment6, offset_word, pack_bhi, new_ipv6, make_fragment6, sequence, ident_or_random,
  fragment6,
}

-- The payloads, one after the other.
unfoldable pub payloads : List Fragment6 → List ℕ
payloads [] = []
payloads (f ∷ fs) = f.payload ++ payloads fs

-- The word of offset and flag that the fragment header carries.
abbrev pub word_of : Fragment6 → ℕ
word_of f = unpack_be (take 2 (drop 1 f.frag_body))

-- The offsets follow on from `off`, and all but the last say that more fragments follow.
unfoldable pub IsChain6 : ℕ → List Fragment6 → Type 0
IsChain6 off [] = ⊥
IsChain6 off (f ∷ []) = word_of f ≡ off
IsChain6 off (f ∷ g ∷ fs) = (word_of f ≡ off + 1) × IsChain6 (off + length f.payload) (g ∷ fs)

-- The payload length counts the fragment header, and the whole fits the link.
abbrev pub Fits6 : ℕ → Fragment6 → Type 0
Fits6 mtu f = (f.header.payload_len ≡ 8 + length f.payload) × (40 + f.header.payload_len ≤ mtu)

-- A fragment in front of a chain.
IsChain6-cons :
    (off : ℕ) (f : Fragment6) (fs : List Fragment6)
    → word_of f ≡ off + 1
    → IsChain6 (off + length f.payload) fs
    → IsChain6 off (f ∷ fs)
unfolding IsChain6
IsChain6-cons off f [] e c = absurd c
IsChain6-cons off f (g ∷ fs) e c = (e, c)

offset_word-value :
    (off : ℕ) (m : Bool) → off % 8 ≡ 0 → offset_word off m ≡ off + (if m then 1 else 0)
unfolding offset_word
offset_word-value off true e = omega (arith, or_disjoint 3 (off / 8) 1 (omega arith))
offset_word-value off false e = omega (arith, or_disjoint 3 (off / 8) 0 (omega arith))

offset_word-lt : (off : ℕ) (m : Bool) → off % 8 ≡ 0 → off < 2 ^ 16 → offset_word off m < 2 ^ 16
offset_word-lt off true e h = omega (arith, offset_word-value off true e)
offset_word-lt off false e h = omega (arith, offset_word-value off false e)

module _ (ip6 : Ipv6) (ident : ℕ) where
  -- The fragment that is made at an offset that fits.
  abbrev made : ℕ → Bool → List ℕ → Fragment6
  made off m chunk = record {
    header =
        new_ipv6 (record ip6 { version = 6; payload_len = 8 + length chunk; next_header = 44 });
    original_nh = (if ip6.next_header == 0 then 59 else ip6.next_header);
    frag_body =
        0 ∷ (offset_word off m / 256) ∷ (offset_word off m % 256) ∷ pack_be 4 (ident % 2 ^ 32);
    payload = chunk;
  }

  make_fragment6-made :
      (off : ℕ) (m : Bool) (chunk : List ℕ)
      → off % 8 ≡ 0
      → off < 2 ^ 16
      → make_fragment6 ip6 ident off m chunk ≡ ok (made off m chunk)
  unfolding make_fragment6 pack_bhi pack_h
  make_fragment6-made off m chunk e h =
      rw (lt→ltb (offset_word off m) (2 ^ 16) (offset_word-lt off m e h)) refl

  word_of-made :
      (off : ℕ) (m : Bool) (chunk : List ℕ)
      → off % 8 ≡ 0
      → off < 2 ^ 16
      → word_of (made off m chunk) ≡ off + (if m then 1 else 0)
  unfolding unpack_be
  word_of-made off m chunk e h = omega (arith, offset_word-lt off m e h, offset_word-value off m e)

  module _ (limit mtu : ℕ) (room : 48 + limit ≤ mtu) (positive : 0 < limit) where
    sequence-Covers :
        (off : ℕ) (bs : List ℕ) (rs : List (Result Fragment6))
        → Covers (make_fragment6 ip6 ident) limit off bs rs
        → off + length bs ≤ 2 ^ 16
        → (fs : List Fragment6) × (sequence rs ≡ ok fs)
          × (payloads fs ≡ bs)
          × IsChain6 off fs
          × All (Fits6 mtu) fs
    unfolding sequence payloads IsChain6 new_ipv6
    sequence-Covers off bs _ (last _ _ e p l) h = (
      made off false bs ∷ [],
      rw (make_fragment6-made off false bs e (omega arith)) refl,
      append-nil bs,
      word_of-made off false bs e (omega arith) ∙ omega arith,
      ((refl, omega arith), tt),
    )
    sequence-Covers off _ _ (more _ chunk rest rs e f c) h =
        let joined_size = length-append chunk rest in
        let others = sequence-Covers (off + length chunk) rest rs c (omega arith) in
        let below : off < 2 ^ 16 = omega arith in
        (
          made off true chunk ∷ others.0,
          rw (make_fragment6-made off true chunk e below, others.1) refl,
          ap (λ r. chunk ++ r) others.2,
          IsChain6-cons off (made off true chunk) others.0 (word_of-made off true chunk e below)
              others.3,
          ((refl, omega arith), others.4),
        )

-- A packet too large for the link, with a length in 16 bits, is fragmented over a link of 1280 bytes
-- at least: the fragments fit, follow each other and give the payload back.
pub fragment6-payloads :
    (ip6 : Ipv6) (wire : List ℕ) (mtu : ℕ) (ident : Option ℕ) (random : ℕ)
    → 1280 ≤ mtu
    → mtu < length wire
    → length wire < 2 ^ 16
    → (fs : List Fragment6) × (fragment6 ip6 wire mtu ident random ≡ ok (split fs))
      × (payloads fs ≡ drop 40 wire)
      × IsChain6 0 fs
      × All (Fits6 mtu) fs
unfolding fragment6
fragment6-payloads ip6 wire mtu ident random minimum large short =
    let bounds = max_data_lem mtu 48 (omega arith) in
    let bs = drop 40 wire in
    let size = length-drop 40 wire in
    let made =
      sequence-Covers ip6 (ident_or_random ident random) (max_data mtu 48) mtu
        (omega (arith, bounds.2)) (omega (arith, bounds.1)) 0 bs _
        (fragment_loop-Covers (make_fragment6 ip6 (ident_or_random ident random)) (max_data mtu 48)
          bounds.0 (omega (arith, bounds.1)) bs (length bs) 0 refl (omega arith) (omega arith))
        (omega arith) in
    (made.0, rw (wide, too_large, limit_not_0 bounds.1, made.1) refl, made.2, made.3, made.4)
  where
    wide : ltb mtu 1280 ≡ false
    wide = ground arith

    too_large : leb (length wire) mtu ≡ false
    too_large = ground arith

    limit_not_0 : 8 ≤ max_data mtu 48 → (max_data mtu 48 == 0) ≡ false
    limit_not_0 h = ground arith
