-- ===== src/Utils/Fragmentation/Reassembly.antt =====
-- The fragments of an IPv4 packet fit the link and put together give the payload.
use light_packet.Base.{
  ℕ, ◌+◌, ◌-◌, ◌*◌, ◌%◌, ◌≤◌, ◌<◌, ◌≡◌, refl, bit_and, Bool, true, false, ◌/◌, ◌^◌, length-append,
  Option, List, [], ◌∷◌, ◌++◌, arith, length, length-drop, drop, leb, ◌==◌, All,
}
use mathlib.Core.List.{append-nil}
use light_packet.Base.Bits.{and_mask}
use light_packet.Base.Int.{int_and}
use light_packet.Base.Exceptions.{ok}
use light_packet.Utils.Fragmentation.{
  Ipv4, Fragment4, split, fragment_loop, ihl_bytes, ident_or, new_ipv4, make_fragment4, max_data,
  fragment4,
}
use light_packet.Utils.Fragmentation.Pieces.{Covers, last, more, fragment_loop-Covers}

-- The payloads, one after the other.
unfoldable pub reassemble : List Fragment4 → List ℕ
reassemble [] = []
reassemble (f ∷ fs) = f.payload ++ reassemble fs

-- The offsets, in units of eight bytes, follow on from `off`, and all but the last say that more
-- fragments follow.
unfoldable pub IsChain : ℕ → List Fragment4 → Type 0
IsChain off [] = ⊥
IsChain off (f ∷ []) = (f.header.frag_offset * 8 ≡ off) × (f.header.flags ≡ 0)
IsChain off (f ∷ g ∷ fs) =
    ((f.header.frag_offset * 8 ≡ off) × (f.header.flags ≡ 1))
    × IsChain (off + length f.payload) (g ∷ fs)

-- A fragment in front of a chain.
IsChain-cons :
    (off : ℕ) (f : Fragment4) (fs : List Fragment4)
    → f.header.frag_offset * 8 ≡ off
    → f.header.flags ≡ 1
    → IsChain (off + length f.payload) fs
    → IsChain off (f ∷ fs)
unfolding IsChain
IsChain-cons off f [] e m c = absurd c
IsChain-cons off f (g ∷ fs) e m c = ((e, m), c)

-- A fragment whose total length is its header's and its payload's, and fits the link.
abbrev pub Fits : Ipv4 → ℕ → Fragment4 → Type 0
Fits ip mtu f = (f.header.total_len ≡ ihl_bytes ip + length f.payload) × (f.header.total_len ≤ mtu)

module _ (ip : Ipv4) (ident limit mtu : ℕ) (room : ihl_bytes ip + limit ≤ mtu) where
  Covers-reassemble :
      (off : ℕ) (bs : List ℕ) (fs : List Fragment4)
      → Covers (make_fragment4 ip ident) limit off bs fs
      → reassemble fs ≡ bs
  unfolding reassemble make_fragment4
  Covers-reassemble off bs _ (last _ _ e p l) = append-nil bs
  Covers-reassemble off _ _ (more _ chunk rest fs e f c) =
      rw (Covers-reassemble (off + length chunk) rest fs c) refl

  -- Thirteen bits are enough for the offset of a byte below 2 ^ 16.
  frag_offset-made :
      (off : ℕ) (m : Bool) (chunk : List ℕ)
      → off % 8 ≡ 0
      → off < 2 ^ 16
      → (make_fragment4 ip ident off m chunk).header.frag_offset * 8 ≡ off
  unfolding make_fragment4 new_ipv4
  frag_offset-made off m chunk e h = omega (arith, and_mask 13 (off / 8))

  Covers-nonempty :
      (off : ℕ) (bs : List ℕ) (fs : List Fragment4)
      → Covers (make_fragment4 ip ident) limit off bs fs
      → 0 < length bs
  Covers-nonempty off bs _ (last _ _ e p l) = p
  Covers-nonempty off _ _ (more _ chunk rest fs e f c) =
      omega (arith, length-append chunk rest, Covers-nonempty (off + length chunk) rest fs c)

  Covers-IsChain :
      (off : ℕ) (bs : List ℕ) (fs : List Fragment4)
      → Covers (make_fragment4 ip ident) limit off bs fs
      → off + length bs ≤ 2 ^ 16
      → IsChain off fs
  unfolding IsChain make_fragment4 new_ipv4
  Covers-IsChain off bs _ (last _ _ e p l) h = (frag_offset-made off false bs e (omega arith), refl)
  Covers-IsChain off _ _ (more _ chunk rest fs e f c) h =
      let size = length-append chunk rest in
      let others = Covers-nonempty (off + length chunk) rest fs c in
      IsChain-cons off (make_fragment4 ip ident off true chunk) fs
        (frag_offset-made off true chunk e (omega arith)) refl
        (Covers-IsChain (off + length chunk) rest fs c (omega arith))

  Covers-Fits :
      (off : ℕ) (bs : List ℕ) (fs : List Fragment4)
      → Covers (make_fragment4 ip ident) limit off bs fs
      → All (Fits ip mtu) fs
  unfolding make_fragment4 new_ipv4
  Covers-Fits off bs _ (last _ _ e p l) = ((refl, omega (arith, room)), tt)
  Covers-Fits off _ _ (more _ chunk rest fs e f c) =
      ((refl, omega (arith, room)), Covers-Fits (off + length chunk) rest fs c)

pub max_data_lem :
    (mtu header : ℕ)
    → header + 8 ≤ mtu
    → (max_data mtu header % 8 ≡ 0)
      × (8 ≤ max_data mtu header)
      × (header + max_data mtu header ≤ mtu)
unfolding max_data int_and
max_data_lem mtu header h = ground (arith, and_mask 3 (mtu - header))

-- A packet too large for the link, that may be fragmented over a link with room for eight bytes
-- of data, and has a payload of at most 2 ^ 16 bytes, as far as the offset field reaches, is
-- fragmented: the fragments fit, follow each other and give the payload back.
pub fragment4-reassemble :
    (ip : Ipv4) (wire : List ℕ) (mtu : ℕ) (ident : Option ℕ) (random : ℕ)
    → bit_and ip.flags 2 ≡ 0
    → mtu < length wire
    → ihl_bytes ip + 8 ≤ mtu
    → length wire ≤ ihl_bytes ip + 2 ^ 16
    → (fs : List Fragment4) × (fragment4 ip wire mtu ident random ≡ ok (split fs))
      × (reassemble fs ≡ drop (ihl_bytes ip) wire)
      × IsChain 0 fs
      × All (Fits ip mtu) fs
unfolding fragment4
fragment4-reassemble ip wire mtu ident random df large room short =
    let id = ident_or ident ip.id random in
    let limit = max_data mtu (ihl_bytes ip) in
    let bounds = max_data_lem mtu (ihl_bytes ip) room in
    let bs = drop (ihl_bytes ip) wire in
    let fs = fragment_loop (make_fragment4 ip id) limit bs (length bs) 0 in
    let covers =
      fragment_loop-Covers (make_fragment4 ip id) limit bounds.0 (omega (arith, bounds.1)) bs
        (length bs) 0 refl (omega (arith, length-drop (ihl_bytes ip) wire)) (omega arith) in
    (
      fs,
      rw (df, too_large, limit_not_0 bounds.1) refl,
      Covers-reassemble ip id limit mtu (omega (arith, bounds.2)) 0 bs fs covers,
      Covers-IsChain ip id limit mtu (omega (arith, bounds.2)) 0 bs fs covers
          (omega (arith, length-drop (ihl_bytes ip) wire)),
      Covers-Fits ip id limit mtu (omega (arith, bounds.2)) 0 bs fs covers,
    )
  where
    too_large : leb (length wire) mtu ≡ false
    too_large = ground arith

    limit_not_0 : 8 ≤ max_data mtu (ihl_bytes ip) → (max_data mtu (ihl_bytes ip) == 0) ≡ false
    limit_not_0 h = ground arith
