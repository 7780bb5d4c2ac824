-- ===== src/Layers/Vlan/Stacked.antt =====
-- One tag of a stack: its bytes, what is read back from them, and its place in the count.
use light_packet.Base.{
  ℕ, suc, ◌+◌, ◌*◌, ◌/◌, ◌%◌, ◌^◌, ◌<◌, ◌≡◌, ◌≢◌, refl, ap, bit_or, true, false, ◌&&◌, List, [],
  ◌∷◌, ◌++◌, arith, length, ltb, leb, ◌==◌, lt→ltb,
}
use light_packet.Base.Bits.{or_disjoint}
use light_packet.Base.Exceptions.{ok, ◌>>=◌}
use light_packet.Base.Bytes.{pack_h, unpack_be}
use light_packet.Layers.Vlan.{Vlan, vlan, tci_of, pack_tag, tag_at, load_from, is_tpid, count_tags}

-- A tag whose fields fit their bits.
pub data IsTag : Vlan → Type 0 where
  fits :
      (v : Vlan) → v.tpid < 2 ^ 16 → v.priority < 2 ^ 3 → v.dei < 2 → v.vlan_id < 2 ^ 12 → IsTag v

tci-value : (v : Vlan) → IsTag v → tci_of v ≡ v.priority * 2 ^ 13 + v.dei * 2 ^ 12 + v.vlan_id
unfolding tci_of
tci-value v (fits _ ht hp hd hi) = ground (
  arith,
  or_disjoint 13 v.priority (v.dei * 2 ^ 12) (omega arith),
  ap (λ t. bit_or t v.vlan_id) whole,
  or_disjoint 12 (v.priority * 2 + v.dei) v.vlan_id (omega arith),
)
  where
    whole : v.priority * 2 ^ 13 + v.dei * 2 ^ 12 ≡ (v.priority * 2 + v.dei) * 2 ^ 12
    whole = omega arith

abbrev pub tag_bytes : Vlan → List ℕ
tag_bytes v = v.tpid / 256 ∷ v.tpid % 256 ∷ tci_of v / 256 ∷ tci_of v % 256 ∷ []

pub pack_tag-IsTag : (v : Vlan) → IsTag v → pack_tag v ≡ ok (tag_bytes v)
unfolding pack_tag pack_h
pack_tag-IsTag v (fits _ ht hp hd hi) =
    let small : tci_of v < 2 ^ 16 = omega (arith, tci-value v (fits v ht hp hd hi)) in
    rw (lt→ltb v.tpid (2 ^ 16) ht, lt→ltb (tci_of v) (2 ^ 16) small) refl

unpack-two : (n : ℕ) → n < 2 ^ 16 → unpack_be (n / 256 ∷ n % 256 ∷ []) ≡ n
unfolding unpack_be
unpack-two n h = omega arith

tag_at-tag_bytes : (v : Vlan) (rest : List ℕ) → IsTag v → tag_at (tag_bytes v ++ rest) ≡ v
unfolding tag_at vlan
tag_at-tag_bytes v rest (fits _ ht hp hd hi) =
    let value = tci-value v (fits v ht hp hd hi) in
    let small : tci_of v < 2 ^ 16 = omega (arith, value) in
    let p : tci_of v / 2 ^ 13 % 2 ^ 3 % 2 ^ 3 ≡ v.priority = omega (arith, value) in
    let d : tci_of v / 2 ^ 12 % 2 % 2 ≡ v.dei = omega (arith, value) in
    let i : tci_of v % 2 ^ 12 % 2 ^ 12 ≡ v.vlan_id = omega (arith, value) in
    rw (unpack-two v.tpid ht, unpack-two (tci_of v) small, p, d, i) refl

module _ (v : Vlan) (t : IsTag v) where
  tpid-read : unpack_be (v.tpid / 256 ∷ v.tpid % 256 ∷ []) ≡ v.tpid
  tpid-read = unpack-two v.tpid (width v t)
    where
      width : (v : Vlan) → IsTag v → v.tpid < 2 ^ 16
      width _ (fits v ht hp hd hi) = ht

  long : (rest : List ℕ) → ltb (length (tag_bytes v ++ rest)) 4 ≡ false
  long rest = ground arith

  -- A tag that announces another one, and has bytes below it.
  pub load_from-more :
      (n : ℕ) (rest : List ℕ)
      → v.tpid ≡ 0x88A8
      → 0 < length rest
      → load_from (suc n) (tag_bytes v ++ rest) ≡ (load_from n rest >>= λ tags. ok (v ∷ tags))
  unfolding load_from
  load_from-more n rest e h =
      let both : (ltb 0 (length rest) && (v.tpid == 0x88A8)) ≡ true = ground arith in
      rw (long rest, tpid-read, both, tag_at-tag_bytes v rest t, load_from) refl

  -- A tag of another type ends the stack.
  pub load_from-last :
      (n : ℕ) (rest : List ℕ)
      → v.tpid ≢ 0x88A8
      → load_from (suc n) (tag_bytes v ++ rest) ≡ ok (v ∷ [])
  unfolding load_from
  load_from-last n rest e =
      let ends : (ltb 0 (length rest) && (v.tpid == 0x88A8)) ≡ false = ground arith in
      rw (long rest, tpid-read, ends, tag_at-tag_bytes v rest t, load_from) refl

  pub count_tags-tag :
      (n : ℕ) (rest : List ℕ)
      → is_tpid v.tpid ≡ true
      → count_tags (suc n) (tag_bytes v ++ rest) ≡ suc (count_tags n rest)
  unfolding count_tags
  count_tags-tag n rest e =
      let enough : leb 4 (length (tag_bytes v ++ rest)) ≡ true = ground arith in
      rw (enough, tpid-read, e, count_tags) refl
