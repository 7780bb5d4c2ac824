-- ===== src/Layers/Vlan.antt =====
-- Vlan.py: stacked VLAN tags. A stack is the list of its tags, the outermost first, over a layer that
-- is no tag, of which the bytes are given.
pub mod Stacked
pub mod RoundTrip
use light_packet.Base.{
  ℕ, zero, suc, ◌+◌, ◌*◌, ◌/◌, ◌%◌, ◌^◌, bit_or, Bool, true, false, ◌&&◌, ◌||◌, List, [], ◌∷◌, ◌++◌,
  length, take, drop, ltb, leb, ◌==◌,
}
use light_packet.Base.Exceptions.{Result, raise, ok, ◌>>=◌, invalid_data_length_error}
use light_packet.Base.Bytes.{pack_h, unpack_be}

-- `VLAN`, without its payload.
pub record Vlan : Type 0 where
  pub tpid : ℕ
  pub priority : ℕ
  pub dei : ℕ
  pub vlan_id : ℕ

-- `VLAN(tpid, priority, dei, vlan_id)`.
unfoldable pub vlan : ℕ → ℕ → ℕ → ℕ → Vlan
vlan tpid priority dei vlan_id = record {
  tpid = tpid;
  priority = priority % 2 ^ 3;
  dei = dei % 2;
  vlan_id = vlan_id % 2 ^ 12;
}

-- `(self.priority << 13) | (self.dei << 12) | self.vlan_id`.
unfoldable pub tci_of : Vlan → ℕ
tci_of v = bit_or (bit_or (v.priority * 2 ^ 13) (v.dei * 2 ^ 12)) v.vlan_id

-- `struct.pack('!HH', self.tpid, tci)`.
unfoldable pub pack_tag : Vlan → Result (List ℕ)
pack_tag v = do t ← pack_h v.tpid; c ← pack_h (tci_of v); ok (t ++ c)

-- What `check_layers` leaves in the tags: one above another tag has the type 0x88A8.
unfoldable pub check_layers : List Vlan → List Vlan
check_layers [] = []
check_layers (v ∷ []) = v ∷ []
check_layers (v ∷ w ∷ tags) = record v { tpid = 0x88A8 } ∷ check_layers (w ∷ tags)

-- The tags, packed one after the other, and the bytes of the layer below.
unfoldable pub build_tags : List Vlan → List ℕ → Result (List ℕ)
unfolding pack_tag
build_tags [] below = ok below
build_tags (v ∷ tags) below = do head ← pack_tag v; rest ← build_tags tags below; ok (head ++ rest)

-- `VLAN.build` of a stack.
unfoldable pub build : List Vlan → List ℕ → Result (List ℕ)
unfolding check_layers build_tags
build tags below = build_tags (check_layers tags) below

-- The tag that the first four bytes hold.
unfoldable pub tag_at : List ℕ → Vlan
unfolding vlan
tag_at raw =
    let tci = unpack_be (take 2 (drop 2 raw)) in
    vlan (unpack_be (take 2 raw)) (tci / 2 ^ 13 % 2 ^ 3) (tci / 2 ^ 12 % 2) (tci % 2 ^ 12)

-- `load_as_vlan_layer`: the tags that are read, on fuel. Each call takes four bytes and refuses
-- fewer, so that the length is enough fuel. The bytes below a tag of another type are dropped.
unfoldable pub load_from : ℕ → List ℕ → Result (List Vlan)
load_from zero raw = raise invalid_data_length_error
load_from (suc n) raw = elim (ltb (length raw) 4) [
  | true ↦ raise invalid_data_length_error
  | false ↦ elim (ltb 0 (length (drop 4 raw)) && (unpack_be (take 2 raw) == 0x88A8)) [
    | true ↦ load_from n (drop 4 raw) >>= λ tags. ok (tag_at raw ∷ tags)
    | false ↦ ok (tag_at raw ∷ [])
  ]
]

unfoldable pub load_as_vlan_layer : List ℕ → Result (List Vlan)
unfolding load_from
load_as_vlan_layer raw = load_from (length raw) raw

-- `tpid in [0x8100, 0x88A8, 0x9100, 0x9200]`.
abbrev pub is_tpid : ℕ → Bool
is_tpid t = (t == 0x8100) || ((t == 0x88A8) || ((t == 0x9100) || (t == 0x9200)))

-- The loop of `vlannum` on what is left of the packet, on fuel; each round takes four bytes.
unfoldable pub count_tags : ℕ → List ℕ → ℕ
count_tags zero raw = 0
count_tags (suc n) raw = elim (leb 4 (length raw) && is_tpid (unpack_be (take 2 raw))) [
  | true ↦ suc (count_tags n (drop 4 raw))
  | false ↦ 0
]

unfoldable pub vlannum : List ℕ → ℕ
unfolding count_tags
vlannum raw = count_tags (length raw) raw
