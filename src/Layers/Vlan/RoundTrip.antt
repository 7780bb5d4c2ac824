-- ===== src/Layers/Vlan/RoundTrip.antt =====
-- A stack of tags is read back from its bytes, and counted in them.
use light_packet.Base.{
  ℕ, zero, suc, ◌≤◌, ◌<◌, ◌≡◌, ◌≢◌, refl, ap, ◌∙◌, true, false, ◌&&◌, List, [], ◌∷◌, ◌++◌, arith,
  length, take, leb,
}
use light_packet.Base.Exceptions.{ok, ◌>>=◌}
use light_packet.Base.Bytes.{unpack_be}
use light_packet.Layers.Vlan.{
  Vlan, check_layers, build_tags, build, load_from, load_as_vlan_layer, is_tpid, count_tags,
  vlannum,
}
use light_packet.Layers.Vlan.Stacked.{
  IsTag, fits, tag_bytes, pack_tag-IsTag, load_from-more, load_from-last, count_tags-tag,
}

-- A stack of tags whose fields fit, the innermost of a known type that announces no other tag.
pub data IsStack : List Vlan → Type 0 where
  inner : (v : Vlan) → IsTag v → v.tpid ≢ 0x88A8 → is_tpid v.tpid ≡ true → IsStack (v ∷ [])
  outer : (v w : Vlan) (tags : List Vlan) → IsTag v → IsStack (w ∷ tags) → IsStack (v ∷ w ∷ tags)

-- The tag as `check_layers` leaves it above another one.
abbrev above : Vlan → Vlan
above v = record v { tpid = 0x88A8 }

above-IsTag : (v : Vlan) → IsTag v → IsTag (above v)
above-IsTag _ (fits v ht hp hd hi) = fits (above v) (omega arith) hp hd hi

unfoldable encode : List Vlan → List ℕ → List ℕ
encode [] below = below
encode (v ∷ tags) below = tag_bytes v ++ encode tags below

module _ (below : List ℕ) where
  build_tags-encode :
      (tags : List Vlan)
      → IsStack tags
      → build_tags (check_layers tags) below ≡ ok (encode (check_layers tags) below)
  unfolding build_tags check_layers encode
  build_tags-encode _ (inner v t e k) = rw (pack_tag-IsTag v t) refl
  build_tags-encode _ (outer v w tags t s) =
      rw (pack_tag-IsTag (above v) (above-IsTag v t), build_tags-encode (w ∷ tags) s) refl

  encode-long : (tags : List Vlan) → IsStack tags → 0 < length (encode (check_layers tags) below)
  unfolding check_layers encode
  encode-long _ (inner v t e k) = omega arith
  encode-long _ (outer v w tags t s) = omega arith

  load_from-encode :
      (n : ℕ) (tags : List Vlan)
      → IsStack tags
      → length (encode (check_layers tags) below) ≤ n
      → load_from n (encode (check_layers tags) below) ≡ ok (check_layers tags)
  unfolding check_layers encode
  load_from-encode zero tags s h = absurd (omega (arith, encode-long tags s))
  load_from-encode (suc n) _ (inner v t e k) h = load_from-last v t n below e
  load_from-encode (suc n) _ (outer v w tags t s) h =
      load_from-more (above v) (above-IsTag v t) n _ refl (encode-long (w ∷ tags) s)
      ∙ ap (λ parsed. parsed >>= λ others. ok (above v ∷ others))
          (load_from-encode n (w ∷ tags) s (omega arith))

  module _ (stop : (leb 4 (length below) && is_tpid (unpack_be (take 2 below))) ≡ false) where
    count_tags-below : (n : ℕ) → count_tags n below ≡ 0
    unfolding count_tags
    count_tags-below zero = refl
    count_tags-below (suc n) = rw (stop, count_tags) refl

    count_tags-encode :
        (n : ℕ) (tags : List Vlan)
        → IsStack tags
        → length (encode (check_layers tags) below) ≤ n
        → count_tags n (encode (check_layers tags) below) ≡ length tags
    unfolding check_layers encode
    count_tags-encode zero tags s h = absurd (omega (arith, encode-long tags s))
    count_tags-encode (suc n) _ (inner v t e k) h =
        count_tags-tag v t n below k ∙ ap suc (count_tags-below n)
    count_tags-encode (suc n) _ (outer v w tags t s) h =
        count_tags-tag (above v) (above-IsTag v t) n _ refl
        ∙ ap suc (count_tags-encode n (w ∷ tags) s (omega arith))

-- A stack over a layer whose bytes do not start with a tag is built, its tags are read back with the
-- types that building gave them, and `vlannum` counts them.
pub load_as_vlan_layer-build :
    (tags : List Vlan) (below : List ℕ)
    → IsStack tags
    → (leb 4 (length below) && is_tpid (unpack_be (take 2 below))) ≡ false
    → (raw : List ℕ) × (build tags below ≡ ok raw)
      × (load_as_vlan_layer raw ≡ ok (check_layers tags))
      × (vlannum raw ≡ length tags)
unfolding build load_as_vlan_layer vlannum
load_as_vlan_layer-build tags below s stop =
    let raw = encode (check_layers tags) below in
    (
      raw,
      build_tags-encode below tags s,
      load_from-encode below (length raw) tags s (omega arith),
      count_tags-encode below stop (length raw) tags s (omega arith),
    )
