-- ===== src/Layers/Udp/Datagram.antt =====
-- A datagram is read back as it was built, and the checksum it was given verifies.
use light_packet.Base.{
  ℕ, ◌+◌, ◌-◌, ◌/◌, ◌%◌, ◌^◌, ◌<◌, ◌≡◌, refl, ap, sym, ◌∙◌, true, false, none, some, List, [], ◌∷◌,
  ◌++◌, arith, length, take, ltb, lt→ltb,
}
use light_packet.Base.Exceptions.{ok, ok-eq, >>=-eq-ok}
use light_packet.Base.Bytes.{pack_h, IsBytes, unpack_be}
use light_packet.Utils.Checksum.{transport_checksum, verify_transport_checksum}
use light_packet.Utils.Checksum.Verify.{
  verify_transport_checksum-transport_checksum, transport_checksum-lt,
}
use light_packet.Layers.Udp.{
  Udp, udp, pack_hhhh, or_else, length_field, compute_checksum, build, payload_of,
  load_as_udp_layer,
}

-- The eight bytes of a header whose fields fit.
abbrev header_bytes : ℕ → ℕ → ℕ → ℕ → List ℕ
header_bytes a b c d =
    a / 256 ∷ a % 256 ∷ b / 256 ∷ b % 256 ∷ c / 256 ∷ c % 256 ∷ d / 256 ∷ d % 256 ∷ []

pack_hhhh_lem :
    (a b c d : ℕ)
    → a < 2 ^ 16
    → b < 2 ^ 16
    → c < 2 ^ 16
    → d < 2 ^ 16
    → pack_hhhh a b c d ≡ ok (header_bytes a b c d)
unfolding pack_hhhh pack_h
pack_hhhh_lem a b c d ha hb hc hd =
    rw (lt→ltb a (2 ^ 16) ha, lt→ltb b (2 ^ 16) hb, lt→ltb c (2 ^ 16) hc, lt→ltb d (2 ^ 16) hd) refl

pack_h-lt : (n : ℕ) (bs : List ℕ) → pack_h n ≡ ok bs → n < 2 ^ 16
unfolding pack_h
pack_h-lt n bs h = ground arith

pack_hhhh-lt :
    (a b c d : ℕ) (bs : List ℕ)
    → pack_hhhh a b c d ≡ ok bs
    → (a < 2 ^ 16) × (b < 2 ^ 16) × (c < 2 ^ 16)
unfolding pack_hhhh
pack_hhhh-lt a b c d bs h =
    let pa = >>=-eq-ok (pack_h a) _ h in
    let pb = >>=-eq-ok (pack_h b) _ pa.2 in
    let pc = >>=-eq-ok (pack_h c) _ pb.2 in
    (pack_h-lt a pa.0 pa.1, pack_h-lt b pb.0 pb.1, pack_h-lt c pc.0 pc.1)

-- The fields of a datagram that starts with a header.
header_field : (n : ℕ) → n < 2 ^ 16 → unpack_be (n / 256 ∷ n % 256 ∷ []) ≡ n
unfolding unpack_be
header_field n h = omega arith

take-all : (bs : List ℕ) → take (length bs) bs ≡ bs
take-all [] = refl
take-all (b ∷ bs) = ap {B = List ℕ} (λ t. b ∷ t) (take-all bs)

load_as_udp_layer-header :
    (a b c d : ℕ) (bs : List ℕ)
    → a < 2 ^ 16
    → b < 2 ^ 16
    → c < 2 ^ 16
    → d < 2 ^ 16
    → c ≡ 8 + length bs
    → load_as_udp_layer (header_bytes a b c d ++ bs)
      ≡ ok (record { sport = a; dport = b; len = some c; checksum = some d; payload = bs })
unfolding load_as_udp_layer udp payload_of
load_as_udp_layer-header a b c d bs ha hb hc hd e =
    rw
      (
        long,
        header_field a ha,
        header_field b hb,
        header_field c hc,
        header_field d hd,
        word a ha,
        word b hb,
        no_short,
        rest,
        take-all bs,
      )
      refl
  where
    long : ltb (length (header_bytes a b c d ++ bs)) 8 ≡ false
    long = ground arith

    no_short : ltb c 8 ≡ false
    no_short = ground arith

    rest : c - 8 ≡ length bs
    rest = omega (arith, e)

    word : (n : ℕ) → n < 2 ^ 16 → n % 2 ^ 16 ≡ n
    word n h = omega arith

-- What `build` fills in.
abbrev pub filled : Udp → Udp
filled u = record u { len = some (length_field u); checksum = some (or_else u.checksum 0) }

-- A datagram with 16-bit ports and checksum, no length of its own and a payload that leaves the
-- length in 16 bits, is built, and what is built is read back as the datagram with its length and
-- checksum filled in.
pub load_as_udp_layer-build :
    (u : Udp)
    → u.sport < 2 ^ 16
    → u.dport < 2 ^ 16
    → or_else u.checksum 0 < 2 ^ 16
    → u.len ≡ none
    → length u.payload < 2 ^ 16 - 8
    → (raw : List ℕ) × (build u ≡ ok (filled u, raw)) × (load_as_udp_layer raw ≡ ok (filled u))
unfolding build length_field
load_as_udp_layer-build u hs hd hc hl hp = (
  header_bytes u.sport u.dport (length_field u) (or_else u.checksum 0) ++ u.payload,
  rw (pack_hhhh_lem u.sport u.dport (length_field u) (or_else u.checksum 0) hs hd size hc) refl,
  load_as_udp_layer-header u.sport u.dport (length_field u) (or_else u.checksum 0) u.payload hs hd
      size hc full,
)
  where
    full : length_field u ≡ 8 + length u.payload
    full = rw hl refl

    size : length_field u < 2 ^ 16
    size = omega (arith, full)

-- When `compute_checksum` succeeds on a datagram with a payload of bytes, the datagram that it
-- leaves is built, and the bytes verify against the pseudo-header of the same addresses.
pub verify_transport_checksum-compute_checksum :
    (u v : Udp) (src_bytes dst_bytes : List ℕ)
    → IsBytes src_bytes
    → IsBytes dst_bytes
    → IsBytes u.payload
    → compute_checksum u src_bytes dst_bytes ≡ ok v
    → (w : Udp) × (raw : List ℕ) × (build v ≡ ok (w, raw))
      × (verify_transport_checksum src_bytes dst_bytes 17 raw ≡ ok true)
unfolding compute_checksum build length_field
verify_transport_checksum-compute_checksum u v src_bytes dst_bytes hs hd hp h =
    let packed = >>=-eq-ok (pack_hhhh u.sport u.dport (length_field u) 0) _ h in
    let csum =
      >>=-eq-ok (transport_checksum src_bytes dst_bytes 17 (packed.0 ++ u.payload)) _ packed.2 in
    let fits = pack_hhhh-lt u.sport u.dport (length_field u) 0 packed.0 packed.1 in
    let header = ok-eq (
      sym packed.1
      ∙ pack_hhhh_lem u.sport u.dport (length_field u) 0 fits.0 fits.1 fits.2 (omega arith)) in
    rw (sym (ok-eq csum.2)) (
      sent csum.0 fits (
        ap (λ hd. transport_checksum src_bytes dst_bytes 17 (hd ++ u.payload)) (sym header)
        ∙ csum.1))
  where
    sent :
        (c : ℕ)
        → (u.sport < 2 ^ 16) × (u.dport < 2 ^ 16) × (length_field u < 2 ^ 16)
        → transport_checksum src_bytes dst_bytes 17
            (header_bytes u.sport u.dport (length_field u) 0 ++ u.payload)
          ≡ ok c
        → (w : Udp) × (raw : List ℕ) × (build (record u { checksum = some c }) ≡ ok (w, raw))
          × (verify_transport_checksum src_bytes dst_bytes 17 raw ≡ ok true)
    sent c fits e =
        let hc = transport_checksum-lt src_bytes dst_bytes 17 _ c e in
        let start =
          u.sport / 256
          ∷ u.sport % 256
          ∷ u.dport / 256
          ∷ u.dport % 256
          ∷ length_field u / 256
          ∷ length_field u % 256
          ∷ [] in
        (
          filled (record u { checksum = some c }),
          header_bytes u.sport u.dport (length_field u) c ++ u.payload,
          rw (pack_hhhh_lem u.sport u.dport (length_field u) c fits.0 fits.1 fits.2 hc) refl,
          verify_transport_checksum-transport_checksum src_bytes dst_bytes 17 start u.payload refl
              hs hd
              (
                omega (arith, fits.0),
                (
                  omega arith,
                  (
                    omega (arith, fits.1),
                    (omega arith, (omega (arith, fits.2), (omega arith, tt))),
                  ),
                ),
              )
              hp c e,
        )
