-- ===== src/Helper/IpOptions/Layout.antt =====
-- The bytes of the options: their length, and what `parse` reads back from them.
use light_packet.Base.{
  ℕ, suc, ◌+◌, ◌-◌, ◌%◌, ◌≤◌, ◌<◌, ◌≡◌, refl, ap, sym, false, List, [], ◌∷◌, ◌++◌, arith, length,
  length-append, length-replicate, take-length, drop-length, replicate, ltb, ◌==◌, if◌then◌else◌,
}
use light_packet.Base.Bits.{and_mask}
use light_packet.Base.Int.{int_and}
use light_packet.Base.Exceptions.{ok, ◌>>=◌, ok-eq, >>=-eq-ok}
use light_packet.Helper.IpOptions.{
  IpOption, ip_option, no_len_data, option_length, pack_tlv, build_option, raw_length,
  padded_length, join, build, parse_from,
}

-- The padded length is the next multiple of four.
pub padded_length_lem :
    (options : List IpOption)
    → (padded_length options % 4 ≡ 0)
      × (raw_length options ≤ padded_length options)
      × (padded_length options < raw_length options + 4)
unfolding padded_length int_and
padded_length_lem options = ground (arith, and_mask 2 (raw_length options + 3))

pub length-build_option :
    (o : IpOption) (bs : List ℕ) → build_option o ≡ ok bs → length bs ≡ option_length o
unfolding build_option option_length pack_tlv
length-build_option o bs h = ground (arith, λ (x y : List ℕ) (e : ok x ≡ ok y). ap length (ok-eq e))

pub length-join :
    (options : List IpOption) (bs : List ℕ) → join options ≡ ok bs → length bs ≡ raw_length options
unfolding join raw_length
length-join [] bs h = sym (ap length (ok-eq h))
length-join (o ∷ options) bs h =
    let first = >>=-eq-ok (build_option o) _ h in
    let others = >>=-eq-ok (join options) _ first.2 in
    omega (
      arith,
      ap length (ok-eq others.2),
      length-append first.0 others.0,
      length-build_option o first.0 first.1,
      length-join options others.0 others.1,
    )

-- Whatever is built has the padded length, a multiple of four, with or without overridden length
-- bytes.
pub length-build :
    (options : List IpOption) (bs : List ℕ)
    → build options ≡ ok bs
    → (length bs ≡ padded_length options) × (length bs % 4 ≡ 0)
unfolding build
length-build options bs h =
    let blob = >>=-eq-ok (join options) _ h in
    let pad = padded_length options - length blob.0 in
    omega (
      arith,
      ap length (ok-eq blob.2),
      length-append blob.0 (replicate pad 0),
      length-replicate {A = ℕ} pad 0,
      length-join options blob.0 blob.1,
      padded_length_lem options,
    )

-- An option that `parse` can give back: the marker NOP, or a type with at most 253 bytes of data,
-- with no overridden length.
pub data IsRegular : IpOption → Type 0 where
  nop : IsRegular (ip_option 1 [])
  tlv : (t : ℕ) (bs : List ℕ) → 1 < t → t < 256 → length bs < 254 → IsRegular (ip_option t bs)

-- The bytes of a regular option.
unfoldable pub encode : IpOption → List ℕ
encode o = if o.opt_type == 1 then 1 ∷ [] else o.opt_type ∷ (2 + length o.body) ∷ o.body

pub build_option-IsRegular : (o : IpOption) → IsRegular o → build_option o ≡ ok (encode o)
unfolding build_option option_length pack_tlv encode
build_option-IsRegular _ nop = refl
build_option-IsRegular _ (tlv t bs h g l) = ground arith

module _ (n : ℕ) (t : ℕ) (bs rest : List ℕ) (h : 1 < t) where
  kind : no_len_data t ≡ false
  kind = ground arith

  long_enough : ltb (2 + length bs) 2 ≡ false
  long_enough = ground arith

  not_truncated : ltb (2 + length (bs ++ rest)) (2 + length bs) ≡ false
  not_truncated = ground (arith, length-append bs rest)

  size : 2 + length bs - 2 ≡ length bs
  size = omega arith

  parse_from-tlv :
      parse_from (suc n) (t ∷ (2 + length bs) ∷ (bs ++ rest))
      ≡ (parse_from n rest >>= λ options. ok (ip_option t bs ∷ options))
  unfolding parse_from
  parse_from-tlv =
      rw
        (
          kind,
          long_enough,
          not_truncated,
          size,
          take-length bs rest,
          drop-length bs rest,
          parse_from,
        )
        refl

pub parse_from-encode :
    (n : ℕ) (o : IpOption) (rest : List ℕ)
    → IsRegular o
    → parse_from (suc n) (encode o ++ rest) ≡ (parse_from n rest >>= λ options. ok (o ∷ options))
unfolding encode
parse_from-encode n _ rest nop = unfold parse_from in refl
parse_from-encode n _ rest (tlv t bs h g l) =
    let other : (t == 1) ≡ false = ground arith in rw other (parse_from-tlv n t bs rest h)
