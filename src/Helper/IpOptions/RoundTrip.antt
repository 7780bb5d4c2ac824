-- ===== src/Helper/IpOptions/RoundTrip.antt =====
-- `parse` after `build`.
use light_packet.Base.{
  ℕ, zero, suc, ◌-◌, ◌≤◌, ◌<◌, ◌≡◌, refl, ap, ◌∙◌, List, [], ◌∷◌, ◌++◌, arith, length,
  length-append, replicate, All, append_assoc, length-replicate,
}
use light_packet.Base.Exceptions.{ok, ◌>>=◌}
use light_packet.Helper.IpOptions.{
  IpOption, ip_option, opt_eol, raw_length, padded_length, join, build, parse_from, parse,
}
use light_packet.Helper.IpOptions.Layout.{
  IsRegular, encode, build_option-IsRegular, parse_from-encode, length-join,
}

unfoldable encode_all : List IpOption → List ℕ
encode_all [] = []
encode_all (o ∷ options) = encode o ++ encode_all options

join-IsRegular :
    (options : List IpOption) → All IsRegular options → join options ≡ ok (encode_all options)
unfolding join encode_all
join-IsRegular [] r = refl
join-IsRegular (o ∷ options) r = rw (build_option-IsRegular o r.0, join-IsRegular options r.1) refl

-- What the padding reads as: its first byte is the end marker, at which `parse` stops.
abbrev pub padding_options : ℕ → List IpOption
padding_options zero = []
padding_options (suc n) = ip_option opt_eol [] ∷ []

parse_from-padding : (n k : ℕ) → k ≤ n → parse_from n (replicate k 0) ≡ ok (padding_options k)
unfolding parse_from
parse_from-padding zero zero h = refl
parse_from-padding (suc n) zero h = refl
parse_from-padding zero (suc k) h = absurd (omega arith)
parse_from-padding (suc n) (suc k) h = refl

encode-pos : (o : IpOption) → 0 < length (encode o)
unfolding encode
encode-pos o = ground arith

parse_from-encode_all :
    (options : List IpOption) (n k : ℕ)
    → All IsRegular options
    → length (encode_all options ++ replicate k 0) ≤ n
    → parse_from n (encode_all options ++ replicate k 0) ≡ ok (options ++ padding_options k)
unfolding encode_all
parse_from-encode_all [] n k r h =
    parse_from-padding n k (omega (arith, length-replicate {A = ℕ} k 0))
parse_from-encode_all (o ∷ options) zero k r h = absurd (
    omega (
      arith,
      length-append (encode o ++ encode_all options) (replicate k 0),
      length-append (encode o) (encode_all options),
      encode-pos o,
    ))
parse_from-encode_all (o ∷ options) (suc n) k r h =
    rw (append_assoc (encode o) (encode_all options) (replicate k 0)) (
      parse_from-encode n o (encode_all options ++ replicate k 0) r.0
      ∙ ap (λ parsed. parsed >>= λ others. ok (o ∷ others))
          (parse_from-encode_all options n k r.1 shorter))
  where
    shorter : length (encode_all options ++ replicate k 0) ≤ n
    shorter = omega (
      arith,
      length-append (encode o ++ encode_all options) (replicate k 0),
      length-append (encode o) (encode_all options),
      length-append (encode_all options) (replicate k 0),
      encode-pos o,
    )

-- Regular options are built, and read back as they were, followed by an end marker when there is
-- padding. Regular is a NOP, or another type but the end marker with at most 253 bytes of data and no
-- overridden length.
pub parse-build :
    (options : List IpOption)
    → All IsRegular options
    → (raw : List ℕ) × (build options ≡ ok raw)
      × (parse raw ≡ ok (options ++ padding_options (padded_length options - raw_length options)))
unfolding build parse
parse-build options r =
    let blob = encode_all options in
    let size = length-join options blob (join-IsRegular options r) in
    let pad = padded_length options - raw_length options in
    (
      blob ++ replicate pad 0,
      rw (join-IsRegular options r, size) refl,
      parse_from-encode_all options (length (blob ++ replicate pad 0)) pad r (omega arith),
    )
