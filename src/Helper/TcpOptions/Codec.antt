-- ===== src/Helper/TcpOptions/Codec.antt =====
-- The codec of TCP's options is that of IPv4's, with no overridden length.
use light_packet.Base.{
  ℕ, zero, suc, ◌+◌, ◌-◌, ◌≡◌, refl, ap, sym, ◌∙◌, false, List, [], ◌∷◌, ◌++◌, length, map, take,
  drop, ltb, ◌==◌, All, Bool-cases, inl, inr,
}
use light_packet.Base.Exceptions.{Result, ok, raise, ◌>>=◌}
use light_packet.Helper.IpOptions
use light_packet.Helper.IpOptions.{IpOption, ip_option}
use light_packet.Helper.IpOptions.Layout.{IsRegular}
use light_packet.Helper.IpOptions.RoundTrip.{padding_options, parse-build}
use light_packet.Helper.TcpOptions.{
  TcpOption, tcp_option, no_len_data, option_length, build_option, raw_length, padded_length, join,
  build, parse_from, parse,
}

abbrev pub to_ip : TcpOption → IpOption
to_ip o = ip_option o.kind o.body

abbrev pub of_ip : IpOption → TcpOption
of_ip o = tcp_option o.opt_type o.body

option_length-to_ip : (o : TcpOption) → IpOptions.option_length (to_ip o) ≡ option_length o
unfolding option_length IpOptions.option_length
option_length-to_ip o = refl

build_option-to_ip : (o : TcpOption) → IpOptions.build_option (to_ip o) ≡ build_option o
unfolding build_option IpOptions.build_option IpOptions.pack_tlv
build_option-to_ip o = rw (option_length-to_ip o) refl

raw_length-to_ip :
    (options : List TcpOption) → IpOptions.raw_length (map to_ip options) ≡ raw_length options
unfolding raw_length IpOptions.raw_length
raw_length-to_ip [] = refl
raw_length-to_ip (o ∷ options) = rw (option_length-to_ip o, raw_length-to_ip options) refl

join-to_ip : (options : List TcpOption) → IpOptions.join (map to_ip options) ≡ join options
unfolding join IpOptions.join
join-to_ip [] = refl
join-to_ip (o ∷ options) = rw (build_option-to_ip o, join-to_ip options) refl

build-to_ip : (options : List TcpOption) → IpOptions.build (map to_ip options) ≡ build options
unfolding build IpOptions.build padded_length IpOptions.padded_length
build-to_ip options = rw (join-to_ip options, raw_length-to_ip options) refl

after_option :
    (k : ℕ) (bs : List ℕ) (m' : Result (List IpOption)) {m : Result (List TcpOption)}
    → m ≡ (m' >>= λ options. ok (map of_ip options))
    → (m >>= λ options. ok (tcp_option k bs ∷ options))
      ≡ (m' >>= (λ options. ok (ip_option k bs ∷ options)) >>= λ options. ok (map of_ip options))
after_option k bs (ok options) e = rw e refl
after_option k bs (raise x) e = rw e refl

-- An option with a length byte, given that the parsers agree on what follows.
parse_from-long :
    (n k : ℕ) (rest : List ℕ)
    → ((raw : List ℕ)
        → parse_from n raw ≡ (IpOptions.parse_from n raw >>= λ options. ok (map of_ip options)))
    → no_len_data k ≡ false
    → parse_from (suc n) (k ∷ rest)
      ≡ (IpOptions.parse_from (suc n) (k ∷ rest) >>= λ options. ok (map of_ip options))
unfolding parse_from IpOptions.parse_from
parse_from-long n k [] ih e = rw (e, parse_from, IpOptions.parse_from) refl
parse_from-long n k (l ∷ more) ih e = elim (Bool-cases (ltb l 2)) [
  | inl z ↦ rw (e, z, parse_from, IpOptions.parse_from) refl
  | inr z ↦ elim (Bool-cases (ltb (2 + length more) l)) [
    | inl y ↦ rw (e, z, y, parse_from, IpOptions.parse_from) refl
    | inr y ↦
        rw (e, z, y, parse_from, IpOptions.parse_from)
          (after_option k (take (l - 2) more) (IpOptions.parse_from n (drop (l - 2) more))
            (ih (drop (l - 2) more)))
  ]
]

-- Both parsers read the same options, or raise the same.
parse_from-of_ip :
    (n : ℕ) (raw : List ℕ)
    → parse_from n raw ≡ (IpOptions.parse_from n raw >>= λ options. ok (map of_ip options))
unfolding parse_from IpOptions.parse_from
parse_from-of_ip zero raw = refl
parse_from-of_ip (suc n) [] = refl
parse_from-of_ip (suc n) (k ∷ rest) = elim (Bool-cases (no_len_data k)) [
  | inl e ↦ elim (Bool-cases (k == 0)) [
    | inl z ↦ rw (e, z, parse_from, IpOptions.parse_from) refl
    | inr z ↦
        rw (e, z, parse_from, IpOptions.parse_from)
          (after_option k [] (IpOptions.parse_from n rest) (parse_from-of_ip n rest))
  ]
  | inr e ↦ parse_from-long n k rest (parse_from-of_ip n) e
]

-- On all bytes, the TCP parser reads the options that the IPv4 parser reads, or raises what it raises.
pub parse-of_ip :
    (raw : List ℕ) → parse raw ≡ (IpOptions.parse raw >>= λ options. ok (map of_ip options))
unfolding parse IpOptions.parse
parse-of_ip raw = parse_from-of_ip (length raw) raw

map-of_ip-to_ip :
    (options : List TcpOption) (rest : List IpOption)
    → map of_ip (map to_ip options ++ rest) ≡ options ++ map of_ip rest
map-of_ip-to_ip [] rest = refl
map-of_ip-to_ip (o ∷ options) rest = rw (map-of_ip-to_ip options rest) refl

-- TCP options that are regular as IPv4 options are built, and read back as they were, followed by an
-- end marker when there is padding.
pub parse-build_tcp :
    (options : List TcpOption)
    → All IsRegular (map to_ip options)
    → (raw : List ℕ) × (build options ≡ ok raw)
      × (parse raw
          ≡ ok
              (options ++ map of_ip (padding_options (padded_length options - raw_length options))))
unfolding padded_length IpOptions.padded_length
parse-build_tcp options r =
    let built = parse-build (map to_ip options) r in
    (
      built.0,
      sym (build-to_ip options) ∙ built.1,
      parse-of_ip built.0
          ∙ ap (λ parsed. parsed >>= λ os. ok (map of_ip os)) built.2
          ∙ rw (raw_length-to_ip options) (ap ok (map-of_ip-to_ip options _)),
    )
