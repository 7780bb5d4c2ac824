-- ===== src/Helper/Tests.antt =====
-- The option codecs on small lists, and the theorems applied to them.
use light_packet.Base.{ℕ, ◌-◌, ◌%◌, ◌≡◌, refl, arith, List, [], ◌∷◌, ◌++◌, map, length}
use light_packet.Base.Exceptions.{ok, raise, type_error, ◌>>=◌}
use light_packet.Base.Int.{int_and}
use light_packet.Helper.IpOptions
use light_packet.Helper.IpOptions.{IpOption, ip_option}
use light_packet.Helper.IpOptions.Layout.{nop, tlv, length-build}
use light_packet.Helper.IpOptions.RoundTrip.{padding_options, parse-build}
use light_packet.Helper.TcpOptions
use light_packet.Helper.TcpOptions.{TcpOption, tcp_option}
use light_packet.Helper.TcpOptions.Codec.{of_ip, parse-of_ip, parse-build_tcp}

-- A marker and a router alert.
abbrev two_options : List IpOption
two_options = ip_option 1 [] ∷ ip_option 148 (0 ∷ 0 ∷ []) ∷ []

abbrev two_options_raw : List ℕ
two_options_raw = 1 ∷ 148 ∷ 4 ∷ 0 ∷ 0 ∷ 0 ∷ 0 ∷ 0 ∷ []

two_options_bytes : IpOptions.build two_options ≡ ok two_options_raw
unfolding IpOptions.build IpOptions.join IpOptions.build_option IpOptions.pack_tlv
    IpOptions.option_length IpOptions.padded_length IpOptions.raw_length int_and
two_options_bytes = refl

truncated_option : IpOptions.parse (148 ∷ 9 ∷ 0 ∷ []) ≡ raise type_error
unfolding IpOptions.parse IpOptions.parse_from
truncated_option = refl

parse-build_example :
    (raw : List ℕ) × (IpOptions.build two_options ≡ ok raw)
    × (IpOptions.parse raw
        ≡ ok (
            two_options
            ++ padding_options
                (IpOptions.padded_length two_options - IpOptions.raw_length two_options)))
parse-build_example =
    parse-build two_options
      (nop, (tlv 148 (0 ∷ 0 ∷ []) (omega arith) (omega arith) (omega arith), tt))

length-build_example :
    (length two_options_raw ≡ IpOptions.padded_length two_options)
    × (length two_options_raw % 4 ≡ 0)
length-build_example = length-build two_options two_options_raw two_options_bytes

-- A maximum segment size and a marker.
abbrev mss_option : List TcpOption
mss_option = tcp_option 2 (5 ∷ 180 ∷ []) ∷ tcp_option 1 [] ∷ []

parse-of_ip_example :
    TcpOptions.parse (2 ∷ 4 ∷ 5 ∷ 180 ∷ 1 ∷ [])
    ≡ (IpOptions.parse (2 ∷ 4 ∷ 5 ∷ 180 ∷ 1 ∷ []) >>= λ options. ok (map of_ip options))
parse-of_ip_example = parse-of_ip (2 ∷ 4 ∷ 5 ∷ 180 ∷ 1 ∷ [])

parse-build_tcp_example :
    (raw : List ℕ) × (TcpOptions.build mss_option ≡ ok raw)
    × (TcpOptions.parse raw
        ≡ ok (
            mss_option
            ++ map of_ip (
                padding_options
                  (TcpOptions.padded_length mss_option - TcpOptions.raw_length mss_option))))
parse-build_tcp_example =
    parse-build_tcp mss_option
      (tlv 2 (5 ∷ 180 ∷ []) (omega arith) (omega arith) (omega arith), (nop, tt))
