-- ===== src/Helper/TcpOptions.antt =====
-- helper/tcp/TCPOptions.py: the options of a TCP segment.
pub mod Codec
use light_packet.Base.{
  ℕ, zero, suc, ◌+◌, ◌-◌, ◌*◌, ◌/◌, ◌%◌, ◌^◌, Bool, true, false, ◌||◌, Option, none, some, List, [],
  ◌∷◌, ◌++◌, length, take, drop, replicate, ltb, ◌==◌, if◌then◌else◌,
}
use light_packet.Base.Int.{negsuc, int_and}
use light_packet.Base.Exceptions.{
  Result, ok, raise, ◌>>=◌, invalid_data_length_error, type_error, struct_error,
}
use light_packet.Base.Bytes.{pack_be}

-- `TCPOption`: `body` is its data.
pub record TcpOption : Type 0 where
  pub kind : ℕ
  pub body : List ℕ

-- `TCPOption(kind, data)`, for a kind that is a byte.
abbrev pub tcp_option : ℕ → List ℕ → TcpOption
tcp_option k bs = record { kind = k; body = bs }

-- `in _NO_LEN_DATA`: the kinds EOL, 0, and NOP, 1.
abbrev pub no_len_data : ℕ → Bool
no_len_data k = (k == 0) || (k == 1)

unfoldable pub option_length : TcpOption → ℕ
option_length o = if no_len_data o.kind then 1 else 2 + length o.body

unfoldable pub build_option : TcpOption → Result (List ℕ)
unfolding option_length
build_option o =
    if no_len_data o.kind
    then ok (o.kind ∷ [])
    else if ltb o.kind 256
    then (if ltb (option_length o) 256
        then ok (o.kind ∷ option_length o ∷ o.body)
        else raise struct_error)
    else raise struct_error

-- `TCPOptions.get`: the first option of the kind.
unfoldable pub get : List TcpOption → ℕ → Option TcpOption
get [] k = none
get (o ∷ options) k = if o.kind == k then some o else get options k

unfoldable pub raw_length : List TcpOption → ℕ
unfolding option_length
raw_length [] = 0
raw_length (o ∷ options) = option_length o + raw_length options

unfoldable pub padded_length : List TcpOption → ℕ
unfolding raw_length
padded_length options = int_and (raw_length options + 3) (negsuc 3)

-- `b"".join(opt.build() for opt in self.options)`.
unfoldable pub join : List TcpOption → Result (List ℕ)
unfolding build_option
join [] = ok []
join (o ∷ options) = do head ← build_option o; tail ← join options; ok (head ++ tail)

unfoldable pub build : List TcpOption → Result (List ℕ)
unfolding join
build options = do
  blob ← join options
  ok (blob ++ replicate (padded_length options - length blob) 0)

-- The options that the class builds by name.
unfoldable pub mss : ℕ → TcpOption
mss value = tcp_option 2 (pack_be 2 (value % 2 ^ 16))

unfoldable pub window_scale : ℕ → TcpOption
window_scale shift = tcp_option 3 (pack_be 1 (shift % 2 ^ 8))

abbrev pub sack_permitted : TcpOption
sack_permitted = tcp_option 4 []

unfoldable pub timestamps : ℕ → ℕ → TcpOption
timestamps tsval tsecr = tcp_option 8 (pack_be 4 (tsval % 2 ^ 32) ++ pack_be 4 (tsecr % 2 ^ 32))

-- The loop of `parse` on what is left of `raw`; each round takes a byte at least, so that the
-- length is enough fuel.
unfoldable pub parse_from : ℕ → List ℕ → Result (List TcpOption)
parse_from zero raw = ok []
parse_from (suc n) [] = ok []
parse_from (suc n) (k ∷ rest) = elim (no_len_data k) [
  | true ↦ elim (k == 0) [
    | true ↦ ok (tcp_option k [] ∷ [])
    | false ↦ parse_from n rest >>= λ options. ok (tcp_option k [] ∷ options)
  ]
  | false ↦ elim rest [
    | [] ↦ raise invalid_data_length_error
    | l ∷ more ↦ elim (ltb l 2) [
      | true ↦ raise invalid_data_length_error
      | false ↦ elim (ltb (2 + length more) l) [
        | true ↦ raise type_error
        | false ↦ parse_from n (drop (l - 2) more) >>= λ options.
            ok (tcp_option k (take (l - 2) more) ∷ options)
      ]
    ]
  ]
]

unfoldable pub parse : List ℕ → Result (List TcpOption)
unfolding parse_from
parse raw = parse_from (length raw) raw
