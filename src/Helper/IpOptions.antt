-- ===== src/Helper/IpOptions.antt =====
-- helper/ipv4/IPOptions.py: the options of an IPv4 header.
pub mod Layout
pub mod RoundTrip
use light_packet.Base.{
  ℕ, zero, suc, ◌+◌, ◌-◌, Bool, true, false, ◌||◌, Option, none, some, List, [], ◌∷◌, ◌++◌, length,
  take, drop, replicate, ltb, ◌==◌, if◌then◌else◌,
}
use light_packet.Base.Int.{negsuc, int_and}
use light_packet.Base.Exceptions.{
  Result, ok, raise, ◌>>=◌, invalid_data_length_error, type_error, struct_error,
}

abbrev pub opt_eol : ℕ
opt_eol = 0

abbrev pub opt_nop : ℕ
opt_nop = 1

-- `IPOption`: `body` is its data, and `lenght` overrides the length byte when it is not 0.
pub record IpOption : Type 0 where
  pub opt_type : ℕ
  pub body : List ℕ
  pub lenght : ℕ

-- `IPOption(type, data)`, for a type that is a byte.
abbrev pub ip_option : ℕ → List ℕ → IpOption
ip_option t bs = record { opt_type = t; body = bs; lenght = 0 }

-- `in _NO_LEN_DATA`.
abbrev pub no_len_data : ℕ → Bool
no_len_data t = (t == opt_eol) || (t == opt_nop)

unfoldable pub option_length : IpOption → ℕ
option_length o = if no_len_data o.opt_type then 1 else 2 + length o.body

-- `struct.pack('>BB', t, l) + data`.
unfoldable pub pack_tlv : ℕ → ℕ → List ℕ → Result (List ℕ)
pack_tlv t l bs =
    if ltb t 256
    then (if ltb l 256 then ok (t ∷ l ∷ bs) else raise struct_error)
    else raise struct_error

unfoldable pub build_option : IpOption → Result (List ℕ)
build_option o =
    if no_len_data o.opt_type
    then ok (o.opt_type ∷ [])
    else if o.lenght == 0
    then pack_tlv o.opt_type (option_length o) o.body
    else pack_tlv o.opt_type o.lenght o.body

-- `IPOptions.get`: the first option of the type.
unfoldable pub get : List IpOption → ℕ → Option IpOption
get [] t = none
get (o ∷ options) t = if o.opt_type == t then some o else get options t

unfoldable pub raw_length : List IpOption → ℕ
unfolding option_length
raw_length [] = 0
raw_length (o ∷ options) = option_length o + raw_length options

unfoldable pub padded_length : List IpOption → ℕ
unfolding raw_length
padded_length options = int_and (raw_length options + 3) (negsuc 3)

-- `b"".join(opt.build() for opt in self.options)`.
unfoldable pub join : List IpOption → Result (List ℕ)
unfolding build_option
join [] = ok []
join (o ∷ options) = do head ← build_option o; tail ← join options; ok (head ++ tail)

unfoldable pub build : List IpOption → Result (List ℕ)
unfolding join
build options = do
  blob ← join options
  ok (blob ++ replicate (padded_length options - length blob) 0)

-- The loop of `parse` on what is left of `raw`; each round takes a byte at least, so that the
-- length is enough fuel.
unfoldable pub parse_from : ℕ → List ℕ → Result (List IpOption)
parse_from zero raw = ok []
parse_from (suc n) [] = ok []
parse_from (suc n) (t ∷ rest) = elim (no_len_data t) [
  | true ↦ elim (t == opt_eol) [
    | true ↦ ok (ip_option t [] ∷ [])
    | false ↦ parse_from n rest >>= λ options. ok (ip_option t [] ∷ options)
  ]
  | false ↦ elim rest [
    | [] ↦ raise invalid_data_length_error
    | l ∷ more ↦ elim (ltb l 2) [
      | true ↦ raise invalid_data_length_error
      | false ↦ elim (ltb (2 + length more) l) [
        | true ↦ raise type_error
        | false ↦ parse_from n (drop (l - 2) more) >>= λ options.
            ok (ip_option t (take (l - 2) more) ∷ options)
      ]
    ]
  ]
]

unfoldable pub parse : List ℕ → Result (List IpOption)
unfolding parse_from
parse raw = parse_from (length raw) raw
