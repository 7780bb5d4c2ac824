-- ===== src/LightBpf/Compiler/Transport.antt =====
-- LightBPF/CompilerSet/Compiler.py: the guard on the transport protocol, and port filters.
use Prim.Native.String.{String}
use light_packet.Base.{
  ℕ, Bool, true, false, ◌||◌, not, Option, none, some, [], ◌∷◌, ◌==◌, if◌then◌else◌,
}
use light_packet.Base.Text.{text_eqb}
use light_packet.Base.Exceptions.{Result, ok, raise, value_error, type_error}
use light_packet.LightBpf.Ast.{Value, int_value, str_value, range_value, no_value, KeywordFilter}
use light_packet.LightBpf.Compiler.Code.{
  Label, label, plain, cond, next_or, goto, Code, emit, ◌▸◌, reading, update, attempt, new_label,
  ldh_abs, ldb_abs, ldh_ind, ldx_imm, ldx_msh, jeq_k, jgt_k, jge_k, jset_k,
}
use light_packet.LightBpf.Compiler.Platform.{Platform}
use light_packet.LightBpf.Compiler.Tables.{lookup, transport_proto_num, common_services}
use light_packet.LightBpf.Compiler.Address.{Branch, source_first}

-- `_setup_transport_layer` for a protocol that is only over IPv6, and for one only over IPv4.
unfoldable pub setup_ipv6_only : ℕ → Label → Code
setup_ipv6_only num f = reading λ c. new_label λ chk. new_label λ here. emit (
    plain ldh_abs c.e_p_offset
    ∷ cond jeq_k chk f 0x86dd
    ∷ label chk
    ∷ plain ldb_abs c.ipv6_h_st
    ∷ cond jeq_k here f num
    ∷ label here
    ∷ plain ldx_imm 40
    ∷ [])

unfoldable pub setup_ipv4_only : ℕ → Label → Code
setup_ipv4_only num f = reading λ c. new_label λ chk. new_label λ here. new_label λ first_frag.
    emit (
      plain ldh_abs c.e_p_offset
      ∷ cond jeq_k chk f 0x0800
      ∷ label chk
      ∷ next_or ldb_abs f c.ipv4_proto_off
      ∷ cond jeq_k here f num
      ∷ label here
      ∷ plain ldh_abs c.ipv4_frag
      ∷ cond jset_k f first_frag 0x1fff
      ∷ label first_frag
      ∷ plain ldx_msh c.ipv4_h_st
      ∷ [])

-- The test of the protocol at `off`: one number, or TCP and UDP when the Ethernet type has not been
-- tested before, or none.
unfoldable pub test_protocol : Option ℕ → Bool → ℕ → Label → Label → Code
test_protocol (some num) parsed off here f = emit (plain ldb_abs off ∷ cond jeq_k here f num ∷ [])
test_protocol none true off here f = emit []
test_protocol none false off here f = new_label λ is_udp.
    emit (plain ldb_abs off ∷ cond jeq_k here is_udp 6 ∷ label is_udp ∷ cond jeq_k here f 17 ∷ [])

-- The IPv4 branch, from its label on: X is the offset of the transport header at the end.
unfoldable pub setup_ipv4 : Option ℕ → Bool → Label → Label → Label → Code
setup_ipv4 num parsed ip4_ok ready f = reading λ c.
    test_protocol num parsed c.ipv4_proto_off ip4_ok f
    ▸ emit (label ip4_ok ∷ [])
    ▸ new_label λ first_frag. emit (
        plain ldh_abs c.ipv4_frag
        ∷ cond jset_k f first_frag 0x1fff
        ∷ label first_frag
        ∷ plain ldx_msh c.ipv4_h_st
        ∷ goto ready
        ∷ [])

-- The test of the Ethernet type for IPv6, unless it was made before.
abbrev pub unless_parsed : Bool → Code → Code
unless_parsed true p = emit []
unless_parsed false p = p

-- The IPv6 branch, from its label on.
unfoldable pub setup_ipv6 : Option ℕ → Bool → Label → Label → Code
setup_ipv6 num parsed ip6_ok f = reading λ c.
    unless_parsed parsed (emit (next_or jeq_k f 0x86dd ∷ []))
    ▸ test_protocol num parsed c.ipv6_h_st ip6_ok f
    ▸ emit (label ip6_ok ∷ plain ldx_imm 40 ∷ [])

-- Whether a branch is compiled, by the Ethernet type asserted before.
abbrev pub may_be : Option ℕ → ℕ → Bool
may_be none e = true
may_be (some n) e = n == e

-- Code under a condition.
abbrev pub code_if : Bool → Code → Code
code_if true p = p
code_if false p = emit []

-- The two branches, of which `v4` and `v6` tell whether they are compiled.
unfoldable pub setup_branches : Bool → Bool → Bool → Option ℕ → Label → Code
setup_branches v4 v6 parsed num f = new_label λ ip4_ok. new_label λ ip6_ok. new_label λ ready.
    new_label λ check_ip6. new_label λ check_ip4. reading λ c.
      if not (v4 || v6)
      then emit (goto f ∷ [])
      else (unless_parsed parsed (emit (plain ldh_abs c.e_p_offset ∷ []))
          ▸ code_if v4 (
              unless_parsed parsed (emit (cond jeq_k check_ip4 check_ip6 0x0800 ∷ []))
              ▸ emit (label check_ip4 ∷ [])
              ▸ setup_ipv4 num parsed ip4_ok ready f)
          ▸ code_if v6 (emit (label check_ip6 ∷ []) ▸ setup_ipv6 num parsed ip6_ok f)
          ▸ emit (label ready ∷ [])
          ▸ update (λ c'. record c' { sip = true }))

-- `_setup_transport_layer` for the other protocols.
unfoldable pub setup_dual : Option ℕ → Label → Code
setup_dual num f =
    reading
      λ c. setup_branches (may_be c.explicit 0x0800) (may_be c.explicit 0x86dd) c.parsed_upper num f

-- `_TRANSPORT_PROTO_NUM.get(proto) if proto else None`.
unfoldable pub proto_num : Option String → Option ℕ
proto_num none = none
proto_num (some proto) = lookup proto transport_proto_num

abbrev pub is_proto : Option String → String → Bool
is_proto none name = false
is_proto (some proto) name = text_eqb proto name

unfoldable pub setup_transport_layer : Option String → Label → Code
setup_transport_layer proto f =
    if is_proto proto "icmp6"
    then setup_ipv6_only 58 f
    else if is_proto proto "icmp"
    then setup_ipv4_only 1 f
    else if is_proto proto "igmp"
    then setup_ipv4_only 2 f
    else setup_dual (proto_num proto) f

-- `_resolve_port`.
unfoldable pub resolve_port : Platform → Value → Result ℕ
resolve_port platform (int_value n) = ok n
resolve_port platform (str_value s) = elim (platform.decimal (platform.lower s)) [
  | some n ↦ ok n
  | none ↦ elim (lookup (platform.lower s) common_services) [
    | some n ↦ ok n
    | none ↦ elim (platform.getservbyname (platform.lower s)) [
      | some n ↦ ok n
      | none ↦ raise value_error
    ]
  ]
]
resolve_port platform (range_value lo hi) = raise value_error
resolve_port platform no_value = raise value_error

unfoldable pub match_port : ℕ → ℕ → Branch
match_port port_num off t f = emit (plain ldh_ind off ∷ cond jeq_k t f port_num ∷ [])

unfoldable pub compile_port_filter : Platform → KeywordFilter → Branch
compile_port_filter platform node t f = attempt (resolve_port platform node.value) λ port_num.
    reading λ c.
      (if c.sip then emit [] else setup_transport_layer node.protocol f)
      ▸ source_first (match_port port_num) c.port_field_src c.port_field_dst node.direction t f

-- `check` of a port range.
unfoldable pub match_range : ℕ → ℕ → ℕ → Branch
match_range lo hi off t f = new_label λ chk_hi.
    emit (plain ldh_ind off ∷ cond jge_k chk_hi f lo ∷ label chk_hi ∷ cond jgt_k f t hi ∷ [])

-- `int(node.value[0]), int(node.value[1])`.
unfoldable pub range_of : Value → Result (ℕ × ℕ)
range_of (range_value lo hi) = ok (lo, hi)
range_of (int_value n) = raise type_error
range_of (str_value s) = raise value_error
range_of no_value = raise type_error

unfoldable pub compile_portrange_filter : Platform → KeywordFilter → Branch
compile_portrange_filter platform node t f = attempt (range_of node.value) λ range. reading λ c.
    setup_transport_layer node.protocol f
    ▸ source_first (match_range range.0 range.1) c.port_field_src c.port_field_dst node.direction t
        f
