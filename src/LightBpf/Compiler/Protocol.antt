-- ===== src/LightBpf/Compiler/Protocol.antt =====
-- LightBPF/CompilerSet/Compiler.py: a protocol name as a filter.
use Prim.Native.String.{String}
use light_packet.Base.{ℕ, Bool, true, false, ◌||◌, Option, none, some, [], ◌∷◌, ◌==◌, if◌then◌else◌}
use light_packet.Base.Text.{text_eqb}
use light_packet.Base.Exceptions.{not_implemented_error}
use light_packet.LightBpf.Ethertype.{ethertype_keywords}
use light_packet.LightBpf.Compiler.Code.{
  Label, label, plain, cond, next_or, goto, Compiler, Code, emit, fail, ◌▸◌, reading, update,
  new_label, ldh_abs, ldb_abs, ldx_imm, ldx_msh, jeq_k, jset_k,
}
use light_packet.LightBpf.Compiler.Tables.{lookup, ip_protocols}

-- `ethertype in (0x0800, 0x86DD)`.
abbrev pub is_ip_type : ℕ → Bool
is_ip_type n = (n == 0x0800) || (n == 0x86dd)

-- What an Ethernet type leaves in the state.
unfoldable pub note_ethertype : ℕ → Compiler → Compiler
note_ethertype e c =
    if is_ip_type e
    then record c { explicit = some e; sip = true; parsed_upper = true }
    else record c { parsed_upper = true }

unfoldable pub compile_ethertype : ℕ → Label → Label → Code
unfolding note_ethertype
compile_ethertype e t f =
    reading
      λ c. emit (plain ldh_abs c.e_p_offset ∷ cond jeq_k t f e ∷ []) ▸ update (note_ethertype e)

unfoldable pub compile_vlan_name : Label → Label → Code
compile_vlan_name t f = reading λ c. new_label λ here. emit (
    plain ldh_abs c.e_p_offset
    ∷ cond jeq_k t here 0x8100
    ∷ label here
    ∷ cond jeq_k t f 0x88a8
    ∷ cond jeq_k t f 0x9100
    ∷ [])

unfoldable pub compile_mpls_name : Label → Label → Code
compile_mpls_name t f = reading λ c. new_label λ here. emit (
    plain ldh_abs c.e_p_offset ∷ cond jeq_k t here 0x8847 ∷ label here ∷ cond jeq_k t f 0x8848 ∷ [])

-- The guard on the Ethernet type, when no IP type was asserted before.
unfoldable pub unless_sip : Bool → ℕ → Label → Code
unless_sip true e f = emit []
unless_sip false e f = new_label λ check.
    reading λ c. emit (plain ldh_abs c.e_p_offset ∷ cond jeq_k check f e ∷ label check ∷ [])

unfoldable pub compile_icmp : Label → Label → Code
compile_icmp t f =
    reading
      λ c. unless_sip c.sip 0x0800 f ▸ emit (plain ldb_abs c.ipv4_proto_off ∷ cond jeq_k t f 1 ∷ [])

unfoldable pub compile_icmp6 : Label → Label → Code
compile_icmp6 t f =
    reading λ c. unless_sip c.sip 0x86dd f ▸ emit (plain ldb_abs 20 ∷ cond jeq_k t f 58 ∷ [])

-- `_compile_transport_ipv4` with `with_x_offset` False, as it is called.
unfoldable pub compile_transport_ipv4 : ℕ → Label → Label → Code
compile_transport_ipv4 proto_num t f = reading λ c. new_label λ after_ether.
    emit (label after_ether ∷ plain ldb_abs c.ipv4_proto_off ∷ cond jeq_k t f proto_num ∷ [])

-- `_compile_transport_ipv6`, likewise.
unfoldable pub compile_transport_ipv6 : ℕ → Label → Label → Code
compile_transport_ipv6 proto_num t f = reading λ c. new_label λ after_ether. new_label λ frag_check.
    new_label λ frag_ok. emit (
      label after_ether
      ∷ plain ldb_abs c.ipv6_proto_off
      ∷ cond jeq_k t frag_check proto_num
      ∷ label frag_check
      ∷ cond jeq_k frag_ok f 44
      ∷ label frag_ok
      ∷ plain ldb_abs 54
      ∷ cond jeq_k t f proto_num
      ∷ [])

-- `_compile_dual_stack_transport`, likewise. The code of the IPv6 branch falls through at its end.
unfoldable pub compile_dual_stack_transport : ℕ → Label → Label → Code
compile_dual_stack_transport proto_num t f =
    update (λ c. record c { sip = true })
    ▸ reading λ c. new_label λ ip4_ok. new_label λ ip6_ok. new_label λ check_ip4.
      new_label λ check_ip6. new_label λ first_frag. new_label λ load. emit (
        plain ldh_abs c.e_p_offset
        ∷ cond jeq_k check_ip4 check_ip6 0x0800
        ∷ label check_ip4
        ∷ plain ldb_abs c.ipv4_proto_off
        ∷ next_or jeq_k f proto_num
        ∷ plain ldh_abs c.ipv4_frag
        ∷ cond jset_k f first_frag 0x1fff
        ∷ label first_frag
        ∷ plain ldx_msh c.port_field_src
        ∷ goto t
        ∷ label check_ip6
        ∷ next_or jeq_k f 0x86dd
        ∷ plain ldb_abs c.ipv6_proto_off
        ∷ cond jeq_k load f proto_num
        ∷ label load
        ∷ plain ldx_imm 40
        ∷ [])

-- A transport protocol by its number, as the Ethernet type asserted before has it.
unfoldable pub compile_transport : ℕ → Label → Label → Code
compile_transport proto_num t f = reading λ c. elim c.explicit [
  | none ↦ compile_dual_stack_transport proto_num t f
  | some e ↦
      if e == 0x0800
      then compile_transport_ipv4 proto_num t f
      else if e == 0x86dd
      then compile_transport_ipv6 proto_num t f
      else compile_dual_stack_transport proto_num t f
]

-- `icmp` and `icmp6` have code of their own, whatever their number.
unfoldable pub compile_ip_protocol : String → ℕ → Label → Label → Code
compile_ip_protocol name proto_num t f =
    if text_eqb name "icmp"
    then compile_icmp t f
    else if text_eqb name "icmp6"
    then compile_icmp6 t f
    else compile_transport proto_num t f

-- The number of an IP protocol: the table's, or else the node's.
abbrev pub protocol_number : String → Option ℕ → Option ℕ
protocol_number name node_num = elim (lookup name ip_protocols) [
  | some n ↦ some n
  | none ↦ node_num
]

unfoldable pub compile_protocol : String → Option ℕ → Label → Label → Code
compile_protocol name node_num t f = reading λ c.
    if c.linktype == 1
    then (if text_eqb name "ether" || text_eqb name "link"
        then emit (goto t ∷ [])
        else elim (lookup name ethertype_keywords) [
          | some e ↦ compile_ethertype e t f
          | none ↦
              if text_eqb name "vlan"
              then compile_vlan_name t f
              else if text_eqb name "mpls"
              then compile_mpls_name t f
              else elim (protocol_number name node_num) [
                | some n ↦ compile_ip_protocol name n t f
                | none ↦ fail not_implemented_error
              ]
        ])
    else fail not_implemented_error
