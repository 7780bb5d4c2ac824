-- ===== src/LightBpf/Compiler/Keyword.antt =====
-- LightBPF/CompilerSet/Compiler.py: the other keyword filters, and the dispatch on the keyword.
use Prim.Native.String.{String}
use light_packet.Base.{
  ℕ, ◌+◌, Bool, true, false, ◌||◌, Option, none, some, [], ◌∷◌, ◌==◌, if◌then◌else◌,
}
use light_packet.Base.Text.{text_eqb}
use light_packet.Base.Exceptions.{Result, ok, raise, value_error, type_error, not_implemented_error}
use light_packet.LightBpf.Ast.{Value, int_value, str_value, range_value, no_value, KeywordFilter}
use light_packet.LightBpf.Ethertype.{ethertype_keywords}
use light_packet.LightBpf.Compiler.Code.{
  Label, label, Item, insn, num, to, plain, cond, goto, Compiler, emit, fail, ◌▸◌, reading, update,
  attempt, new_label, ldw_abs, ldh_abs, ldb_abs, ld_len, and_k, rsh_k, jeq_k, jgt_k, jge_k, jset_k,
}
use light_packet.LightBpf.Compiler.Platform.{Platform}
use light_packet.LightBpf.Compiler.Tables.{lookup}
use light_packet.LightBpf.Compiler.Protocol.{is_ip_type}
use light_packet.LightBpf.Compiler.Address.{
  Branch, guard_ethertype, compile_host_filter, compile_net_filter,
}
use light_packet.LightBpf.Compiler.Transport.{compile_port_filter, compile_portrange_filter}

-- `int(value)`.
unfoldable pub int_of : Platform → Value → Result ℕ
int_of platform (int_value n) = ok n
int_of platform (str_value s) = platform.int_of_text s
int_of platform (range_value lo hi) = raise type_error
int_of platform no_value = raise type_error

unfoldable pub compile_length_filter : Platform → KeywordFilter → Branch
compile_length_filter platform node t f = attempt (int_of platform node.value) λ val.
    if text_eqb node.keyword "less"
    then emit (plain ld_len 0 ∷ cond jgt_k f t val ∷ [])
    else emit (plain ld_len 0 ∷ cond jge_k t f val ∷ [])

unfoldable pub compile_broadcast_filter : Branch
compile_broadcast_filter t f = new_label λ part. emit (
    plain ldw_abs 0
    ∷ cond jeq_k part f 0xffffffff
    ∷ label part
    ∷ plain ldh_abs 4
    ∷ cond jeq_k t f 0xffff
    ∷ [])

unfoldable pub compile_multicast_filter : Branch
compile_multicast_filter t f = emit (plain ldb_abs 0 ∷ cond jset_k t f 0x01 ∷ [])

-- The offsets behind a VLAN tag, and behind an MPLS label.
unfoldable pub shift_vlan : Compiler → Compiler
shift_vlan c = record c {
  e_p_offset = c.e_p_offset + 4;
  ipv4_frag = c.ipv4_frag + 4;
  ipv4_proto_off = c.ipv4_proto_off + 4;
  ipv4_h_st = c.ipv4_h_st + 4;
  ipv6_h_st = c.ipv6_h_st + 4;
  ipv6_proto_off = c.ipv6_proto_off + 4;
  port_field_src = c.port_field_src + 4;
  port_field_dst = c.port_field_dst + 4;
}

unfoldable pub shift_mpls : Compiler → Compiler
shift_mpls c = record c {
  e_p_offset = c.e_p_offset + 4;
  ipv4_frag = c.ipv4_frag + 4;
  ipv4_proto_off = c.ipv4_proto_off + 4;
}

-- The test of the identifier of a tag, when the filter names one.
unfoldable pub test_vlan_id : Platform → Value → ℕ → Branch
test_vlan_id platform no_value off t f = emit (goto t ∷ [])
test_vlan_id platform value off t f =
    attempt (int_of platform value)
      λ vid. emit (plain ldh_abs off ∷ plain and_k 0x0fff ∷ cond jeq_k t f vid ∷ [])

-- The conditional jump with `jf` 0.
abbrev pub next_to : Label → ℕ → Item
next_to here e = insn jeq_k (to here) (num 0) (num e)

unfoldable pub compile_vlan_filter : Platform → KeywordFilter → Branch
compile_vlan_filter platform node t f = new_label λ here. reading λ c.
    emit (plain ldh_abs c.e_p_offset ∷ [])
    ▸ update shift_vlan
    ▸ emit (next_to here 0x8100 ∷ next_to here 0x88a8 ∷ cond jeq_k here f 0x9100 ∷ label here ∷ [])
    ▸ test_vlan_id platform node.value c.vlan_id_off t f
    ▸ update (λ c'. record c' { vlan_id_off = c'.vlan_id_off + 4 })

-- The test of the label, when the filter names one.
unfoldable pub test_mpls_label : Platform → Value → Branch
test_mpls_label platform no_value t f = emit (goto t ∷ [])
test_mpls_label platform value t f =
    attempt (int_of platform value)
      λ number. emit (plain ldw_abs 14 ∷ plain rsh_k 12 ∷ cond jeq_k t f number ∷ [])

unfoldable pub compile_mpls_filter : Platform → KeywordFilter → Branch
compile_mpls_filter platform node t f = new_label λ here. reading λ c.
    emit (plain ldh_abs c.e_p_offset ∷ [])
    ▸ update shift_mpls
    ▸ emit (cond jeq_k here f 0x8847 ∷ label here ∷ [])
    ▸ test_mpls_label platform node.value t f

-- The number of a `proto` filter: an Ethernet type by name, or a number.
unfoldable pub proto_value : Platform → Value → Option ℕ
proto_value platform (int_value n) = some n
proto_value platform (str_value s) = elim (lookup (platform.lower s) ethertype_keywords) [
  | some e ↦ some e
  | none ↦ platform.int_base_0 (platform.lower s)
]
proto_value platform (range_value lo hi) = none
proto_value platform no_value = none

-- What a `proto` filter leaves in the state.
unfoldable pub note_proto : ℕ → Compiler → Compiler
note_proto n c =
    if is_ip_type n
    then record c { explicit = some n; parsed_upper = true }
    else record c { parsed_upper = true }

-- The test of the protocol at a fixed offset, when the node has a protocol.
unfoldable pub test_proto_at : Option String → ℕ → ℕ → Branch
test_proto_at none off n t f = emit []
test_proto_at (some p) off n t f = emit (plain ldb_abs off ∷ cond jeq_k t f n ∷ [])

-- The text of `node.value`, when it is one.
abbrev pub text_value : Value → Option String
text_value (str_value s) = some s
text_value (int_value n) = none
text_value (range_value lo hi) = none
text_value no_value = none

abbrev pub is_text : Option String → String → Bool
is_text none name = false
is_text (some s) name = text_eqb s name

abbrev pub named_ethertype : Option String → Option ℕ
named_ethertype none = none
named_ethertype (some s) = lookup s ethertype_keywords

-- The last branch, by the filter's value as it is written.
unfoldable pub proto_by_value : Value → Option String → ℕ → Branch
proto_by_value value protocol n t f =
    if is_text (text_value value) "ip6" || is_text (text_value value) "ipv6"
    then (guard_ethertype 0x86dd f ▸ test_proto_at protocol 20 n t f)
    else elim (named_ethertype (text_value value)) [
      | some e ↦ guard_ethertype e f
      | none ↦ guard_ethertype 0x0800 f ▸ test_proto_at protocol 23 n t f
    ]

-- `_compile_proto_filter`, on a link of type 1; `link` is the node's protocol in lower case.
unfoldable pub compile_proto : Value → Option String → Option String → ℕ → Branch
compile_proto value protocol link n t f = reading λ c.
    if is_text link "ether" || is_text link "link"
    then emit (plain ldh_abs c.e_p_offset ∷ cond jeq_k t f n ∷ [])
    else if is_text link "ip6" || is_text link "ipv6"
    then (guard_ethertype 0x86dd f ▸ test_proto_at protocol 20 n t f)
    else proto_by_value value protocol n t f

-- `(node.protocol or "").lower()`.
abbrev pub link_of : Platform → Option String → Option String
link_of platform none = none
link_of platform (some p) = some (platform.lower p)

unfoldable pub compile_proto_filter : Platform → KeywordFilter → Branch
compile_proto_filter platform node t f = reading λ c.
    if c.linktype == 1
    then elim (proto_value platform node.value) [
      | none ↦ fail value_error
      | some n ↦
          update (note_proto n)
          ▸ compile_proto node.value node.protocol (link_of platform node.protocol) n t f
    ]
    else fail value_error

-- `_compile_keyword`.
unfoldable pub compile_keyword : Platform → KeywordFilter → Branch
compile_keyword platform node t f =
    if text_eqb node.keyword "host"
    then compile_host_filter platform node t f
    else if text_eqb node.keyword "net"
    then compile_net_filter platform node t f
    else if text_eqb node.keyword "port"
    then compile_port_filter platform node t f
    else if text_eqb node.keyword "portrange"
    then compile_portrange_filter platform node t f
    else if text_eqb node.keyword "less" || text_eqb node.keyword "greater"
    then compile_length_filter platform node t f
    else if text_eqb node.keyword "broadcast"
    then compile_broadcast_filter t f
    else if text_eqb node.keyword "multicast"
    then compile_multicast_filter t f
    else if text_eqb node.keyword "proto" || text_eqb node.keyword "protochain"
    then compile_proto_filter platform node t f
    else if text_eqb node.keyword "vlan"
    then compile_vlan_filter platform node t f
    else if text_eqb node.keyword "mpls"
    then compile_mpls_filter platform node t f
    else fail not_implemented_error
