-- ===== src/LightBpf/Compiler/Values.antt =====
-- LightBPF/CompilerSet/Compiler.py: expressions, of which the value is left in A.
use Prim.Native.String.{String}
use light_packet.Base.{
  ℕ, zero, ◌+◌, bit_or, Bool, true, false, ◌&&◌, ◌||◌, Option, none, some, List, [], ◌∷◌, ◌==◌,
  if◌then◌else◌,
}
use light_packet.Base.Text.{text_eqb}
use light_packet.Base.Exceptions.{value_error, not_implemented_error}
use light_packet.LightBpf.Ast.{
  Node, binary_op, byte_access, length_node, number, literal, field_node,
}
use light_packet.LightBpf.Ethertype.{ethertype_keywords}
use light_packet.LightBpf.Opcode.{
  bpf_ld, bpf_st, bpf_stx, bpf_alu, bpf_w, bpf_h, bpf_b, bpf_abs, bpf_ind, bpf_add, bpf_sub,
  bpf_mul, bpf_div, bpf_mod, bpf_and, bpf_or, bpf_xor, bpf_lsh, bpf_rsh, bpf_k, bpf_x,
}
use light_packet.LightBpf.Compiler.Code.{
  Label, label, plain, cond, next_or, Code, emit, fail, ◌▸◌, reading, attempt, new_label,
  alloc_scratch, free_scratch, ldh_abs, ldb_abs, ld_len, ld_imm, ldx_imm, ldx_mem, ldx_msh, add_k,
  add_x, tax, jeq_k, jset_k,
}
use light_packet.LightBpf.Compiler.Platform.{Platform}
use light_packet.LightBpf.Compiler.Tables.{lookup, field_offsets, transport_proto_num}
use light_packet.LightBpf.Compiler.Transport.{setup_transport_layer}

abbrev pub size_flag : ℕ → ℕ
size_flag size = if size == 1 then bpf_b else if size == 2 then bpf_h else bpf_w

-- `BPF_LD | size_flag | BPF_ABS`, and with `BPF_IND`.
unfoldable pub ld_abs : ℕ → ℕ
ld_abs size = bit_or (bit_or bpf_ld (size_flag size)) bpf_abs

unfoldable pub ld_ind : ℕ → ℕ
ld_ind size = bit_or (bit_or bpf_ld (size_flag size)) bpf_ind

-- An offset that is known: a number, or a field of which an unknown name is at 0.
unfoldable pub offset_val : Node → Option ℕ
offset_val (number n) = some n
offset_val (field_node name) = elim (lookup name field_offsets) [ some n ↦ some n | none ↦ some 0 ]
offset_val _ = none

-- The load at an offset that is computed: `base` is added, if the protocol has one.
unfoldable pub load_computed : List ℕ → ℕ → Code → Code
load_computed [] size offset = offset ▸ emit (plain tax 0 ∷ plain (ld_ind size) 0 ∷ [])
load_computed (base ∷ more) size offset =
    offset ▸ emit (plain add_k base ∷ plain tax 0 ∷ plain (ld_ind size) 0 ∷ [])

unfoldable pub load_link : Option ℕ → ℕ → Code → Code
load_link (some off) size offset = emit (plain (ld_abs size) off ∷ [])
load_link none size offset = load_computed [] size offset

-- The access to the network header, behind the test of the Ethernet type.
unfoldable pub load_network : ℕ → Option ℕ → ℕ → Code → Label → Code
load_network ethertype known size offset f = reading λ c.
    emit (plain ldh_abs c.e_p_offset ∷ next_or jeq_k f ethertype ∷ []) ▸ elim known [
      | some off ↦ emit (plain (ld_abs size) (c.ipv4_h_st + off) ∷ [])
      | none ↦ load_computed (c.ipv4_h_st ∷ []) size offset
    ]

-- What stands in for the guard on the transport, when an IP type was asserted before.
unfoldable pub setup_known : Option ℕ → ℕ → Label → Code
setup_known none num f = emit []
setup_known (some e) num f = reading λ c.
    if e == 0x0800
    then (new_label λ first_frag. emit (
        plain ldb_abs c.ipv4_proto_off
        ∷ next_or jeq_k f num
        ∷ plain ldh_abs c.ipv4_frag
        ∷ cond jset_k f first_frag 0x1fff
        ∷ label first_frag
        ∷ plain ldx_msh c.ipv4_h_st
        ∷ []))
    else if e == 0x86dd
    then emit (plain ldx_imm 40 ∷ [])
    else emit []

-- The access behind the transport header's offset, which is in X.
unfoldable pub load_transport : Option ℕ → ℕ → Code → Code
load_transport (some off) size offset = emit (plain (ld_ind size) (14 + off) ∷ [])
load_transport none size offset = alloc_scratch λ scratch.
    emit (plain bpf_stx scratch ∷ [])
    ▸ offset
    ▸ emit (plain add_k 14 ∷ plain ldx_mem scratch ∷ [])
    ▸ free_scratch
    ▸ emit (plain add_x 0 ∷ plain tax 0 ∷ plain (ld_ind size) 0 ∷ [])

unfoldable pub access_transport : String → ℕ → Option ℕ → ℕ → Code → Label → Code
access_transport proto num known size offset f = reading λ c.
    (if c.sip then setup_known c.explicit num f else setup_transport_layer (some proto) f)
    ▸ load_transport known size offset

-- The access behind another Ethernet type; an offset that is computed is left out.
unfoldable pub access_ethertype : ℕ → Option ℕ → ℕ → Label → Code
access_ethertype ethertype known size f = reading λ c.
    emit (plain ldh_abs c.e_p_offset ∷ next_or jeq_k f ethertype ∷ [])
    ▸ elim known [ some off ↦ emit (plain (ld_abs size) (14 + off) ∷ []) | none ↦ emit [] ]

abbrev pub is_ip4_name : String → Bool
is_ip4_name p = text_eqb p "ip" || (text_eqb p "ip4" || text_eqb p "ipv4")

abbrev pub is_ip6_name : String → Bool
is_ip6_name p = text_eqb p "ip6" || text_eqb p "ipv6"

-- `_compile_byte_access`; `offset` is the code of the offset.
unfoldable pub compile_byte_access : String → Option ℕ → ℕ → Code → Label → Code
compile_byte_access proto known size offset f = reading λ c.
    if c.linktype == 1
    then (if text_eqb proto "ether" || text_eqb proto "link"
        then load_link known size offset
        else if is_ip4_name proto
        then load_network 0x0800 known size offset f
        else if is_ip6_name proto
        then load_network 0x86dd known size offset f
        else elim (lookup proto transport_proto_num) [
          | some num ↦ access_transport proto num known size offset f
          | none ↦ elim (lookup proto ethertype_keywords) [
            | some ethertype ↦ access_ethertype ethertype known size f
            | none ↦ fail not_implemented_error
          ]
        ])
    else fail not_implemented_error

-- The table of `_compile_arithmetic`.
abbrev pub alu_ops : List (String × ℕ)
alu_ops =
    ("+", bpf_add)
    ∷ ("-", bpf_sub)
    ∷ ("*", bpf_mul)
    ∷ ("/", bpf_div)
    ∷ ("%", bpf_mod)
    ∷ ("&", bpf_and)
    ∷ ("|", bpf_or)
    ∷ ("^", bpf_xor)
    ∷ ("<<", bpf_lsh)
    ∷ (">>", bpf_rsh)
    ∷ []

unfoldable pub alu_k : ℕ → ℕ
alu_k op = bit_or (bit_or bpf_alu op) bpf_k

unfoldable pub alu_x : ℕ → ℕ
alu_x op = bit_or (bit_or bpf_alu op) bpf_x

-- The value of a `NumberNode`.
abbrev pub number_of : Node → Option ℕ
number_of (number n) = some n
number_of _ = none

abbrev pub is_zero : Option ℕ → Bool
is_zero (some zero) = true
is_zero _ = false

-- Both operands: the right one goes through a scratch word, left in X.
unfoldable pub both_operands : Code → Code → Code
both_operands left right = alloc_scratch λ scratch.
    right
    ▸ emit (plain bpf_st scratch ∷ [])
    ▸ left
    ▸ emit (plain ldx_mem scratch ∷ [])
    ▸ free_scratch

-- `_compile_arithmetic`, given the code of the operands.
unfoldable pub compile_arithmetic : String → Option ℕ → Code → Code → Code
compile_arithmetic op constant left right = elim (lookup op alu_ops) [
  | none ↦ fail not_implemented_error
  | some op_code ↦
      if (text_eqb op "/" || text_eqb op "%") && is_zero constant
      then fail value_error
      else elim constant [
        | some n ↦ left ▸ emit (plain (alu_k op_code) n ∷ [])
        | none ↦ both_operands left right ▸ emit (plain (alu_x op_code) 0 ∷ [])
      ]
]

-- `_compile_value`; there is no label to go to outside a Boolean context.
unfoldable pub compile_value : Platform → Node → Option Label → Code
compile_value platform (number n) f = emit (plain ld_imm n ∷ [])
compile_value platform length_node f = emit (plain ld_len 0 ∷ [])
compile_value platform (byte_access proto offset size) none = fail not_implemented_error
compile_value platform (byte_access proto offset size) (some f) =
    compile_byte_access proto (offset_val offset) size (compile_value platform offset (some f)) f
compile_value platform (binary_op left op right) f =
    compile_arithmetic op (number_of right) (compile_value platform left f)
      (compile_value platform right f)
compile_value platform (literal value kind) f =
    if text_eqb kind "ipv4"
    then attempt (platform.inet_aton value) (λ ip_int. emit (plain ld_imm ip_int ∷ []))
    else fail not_implemented_error
compile_value platform _ f = fail not_implemented_error
