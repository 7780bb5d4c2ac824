-- ===== src/LightBpf/Compiler/Meaning.antt =====
-- What the filters of LightBPF/CompilerSet/Compiler.py mean, without a word of its code: an answer for
-- each packet on an Ethernet link. Trees that need VLAN tags, MPLS labels, ports, a transport protocol
-- or two computed operands have no meaning here.
use Prim.Native.String.{String}
use light_packet.Base.{
  ℕ, ◌+◌, ◌^◌, ◌%◌, bit_and, Bool, true, false, not, ◌||◌, Option, none, some, List, length, ◌==◌,
  ltb, leb, if◌then◌else◌,
}
use light_packet.Base.Int.{pos}
use light_packet.Base.Text.{text_eqb}
use light_packet.Base.Exceptions.{Result, ok, raise, ◌>>=◌}
use light_packet.LightBpf.Opcode.{bpf_max_buf_len}
use light_packet.LightBpf.Ast.{
  KeywordFilter, Node, binary_op, unary_op, protocol_node, keyword_filter, byte_access, length_node,
  number,
}
use light_packet.LightBpf.Emulator.{alu}
use light_packet.LightBpf.Ethertype.{ethertype_keywords}
use light_packet.LightBpf.Compiler.Platform.{Platform}
use light_packet.LightBpf.Compiler.Tables.{lookup}
use light_packet.LightBpf.Compiler.Address.{text_of}
use light_packet.LightBpf.Compiler.Keyword.{int_of}
use light_packet.LightBpf.Compiler.Values.{offset_val, alu_ops, number_of, is_ip4_name, is_ip6_name}
use light_packet.LightBpf.Compiler.Boolean.{mask_test, is_comparison}
use light_packet.LightBpf.Compiler.Answers.{
  short, value, and_then, or_else, negated, Reading, field_reading, guard_reading, bind_reading,
  bind_answer, test_field, ipv4_answer, ipv6_answer, mac_at, mac_answer, network_answer,
}

-- The meaning of a filter, where it has one.
abbrev pub Meaning : Type 0
Meaning = Option (List ℕ → Option Bool)

abbrev pub of_result {ℓ} : {A : Type ℓ} → Result A → (A → List ℕ → Option Bool) → Meaning
of_result (ok a) k = some (k a)
of_result (raise e) k = none

-- A host is an IPv4 address, an IPv6 address or a MAC address.
unfoldable pub host_meaning : Platform → KeywordFilter → Meaning
host_meaning platform node =
    if text_eqb node.value_type "ipv4"
    then of_result (text_of node.value >>= platform.inet_aton) (λ ip. ipv4_answer ip node.direction)
    else if text_eqb node.value_type "ipv6"
    then of_result (text_of node.value >>= platform.ipv6_address)
        (λ words. ipv6_answer words node.direction)
    else if text_eqb node.value_type "mac"
    then of_result (text_of node.value >>= platform.mac_address)
        (λ mac. mac_answer mac node.direction)
    else none

abbrev pub has_text : Option String → Bool
has_text none = false
has_text (some m) = true

-- An IPv4 network.
unfoldable pub net_meaning : Platform → KeywordFilter → Meaning
net_meaning platform node =
    if (text_eqb node.value_type "cidr4" || text_eqb node.value_type "ipv4") || has_text node.mask
    then of_result (text_of node.value >>= λ address. platform.ipv4_network address node.mask)
        (λ net. network_answer net node.direction)
    else none

unfoldable pub length_meaning : Platform → KeywordFilter → Meaning
length_meaning platform node = of_result (int_of platform node.value) λ n packet.
    some (if text_eqb node.keyword "less" then leb (length packet) n else leb n (length packet))

unfoldable pub keyword_meaning : Platform → KeywordFilter → Meaning
keyword_meaning platform node =
    if text_eqb node.keyword "host"
    then host_meaning platform node
    else if text_eqb node.keyword "net"
    then net_meaning platform node
    else if text_eqb node.keyword "port"
    then none
    else if text_eqb node.keyword "portrange"
    then none
    else if text_eqb node.keyword "less" || text_eqb node.keyword "greater"
    then length_meaning platform node
    else if text_eqb node.keyword "broadcast"
    then some (mac_at (0xffffffff, 0xffff) 0)
    else if text_eqb node.keyword "multicast"
    then some
        (λ packet. bind_answer (λ w. some (not (bit_and w 1 == 0))) (field_reading packet 0 1))
    else none

-- An Ethernet type by its name.
unfoldable pub protocol_meaning : String → Meaning
protocol_meaning name =
    if text_eqb name "ether" || text_eqb name "link"
    then some (λ packet. some true)
    else elim (lookup name ethertype_keywords) [ none ↦ none | some e ↦ some (test_field 12 2 e) ]

-- Values: a field of one, two or four bytes of the frame, or of the network header.
abbrev pub width : ℕ → ℕ
width size = if size == 1 then 1 else if size == 2 then 2 else 4

unfoldable pub access_reading : String → ℕ → ℕ → Option (List ℕ → Reading)
access_reading proto off size =
    if text_eqb proto "ether" || text_eqb proto "link"
    then some (λ packet. field_reading packet off (width size))
    else if is_ip4_name proto
    then some (λ packet.
      bind_reading (λ e. field_reading packet (14 + off) (width size))
        (guard_reading packet 0x0800))
    else if is_ip6_name proto
    then some (λ packet.
      bind_reading (λ e. field_reading packet (14 + off) (width size))
        (guard_reading packet 0x86dd))
    else none

-- An operation of the machine; a division by zero rejects the packet.
unfoldable pub operation : ℕ → ℕ → ℕ → Reading
operation code n w = elim (alu code w (pos n)) [ none ↦ short | some result ↦ value result ]

unfoldable pub arithmetic_reading :
    String → Option ℕ → Option (List ℕ → Reading) → Option (List ℕ → Reading)
arithmetic_reading op (some n) (some m) = elim (lookup op alu_ops) [
  | none ↦ none
  | some code ↦ some (λ packet. bind_reading (operation code n) (m packet))
]
arithmetic_reading op (some n) none = none
arithmetic_reading op none m = none

unfoldable pub value_meaning : Node → Option (List ℕ → Reading)
value_meaning (number n) = some (λ packet. value (n % 2 ^ 32))
value_meaning length_node = some (λ packet. value (length packet))
value_meaning (byte_access proto offset size) = elim (offset_val offset) [
  | none ↦ none
  | some off ↦ access_reading proto off size
]
value_meaning (binary_op left op right) =
    arithmetic_reading op (number_of right) (value_meaning left)
value_meaning _ = none

-- A test of a value.
abbrev pub asks : (ℕ → Bool) → Option (List ℕ → Reading) → Meaning
asks test none = none
asks test (some m) = some (λ packet. bind_answer (λ w. some (test w)) (m packet))

unfoldable pub relation_meaning : String → ℕ → Option (List ℕ → Reading) → Meaning
relation_meaning op n m =
    if text_eqb op "=="
    then asks (λ w. w == n) m
    else if text_eqb op "!="
    then asks (λ w. not (w == n)) m
    else if text_eqb op ">"
    then asks (λ w. ltb n w) m
    else if text_eqb op ">="
    then asks (λ w. leb n w) m
    else if text_eqb op "<"
    then asks (λ w. ltb w n) m
    else if text_eqb op "<="
    then asks (λ w. leb w n) m
    else none

-- Bits compared with 0; two of the comparisons have no code.
unfoldable pub bits_meaning : String → ℕ → Option (List ℕ → Reading) → Meaning
bits_meaning op mask m =
    if text_eqb op "!=" || text_eqb op ">"
    then asks (λ w. not (bit_and w mask == 0)) m
    else if text_eqb op "=="
    then asks (λ w. bit_and w mask == 0) m
    else if text_eqb op ">="
    then asks (λ w. true) m
    else none

unfoldable pub comparison_meaning : Node → String → Node → Meaning
comparison_meaning left op right = elim (mask_test left right) [
  | some (inner, mask) ↦ bits_meaning op mask (value_meaning inner)
  | none ↦ elim (number_of right) [
    | some n ↦ relation_meaning op n (value_meaning left)
    | none ↦ none
  ]
]

unfoldable pub operator_meaning : Node → String → Node → Meaning
operator_meaning left op right =
    if is_comparison op
    then comparison_meaning left op right
    else if text_eqb op "&"
    then (elim (number_of right) [
      | some mask ↦ asks (λ w. not (bit_and w mask == 0)) (value_meaning left)
      | none ↦ none
    ])
    else asks (λ w. not (w == 0)) (value_meaning (binary_op left op right))

abbrev pub both : (Option Bool → Option Bool → Option Bool) → Meaning → Meaning → Meaning
both f (some l) (some r) = some (λ packet. f (l packet) (r packet))
both f (some l) none = none
both f none r = none

abbrev pub opposite : Meaning → Meaning
opposite none = none
opposite (some m) = some (λ packet. negated (m packet))

-- A filter. The right side of a connective counts when the left one leaves it open.
unfoldable pub meaning : Platform → Node → Meaning
meaning platform (binary_op left op right) = elim (text_eqb op "and") [
  | true ↦ both and_then (meaning platform left) (meaning platform right)
  | false ↦ elim (text_eqb op "or") [
    | true ↦ both or_else (meaning platform left) (meaning platform right)
    | false ↦ operator_meaning left op right
  ]
]
meaning platform (unary_op op expr) = elim (text_eqb op "not") [
  | true ↦ opposite (meaning platform expr)
  | false ↦ none
]
meaning platform (protocol_node name num) = protocol_meaning name
meaning platform (keyword_filter node) = keyword_meaning platform node
meaning platform (byte_access proto offset size) =
    asks (λ w. not (w == 0)) (value_meaning (byte_access proto offset size))
meaning platform (number n) = asks (λ w. not (w == 0)) (value_meaning (number n))
meaning platform length_node = asks (λ w. not (w == 0)) (value_meaning length_node)
meaning platform _ = none

-- What a program returns for an answer.
abbrev pub outcome_of : Option Bool → ℕ
outcome_of none = 0
outcome_of (some b) = if b then bpf_max_buf_len else 0
