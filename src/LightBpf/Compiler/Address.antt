-- ===== src/LightBpf/Compiler/Address.antt =====
-- LightBPF/CompilerSet/Compiler.py: host and net filters.
use Prim.Native.String.{String}
use light_packet.Base.{
  ℕ, ◌+◌, Bool, true, false, ◌||◌, Option, none, some, [], ◌∷◌, ◌==◌, if◌then◌else◌,
}
use light_packet.Base.Text.{text_eqb}
use light_packet.Base.Exceptions.{
  Result, ok, raise, ◌>>=◌, not_implemented_error, value_error, type_error,
}
use light_packet.LightBpf.Ast.{
  Direction, src, dst, src_and_dst, src_or_dst, Value, int_value, str_value, range_value, no_value,
  KeywordFilter,
}
use light_packet.LightBpf.Compiler.Code.{
  Label, label, plain, cond, next_or, goto, Code, emit, fail, ◌▸◌, reading, attempt, new_label,
  ldw_abs, ldh_abs, and_k, jeq_k,
}
use light_packet.LightBpf.Compiler.Platform.{Words, Platform}

-- Code that goes to one of two labels.
abbrev pub Branch : Type 0
Branch = Label → Label → Code

-- The four directions of a filter, with the tests of its source and of its destination, and the two
-- in the order in which they are tried when both count.
unfoldable pub by_direction : Branch → Branch → Branch → Branch → Direction → Branch
by_direction source destination first second src t f = source t f
by_direction source destination first second dst t f = destination t f
by_direction source destination first second src_and_dst t f =
    new_label λ chk. first chk f ▸ emit (label chk ∷ []) ▸ second t f
by_direction source destination first second src_or_dst t f =
    new_label λ chk. first t chk ▸ emit (label chk ∷ []) ▸ second t f

-- A guard on the Ethernet type, before the rest.
unfoldable pub guard_ethertype : ℕ → Label → Code
guard_ethertype e f = reading λ c. emit (plain ldh_abs c.e_p_offset ∷ next_or jeq_k f e ∷ [])

unfoldable pub match_ipv4 : ℕ → ℕ → Branch
match_ipv4 ip_int off t f = emit (plain ldw_abs off ∷ cond jeq_k t f ip_int ∷ [])

unfoldable pub match_ipv6 : Words → ℕ → Branch
match_ipv6 words off t f = new_label λ w0. new_label λ w1. new_label λ w2. emit (
    plain ldw_abs off
    ∷ cond jeq_k w0 f words.w0
    ∷ label w0
    ∷ plain ldw_abs (off + 4)
    ∷ cond jeq_k w1 f words.w1
    ∷ label w1
    ∷ plain ldw_abs (off + 8)
    ∷ cond jeq_k w2 f words.w2
    ∷ label w2
    ∷ plain ldw_abs (off + 12)
    ∷ cond jeq_k t f words.w3
    ∷ [])

unfoldable pub match_mac : ℕ × ℕ → ℕ → Branch
match_mac mac off t f = new_label λ p1. emit (
    plain ldw_abs off
    ∷ cond jeq_k p1 f mac.0
    ∷ label p1
    ∷ plain ldh_abs (off + 4)
    ∷ cond jeq_k t f mac.1
    ∷ [])

-- The test of both of two places, by direction, the source first.
unfoldable pub source_first : (ℕ → Branch) → ℕ → ℕ → Direction → Branch
source_first check s d direction = by_direction (check s) (check d) (check s) (check d) direction

unfoldable pub host_ipv4 : ℕ → Direction → Branch
host_ipv4 ip_int direction t f =
    guard_ethertype 0x0800 f ▸ source_first (match_ipv4 ip_int) 26 30 direction t f

unfoldable pub host_ipv6 : Words → Direction → Branch
host_ipv6 words direction t f =
    guard_ethertype 0x86dd f ▸ source_first (match_ipv6 words) 22 38 direction t f

-- The destination of an Ethernet frame stands first, and is tried first.
unfoldable pub host_mac : ℕ × ℕ → Direction → Branch
host_mac mac direction =
    by_direction (match_mac mac 6) (match_mac mac 0) (match_mac mac 0) (match_mac mac 6) direction

-- The text of a value, as the library's parsers want it.
unfoldable pub text_of : Value → Result String
text_of (str_value s) = ok s
text_of (int_value n) = raise type_error
text_of (range_value lo hi) = raise type_error
text_of no_value = raise type_error

-- `_compile_host_filter`; a name is resolved, and compiled as the address that it has.
unfoldable pub compile_host_filter : Platform → KeywordFilter → Branch
compile_host_filter platform node t f =
    if text_eqb node.value_type "ipv4"
    then attempt (text_of node.value >>= platform.inet_aton)
        (λ ip_int. host_ipv4 ip_int node.direction t f)
    else if text_eqb node.value_type "ipv6"
    then attempt (text_of node.value >>= platform.ipv6_address)
        (λ words. host_ipv6 words node.direction t f)
    else if text_eqb node.value_type "mac"
    then attempt (text_of node.value >>= platform.mac_address)
        (λ mac. host_mac mac node.direction t f)
    else if text_eqb node.value_type "name"
    then attempt (text_of node.value) (λ name. elim (platform.gethostbyname name) [
      | none ↦ fail value_error
      | some resolved ↦
          attempt (platform.inet_aton resolved) (λ ip_int. host_ipv4 ip_int node.direction t f)
    ])
    else fail not_implemented_error

-- `match` of an IPv4 network, given its address and its mask.
unfoldable pub match_net : ℕ × ℕ → ℕ → Branch
match_net net off t f =
    emit (plain ldw_abs off ∷ [])
    ▸ (if net.1 == 0xffffffff then emit [] else emit (plain and_k net.1 ∷ []))
    ▸ emit (cond jeq_k t f net.0 ∷ [])

-- One word of an IPv6 network: on to `next`, unless it differs under the mask.
unfoldable pub match_word : ℕ → ℕ → ℕ → Branch
match_word net_word mask_word off next f =
    if mask_word == 0
    then emit (goto next ∷ [])
    else (emit (plain ldw_abs off ∷ [])
        ▸ (if mask_word == 0xffffffff then emit [] else emit (plain and_k mask_word ∷ []))
        ▸ emit (cond jeq_k next f net_word ∷ []))

-- The loop over the four words.
unfoldable pub match_net6 : Words × Words → ℕ → Branch
match_net6 net off t f = new_label λ l0. new_label λ l1. new_label λ l2.
    match_word net.0.w0 net.1.w0 off l0 f
    ▸ emit (label l0 ∷ [])
    ▸ match_word net.0.w1 net.1.w1 (off + 4) l1 f
    ▸ emit (label l1 ∷ [])
    ▸ match_word net.0.w2 net.1.w2 (off + 8) l2 f
    ▸ emit (label l2 ∷ [])
    ▸ match_word net.0.w3 net.1.w3 (off + 12) t f

unfoldable pub net_ipv4 : ℕ × ℕ → Direction → Branch
net_ipv4 net direction t f =
    guard_ethertype 0x0800 f ▸ source_first (match_net net) 26 30 direction t f

unfoldable pub net_ipv6 : Words × Words → Direction → Branch
net_ipv6 net direction t f =
    guard_ethertype 0x86dd f ▸ source_first (match_net6 net) 22 38 direction t f

-- `node.mask is not None`.
abbrev pub has_mask : Option String → Bool
has_mask none = false
has_mask (some m) = true

unfoldable pub compile_net_filter : Platform → KeywordFilter → Branch
compile_net_filter platform node t f =
    if (text_eqb node.value_type "cidr4" || text_eqb node.value_type "ipv4") || has_mask node.mask
    then attempt (text_of node.value >>= λ value. platform.ipv4_network value node.mask)
        (λ net. net_ipv4 net node.direction t f)
    else if text_eqb node.value_type "cidr6"
    then attempt (text_of node.value >>= platform.ipv6_network)
        (λ net. net_ipv6 net node.direction t f)
    else fail not_implemented_error
