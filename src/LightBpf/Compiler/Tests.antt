-- ===== src/LightBpf/Compiler/Tests.antt =====
-- Filters compiled and run, and the theorems on the compiler at concrete inputs.
use Prim.Native.String.{String}
use light_packet.Base.{
  ℕ, true, false, none, List, [], ◌∷◌, ◌++◌, replicate, if◌then◌else◌, ◌≡◌, ◌≢◌, refl, Bool-cases,
  inl, inr,
}
use light_packet.Base.Text.{text_eqb}
use light_packet.Base.Int.{ℤ, pos, ◌-ℤ◌}
use light_packet.Base.Exceptions.{Result, ok, raise, key_error, value_error}
use light_packet.LightBpf.Instruction.{Instruction}
use light_packet.LightBpf.Ast.{
  Node, binary_op, unary_op, keyword_filter, src, src_or_dst, str_value, no_value,
}
use light_packet.LightBpf.Emulator.{returned}
use light_packet.LightBpf.Compiler.Platform.{Platform}
use light_packet.LightBpf.Compiler.Scoped.{IsKeyErrorFree, IsKnown}
use light_packet.LightBpf.Compiler.Assemble.{
  compile, assemble_and_backpatch, with_returns, clean, label_map, patch_from, patch_insn, patch,
  check_offset, index_of, resolve, jump_label, label_eqb, finish,
}
use light_packet.LightBpf.Opcode.{insn_class, insn_op}
use light_packet.LightBpf.Simulation.{Executes}
use light_packet.LightBpf.Peephole
use light_packet.LightBpf.Compiler.Code.{
  insn, num, to, ja, accept, reject, local, label, Item, plain, next_or, cond, ldh_abs, ldw_abs,
  ldb_abs, jeq_k, jset_k, Compiler, initial, ◌▸◌, emit, reading, new_label, attempt,
}
use light_packet.LightBpf.Compiler.Address.{
  compile_host_filter, text_of, host_ipv4, guard_ethertype, source_first, by_direction, match_ipv4,
}
use light_packet.LightBpf.Compiler.Keyword.{compile_keyword, compile_multicast_filter}
use light_packet.LightBpf.Compiler.Boolean.{compile_bool, compile_and}
use light_packet.LightBpf.Compiler.HostMac.{mac_filter, is_mac_host, compile-is_mac_host}
use light_packet.LightBpf.Compiler.Host.{host_filter, is_host, verdict, compile-is_host}
use light_packet.LightBpf.Compiler.DualStack.{tcp_or_udp, compile-tcp_or_udp}
use light_packet.LightBpf.Emulator.Fields.{has_field, field_at}
use light_packet.Base.Bytes.{unpack_be, unpack_from}
use light_packet.LightBpf.Compiler.Assemble.Loop.{Resolves, resolve-Resolves}
use light_packet.LightBpf.Compiler.Total.{IsVerdict, compile-IsVerdict, compile-ne-key_error}

-- A platform that knows one address of each kind, and no names.
abbrev one_address : String → Result ℕ
one_address s = if text_eqb s "10.0.0.1" then ok 0x0a000001 else raise value_error

abbrev one_mac : String → Result (ℕ × ℕ)
one_mac s = if text_eqb s "02:00:00:00:00:01" then ok (0x02000000, 1) else raise value_error

abbrev pub sample_platform : Platform
sample_platform = record {
  inet_aton = one_address;
  ipv6_address = λ s. raise value_error;
  mac_address = one_mac;
  gethostbyname = λ s. none;
  getservbyname = λ s. none;
  ipv4_network = λ s mask. raise value_error;
  ipv6_network = λ s. raise value_error;
  int_of_text = λ s. raise value_error;
  int_base_0 = λ s. none;
  decimal = λ s. none;
  lower = λ s. s;
}

one_address-IsKnown : (s : String) → IsKnown (one_address s)
one_address-IsKnown s = elim (Bool-cases (text_eqb s "10.0.0.1")) [
  | inl e ↦ rw e tt
  | inr e ↦ rw e (λ k. cc)
]

one_mac-IsKnown : (s : String) → IsKnown (one_mac s)
one_mac-IsKnown s = elim (Bool-cases (text_eqb s "02:00:00:00:00:01")) [
  | inl e ↦ rw e tt
  | inr e ↦ rw e (λ k. cc)
]

pub sample_platform-IsKeyErrorFree : IsKeyErrorFree sample_platform
sample_platform-IsKeyErrorFree = record {
  inet_aton_known = one_address-IsKnown;
  ipv6_address_known = λ s k. cc;
  mac_address_known = one_mac-IsKnown;
  ipv4_network_known = λ s mask k. cc;
  ipv6_network_known = λ s k. cc;
  int_of_text_known = λ s k. cc;
}

-- `src host 10.0.0.1 and not multicast`.
abbrev pub sample_tree : Node
sample_tree =
    binary_op
      (keyword_filter (record {
        keyword = "host";
        value = str_value "10.0.0.1";
        direction = src;
        protocol = none;
        value_type = "ipv4";
        mask = none;
      }))
      "and"
      (unary_op "not" (
        keyword_filter (record {
          keyword = "multicast";
          value = no_value;
          direction = src_or_dst;
          protocol = none;
          value_type = "none";
          mask = none;
        })))

abbrev instruction : ℕ → ℕ → ℕ → ℕ → Instruction
instruction c t f k = record { code = c; jt = pos t; jf = pos f; k = pos k }

-- Its code, before the optimiser.
abbrev pub sample_code : List Instruction
sample_code =
    instruction 40 0 0 12
    ∷ instruction 21 0 5 0x0800
    ∷ instruction 32 0 0 26
    ∷ instruction 21 0 3 0x0a000001
    ∷ instruction 48 0 0 0
    ∷ instruction 69 1 0 1
    ∷ instruction 6 0 0 0x40000
    ∷ instruction 6 0 0 0
    ∷ []

abbrev sample_items : List Item × Compiler
sample_items = (
  plain ldh_abs 12
      ∷ next_or jeq_k reject 0x0800
      ∷ plain ldw_abs 26
      ∷ cond jeq_k (local 1) reject 0x0a000001
      ∷ label (local 1)
      ∷ plain ldb_abs 0
      ∷ cond jset_k reject accept 1
      ∷ [],
  record (initial 1) { label_counter = 1 },
)

pub compiles : compile sample_platform 1 true sample_tree ≡ ok (Peephole.optimize sample_code)
unfolding compile compile_bool compile_and compile_keyword compile_host_filter text_of host_ipv4
    guard_ethertype source_first by_direction match_ipv4 compile_multicast_filter ◌▸◌ emit reading
    new_label attempt assemble_and_backpatch with_returns clean label_map patch_from patch_insn
    patch check_offset index_of resolve jump_label label_eqb finish insn_class insn_op ◌-ℤ◌
compiles = refl

emits : compile_bool sample_platform sample_tree accept reject (initial 1) ≡ ok sample_items
unfolding compile_bool compile_and compile_keyword compile_host_filter text_of host_ipv4
    guard_ethertype source_first by_direction match_ipv4 compile_multicast_filter ◌▸◌ emit reading
    new_label attempt
emits = refl

compile-IsVerdict_example :
    (v : ℤ) × IsVerdict v × Executes (Peephole.optimize sample_code) (replicate 60 0) (returned v)
compile-IsVerdict_example =
    compile-IsVerdict sample_platform 1 true sample_tree (replicate 60 0)
      (Peephole.optimize sample_code) sample_platform-IsKeyErrorFree compiles

compile-ne-key_error_example : compile sample_platform 1 true sample_tree ≢ raise key_error
compile-ne-key_error_example =
    compile-ne-key_error sample_platform 1 true sample_tree sample_platform-IsKeyErrorFree

-- Two jumps to each other.
abbrev jump_cycle : List Item
jump_cycle =
    label (local 0)
    ∷ insn ja (num 0) (num 0) (to (local 1))
    ∷ label (local 1)
    ∷ insn ja (num 0) (num 0) (to (local 0))
    ∷ []

-- From the first the loop comes to the second, back to the first, and ends.
resolve-Resolves_example : Resolves jump_cycle (clean jump_cycle) (replicate 2 false) 0 (ok 0)
unfolding resolve clean index_of label_map label_eqb jump_label insn_class insn_op
resolve-Resolves_example = resolve-Resolves jump_cycle (clean jump_cycle) 0

compile-is_host_example :
    (code : List Instruction) × (compile sample_platform 1 true
        (keyword_filter (host_filter "10.0.0.1" src_or_dst))
      ≡ ok code)
    × ((packet : List ℕ)
        → Executes code packet (returned (pos (verdict (is_host src_or_dst 0x0a000001 packet)))))
compile-is_host_example = compile-is_host sample_platform "10.0.0.1" 0x0a000001 refl true src_or_dst

-- TCP over IPv6.
abbrev tcp_over_ipv6 : List ℕ
tcp_over_ipv6 = replicate 12 0 ++ (0x86 ∷ 0xdd ∷ replicate 6 0 ++ (6 ∷ replicate 39 0))

compile-tcp_or_udp_example :
    (code : List Instruction) × (compile sample_platform 1 true tcp_or_udp ≡ ok code)
    × Executes code tcp_over_ipv6 (returned (pos 0))
unfolding has_field field_at unpack_be unpack_from
compile-tcp_or_udp_example = compile-tcp_or_udp sample_platform true tcp_over_ipv6 refl refl

compile-is_mac_host_example :
    (code : List Instruction) × (compile sample_platform 1 true
        (keyword_filter (mac_filter "02:00:00:00:00:01" src_or_dst))
      ≡ ok code)
    × ((packet : List ℕ)
        → Executes code packet
            (returned (pos (verdict (is_mac_host src_or_dst (0x02000000, 1) packet)))))
compile-is_mac_host_example =
    compile-is_mac_host sample_platform "02:00:00:00:00:01" (0x02000000, 1) refl true src_or_dst
