-- ===== src/LightBpf/Compiler/DualStack.antt =====
-- The check of a transport protocol over IPv4 and IPv6 of LightBPF/CompilerSet/Compiler.py, as the first
-- of two alternatives.
use light_packet.Base.{ℕ, Bool, true, false, none, some, List, [], ◌∷◌, ◌≡◌, refl, arith}
use light_packet.Base.Int.{pos, ◌-ℤ◌}
use light_packet.Base.Exceptions.{ok}
use light_packet.LightBpf.Opcode.{bpf_max_buf_len, insn_class, insn_op}
use light_packet.LightBpf.Instruction.{Instruction}
use light_packet.LightBpf.Ast.{Node, binary_op, protocol_node}
use light_packet.LightBpf.Emulator.{returned, start, execute}
use light_packet.LightBpf.Emulator.Fields.{
  field_at, has_field, instruction, ldb-IsLoad, ldh-IsLoad, EndsFrom, ret-EndsFrom, load-EndsFrom,
  jeq-EndsWith, ldx_imm-EndsFrom,
}
use light_packet.LightBpf.Simulation.{Executes}
use light_packet.LightBpf.Compiler.Platform.{Platform}
use light_packet.LightBpf.Peephole
use light_packet.LightBpf.Peephole.Optimize.{optimize-SameOutcomes}
use light_packet.LightBpf.Compiler.Total.{compile-optimize}
use light_packet.LightBpf.Compiler.Code.{◌▸◌, emit, update, reading, new_label}
use light_packet.LightBpf.Compiler.Protocol.{
  compile_dual_stack_transport, compile_transport, compile_ip_protocol, compile_protocol,
}
use light_packet.LightBpf.Compiler.Boolean.{compile_or, compile_bool}
use light_packet.LightBpf.Compiler.Assemble.{
  compile, assemble_and_backpatch, with_returns, clean, label_map, patch_from, patch_insn, patch,
  check_offset, index_of, resolve, jump_label, label_eqb, finish,
}

-- `tcp or udp`.
abbrev pub tcp_or_udp : Node
tcp_or_udp = binary_op (protocol_node "tcp" none) "or" (protocol_node "udp" none)

-- Its code, before the optimiser: the check of TCP, and from 12 on that of UDP.
abbrev tcp_or_udp_code : List Instruction
tcp_or_udp_code =
    instruction 40 0 0 12
    ∷ instruction 21 0 6 0x0800
    ∷ instruction 48 0 0 23
    ∷ instruction 21 0 8 6
    ∷ instruction 40 0 0 20
    ∷ instruction 69 6 0 0x1fff
    ∷ instruction 177 0 0 14
    ∷ instruction 5 0 0 16
    ∷ instruction 21 0 3 0x86dd
    ∷ instruction 48 0 0 20
    ∷ instruction 21 0 1 6
    ∷ instruction 1 0 0 40
    ∷ instruction 40 0 0 12
    ∷ instruction 21 0 6 0x0800
    ∷ instruction 48 0 0 23
    ∷ instruction 21 0 9 17
    ∷ instruction 40 0 0 20
    ∷ instruction 69 7 0 0x1fff
    ∷ instruction 177 0 0 14
    ∷ instruction 5 0 0 4
    ∷ instruction 21 0 4 0x86dd
    ∷ instruction 48 0 0 20
    ∷ instruction 21 0 2 17
    ∷ instruction 1 0 0 40
    ∷ instruction 6 0 0 bpf_max_buf_len
    ∷ instruction 6 0 0 0
    ∷ []

compile-tcp_or_udp_code :
    (platform : Platform) → compile platform 1 false tcp_or_udp ≡ ok tcp_or_udp_code
unfolding compile compile_bool compile_or compile_protocol compile_ip_protocol compile_transport
    compile_dual_stack_transport ◌▸◌ emit update reading new_label assemble_and_backpatch
    with_returns clean label_map patch_from patch_insn patch check_offset index_of resolve
    jump_label label_eqb finish insn_class insn_op ◌-ℤ◌
compile-tcp_or_udp_code platform = refl

-- A packet that has a field with a value has it with no other.
field_at-value :
    (packet : List ℕ) (off size v w : ℕ)
    → has_field packet off size v ≡ true
    → field_at packet off size ≡ some w
    → w ≡ v
unfolding has_field
field_at-value packet off size v w h e = ground arith

module _ (packet : List ℕ) (ipv6 : has_field packet 12 2 0x86dd ≡ true)
    (tcp : has_field packet 20 1 6 ≡ true) where
  -- The check of UDP, from the load of the Ethernet type on.
  udp-EndsFrom : EndsFrom tcp_or_udp_code packet 12 0
  udp-EndsFrom =
      load-EndsFrom tcp_or_udp_code packet 12 12 2 0 _ (ldh-IsLoad packet 12) refl (λ e. refl)
        λ w at. rw (field_at-value packet 12 2 0x86dd w ipv6 at) (
          jeq-EndsWith tcp_or_udp_code packet 13 0x86dd 0x0800 0 6 0 refl (
            jeq-EndsWith tcp_or_udp_code packet 20 0x86dd 0x86dd 0 4 0 refl λ s pc holds.
              load-EndsFrom tcp_or_udp_code packet 21 20 1 0 _ (ldb-IsLoad packet 20) refl
                (λ e. refl)
                (λ w' at'. rw (field_at-value packet 20 1 6 w' tcp at') (
                  jeq-EndsWith tcp_or_udp_code packet 22 6 17 0 2 0 refl
                    λ s' pc' holds'. ret-EndsFrom tcp_or_udp_code packet 25 0 0 0 refl s' pc'))
                s pc))

  tcp-EndsFrom : EndsFrom tcp_or_udp_code packet 0 0
  tcp-EndsFrom =
      load-EndsFrom tcp_or_udp_code packet 0 12 2 0 _ (ldh-IsLoad packet 12) refl (λ e. refl)
        λ w at. rw (field_at-value packet 12 2 0x86dd w ipv6 at) (
          jeq-EndsWith tcp_or_udp_code packet 1 0x86dd 0x0800 0 6 0 refl (
            jeq-EndsWith tcp_or_udp_code packet 8 0x86dd 0x86dd 0 3 0 refl λ s pc holds.
              load-EndsFrom tcp_or_udp_code packet 9 20 1 0 _ (ldb-IsLoad packet 20) refl
                (λ e. refl)
                (λ w' at'. rw (field_at-value packet 20 1 6 w' tcp at') (
                  jeq-EndsWith tcp_or_udp_code packet 10 6 6 0 1 0 refl λ s' pc' holds'.
                    ldx_imm-EndsFrom tcp_or_udp_code packet 11 40 0 refl udp-EndsFrom s' pc'))
                s pc))

  rejected : Executes tcp_or_udp_code packet (returned (pos 0))
  unfolding execute
  rejected = tcp-EndsFrom start refl

-- `tcp or udp` compiles for an Ethernet link, and its program, with or without the optimiser, returns 0
-- for every packet that is IPv6 behind Ethernet with TCP as its next header.
pub compile-tcp_or_udp :
    (platform : Platform) (optimize : Bool) (packet : List ℕ)
    → has_field packet 12 2 0x86dd ≡ true
    → has_field packet 20 1 6 ≡ true
    → (code : List Instruction) × (compile platform 1 optimize tcp_or_udp ≡ ok code)
      × Executes code packet (returned (pos 0))
compile-tcp_or_udp platform false packet ipv6 tcp =
    (tcp_or_udp_code, compile-tcp_or_udp_code platform, rejected packet ipv6 tcp)
compile-tcp_or_udp platform true packet ipv6 tcp = (
  Peephole.optimize tcp_or_udp_code,
  compile-optimize platform 1 tcp_or_udp tcp_or_udp_code (compile-tcp_or_udp_code platform),
  (optimize-SameOutcomes packet tcp_or_udp_code (returned (pos 0))).0 (rejected packet ipv6 tcp),
)
