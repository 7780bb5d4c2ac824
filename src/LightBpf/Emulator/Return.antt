-- ===== src/LightBpf/Emulator/Return.antt =====
-- What the return instruction gives.
use light_packet.Base.{ℕ, ◌/◌, ◌≡◌, false, ◌==◌, List, arith}
use light_packet.Base.Bits.{and_lowest}
use light_packet.LightBpf.Instruction.{Instruction}
use light_packet.LightBpf.Opcode.{bpf_ret, bpf_a, insn_class, insn_mode}
use light_packet.LightBpf.Emulator.{State, halt, returned, exec, exec_ret}

-- The mode of an opcode is a multiple of 32, and the selector `BPF_A` is 16.
insn_mode-ne-bpf_a : (code : ℕ) → (insn_mode code == bpf_a) ≡ false
unfolding insn_mode
insn_mode-ne-bpf_a code = ground (
  arith,
  and_lowest code 0xe0,
  and_lowest (code / 2) 0x70,
  and_lowest (code / 2 / 2) 0x38,
  and_lowest (code / 2 / 2 / 2) 0x1c,
  and_lowest (code / 2 / 2 / 2 / 2) 0x0e,
)

-- An instruction of the return class returns its constant `k`, whatever its other bits: no opcode
-- makes the emulator return the accumulator.
pub exec-bpf_ret :
    (packet : List ℕ) (insn : Instruction) (s : State)
    → insn_class insn.code ≡ bpf_ret
    → exec packet insn s ≡ halt (returned insn.k)
unfolding exec exec_ret
exec-bpf_ret packet insn s ret = ground (arith, insn_mode-ne-bpf_a insn.code)
