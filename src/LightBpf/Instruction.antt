-- ===== src/LightBpf/Instruction.antt =====
-- LightBPF/CompilerSet/Instruction.py: one instruction of an assembled program. Symbolic labels
-- (`str` in the source) exist only before assembly, so the three operands are integers here.
use light_packet.Base.{ℕ}
use light_packet.Base.Int.{ℤ}

pub record Instruction : Type 0 where
  pub code : ℕ
  pub jt : ℤ
  pub jf : ℤ
  pub k : ℤ
