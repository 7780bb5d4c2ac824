-- ===== src/LightBpf/Emulator/Verdict.antt =====
-- What a program may return: 0, or the constant of one of its return instructions.
use light_packet.Base.{
  ℕ, zero, suc, ◌≡◌, ◌≢◌, sym, ◌∙◌, ◌⊎◌, inl, inr, some, List, arith, All, All-get_elem?,
  Option-cases,
}
use light_packet.Base.Int.{ℤ, pos, negsuc}
use light_packet.LightBpf.Opcode.{bpf_ret, insn_class}
use light_packet.LightBpf.Instruction.{Instruction}
use light_packet.LightBpf.Emulator.{
  State, halt, returned, start, exec_ld, exec_msh, exec_ldx, exec_alu, exec_jmp, exec_misc, exec,
  fetch, step, run, execute, Step-cases, run-halt, run-next,
}
use light_packet.LightBpf.Emulator.Return.{exec-bpf_ret}

module _ (packet : List ℕ) (insn : Instruction) (s : State) (v : ℤ) where
  exec_ld-returned : exec_ld packet insn s ≡ halt (returned v) → v ≡ pos 0
  unfolding exec_ld
  exec_ld-returned e = ground arith

  exec_ldx-returned : exec_ldx packet insn s ≡ halt (returned v) → v ≡ pos 0
  unfolding exec_ldx exec_msh
  exec_ldx-returned e = ground arith

  exec_alu-returned : exec_alu insn s ≡ halt (returned v) → v ≡ pos 0
  unfolding exec_alu
  exec_alu-returned e = ground arith

  exec_jmp-returned : exec_jmp insn s ≡ halt (returned v) → v ≡ pos 0
  unfolding exec_jmp
  exec_jmp-returned e = ground arith

  exec-returned :
      exec packet insn s ≡ halt (returned v)
      → (v ≡ pos 0) ⊎ ((insn_class insn.code ≡ bpf_ret) × (v ≡ insn.k))
  unfolding exec exec_misc
  exec-returned e = ground (
    arith,
    exec_ld-returned,
    exec_ldx-returned,
    exec_alu-returned,
    exec_jmp-returned,
    exec-bpf_ret packet insn s,
  )

-- A predicate of 0 and of the constants of the program's return instructions.
module _ (P : ℤ → Type 0) (reject-P : P (pos 0)) where
  abbrev pub ReturnsOnly : Instruction → Type 0
  ReturnsOnly insn = insn_class insn.code ≡ bpf_ret → P insn.k

  module _ (code : List Instruction) (packet : List ℕ) (h : All ReturnsOnly code) where
    fetch-ReturnsOnly : (pc : ℤ) (insn : Instruction) → fetch code pc ≡ some insn → ReturnsOnly insn
    unfolding fetch
    fetch-ReturnsOnly (pos i) insn e = All-get_elem? ReturnsOnly code i insn h e
    fetch-ReturnsOnly (negsuc n) insn e = absurd (ground arith)

    run-zero : (s : State) (v : ℤ) → run zero code packet s ≢ some (returned v)
    unfolding run
    run-zero s v e = ground arith

    step-returned : (s : State) (v : ℤ) → step code packet s ≡ halt (returned v) → P v
    unfolding step
    step-returned s v e = elim (Option-cases (fetch code s.pc)) [
      | inl out ↦ let z : v ≡ pos 0 = ground arith in rw z reject-P
      | inr (insn, found) ↦
          let here : exec packet insn s ≡ halt (returned v) = ground arith in
          elim (exec-returned packet insn s v here) [
            | inl z ↦ rw z reject-P
            | inr (ret, k) ↦ rw k (fetch-ReturnsOnly s.pc insn found ret)
          ]
    ]

    run-returned : (fuel : ℕ) (s : State) (v : ℤ) → run fuel code packet s ≡ some (returned v) → P v
    run-returned zero s v e = absurd (run-zero s v e)
    run-returned (suc fuel) s v e = elim (Step-cases (step code packet s)) [
      | inl (o, halts) ↦
          let same : halt o ≡ halt (returned v) = cc (run-halt fuel code packet s o halts) in
          step-returned s v (halts ∙ same)
      | inr (t, goes) ↦ run-returned fuel t v (sym (run-next fuel code packet s t goes) ∙ e)
    ]

    -- The value that a program returns is one that a return instruction has, or 0.
    pub execute-returned : (fuel : ℕ) (v : ℤ) → execute fuel code packet ≡ some (returned v) → P v
    unfolding execute
    execute-returned fuel v e = run-returned fuel start v e
