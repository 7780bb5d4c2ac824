-- ===== src/LightBpf/Emulator/Forward.antt =====
-- Programs as the kernel's `struct bpf_insn` holds them: the operands of every instruction are
-- unsigned, so every jump goes forward.
use light_packet.Base.{
  ℕ, zero, suc, ◌<◌, ◌≡◌, ◌≢◌, refl, inl, inr, false, some, List, arith, length, get_elem?-some,
  get_elem?-lt, ◌-◌, All, All-get_elem?, Option-cases,
}
use light_packet.Base.Int.{ℤ, pos, negsuc, neg_part, pos_part, leb_ℤ, ◌+ℤ◌, +ℤ_unsigned, eq_pos}
use light_packet.Base.Exceptions.{Exception}
use light_packet.LightBpf.Instruction.{Instruction}
use light_packet.LightBpf.Emulator.{
  State, next, halt, returned, raised, start, index_packet, exec_ld, exec_msh, exec_ldx, exec_alu,
  exec_jmp, exec_ret, exec_misc, exec, fetch, step, run, execute, Step-cases, run-halt, run-next,
}

-- The operands are those of an unsigned `struct bpf_insn`.
pub record IsUnsigned (insn : Instruction) : Type 0 where
  pub jt_sign : neg_part insn.jt ≡ 0
  pub jf_sign : neg_part insn.jf ≡ 0
  pub k_sign : neg_part insn.k ≡ 0

-- The program counter has moved on to a later instruction.
abbrev IsLater : State → State → Type 0
IsLater s t = (neg_part t.pc ≡ 0) × (pos_part s.pc < pos_part t.pc)

module _ (packet : List ℕ) (insn : Instruction) (u : IsUnsigned insn) (s : State)
    (at : neg_part s.pc ≡ 0) where
  exec_ld-IsLater : (t : State) → exec_ld packet insn s ≡ next t → IsLater s t
  unfolding exec_ld
  exec_ld-IsLater t e = ground (arith, +ℤ_unsigned s.pc (pos 1))

  exec_ldx-IsLater : (t : State) → exec_ldx packet insn s ≡ next t → IsLater s t
  unfolding exec_ldx exec_msh
  exec_ldx-IsLater t e = ground (arith, +ℤ_unsigned s.pc (pos 1))

  exec_alu-IsLater : (t : State) → exec_alu insn s ≡ next t → IsLater s t
  unfolding exec_alu
  exec_alu-IsLater t e = ground (arith, +ℤ_unsigned s.pc (pos 1))

  exec_jmp-IsLater : (t : State) → exec_jmp insn s ≡ next t → IsLater s t
  unfolding exec_jmp
  exec_jmp-IsLater t e = ground (
    arith,
    u,
    +ℤ_unsigned s.pc (pos 1 +ℤ insn.k),
    +ℤ_unsigned (pos 1) insn.k,
    +ℤ_unsigned s.pc (pos 1 +ℤ insn.jt),
    +ℤ_unsigned (pos 1) insn.jt,
    +ℤ_unsigned s.pc (pos 1 +ℤ insn.jf),
    +ℤ_unsigned (pos 1) insn.jf,
  )

  exec-IsLater : (t : State) → exec packet insn s ≡ next t → IsLater s t
  unfolding exec exec_ret exec_misc
  exec-IsLater t e = ground (
    arith,
    exec_ld-IsLater t,
    exec_ldx-IsLater t,
    exec_alu-IsLater t,
    exec_jmp-IsLater t,
    +ℤ_unsigned s.pc (pos 1),
  )

  exec_msh-ne-raised :
      (e : Exception)
      → leb_ℤ (pos (length packet)) insn.k ≡ false
      → exec_msh packet insn s ≢ halt (raised e)
  unfolding exec_msh index_packet
  exec_msh-ne-raised e below r =
      ground (arith, u, eq_pos insn.k, get_elem?-some packet (pos_part insn.k))

  exec-ne-raised : (e : Exception) → exec packet insn s ≢ halt (raised e)
  unfolding exec exec_ld exec_ldx exec_alu exec_jmp exec_ret exec_misc
  exec-ne-raised e r = ground (arith, exec_msh-ne-raised e)

fetch-IsUnsigned :
    (code : List Instruction) (pc : ℤ) (insn : Instruction)
    → All IsUnsigned code
    → fetch code pc ≡ some insn
    → IsUnsigned insn
unfolding fetch
fetch-IsUnsigned code (pos i) insn u e = All-get_elem? IsUnsigned code i insn u e
fetch-IsUnsigned code (negsuc n) insn u e = absurd (ground arith)

fetch-lt :
    (code : List Instruction) (pc : ℤ) (insn : Instruction)
    → fetch code pc ≡ some insn
    → pos_part pc < length code
unfolding fetch
fetch-lt code (pos i) insn e = get_elem?-lt code i insn e
fetch-lt code (negsuc n) insn e = absurd (ground arith)

module _ (code : List Instruction) (packet : List ℕ) (u : All IsUnsigned code) where
  -- From a program counter that is not negative a round moves on to a later instruction, and it
  -- does so only inside the program.
  step-IsLater :
      (s t : State)
      → neg_part s.pc ≡ 0
      → step code packet s ≡ next t
      → IsLater s t × (pos_part s.pc < length code)
  unfolding step
  step-IsLater s t at e = elim (Option-cases (fetch code s.pc)) [
    | inl out ↦ absurd (ground arith)
    | inr (insn, found) ↦ ground (
      arith,
      exec-IsLater packet insn (fetch-IsUnsigned code s.pc insn u found) s at t,
      fetch-lt code s.pc insn found,
    )
  ]

  step-ne-raised :
      (s : State) (e : Exception) → neg_part s.pc ≡ 0 → step code packet s ≢ halt (raised e)
  unfolding step
  step-ne-raised s e at r = elim (Option-cases (fetch code s.pc)) [
    | inl out ↦ ground arith
    | inr (insn, found) ↦
        ground (arith, exec-ne-raised packet insn (fetch-IsUnsigned code s.pc insn u found) s at e)
  ]

  run_total :
      (fuel : ℕ) (s : State)
      → neg_part s.pc ≡ 0
      → length code - pos_part s.pc < fuel
      → (v : ℤ) × (run fuel code packet s ≡ some (returned v))
  run_total zero s at h = elim h [ ]
  run_total (suc fuel) s at h = elim (Step-cases (step code packet s)) [
    | inl (returned v, e) ↦ (v, run-halt fuel code packet s _ e)
    | inl (raised x, e) ↦ absurd (step-ne-raised s x at e)
    | inr (t, e) ↦
        let (l, inside) = step-IsLater s t at e in
        rw (run-next fuel code packet s t e) (run_total fuel t l.0 (omega arith))
  ]

-- With one unit of fuel more than the program has instructions, a program with unsigned operands
-- returns a value on every packet: it neither runs on nor raises.
pub execute_total :
    (code : List Instruction) (packet : List ℕ) (fuel : ℕ)
    → All IsUnsigned code
    → length code < fuel
    → (v : ℤ) × (execute fuel code packet ≡ some (returned v))
unfolding execute
execute_total code packet fuel u h = run_total code packet u fuel start refl (omega arith)
