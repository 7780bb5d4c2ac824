-- ===== src/LightBpf/Emulator.antt =====
-- LightBPF/CompilerSet/Emulator.py: the virtual machine. The `while` loop is `run`, on fuel; one
-- round of it is `step`, with a handler for each instruction class.
pub mod Return
pub mod Verdict
pub mod Fields
pub mod Words
pub mod Forward
use light_packet.Base.{
  ℕ, zero, suc, ◌+◌, ◌-◌, ◌*◌, ◌/◌, ◌%◌, ◌^◌, bit_and, Bool, not, Option, none, some, List, length,
  get_elem?, get_or, set, take, drop, replicate, ltb, leb, ◌==◌, if◌then◌else◌, ◌≡◌, refl, ◌⊎◌, inl,
  inr,
}
use light_packet.Base.Bytes.{unpack_be}
use light_packet.Base.Int.{
  ℤ, pos, negsuc, ◌+ℤ◌, ◌-ℤ◌, ◌*ℤ◌, ltb_ℤ, leb_ℤ, eqb_ℤ, low_bits, floor_div, floor_mod, int_and,
  int_or, int_xor,
}
use light_packet.Base.Exceptions.{Exception, index_error}
use light_packet.LightBpf.Instruction.{Instruction}
use light_packet.LightBpf.Opcode.{
  bpf_ld, bpf_ldx, bpf_st, bpf_stx, bpf_alu, bpf_jmp, bpf_ret, bpf_misc, bpf_w, bpf_h, bpf_imm,
  bpf_abs, bpf_ind, bpf_mem, bpf_len, bpf_msh, bpf_add, bpf_sub, bpf_mul, bpf_div, bpf_or, bpf_and,
  bpf_lsh, bpf_rsh, bpf_neg, bpf_mod, bpf_xor, bpf_ja, bpf_jeq, bpf_jgt, bpf_jge, bpf_jset, bpf_x,
  bpf_tax, bpf_txa, bpf_a, insn_class, insn_size, insn_mode, insn_op, insn_src,
}

-- The registers, the sixteen scratch words and the program counter.
pub record State : Type 0 where
  pub a : ℕ
  pub x : ℕ
  pub m : List ℕ
  pub pc : ℤ

-- What `execute` does in the end: it returns a value, or Python raises.
pub data Outcome : Type 0 where
  returned : ℤ → Outcome
  raised : Exception → Outcome

-- One round of the loop: the next state, or the end of the call.
pub data Step : Type 0 where
  next : State → Step
  halt : Outcome → Step

pub Step-cases : (r : Step) → ((o : Outcome) × (r ≡ halt o)) ⊎ ((t : State) × (r ≡ next t))
Step-cases (next t) = inr (t, refl)
Step-cases (halt o) = inl (o, refl)

abbrev pub reject : Step
reject = halt (returned (pos 0))

abbrev pub is_negative : ℤ → Bool
is_negative v = ltb_ℤ v (pos 0)

-- `pc += 1`.
abbrev pub advance : State → State
advance s = record s { pc = s.pc +ℤ pos 1 }

-- `4 if size == BPF_W else (2 if size == BPF_H else 1)`.
unfoldable pub size_bytes : ℕ → ℕ
size_bytes code = if insn_size code == bpf_w then 4 else if insn_size code == bpf_h then 2 else 1

-- The big-endian read of `sz` bytes at `off`, 0 where they are not all in the packet.
unfoldable pub read : List ℕ → ℤ → ℕ → ℕ
read packet (negsuc n) sz = 0
read packet (pos off) sz =
    if ltb (length packet) (off + sz)
    then 0
    else if sz == 1
    then get_or packet off 0
    else if sz == 2
    then unpack_be (take 2 (drop off packet))
    else unpack_be (take 4 (drop off packet))

-- `M[k] if 0 <= k < 16 else 0`, and the guarded store.
unfoldable pub load_scratch : List ℕ → ℤ → ℕ
load_scratch m (negsuc n) = 0
load_scratch m (pos k) = if ltb k 16 then get_or m k 0 else 0

unfoldable pub store_scratch : List ℕ → ℤ → ℕ → List ℕ
store_scratch m (negsuc n) v = m
store_scratch m (pos k) v = if ltb k 16 then set m k (v % 2 ^ 32) else m

-- `packet[k]` where `k < len(packet)`: a negative index counts from the end, or raises.
unfoldable pub index_packet : List ℕ → ℤ → Option ℕ
index_packet packet (pos k) = get_elem? packet k
index_packet packet (negsuc n) =
    if ltb n (length packet) then get_elem? packet (length packet - (n + 1)) else none

unfoldable pub exec_ld : List ℕ → Instruction → State → Step
exec_ld packet insn s =
    if insn_mode insn.code == bpf_imm
    then next (advance (record s { a = low_bits 32 insn.k }))
    else if insn_mode insn.code == bpf_abs
    then (if ltb_ℤ (pos (length packet)) (insn.k +ℤ pos (size_bytes insn.code))
        then reject
        else next (advance (record s { a = read packet insn.k (size_bytes insn.code) })))
    else if insn_mode insn.code == bpf_ind
    then (if ltb_ℤ (pos (length packet)) (pos s.x +ℤ insn.k +ℤ pos (size_bytes insn.code))
        then reject
        else next
            (advance (record s { a = read packet (pos s.x +ℤ insn.k) (size_bytes insn.code) })))
    else if insn_mode insn.code == bpf_mem
    then next (advance (record s { a = load_scratch s.m insn.k }))
    else if insn_mode insn.code == bpf_len
    then next (advance (record s { a = length packet }))
    else next (advance s)

-- `X = 4 * (packet[insn.k] & 0x0F)`, after the test that `k` is below the length.
unfoldable pub exec_msh : List ℕ → Instruction → State → Step
exec_msh packet insn s = elim (index_packet packet insn.k) [
  | none ↦ halt (raised index_error)
  | some byte ↦ next (advance (record s { x = 4 * bit_and byte 0x0f }))
]

unfoldable pub exec_ldx : List ℕ → Instruction → State → Step
exec_ldx packet insn s =
    if insn_mode insn.code == bpf_imm
    then next (advance (record s { x = low_bits 32 insn.k }))
    else if insn_mode insn.code == bpf_mem
    then next (advance (record s { x = load_scratch s.m insn.k }))
    else if insn_mode insn.code == bpf_len
    then next (advance (record s { x = length packet }))
    else if insn_mode insn.code == bpf_msh
    then (if leb_ℤ (pos (length packet)) insn.k then reject else exec_msh packet insn s)
    else next (advance s)

-- `X if src == BPF_X else insn.k`.
unfoldable pub operand : Instruction → State → ℤ
operand insn s = if insn_src insn.code == bpf_x then pos s.x else insn.k

-- The new A of an arithmetic instruction; `none` is the `return 0` of a division by zero. An
-- operation of another number leaves A as it is.
unfoldable pub alu : ℕ → ℕ → ℤ → Option ℕ
alu op a v =
    if op == bpf_add
    then some (low_bits 32 (pos a +ℤ v))
    else if op == bpf_sub
    then some (low_bits 32 (pos a -ℤ v))
    else if op == bpf_mul
    then some (low_bits 32 (pos a *ℤ v))
    else if op == bpf_div
    then (if eqb_ℤ v (pos 0) then none else some (low_bits 32 (floor_div a v)))
    else if op == bpf_mod
    then (if eqb_ℤ v (pos 0) then none else some (low_bits 32 (floor_mod a v)))
    else if op == bpf_and
    then some (int_and a v % 2 ^ 32)
    else if op == bpf_or
    then some (low_bits 32 (int_or a v))
    else if op == bpf_xor
    then some (low_bits 32 (int_xor a v))
    else if op == bpf_lsh
    then some (a * 2 ^ low_bits 5 v % 2 ^ 32)
    else if op == bpf_rsh
    then some (a / 2 ^ low_bits 5 v % 2 ^ 32)
    else if op == bpf_neg
    then some (low_bits 32 (pos 0 -ℤ pos a))
    else some a

unfoldable pub exec_alu : Instruction → State → Step
exec_alu insn s = elim (alu (insn_op insn.code) s.a (operand insn s)) [
  | none ↦ reject
  | some a' ↦ next (advance (record s { a = a' }))
]

-- The condition of a conditional jump; `none` is the `return 0` of an unknown one.
unfoldable pub condition : ℕ → ℕ → ℤ → Option Bool
condition op a v =
    if op == bpf_jeq
    then some (eqb_ℤ (pos a) v)
    else if op == bpf_jgt
    then some (ltb_ℤ v (pos a))
    else if op == bpf_jge
    then some (leb_ℤ v (pos a))
    else if op == bpf_jset
    then some (not (int_and a v == 0))
    else none

-- `pc += 1 + offset`.
abbrev pub jump : ℤ → State → State
jump offset s = record s { pc = s.pc +ℤ (pos 1 +ℤ offset) }

-- An unconditional jump, as the emulator and the optimiser both test for it.
unfoldable pub exec_jmp : Instruction → State → Step
exec_jmp insn s =
    if insn_op insn.code == bpf_ja
    then next (jump insn.k s)
    else elim (condition (insn_op insn.code) s.a (operand insn s)) [
      | none ↦ reject
      | some holds ↦ next (jump (if holds then insn.jt else insn.jf) s)
    ]

unfoldable pub exec_ret : Instruction → State → Step
exec_ret insn s =
    if insn_mode insn.code == bpf_a then halt (returned (pos s.a)) else halt (returned insn.k)

unfoldable pub exec_misc : Instruction → State → Step
exec_misc insn s =
    if insn_op insn.code == bpf_tax
    then next (advance (record s { x = s.a }))
    else if insn_op insn.code == bpf_txa
    then next (advance (record s { a = s.x }))
    else next (advance s)

-- The dispatch on the class of the instruction.
unfoldable pub exec : List ℕ → Instruction → State → Step
exec packet insn s =
    if insn_class insn.code == bpf_ld
    then exec_ld packet insn s
    else if insn_class insn.code == bpf_ldx
    then exec_ldx packet insn s
    else if insn_class insn.code == bpf_st
    then next (advance (record s { m = store_scratch s.m insn.k s.a }))
    else if insn_class insn.code == bpf_stx
    then next (advance (record s { m = store_scratch s.m insn.k s.x }))
    else if insn_class insn.code == bpf_alu
    then exec_alu insn s
    else if insn_class insn.code == bpf_jmp
    then exec_jmp insn s
    else if insn_class insn.code == bpf_ret
    then exec_ret insn s
    else if insn_class insn.code == bpf_misc
    then exec_misc insn s
    else reject

-- `instructions[pc]` under the loop's test `0 <= pc < len(instructions)`.
unfoldable pub fetch : List Instruction → ℤ → Option Instruction
fetch code (pos i) = get_elem? code i
fetch code (negsuc n) = none

unfoldable pub step : List Instruction → List ℕ → State → Step
step code packet s = elim (fetch code s.pc) [ none ↦ reject | some insn ↦ exec packet insn s ]

-- The loop; `none` means that the fuel ran out.
unfoldable pub run : ℕ → List Instruction → List ℕ → State → Option Outcome
run zero code packet s = none
run (suc fuel) code packet s = elim (step code packet s) [
  | halt o ↦ some o
  | next s' ↦ run fuel code packet s'
]

module _ (fuel : ℕ) (code : List Instruction) (packet : List ℕ) (s : State) where
  pub run-halt : (o : Outcome) → step code packet s ≡ halt o → run (suc fuel) code packet s ≡ some o
  unfolding run
  run-halt o e = rw (e, run)

  pub run-next :
      (t : State)
      → step code packet s ≡ next t
      → run (suc fuel) code packet s ≡ run fuel code packet t
  unfolding run
  run-next t e = rw (e, run)

abbrev pub start : State
start = record { a = 0; x = 0; m = replicate 16 0; pc = pos 0 }

unfoldable pub execute : ℕ → List Instruction → List ℕ → Option Outcome
execute fuel code packet = run fuel code packet start
