-- ===== src/LightBpf/Tests.antt =====
-- Runs of the emulator and the optimiser on small programs, and the theorems at these inputs.
use light_packet.Base.{ℕ, ◌≡◌, refl, Option, some, List, [], ◌∷◌, ◌++◌, arith, replicate, All}
use light_packet.Base.Bytes.{unpack_be}
use light_packet.Base.Int.{
  ℤ, pos, ◌+ℤ◌, ◌-ℤ◌, ◌*ℤ◌, low_bits, floor_div, floor_mod, int_and, int_or, int_xor,
}
use light_packet.LightBpf.Instruction.{Instruction}
use light_packet.LightBpf.Opcode.{insn_class, insn_size, insn_mode, insn_op, insn_src}
use light_packet.LightBpf.Emulator.{
  Outcome, returned, start, halt, advance, execute, run, step, fetch, exec, exec_ld, exec_ldx,
  exec_msh, exec_alu, exec_jmp, exec_ret, exec_misc, size_bytes, read, load_scratch, store_scratch,
  index_packet, operand, alu, condition,
}
use light_packet.LightBpf.Emulator.Forward.{IsUnsigned, execute_total}
use light_packet.LightBpf.Emulator.Return.{exec-bpf_ret}
use light_packet.LightBpf.Emulator.Words.{IsWords, step-IsWords}
use light_packet.LightBpf.Simulation.{SameOutcomes}
use light_packet.LightBpf.Peephole.{
  optimize, remove_noop_jumps, is_noop, apply_removals, remap, moved_offset, new_target, next_kept,
  old_to_new, thread_jumps, thread_insn, thread_ja, thread_jt, thread_jf, new_offset, resolve,
  eliminate_dead_code, reachable_from, visit, successors, jump_targets, jump_targets_from,
  successors_of_jump, keep_in_range, in_range,
}
use light_packet.LightBpf.Peephole.Noop.{remove_noop_jumps-SameOutcomes}
use light_packet.LightBpf.Peephole.Thread.{thread_jumps-SameOutcomes}
use light_packet.LightBpf.Peephole.Dead.{eliminate_dead_code-SameOutcomes}
use light_packet.LightBpf.Peephole.Optimize.{optimize-SameOutcomes}

abbrev op : ℕ → ℕ → Instruction
op code k = record { code = code; jt = pos 0; jf = pos 0; k = pos k }

-- ldh [12]; jeq #0x800 jt 0 jf 2; ja +0; ja +1; ret #0; ret #0x40000; ret a
abbrev sample : List Instruction
sample =
    op 0x28 12
    ∷ record { code = 0x15; jt = pos 0; jf = pos 2; k = pos 0x800 }
    ∷ op 0x05 0
    ∷ op 0x05 1
    ∷ op 0x06 0
    ∷ op 0x06 0x40000
    ∷ op 0x16 7
    ∷ []

abbrev frame : List ℕ
frame = replicate 12 0xff ++ 8 ∷ 0 ∷ 0x45 ∷ []

-- `execute` with all that it computes with.
call : List Instruction → List ℕ → Option Outcome
unfolding execute run step fetch exec exec_ld exec_ldx exec_msh exec_alu exec_jmp exec_ret exec_misc
    size_bytes read load_scratch store_scratch index_packet operand alu condition insn_class
    insn_size insn_mode insn_op insn_src unpack_be ◌+ℤ◌ ◌-ℤ◌ ◌*ℤ◌ low_bits floor_div floor_mod
    int_and int_or int_xor
call = execute 8

optimized : List Instruction → List Instruction
unfolding optimize remove_noop_jumps is_noop apply_removals remap moved_offset new_target next_kept
    old_to_new thread_jumps thread_insn thread_ja thread_jt thread_jf new_offset resolve
    eliminate_dead_code reachable_from visit successors jump_targets jump_targets_from
    successors_of_jump keep_in_range in_range insn_class insn_op ◌+ℤ◌ ◌-ℤ◌
optimized = optimize

calls :
    (call sample frame ≡ some (returned (pos 0x40000)))
    × (call sample [] ≡ some (returned (pos 0)))
    × (call (optimized sample) frame ≡ some (returned (pos 0x40000)))
unfolding call optimized
calls = (refl, refl, refl)

-- The no-op jump and the last instruction, which nothing reaches, go. The jump `ja +1` stays, since
-- the worklist also pushes the instruction after a conditional jump.
optimized-sample :
    optimized sample
    ≡ op 0x28 12
      ∷ record { code = 0x15; jt = pos 2; jf = pos 1; k = pos 0x800 }
      ∷ op 0x05 1
      ∷ op 0x06 0
      ∷ op 0x06 0x40000
      ∷ []
unfolding optimized
optimized-sample = refl

sample-IsUnsigned : All IsUnsigned sample
sample-IsUnsigned = grind arith

execute_total_example : (v : ℤ) × (execute 8 sample frame ≡ some (returned v))
execute_total_example = execute_total sample frame 8 sample-IsUnsigned (omega arith)

exec-bpf_ret_example : exec frame (op 0x16 7) start ≡ halt (returned (pos 7))
unfolding insn_class
exec-bpf_ret_example = exec-bpf_ret frame (op 0x16 7) start refl

step-IsWords_example : IsWords (advance (record start { a = 0x800 }))
unfolding call
step-IsWords_example =
    step-IsWords sample frame start _ (omega arith) (omega arith) (omega arith) refl

remove_noop_jumps-SameOutcomes_example : SameOutcomes frame sample (remove_noop_jumps sample)
remove_noop_jumps-SameOutcomes_example = remove_noop_jumps-SameOutcomes frame sample

thread_jumps-SameOutcomes_example : SameOutcomes frame sample (thread_jumps sample)
thread_jumps-SameOutcomes_example = thread_jumps-SameOutcomes frame sample

eliminate_dead_code-SameOutcomes_example : SameOutcomes frame sample (eliminate_dead_code sample)
eliminate_dead_code-SameOutcomes_example = eliminate_dead_code-SameOutcomes frame sample

optimize-SameOutcomes_example : SameOutcomes frame sample (optimize sample)
optimize-SameOutcomes_example = optimize-SameOutcomes frame sample
