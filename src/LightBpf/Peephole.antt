-- ===== src/LightBpf/Peephole.antt =====
-- LightBPF/CompilerSet/Peephole.py: the optimiser of assembled programs. A set of instruction
-- indices is a list with a Boolean for each instruction, as the source has it in `reachable`.
pub mod Dead
pub mod Indices
pub mod Reachable
pub mod Optimize
pub mod Removal
pub mod Noop
pub mod Jumps
pub mod Thread
use light_packet.Base.{
  ℕ, zero, suc, ◌+◌, ◌*◌, ◌<◌, Bool, true, false, ◌&&◌, ◌||◌, not, Option, none, some, List, [],
  ◌∷◌, ◌++◌, map, length, get_elem?, get_or, set, replicate, ltb, ◌==◌, if◌then◌else◌,
}
use light_packet.Base.Int.{ℤ, pos, negsuc, ◌+ℤ◌, ◌-ℤ◌, eqb_ℤ}
use light_packet.LightBpf.Instruction.{Instruction}
use light_packet.LightBpf.Opcode.{bpf_jmp, bpf_ja, bpf_ret, insn_class, insn_op}

unfoldable pub is_jmp : Instruction → Bool
is_jmp insn = insn_class insn.code == bpf_jmp

unfoldable pub is_ja : Instruction → Bool
unfolding is_jmp
is_ja insn = is_jmp insn && insn_op insn.code == bpf_ja

-- Jump threading. The loop of `resolve`: follow unconditional jumps from `t` until it leaves the
-- program, comes to another instruction, or comes back to one that it has seen. Each round marks
-- an instruction, so as many rounds as there are instructions are enough.
unfoldable pub resolve_loop : ℕ → List Instruction → List Bool → ℤ → ℤ
resolve_loop zero code seen t = t
resolve_loop (suc fuel) code seen (negsuc n) = negsuc n
resolve_loop (suc fuel) code seen (pos t) = elim (get_elem? code t) [
  | none ↦ pos t
  | some insn ↦
      let rest = resolve_loop fuel code (set seen t true) (pos t +ℤ (pos 1 +ℤ insn.k)) in
      if get_or seen t true then pos t else if is_ja insn then rest else pos t
]

unfoldable pub resolve : List Instruction → ℤ → ℤ
unfolding resolve_loop
resolve code t = resolve_loop (length code) code (replicate (length code) false) t

-- The offset of the jump at `i` after `tgt = i + 1 + off; new_tgt = resolve(tgt)`.
unfoldable pub new_offset : List Instruction → ℕ → ℤ → ℤ
new_offset code i off =
    let tgt = pos i +ℤ (pos 1 +ℤ off) in
    if eqb_ℤ (resolve code tgt) tgt then off else resolve code tgt -ℤ pos (i + 1)

unfoldable pub thread_ja : List Instruction → ℕ → Instruction → List Instruction
thread_ja code i insn = set code i (record insn { k = new_offset code i insn.k })

unfoldable pub thread_jt : List Instruction → ℕ → Instruction → List Instruction
thread_jt code i insn = set code i (record insn { jt = new_offset code i insn.jt })

unfoldable pub thread_jf : List Instruction → ℕ → Instruction → List Instruction
thread_jf code i insn = set code i (record insn { jf = new_offset code i insn.jf })

-- `f` on the instruction that stands at `i` now.
unfoldable pub at_index :
    (List Instruction → ℕ → Instruction → List Instruction)
    → List Instruction
    → ℕ
    → List Instruction
at_index f code i = elim (get_elem? code i) [ none ↦ code | some insn ↦ f code i insn ]

-- The body of the loop of `_thread_jumps`; the list is changed in place, instruction by instruction.
unfoldable pub thread_insn : List Instruction → ℕ → Instruction → List Instruction
unfolding at_index
thread_insn code i insn =
    if is_jmp insn
    then (if insn_op insn.code == bpf_ja
        then thread_ja code i insn
        else at_index thread_jf (thread_jt code i insn) i)
    else code

unfoldable pub thread_from : ℕ → ℕ → List Instruction → List Instruction
unfolding at_index
thread_from zero i code = code
thread_from (suc n) i code = thread_from n (i + 1) (at_index thread_insn code i)

unfoldable pub thread_jumps : List Instruction → List Instruction
unfolding thread_from
thread_jumps code = thread_from (length code) 0 code

-- Removal. `old_to_new[i]`: the number of instructions kept before `i`, for a kept `i`.
unfoldable pub new_index : List Bool → ℕ → ℕ
new_index [] i = 0
new_index (gone ∷ removed) zero = 0
new_index (true ∷ removed) (suc i) = new_index removed i
new_index (false ∷ removed) (suc i) = suc (new_index removed i)

unfoldable pub old_to_new : List Bool → ℤ → Option ℕ
unfolding new_index
old_to_new removed (negsuc n) = none
old_to_new removed (pos i) = if get_or removed i true then none else some (new_index removed i)

-- `while idx < n and idx in removed: idx += 1`, over the indices from `idx` on.
unfoldable pub skip_removed : List Bool → ℕ → ℕ
skip_removed [] idx = idx
skip_removed (true ∷ removed) zero = suc (skip_removed removed zero)
skip_removed (false ∷ removed) zero = zero
skip_removed (gone ∷ removed) (suc idx) = suc (skip_removed removed idx)

unfoldable pub next_kept : List Bool → ℤ → ℤ
unfolding skip_removed
next_kept removed (negsuc n) = negsuc n
next_kept removed (pos idx) = pos (skip_removed removed idx)

-- `old_to_new.get(tgt, tgt)` of `tgt = next_kept(old_i + 1 + off)`.
unfoldable pub new_target : List Bool → ℤ → ℤ
new_target removed t = elim (old_to_new removed (next_kept removed t)) [
  | none ↦ next_kept removed t
  | some i ↦ pos i
]

unfoldable pub moved_offset : List Bool → ℕ → ℕ → ℤ → ℤ
moved_offset removed old_i new_i off =
    new_target removed (pos old_i +ℤ (pos 1 +ℤ off)) -ℤ pos (new_i + 1)

-- The body of the loop of `_remap_jumps`.
unfoldable pub remap : List Bool → ℕ → ℕ → Instruction → Instruction
remap removed old_i new_i insn =
    if is_jmp insn
    then (if insn_op insn.code == bpf_ja
        then record insn { k = moved_offset removed old_i new_i insn.k }
        else record insn {
          jt = moved_offset removed old_i new_i insn.jt;
          jf = moved_offset removed old_i new_i insn.jf;
        })
    else insn

-- The kept instructions of `code`, which starts at `old_i`, each with its jumps rewritten.
unfoldable pub compact : List Bool → ℕ → ℕ → List Instruction → List Bool → List Instruction
compact removed old_i new_i [] gone = []
compact removed old_i new_i (insn ∷ code) [] = []
compact removed old_i new_i (insn ∷ code) (true ∷ gone) =
    compact removed (suc old_i) new_i code gone
compact removed old_i new_i (insn ∷ code) (false ∷ gone) =
    remap removed old_i new_i insn ∷ compact removed (suc old_i) (suc new_i) code gone

unfoldable pub any : List Bool → Bool
any [] = false
any (b ∷ bs) = b || any bs

unfoldable pub apply_removals : List Instruction → List Bool → List Instruction
unfolding any compact
apply_removals code removed = if any removed then compact removed 0 0 code removed else code

-- Pass 1: no-op jumps.
unfoldable pub is_noop : Instruction → Bool
unfolding is_ja
is_noop insn = is_ja insn && eqb_ℤ insn.k (pos 0)

unfoldable pub remove_noop_jumps : List Instruction → List Instruction
remove_noop_jumps code = apply_removals code (map is_noop code)

-- Pass 3: dead code. The targets of all jumps and the entry point, as the list of a set's members.
unfoldable pub successors_of_jump : ℕ → Instruction → List ℤ
successors_of_jump i insn =
    if insn_op insn.code == bpf_ja
    then (pos i +ℤ (pos 1 +ℤ insn.k)) ∷ []
    else (pos i +ℤ (pos 1 +ℤ insn.jf)) ∷ (pos i +ℤ (pos 1 +ℤ insn.jt)) ∷ []

unfoldable pub jump_targets_from : ℕ → List Instruction → List ℤ
jump_targets_from i [] = []
jump_targets_from i (insn ∷ code) =
    (if is_jmp insn then successors_of_jump i insn else []) ++ jump_targets_from (suc i) code

-- `0 <= t < n`.
unfoldable pub in_range : ℕ → ℤ → Bool
in_range n (pos t) = ltb t n
in_range n (negsuc t) = false

unfoldable pub keep_in_range : ℕ → List ℤ → List ℤ
keep_in_range n [] = []
keep_in_range n (t ∷ ts) = let rest = keep_in_range n ts in if in_range n t then t ∷ rest else rest

unfoldable pub jump_targets : List Instruction → List ℤ
jump_targets code = keep_in_range (length code) (pos 0 ∷ jump_targets_from 0 code)

-- What is pushed for a reachable instruction, the last push first.
unfoldable pub successors : ℕ → Instruction → List ℤ
successors pc insn =
    if is_jmp insn
    then (if insn_op insn.code == bpf_ja
        then (pos pc +ℤ (pos 1 +ℤ insn.k)) ∷ []
        else (pos pc +ℤ pos 1)
          ∷ (pos pc +ℤ (pos 1 +ℤ insn.jf))
          ∷ (pos pc +ℤ (pos 1 +ℤ insn.jt))
          ∷ [])
    else if insn_class insn.code == bpf_ret
    then []
    else (pos pc +ℤ pos 1) ∷ []

-- One round of the loop over the stack of an instruction found at `pc`.
unfoldable pub visit : ℕ → Instruction → List ℤ → List Bool → List ℤ × List Bool
visit pc insn stack reachable =
    if get_or reachable pc true
    then (stack, reachable)
    else (successors pc insn ++ stack, set reachable pc true)

-- The `while stack:` loop, on fuel.
unfoldable pub mark : ℕ → List Instruction → List ℤ → List Bool → List Bool
mark zero code stack reachable = reachable
mark (suc fuel) code [] reachable = reachable
mark (suc fuel) code (negsuc n ∷ stack) reachable = mark fuel code stack reachable
mark (suc fuel) code (pos pc ∷ stack) reachable = elim (get_elem? code pc) [
  | none ↦ mark fuel code stack reachable
  | some insn ↦
      let (stack', reachable') = visit pc insn stack reachable in mark fuel code stack' reachable'
]

-- Every round takes an entry off the stack, and an instruction pushes three at most, once.
unfoldable pub reachable_from : List Instruction → List ℤ → List Bool
unfolding mark
reachable_from code stack =
    mark (length stack + 3 * length code) code stack (replicate (length code) false)

unfoldable pub eliminate_dead_code : List Instruction → List Instruction
eliminate_dead_code code = apply_removals code (map not (reachable_from code (jump_targets code)))

unfoldable pub optimize : List Instruction → List Instruction
optimize code = thread_jumps (eliminate_dead_code (thread_jumps (remove_noop_jumps code)))
