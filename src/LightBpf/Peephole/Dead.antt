-- ===== src/LightBpf/Peephole/Dead.antt =====
-- Removing unreachable instructions keeps the outcomes of a program.
use mathlib.Core.Path.{subst}
use light_packet.Base.{
  ℕ, zero, suc, ◌≡◌, refl, sym, ◌∙◌, inl, inr, ◌⊎◌, Bool, true, false, not, Option, none, some,
  List, [], ◌∷◌, arith, length, length-map, map, get_elem?, get_elem?-map, get_elem?-lt, get_or,
  if-both, Bool-cases, ◌==◌, get_elem?-some, get_or-get_elem?, lt→ltb, replicate,
}
use light_packet.Base.Int.{ℤ, pos, ◌+ℤ◌}
use light_packet.LightBpf.Instruction.{Instruction}
use light_packet.LightBpf.Opcode.{insn_op, insn_class, bpf_ja, bpf_ret}
use light_packet.LightBpf.Emulator.{
  State, Step, next, halt, start, step, fetch, exec, exec_ret, operand, condition,
}
use light_packet.LightBpf.Simulation.{
  Agree, both_halt, both_next, IsSimulation, SameOutcomes, same_outcomes,
}
use light_packet.LightBpf.Peephole.{
  is_jmp, any, compact, apply_removals, successors, reachable_from, jump_targets, jump_targets_from,
  keep_in_range, in_range, eliminate_dead_code,
}
use light_packet.LightBpf.Peephole.Reachable.{
  In, Covered, outside, marked, waiting, Ends, reachable_from-Ends,
}
use light_packet.LightBpf.Peephole.Removal.{
  step-outside, kept-lt, Lands, kept, skip, Corresponds, Lands-Agree, land_start, move, exec-move,
}
use light_packet.LightBpf.Peephole.Jumps.{
  step-fetch, fetch-at, exec-is_jmp, exec-is_ja, is_ja_intro, branch, exec_jmp-branch,
}
use light_packet.LightBpf.Peephole.Thread.{SameOutcomes-refl}

next_pc : (q : ℤ) (r : Step) (s' : State) → r ≡ move q r → r ≡ next s' → s'.pc ≡ q
next_pc q (next t) s' e f = ground arith
next_pc q (halt o) s' e f = absurd (ground arith)

branch_pc :
    (c : Option Bool) (jt jf : ℤ) (s s' : State)
    → branch c jt jf s ≡ next s'
    → (s'.pc ≡ s.pc +ℤ (pos 1 +ℤ jf)) ⊎ (s'.pc ≡ s.pc +ℤ (pos 1 +ℤ jt))
branch_pc none jt jf s s' e = absurd (ground arith)
branch_pc (some true) jt jf s s' e = inr (ground arith)
branch_pc (some false) jt jf s s' e = inl (ground arith)

module _ (packet : List ℕ) (insn : Instruction) (j : ℕ) (s s' : State) (at : s.pc ≡ pos j)
    (e : exec packet insn s ≡ next s') where
  plain_successor : is_jmp insn ≡ false → In s'.pc (successors j insn)
  plain_successor other = rw one (
      inl (
        rw (← at)
          (next_pc (s.pc +ℤ pos 1) (exec packet insn s) s' (exec-move packet insn s s.pc other) e)))
    where
      no_ret : (insn_class insn.code == bpf_ret) ≡ false
      no_ret = unfold exec exec_ret in ground arith

      one : successors j insn ≡ (pos j +ℤ pos 1) ∷ []
      one = unfold successors in ground (arith, no_ret)

  ja_successor :
      is_jmp insn ≡ true → (insn_op insn.code == bpf_ja) ≡ true → In s'.pc (successors j insn)
  ja_successor jmp ja = rw one (inl (rw (← at) lands))
    where
      one : successors j insn ≡ (pos j +ℤ (pos 1 +ℤ insn.k)) ∷ []
      one = unfold successors in ground arith

      lands : s'.pc ≡ s.pc +ℤ (pos 1 +ℤ insn.k)
      lands = ground (arith, exec-is_ja packet insn s (is_ja_intro insn jmp ja))

  branch_successor :
      is_jmp insn ≡ true → (insn_op insn.code == bpf_ja) ≡ false → In s'.pc (successors j insn)
  branch_successor jmp other = rw three (
      place (
        rw at at (
          branch_pc (condition (insn_op insn.code) s.a (operand insn s)) insn.jt insn.jf s s'
            (sym (exec-is_jmp packet insn s jmp ∙ exec_jmp-branch insn s other) ∙ e))))
    where
      three :
          successors j insn
          ≡ (pos j +ℤ pos 1) ∷ (pos j +ℤ (pos 1 +ℤ insn.jf)) ∷ (pos j +ℤ (pos 1 +ℤ insn.jt)) ∷ []
      three = unfold successors in ground arith

      place :
          (s'.pc ≡ pos j +ℤ (pos 1 +ℤ insn.jf)) ⊎ (s'.pc ≡ pos j +ℤ (pos 1 +ℤ insn.jt))
          → In s'.pc (
              (pos j +ℤ pos 1) ∷ (pos j +ℤ (pos 1 +ℤ insn.jf)) ∷ (pos j +ℤ (pos 1 +ℤ insn.jt)) ∷ [])
      place (inl f) = inr (inl f)
      place (inr t) = inr (inr (inl t))

  -- A round goes on at one of the successors that the worklist pushes.
  exec-successors : In s'.pc (successors j insn)
  exec-successors = elim (Bool-cases (is_jmp insn)) [
    | inr other ↦ plain_successor other
    | inl jmp ↦ elim (Bool-cases (insn_op insn.code == bpf_ja)) [
      | inl ja ↦ ja_successor jmp ja
      | inr cond ↦ branch_successor jmp cond
    ]
  ]

-- The entry point is among the targets of a program that has instructions.
entry-Covered :
    (code : List Instruction) (r : List Bool) → Covered code r (jump_targets code) (pos 0)
unfolding jump_targets keep_in_range in_range fetch
entry-Covered [] r = outside refl
entry-Covered (insn ∷ code) r = waiting (subst (In (pos 0)) (sym first) (inl refl))
  where
    first :
        jump_targets (insn ∷ code)
        ≡ pos 0 ∷ keep_in_range (length (insn ∷ code)) (jump_targets_from 0 (insn ∷ code))
    first = ground (arith, lt→ltb 0 (suc (length code)) (omega arith))

module _ (code : List Instruction) (packet : List ℕ) where
  abbrev live : List Bool
  live = reachable_from code (jump_targets code)

  abbrev dead : List Bool
  dead = map not live

  marks : Ends code (jump_targets code) (replicate (length code) false) live
  marks = reachable_from-Ends code (jump_targets code)

  same_length : length dead ≡ length code
  same_length = length-map not live ∙ marks.size

  -- A covered instruction is not removed.
  Covered-kept :
      (t : ℤ) (j : ℕ) → Covered code live [] t → t ≡ pos j → get_elem? dead j ≡ some true → ⊥
  Covered-kept t j (outside o) e gone = absurd (
      ground (
        arith,
        get_elem?-some code j (omega (arith, same_length, get_elem?-lt dead j true gone)),
        fetch-pos j,
      ))
    where
      fetch-pos : (j : ℕ) → fetch code (pos j) ≡ get_elem? code j
      fetch-pos j = unfold fetch in refl
  Covered-kept t j (marked (i, f, m)) e gone =
      let (b, found, gone_b) = get_elem?-map not live j true gone in
      absurd (ground (arith, get_or-get_elem? live j false b found))
  Covered-kept t j (waiting w) e gone = absurd w

  abbrev After : ℕ → State → State → Type 0
  After k s t = (k ≡ 0) × Corresponds code dead same_length k s t

  -- After a round of a kept instruction the program counter is covered.
  after-Covered :
      (j : ℕ) (s s' : State)
      → s.pc ≡ pos j
      → get_or dead j true ≡ false
      → step code packet s ≡ next s'
      → Covered code live [] s'.pc
  after-Covered j s s' at stays p =
      let (insn, found) = get_elem?-some code j (kept-lt code dead same_length j stays) in
      marks.closed j insn (live-get_or live j stays) found s'.pc (
        exec-successors packet insn j s s' at
          (sym (step-fetch code packet s insn (fetch-at code j insn s at found)) ∙ p))
    where
      live-get_or :
          (r : List Bool) (j : ℕ) → get_or (map not r) j true ≡ false → get_or r j false ≡ true
      live-get_or [] j h = absurd (ground arith)
      live-get_or (b ∷ r) zero h = ground arith
      live-get_or (b ∷ r) (suc j) h = live-get_or r j h

  -- So the next instruction is a kept one, and the new program never falls behind.
  refine :
      (s t : State)
      → Corresponds code dead same_length 0 s t
      → Agree code (compact dead 0 0 code dead) packet (Corresponds code dead same_length) s t
      → Agree code (compact dead 0 0 code dead) packet After s t
  refine s t c (both_halt o p q) = both_halt o p q
  refine s t c (both_next zero s' u p q r) = both_next 0 s' u p q (refl, r)
  refine s t (t', e, Lands.outside o o') (both_next (suc k) s' u p q r) =
      absurd (ground (arith, step-outside code packet s o))
  refine s t (t', e, kept j at stays e') (both_next (suc k) s' u p q (u', f, skip i at' gone l)) =
      absurd (Covered-kept s'.pc i (after-Covered j s s' at stays p) at' gone)

  dead-IsSimulation : IsSimulation code (compact dead 0 0 code dead) packet After
  dead-IsSimulation = record { alone = λ k s t r. absurd (omega (arith, r.0)); together = together }
    where
      together :
          (s t : State) → After zero s t → Agree code (compact dead 0 0 code dead) packet After s t
      together s t (z, c) = refine s t c (Lands-Agree code dead same_length packet s t c)

  starts : (k : ℕ) × Lands code dead same_length k (pos 0) (pos 0) → After 0 start start
  starts (zero, l) = (refl, (pos 0, refl, l))
  starts (suc k, skip i e gone l) = absurd (
      Covered-kept (pos 0) i
        (marks.keeps (pos 0) (entry-Covered code (replicate (length code) false))) e gone)

-- Taking out the instructions that the worklist does not reach leaves the outcomes of a program on
-- every packet as they are.
pub eliminate_dead_code-SameOutcomes :
    (packet : List ℕ) (code : List Instruction)
    → SameOutcomes packet code (eliminate_dead_code code)
unfolding eliminate_dead_code apply_removals
eliminate_dead_code-SameOutcomes packet code =
    if-both (SameOutcomes packet code) (any (dead code packet))
      (same_outcomes code (compact (dead code packet) 0 0 code (dead code packet)) packet
        (After code packet) (dead-IsSimulation code packet) 0
        (starts code packet (land_start code (dead code packet) (same_length code packet))))
      (SameOutcomes-refl packet code)
