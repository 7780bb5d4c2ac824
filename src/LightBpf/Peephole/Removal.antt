-- ===== src/LightBpf/Peephole/Removal.antt =====
-- Removing instructions and renumbering the jumps: where the two programs stand at the same point.
use light_packet.Base.{
  ℕ, zero, suc, ◌+◌, ◌≤◌, ◌<◌, ◌≡◌, refl, sym, ap, ◌∙◌, inl, inr, Bool, true, false, Option, none,
  some, List, arith, length, get_elem?, get_or, get_elem?-ge, get_elem?-lt, get_elem?-some,
  Option-cases, Bool-cases, ◌==◌, le_of_get_elem?-none, get_or-get_elem?, get_or-ge,
}
use light_packet.Base.Int.{ℤ, pos, negsuc, ◌+ℤ◌, jump_back, pos-+ℤ_one}
use light_packet.LightBpf.Instruction.{Instruction}
use light_packet.LightBpf.Opcode.{insn_op, bpf_ja}
use light_packet.LightBpf.Emulator.{
  State, Step, next, halt, jump, exec, fetch, step, reject, exec_ld, exec_ldx, exec_msh, exec_alu,
  exec_ret, exec_misc, operand, condition,
}
use light_packet.LightBpf.Simulation.{Agree, both_halt, both_next}
use light_packet.LightBpf.Peephole.{
  is_jmp, new_index, old_to_new, skip_removed, next_kept, new_target, moved_offset, remap, compact,
}
use light_packet.LightBpf.Peephole.Indices.{
  new_index-suc, skip_removed-kept, skip_removed-gone, skip_removed-lands, skip_removed-ge,
  new_index-zero, new_index-skip_removed, get_elem?-compact, length-compact, length-compact-le,
}
use light_packet.LightBpf.Peephole.Jumps.{
  at_pc, step-fetch, exec-is_jmp, branch, exec_jmp-branch, fetch-at, exec-is_ja, is_ja_intro,
}

-- A round that is not a jump does the same wherever the instruction stands.
abbrev pub move : ℤ → Step → Step
move q (next s) = next (at_pc s q)
move q (halt o) = halt o

module _ (packet : List ℕ) (insn : Instruction) (s : State) (q : ℤ) where
  exec_ld-move : exec_ld packet insn (at_pc s q) ≡ move (q +ℤ pos 1) (exec_ld packet insn s)
  unfolding exec_ld
  exec_ld-move = ground arith

  exec_ldx-move : exec_ldx packet insn (at_pc s q) ≡ move (q +ℤ pos 1) (exec_ldx packet insn s)
  unfolding exec_ldx exec_msh
  exec_ldx-move = ground arith

  exec_alu-move : exec_alu insn (at_pc s q) ≡ move (q +ℤ pos 1) (exec_alu insn s)
  unfolding exec_alu operand
  exec_alu-move = ground arith

  pub exec-move :
      is_jmp insn ≡ false → exec packet insn (at_pc s q) ≡ move (q +ℤ pos 1) (exec packet insn s)
  unfolding exec exec_ret exec_misc is_jmp
  exec-move other = ground (arith, exec_ld-move, exec_ldx-move, exec_alu-move)

pub step-outside :
    (code : List Instruction) (packet : List ℕ) (s : State)
    → fetch code s.pc ≡ none
    → step code packet s ≡ reject
unfolding step
step-outside code packet s e = rw (e, step)

module _ (code : List Instruction) (removed : List Bool) (same : length removed ≡ length code) where
  abbrev new_code : List Instruction
  new_code = compact removed 0 0 code removed

  -- The old program counter, and the new one after the old program has run over `k` removed
  -- instructions.
  pub data Lands : ℕ → ℤ → ℤ → Type 0 where
    outside : {t t' : ℤ} → fetch code t ≡ none → fetch new_code t' ≡ none → Lands zero t t'
    kept :
        {t t' : ℤ} (j : ℕ)
        → t ≡ pos j
        → get_or removed j true ≡ false
        → t' ≡ pos (new_index removed j)
        → Lands zero t t'
    skip :
        {k : ℕ} {t t' : ℤ} (j : ℕ)
        → t ≡ pos j
        → get_elem? removed j ≡ some true
        → Lands k (pos (suc j)) t'
        → Lands (suc k) t t'

  -- A kept instruction is one of the program.
  pub kept-lt : (j : ℕ) → get_or removed j true ≡ false → j < length code
  kept-lt j h = elim (Option-cases (get_elem? removed j)) [
    | inl out ↦
        absurd (ground (arith, get_or-ge removed j true, le_of_get_elem?-none removed j out))
    | inr (b, found) ↦ omega (arith, same, get_elem?-lt removed j b found)
  ]

  fetch-outside : (j : ℕ) → length removed ≤ j → fetch code (pos j) ≡ none
  unfolding fetch
  fetch-outside j h = get_elem?-ge code j (omega arith)

  -- From any instruction the old program comes to the next kept one, or runs off the end.
  land_from :
      (d j : ℕ) (t' : ℤ)
      → length removed ≤ j + d
      → (skip_removed removed j < length removed
          → t' ≡ pos (new_index removed (skip_removed removed j)))
      → (length removed ≤ skip_removed removed j → fetch new_code t' ≡ none)
      → (k : ℕ) × Lands k (pos j) t'
  land_from zero j t' h inside out =
      (0, outside (fetch-outside j (omega arith)) (out (omega (arith, skip_removed-ge removed j))))
  land_from (suc d) j t' h inside out = elim (Option-cases (get_elem? removed j)) [
    | inl e ↦
        let past : length removed ≤ j = le_of_get_elem?-none removed j e in
        (0, outside (fetch-outside j past) (out (omega (arith, skip_removed-ge removed j))))
    | inr (true, e) ↦
        let same_end = skip_removed-gone removed j e in
        let (k, l) =
          land_from d (suc j) t' (omega arith) (rw same_end at inside) (rw same_end at out) in
        (suc k, skip j refl e l)
    | inr (false, e) ↦
        let stays : get_or removed j true ≡ false = get_or-get_elem? removed j true false e in
        let end = skip_removed-kept removed j stays in
        (0, kept j refl stays (rw end at (inside (rw end (get_elem?-lt removed j false e)))))
  ]

  fetch-new_code : (j : ℕ) → length new_code ≤ j → fetch new_code (pos j) ≡ none
  unfolding fetch
  fetch-new_code j h = get_elem?-ge new_code j h

  new_target-past :
      (j : ℕ)
      → length removed ≤ skip_removed removed j
      → new_target removed (pos j) ≡ pos (skip_removed removed j)
  unfolding new_target next_kept old_to_new
  new_target-past j h = ground (arith, get_or-ge removed (skip_removed removed j) true)

  -- The target of a jump and the rewritten target.
  land_target : (t : ℤ) → (k : ℕ) × Lands k t (new_target removed t)
  unfolding new_target next_kept old_to_new fetch
  land_target (negsuc n) = (0, outside refl refl)
  land_target (pos j) =
      land_from (length removed) j _ (omega arith)
        (λ h. ground (arith, skip_removed-lands removed j))
        (λ h.
          rw (new_target-past j h)
            (fetch-new_code _ (omega (arith, length-compact-le removed removed code 0 0))))

  -- The instruction after a kept one.
  land_next :
      (j : ℕ)
      → get_or removed j true ≡ false
      → (k : ℕ) × Lands k (pos (suc j)) (pos (suc (new_index removed j)))
  land_next j stays =
      land_from (length removed) (suc j) _ (omega arith)
        (λ h.
          ap pos
            (sym (new_index-suc removed j stays) ∙ sym (new_index-skip_removed removed (suc j))))
        (λ h. fetch-new_code _ (
          omega (
            arith,
            length-compact removed removed code 0 0 (skip_removed removed (suc j)) same,
            new_index-skip_removed removed (suc j),
            new_index-suc removed j stays,
          )))

  -- The entry points.
  pub land_start : (k : ℕ) × Lands k (pos 0) (pos 0)
  land_start =
      land_from (length removed) 0 (pos 0) (omega arith)
        (λ h. ap pos (sym (new_index-skip_removed removed 0 ∙ new_index-zero removed)))
        (λ h. fetch-new_code 0 (
          omega (
            arith,
            length-compact removed removed code 0 0 (skip_removed removed 0) same,
            new_index-skip_removed removed 0,
            new_index-zero removed,
          )))

  -- The states of the two programs differ in the program counter alone.
  abbrev pub Corresponds : ℕ → State → State → Type 0
  Corresponds k s t = (t' : ℤ) × (t ≡ at_pc s t') × Lands k s.pc t'

  module _ (packet : List ℕ) (j : ℕ) (insn : Instruction) (s : State) (at : s.pc ≡ pos j)
      (found : get_elem? code j ≡ some insn) (stays : get_or removed j true ≡ false) where
    abbrev moved : State
    moved = at_pc s (pos (new_index removed j))

    abbrev remapped : Instruction
    remapped = remap removed j (new_index removed j) insn

    step-old : step code packet s ≡ exec packet insn s
    step-old = step-fetch code packet s insn (fetch-at code j insn s at found)

    step-new : step new_code packet moved ≡ exec packet remapped moved
    step-new = step-fetch new_code packet moved remapped (
        fetch-at new_code (new_index removed j) remapped moved refl (
          get_elem?-compact removed removed code 0 0 j j (new_index removed j) insn (omega arith)
            (omega arith) stays found))

    -- The jump with the old offset, and with the rewritten one.
    jump-Corresponds :
        (off : ℤ)
        → (k : ℕ) × Corresponds k
            (jump off s)
            (jump (moved_offset removed j (new_index removed j) off) moved)
    unfolding moved_offset
    jump-Corresponds off =
        let (k, l) = land_target (pos j +ℤ (pos 1 +ℤ off)) in
        (k, (_, refl, rw (at, jump_back (new_index removed j) _) l))

    other-Agree : is_jmp insn ≡ false → Agree code new_code packet Corresponds s moved
    other-Agree other = from (exec packet insn s) (exec-move packet insn s s.pc other) step-old (
        step-new
        ∙ (ap (λ i. exec packet i moved) unchanged
            ∙ exec-move packet insn s (pos (new_index removed j)) other))
      where
        unchanged : remapped ≡ insn
        unchanged = unfold remap in ground arith

        from :
            (r : Step)
            → r ≡ move (s.pc +ℤ pos 1) r
            → step code packet s ≡ r
            → step new_code packet moved ≡ move (pos (new_index removed j) +ℤ pos 1) r
            → Agree code new_code packet Corresponds s moved
        from (halt o) e p q = both_halt o p q
        from (next s') e p q =
            let (k, l) = land_next j stays in
            both_next k s' (at_pc s' (pos (new_index removed j) +ℤ pos 1)) p q (
              _,
              refl,
              rw (pos-+ℤ_one (new_index removed j), next_pc s' (s.pc +ℤ pos 1) e, at, pos-+ℤ_one j)
                  l,
            )
          where
            next_pc : (s' : State) (q : ℤ) → next s' ≡ next (at_pc s' q) → s'.pc ≡ q
            next_pc s' q e = ground arith

    ja-Agree :
        is_jmp insn ≡ true
        → (insn_op insn.code == bpf_ja) ≡ true
        → Agree code new_code packet Corresponds s moved
    ja-Agree jmp ja =
        let (k, l) = jump-Corresponds insn.k in
        both_next k (jump insn.k s) (jump insn'.k moved)
          (step-old ∙ exec-is_ja packet insn s (is_ja_intro insn jmp ja))
          (step-new
            ∙ (ap (λ i. exec packet i moved) rewritten
                ∙ exec-is_ja packet insn' moved (is_ja_intro insn' (unfold is_jmp in jmp) ja)))
          l
      where
        insn' : Instruction
        insn' = record insn { k = moved_offset removed j (new_index removed j) insn.k }

        rewritten : remapped ≡ insn'
        rewritten = unfold remap in ground arith

    cond-Agree :
        is_jmp insn ≡ true
        → (insn_op insn.code == bpf_ja) ≡ false
        → Agree code new_code packet Corresponds s moved
    cond-Agree jmp other =
        from (condition (insn_op insn.code) s.a (operand insn s))
          (step-old ∙ (exec-is_jmp packet insn s jmp ∙ exec_jmp-branch insn s other))
          (step-new
            ∙ (ap (λ i. exec packet i moved) rewritten
                ∙ (exec-is_jmp packet insn' moved (unfold is_jmp in jmp)
                    ∙ (exec_jmp-branch insn' moved other
                        ∙ ap (λ c. branch c insn'.jt insn'.jf moved) same_condition))))
      where
        insn' : Instruction
        insn' = record insn {
          jt = moved_offset removed j (new_index removed j) insn.jt;
          jf = moved_offset removed j (new_index removed j) insn.jf;
        }

        rewritten : remapped ≡ insn'
        rewritten = unfold remap in ground arith

        same_condition :
            condition (insn_op insn'.code) moved.a (operand insn' moved)
            ≡ condition (insn_op insn.code) s.a (operand insn s)
        same_condition = unfold operand in refl

        from :
            (c : Option Bool)
            → step code packet s ≡ branch c insn.jt insn.jf s
            → step new_code packet moved ≡ branch c insn'.jt insn'.jf moved
            → Agree code new_code packet Corresponds s moved
        from none p q = both_halt _ p q
        from (some true) p q = let (k, l) = jump-Corresponds insn.jt in both_next k _ _ p q l
        from (some false) p q = let (k, l) = jump-Corresponds insn.jf in both_next k _ _ p q l

    kept-Agree : Agree code new_code packet Corresponds s moved
    kept-Agree = elim (Bool-cases (is_jmp insn)) [
      | inr other ↦ other-Agree other
      | inl jmp ↦ elim (Bool-cases (insn_op insn.code == bpf_ja)) [
        | inl ja ↦ ja-Agree jmp ja
        | inr cond ↦ cond-Agree jmp cond
      ]
    ]

  -- Two programs that stand at the same point go on in the same way.
  pub Lands-Agree :
      (packet : List ℕ) (s t : State)
      → Corresponds zero s t
      → Agree code new_code packet Corresponds s t
  Lands-Agree packet s t (t', e, outside p q) =
      both_halt _ (step-outside code packet s p)
        (rw e (step-outside new_code packet (at_pc s t') q))
  Lands-Agree packet s t (t', e, kept j at stays e') =
      let (insn, found) = get_elem?-some code j (kept-lt j stays) in
      rw (e, e') (kept-Agree packet j insn s at found stays)
