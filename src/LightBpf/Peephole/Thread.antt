-- ===== src/LightBpf/Peephole/Thread.antt =====
-- Jump threading keeps the outcomes of a program, whatever its jumps.
use light_packet.Base.{
  ℕ, zero, suc, ◌+◌, ◌≡◌, refl, ap, ◌∙◌, Bool, true, false, Option, none, some, List, arith, length,
  get_elem?, set, get_elem?-set_self, get_elem?-lt, ◌==◌, if-each,
}
use light_packet.Base.Int.{pos}
use light_packet.LightBpf.Instruction.{Instruction}
use light_packet.LightBpf.Opcode.{insn_op, bpf_ja}
use light_packet.LightBpf.Emulator.{State, jump, exec_jmp, operand, condition, step}
use light_packet.LightBpf.Simulation.{Agree, both_halt, both_next, SameOutcomes, SameOutcomes-trans}
use light_packet.LightBpf.Peephole.{
  is_jmp, new_offset, thread_ja, thread_jt, thread_jf, at_index, thread_insn, thread_from,
  thread_jumps,
}
use light_packet.LightBpf.Peephole.Jumps.{
  Leads, here, exec-is_jmp, step-fetch, jump-Leads, fetch-at, branch, exec_jmp-branch,
  condition-same, set-SameOutcomes,
}

module _ (code : List Instruction) (packet : List ℕ) (i : ℕ) (insn : Instruction)
    (found : get_elem? code i ≡ some insn) (jmp : is_jmp insn ≡ true) where
  -- The instruction that replaces `insn` at `i` is executed there.
  step-set :
      (insn' : Instruction) (s : State)
      → s.pc ≡ pos i
      → is_jmp insn' ≡ true
      → (step code packet s ≡ exec_jmp insn s)
        × (step (set code i insn') packet s ≡ exec_jmp insn' s)
  step-set insn' s at jmp' = (
    step-fetch code packet s insn (fetch-at code i insn s at found) ∙ exec-is_jmp packet insn s jmp,
    step-fetch (set code i insn') packet s insn' (
          fetch-at (set code i insn') i insn' s at
            (get_elem?-set_self code i insn' (get_elem?-lt code i insn found)))
        ∙ exec-is_jmp packet insn' s jmp',
  )

  thread_ja-SameOutcomes :
      (insn_op insn.code == bpf_ja) ≡ true → SameOutcomes packet code (thread_ja code i insn)
  unfolding thread_ja exec_jmp is_jmp
  thread_ja-SameOutcomes ja = set-SameOutcomes code packet i _ λ s at.
      let (p, q) = step-set (record insn { k = new_offset code i insn.k }) s at jmp in
      let (k, l) = jump-Leads code packet i insn.k s at in
      both_next k (jump insn.k s) (jump (new_offset code i insn.k) s) (p ∙ ground arith)
        (q ∙ ground arith) l

  module _ (other : (insn_op insn.code == bpf_ja) ≡ false) where
    -- A replacement of both branch offsets by offsets that lead to the same states.
    branch-SameOutcomes :
        (insn' : Instruction)
        → insn'.code ≡ insn.code
        → insn'.k ≡ insn.k
        → ((s : State)
            → s.pc ≡ pos i
            → (k : ℕ) × Leads code packet k (jump insn.jt s) (jump insn'.jt s))
        → ((s : State)
            → s.pc ≡ pos i
            → (k : ℕ) × Leads code packet k (jump insn.jf s) (jump insn'.jf s))
        → SameOutcomes packet code (set code i insn')
    branch-SameOutcomes insn' ec ek lt lf = set-SameOutcomes code packet i insn' λ s at.
        let (p, q) = step-set insn' s at (unfold is_jmp in rw ec jmp) in
        from s at (condition (insn_op insn.code) s.a (operand insn s))
          (p ∙ exec_jmp-branch insn s other)
          (q
            ∙ (exec_jmp-branch insn' s (rw ec other)
                ∙ ap (λ c. branch c insn'.jt insn'.jf s) (condition-same insn insn' s ec ek)))
      where
        from :
            (s : State)
            → s.pc ≡ pos i
            → (c : Option Bool) → step code packet s ≡ branch c insn.jt insn.jf s
            → step (set code i insn') packet s ≡ branch c insn'.jt insn'.jf s
            → Agree code (set code i insn') packet (Leads code packet) s s
        from s at none p q = both_halt _ p q
        from s at (some true) p q = let (k, l) = lt s at in both_next k _ _ p q l
        from s at (some false) p q = let (k, l) = lf s at in both_next k _ _ p q l

    thread_jt-SameOutcomes : SameOutcomes packet code (thread_jt code i insn)
    unfolding thread_jt
    thread_jt-SameOutcomes =
        branch-SameOutcomes (record insn { jt = new_offset code i insn.jt }) refl refl
          (jump-Leads code packet i insn.jt) (λ s at. (0, here refl))

    thread_jf-SameOutcomes : SameOutcomes packet code (thread_jf code i insn)
    unfolding thread_jf
    thread_jf-SameOutcomes =
        branch-SameOutcomes (record insn { jf = new_offset code i insn.jf }) refl refl
          (λ s at. (0, here refl)) (jump-Leads code packet i insn.jf)

pub SameOutcomes-refl : (packet : List ℕ) (code : List Instruction) → SameOutcomes packet code code
SameOutcomes-refl packet code o = (λ e. e, λ e. e)

at_index-SameOutcomes :
    (f : List Instruction → ℕ → Instruction → List Instruction) (packet : List ℕ)
    (code : List Instruction) (i : ℕ)
    → ((insn : Instruction)
        → get_elem? code i ≡ some insn
        → SameOutcomes packet code (f code i insn))
    → SameOutcomes packet code (at_index f code i)
unfolding at_index
at_index-SameOutcomes f packet code i h = from (get_elem? code i) h
  where
    from :
        (r : Option Instruction)
        → ((insn : Instruction) → r ≡ some insn → SameOutcomes packet code (f code i insn))
        → SameOutcomes packet code (elim r [ none ↦ code | some insn ↦ f code i insn ])
    from none h = SameOutcomes-refl packet code
    from (some insn) h = h insn refl

-- A new branch offset leaves the opcode as it was.
thread_jt-code :
    (code : List Instruction) (i : ℕ) (insn insn₁ : Instruction)
    → get_elem? code i ≡ some insn
    → get_elem? (thread_jt code i insn) i ≡ some insn₁
    → insn₁.code ≡ insn.code
unfolding thread_jt
thread_jt-code code i insn insn₁ found found₁ = ground (
  arith,
  get_elem?-set_self code i (record insn { jt = new_offset code i insn.jt }),
  get_elem?-lt code i insn found,
)

thread_insn-SameOutcomes :
    (packet : List ℕ) (code : List Instruction) (i : ℕ) (insn : Instruction)
    → get_elem? code i ≡ some insn
    → SameOutcomes packet code (thread_insn code i insn)
unfolding thread_insn
thread_insn-SameOutcomes packet code i insn found =
    if-each (SameOutcomes packet code) (is_jmp insn)
      (λ jmp.
        if-each (SameOutcomes packet code) (insn_op insn.code == bpf_ja)
          (thread_ja-SameOutcomes code packet i insn found jmp)
          (λ other.
            SameOutcomes-trans packet code (thread_jt code i insn) _
              (thread_jt-SameOutcomes code packet i insn found jmp other)
              (at_index-SameOutcomes thread_jf packet (thread_jt code i insn) i λ insn₁ found₁.
                let e : insn₁.code ≡ insn.code = thread_jt-code code i insn insn₁ found found₁ in
                thread_jf-SameOutcomes (thread_jt code i insn) packet i insn₁ found₁
                  (unfold is_jmp in rw e jmp) (rw e other))))
      (λ skip. SameOutcomes-refl packet code)

thread_from-SameOutcomes :
    (packet : List ℕ) (n i : ℕ) (code : List Instruction)
    → SameOutcomes packet code (thread_from n i code)
unfolding thread_from
thread_from-SameOutcomes packet zero i code = SameOutcomes-refl packet code
thread_from-SameOutcomes packet (suc n) i code =
    SameOutcomes-trans packet code (at_index thread_insn code i) _
      (at_index-SameOutcomes thread_insn packet code i (thread_insn-SameOutcomes packet code i))
      (thread_from-SameOutcomes packet n (i + 1) (at_index thread_insn code i))

-- Threading the jumps of a program, cyclic ones included, leaves its outcomes on every packet as
-- they are: it returns the same value, raises the same exception, or runs on as before.
pub thread_jumps-SameOutcomes :
    (packet : List ℕ) (code : List Instruction) → SameOutcomes packet code (thread_jumps code)
unfolding thread_jumps
thread_jumps-SameOutcomes packet code = thread_from-SameOutcomes packet (length code) 0 code
