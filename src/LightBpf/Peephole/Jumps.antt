-- ===== src/LightBpf/Peephole/Jumps.antt =====
-- What jumps do, and where the chains of unconditional ones lead.
use light_packet.Base.{
  ℕ, zero, suc, ◌≡◌, ◌≢◌, refl, sym, ap, ◌∙◌, ◌⊎◌, inl, inr, Bool, true, false, Option, none, some,
  List, arith, length, get_elem?, get_or, set, get_elem?-set_ne, Option-cases, Bool-cases, ◌==◌,
}
use mathlib.Core.Path.{subst}
use light_packet.Base.Int.{ℤ, pos, negsuc, ◌+ℤ◌, jump_back, eqb_ℤ, eqb_ℤ→eq, eqb_ℤ-refl}
use light_packet.LightBpf.Instruction.{Instruction}
use light_packet.LightBpf.Opcode.{insn_op, bpf_ja}
use light_packet.LightBpf.Emulator.{
  State, Step, next, jump, exec, exec_jmp, operand, condition, fetch, step, Step-cases, reject,
}
use light_packet.LightBpf.Simulation.{
  Agree, both_halt, both_next, IsSimulation, SameOutcomes, same_outcomes,
}
use light_packet.LightBpf.Peephole.{is_jmp, is_ja, resolve_loop, resolve, new_offset}

abbrev pub at_pc : State → ℤ → State
at_pc s t = record s { pc = t }

-- `k` rounds of the program lead from `s` to `t`.
pub data Leads (code : List Instruction) (packet : List ℕ) : ℕ → State → State → Type 0 where
  here : {s t : State} → s ≡ t → Leads code packet zero s t
  go :
      {k : ℕ} {s t : State} (s' : State)
      → step code packet s ≡ next s'
      → Leads code packet k s' t
      → Leads code packet (suc k) s t

pub exec-is_ja :
    (packet : List ℕ) (insn : Instruction) (s : State)
    → is_ja insn ≡ true
    → exec packet insn s ≡ next (jump insn.k s)
unfolding exec exec_jmp is_ja
exec-is_ja packet insn s h = ground arith

pub exec-is_jmp :
    (packet : List ℕ) (insn : Instruction) (s : State)
    → is_jmp insn ≡ true
    → exec packet insn s ≡ exec_jmp insn s
unfolding exec is_jmp
exec-is_jmp packet insn s h = ground arith

pub is_ja_intro :
    (insn : Instruction)
    → is_jmp insn ≡ true
    → (insn_op insn.code == bpf_ja) ≡ true
    → is_ja insn ≡ true
unfolding is_ja
is_ja_intro insn jmp ja = ground arith

pub step-fetch :
    (code : List Instruction) (packet : List ℕ) (s : State) (insn : Instruction)
    → fetch code s.pc ≡ some insn
    → step code packet s ≡ exec packet insn s
unfolding step
step-fetch code packet s insn h = rw (h, step)

-- A round of `resolve` stays where it is, or follows an unconditional jump.
pub resolve_loop-cases :
    (code : List Instruction) (fuel : ℕ) (seen : List Bool) (t : ℕ)
    → (resolve_loop (suc fuel) code seen (pos t) ≡ pos t)
      ⊎ ((insn : Instruction) × (get_elem? code t ≡ some insn)
          × (is_ja insn ≡ true)
          × (resolve_loop (suc fuel) code seen (pos t)
              ≡ resolve_loop fuel code (set seen t true) (pos t +ℤ (pos 1 +ℤ insn.k))))
unfolding resolve_loop
resolve_loop-cases code fuel seen t = elim (Option-cases (get_elem? code t)) [
  | inl out ↦ inl (ground arith)
  | inr (insn, found) ↦ elim (Bool-cases (get_or seen t true)) [
    | inl old ↦ inl (ground arith)
    | inr new ↦ elim (Bool-cases (is_ja insn)) [
      | inl ja ↦ inr (insn, found, ja, ground arith)
      | inr other ↦ inl (ground arith)
    ]
  ]
]

-- The program itself comes to the target that `resolve` computes.
pub resolve_loop-Leads :
    (code : List Instruction) (packet : List ℕ) (fuel : ℕ) (seen : List Bool) (s : State) (t : ℤ)
    → (k : ℕ) × Leads code packet k (at_pc s t) (at_pc s (resolve_loop fuel code seen t))
unfolding resolve_loop
resolve_loop-Leads code packet zero seen s t = (0, here refl)
resolve_loop-Leads code packet (suc fuel) seen s (negsuc n) = (0, here refl)
resolve_loop-Leads code packet (suc fuel) seen s (pos t) =
    elim (resolve_loop-cases code fuel seen t) [
      | inl e ↦ (0, here (ap (at_pc s) (sym e)))
      | inr (insn, found, ja, e) ↦
          let (k, l) =
            resolve_loop-Leads code packet fuel (set seen t true) s (pos t +ℤ (pos 1 +ℤ insn.k)) in
          (
            suc k,
            go (at_pc s (pos t +ℤ (pos 1 +ℤ insn.k)))
                (step-fetch code packet (at_pc s (pos t)) insn (unfold fetch in found)
                  ∙ exec-is_ja packet insn (at_pc s (pos t)) ja)
                (rw e l),
          )
    ]

pub resolve-Leads :
    (code : List Instruction) (packet : List ℕ) (s : State) (t : ℤ)
    → (k : ℕ) × Leads code packet k (at_pc s t) (at_pc s (resolve code t))
unfolding resolve
resolve-Leads code packet s t = resolve_loop-Leads code packet (length code) _ s t

-- The new offset of the jump at `i` leads where the old one resolves to.
pub new_offset_lem :
    (code : List Instruction) (i : ℕ) (off : ℤ)
    → pos i +ℤ (pos 1 +ℤ new_offset code i off) ≡ resolve code (pos i +ℤ (pos 1 +ℤ off))
unfolding new_offset
new_offset_lem code i off = ground (
  arith,
  eqb_ℤ→eq (resolve code (pos i +ℤ (pos 1 +ℤ off))) (pos i +ℤ (pos 1 +ℤ off)),
  jump_back i (resolve code (pos i +ℤ (pos 1 +ℤ off))),
)

pub fetch-set_ne :
    (code : List Instruction) (i : ℕ) (insn : Instruction) (pc : ℤ)
    → pc ≢ pos i
    → fetch (set code i insn) pc ≡ fetch code pc
unfolding fetch
fetch-set_ne code i insn (pos j) h = get_elem?-set_ne code i j insn (λ e. h (ap pos (sym e)))
fetch-set_ne code i insn (negsuc n) h = refl

pub step-eq_of_fetch :
    (code code' : List Instruction) (packet : List ℕ) (s : State)
    → fetch code' s.pc ≡ fetch code s.pc
    → step code' packet s ≡ step code packet s
unfolding step
step-eq_of_fetch code code' packet s e = rw (e, step)

-- One instruction is replaced by one that leads, in the old program, to the same state.
module _ (code : List Instruction) (packet : List ℕ) (i : ℕ) (insn' : Instruction)
    (same : (s : State)
      → s.pc ≡ pos i
      → Agree code (set code i insn') packet (Leads code packet) s s) where
  pub set-together : (s : State) → Agree code (set code i insn') packet (Leads code packet) s s
  set-together s = elim (Bool-cases (eqb_ℤ s.pc (pos i))) [
    | inl e ↦ same s (eqb_ℤ→eq s.pc (pos i) e)
    | inr ne ↦
        let q =
          step-eq_of_fetch code (set code i insn') packet s
            (fetch-set_ne code i insn' s.pc λ e. absurd (ground (arith, eqb_ℤ-refl (pos i)))) in
        elim (Step-cases (step code packet s)) [
          | inl (o, p) ↦ both_halt o p (q ∙ p)
          | inr (t, p) ↦ both_next 0 t t p (q ∙ p) (here refl)
        ]
  ]

  pub set-IsSimulation : IsSimulation code (set code i insn') packet (Leads code packet)
  set-IsSimulation = record { alone = alone; together = together }
    where
      alone :
          (k : ℕ) (s t : State)
          → Leads code packet (suc k) s t
          → (s' : State) × (step code packet s ≡ next s') × Leads code packet k s' t
      alone k s t (go s' e l) = (s', e, l)

      together :
          (s t : State)
          → Leads code packet zero s t
          → Agree code (set code i insn') packet (Leads code packet) s t
      together s t (here e) =
          subst (Agree code (set code i insn') packet (Leads code packet) s) e (set-together s)

  pub set-SameOutcomes : SameOutcomes packet code (set code i insn')
  set-SameOutcomes =
      same_outcomes code (set code i insn') packet (Leads code packet) set-IsSimulation 0
        (here refl)

-- The jump at `i` with the old offset and with the new one.
pub jump-Leads :
    (code : List Instruction) (packet : List ℕ) (i : ℕ) (off : ℤ) (s : State)
    → s.pc ≡ pos i
    → (k : ℕ) × Leads code packet k (jump off s) (jump (new_offset code i off) s)
jump-Leads code packet i off s at =
    rw (at, new_offset_lem code i off) (resolve-Leads code packet s (pos i +ℤ (pos 1 +ℤ off)))

pub fetch-at :
    (code : List Instruction) (i : ℕ) (insn : Instruction) (s : State)
    → s.pc ≡ pos i
    → get_elem? code i ≡ some insn
    → fetch code s.pc ≡ some insn
unfolding fetch
fetch-at code i insn s at found = rw at found

-- What a conditional jump does once its condition is known.
abbrev pub branch : Option Bool → ℤ → ℤ → State → Step
branch none jt jf s = reject
branch (some true) jt jf s = next (jump jt s)
branch (some false) jt jf s = next (jump jf s)

pub exec_jmp-branch :
    (insn : Instruction) (s : State)
    → (insn_op insn.code == bpf_ja) ≡ false
    → exec_jmp insn s
      ≡ branch (condition (insn_op insn.code) s.a (operand insn s)) insn.jt insn.jf s
unfolding exec_jmp
exec_jmp-branch insn s other = ground arith

pub condition-same :
    (insn insn' : Instruction) (s : State)
    → insn'.code ≡ insn.code
    → insn'.k ≡ insn.k
    → condition (insn_op insn'.code) s.a (operand insn' s)
      ≡ condition (insn_op insn.code) s.a (operand insn s)
unfolding operand
condition-same insn insn' s ec ek = rw (ec, ek)
