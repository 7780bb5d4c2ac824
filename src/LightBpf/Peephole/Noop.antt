-- ===== src/LightBpf/Peephole/Noop.antt =====
-- Removing the jumps to the next instruction keeps the outcomes of a program.
use light_packet.Base.{
  ℕ, suc, ◌≡◌, refl, ap, ◌∙◌, Bool, true, List, arith, length, length-map, map, get_elem?,
  get_elem?-map, if-both, some,
}
use light_packet.Base.Int.{pos, ◌+ℤ◌, eqb_ℤ→eq, pos-+ℤ_one}
use light_packet.LightBpf.Instruction.{Instruction}
use light_packet.LightBpf.Emulator.{State, next, step}
use light_packet.LightBpf.Simulation.{IsSimulation, SameOutcomes, same_outcomes}
use light_packet.LightBpf.Peephole.{is_ja, is_noop, any, compact, apply_removals, remove_noop_jumps}
use light_packet.LightBpf.Peephole.Removal.{skip, Corresponds, Lands-Agree, land_start}
use light_packet.LightBpf.Peephole.Jumps.{at_pc, step-fetch, fetch-at, exec-is_ja}
use light_packet.LightBpf.Peephole.Thread.{SameOutcomes-refl}

is_noop-is_ja : (insn : Instruction) → is_noop insn ≡ true → is_ja insn ≡ true
unfolding is_noop
is_noop-is_ja insn h = ground arith

is_noop-k : (insn : Instruction) → is_noop insn ≡ true → insn.k ≡ pos 0
unfolding is_noop
is_noop-k insn h = ground (arith, eqb_ℤ→eq insn.k (pos 0))

module _ (code : List Instruction) (packet : List ℕ) where
  abbrev noops : List Bool
  noops = map is_noop code

  -- A no-op jump moves on to the next instruction and does nothing else.
  step-noop :
      (j : ℕ) (s : State)
      → s.pc ≡ pos j
      → get_elem? noops j ≡ some true
      → step code packet s ≡ next (at_pc s (pos (suc j)))
  step-noop j s at gone =
      let (insn, found, noop) = get_elem?-map is_noop code j true gone in
      step-fetch code packet s insn (fetch-at code j insn s at found)
      ∙ (exec-is_ja packet insn s (is_noop-is_ja insn noop)
          ∙ ap (λ t. next (at_pc s t)) (rw (at, is_noop-k insn noop, one_zero, pos-+ℤ_one) refl))
    where
      one_zero : pos 1 +ℤ pos 0 ≡ pos 1
      one_zero = unfold ◌+ℤ◌ in refl

  abbrev same_length : length noops ≡ length code
  same_length = length-map is_noop code

  noop-IsSimulation :
      IsSimulation code (compact noops 0 0 code noops) packet (Corresponds code noops same_length)
  noop-IsSimulation = record { alone = alone; together = Lands-Agree code noops same_length packet }
    where
      alone :
          (k : ℕ) (s t : State)
          → Corresponds code noops same_length (suc k) s t
          → (s' : State) × (step code packet s ≡ next s')
            × Corresponds code noops same_length k s' t
      alone k s t (t', e, skip j at gone l) =
          (at_pc s (pos (suc j)), step-noop j s at gone, (t', e, l))

-- Taking out the jumps `ja +0` leaves the outcomes of a program on every packet as they are.
pub remove_noop_jumps-SameOutcomes :
    (packet : List ℕ) (code : List Instruction) → SameOutcomes packet code (remove_noop_jumps code)
unfolding remove_noop_jumps apply_removals
remove_noop_jumps-SameOutcomes packet code =
    if-both (SameOutcomes packet code) (any (map is_noop code))
      (let (k, l) = land_start code (map is_noop code) (length-map is_noop code) in
        same_outcomes code (compact (map is_noop code) 0 0 code (map is_noop code)) packet
          (Corresponds code (map is_noop code) (length-map is_noop code))
          (noop-IsSimulation code packet) k (pos 0, refl, l))
      (SameOutcomes-refl packet code)
