-- ===== src/LightBpf/Simulation.antt =====
-- When two programs do the same: a relation between their states that the rounds of the loop keep.
-- The second program may leave out rounds of the first, as an optimiser does.
use light_packet.Base.{ℕ, zero, suc, ◌≡◌, ◌↔◌, some, List, ◌∙◌, sym, arith}
use light_packet.LightBpf.Instruction.{Instruction}
use light_packet.LightBpf.Emulator.{
  State, next, halt, Outcome, step, run, run-halt, run-next, execute, start,
}

-- The run from `s` ends with `o`, after some number of rounds.
abbrev pub RunsTo : List Instruction → List ℕ → State → Outcome → Type 0
RunsTo code packet s o = (fuel : ℕ) × (run fuel code packet s ≡ some o)

-- The call of the emulator ends with `o`.
abbrev pub Executes : List Instruction → List ℕ → Outcome → Type 0
Executes code packet o = (fuel : ℕ) × (execute fuel code packet ≡ some o)

-- Two programs have the same outcomes on the packet.
abbrev pub SameOutcomes : List ℕ → List Instruction → List Instruction → Type 0
SameOutcomes packet code code' = (o : Outcome) → Executes code packet o ↔ Executes code' packet o

module _ (code code' : List Instruction) (packet : List ℕ) where
  -- What both programs do from related states that stand at the same point.
  pub data Agree (R : ℕ → State → State → Type 0) (s t : State) : Type 0 where
    both_halt :
        (o : Outcome) → step code packet s ≡ halt o → step code' packet t ≡ halt o → Agree R s t
    both_next :
        (k : ℕ) (s' t' : State)
        → step code packet s ≡ next s'
        → step code' packet t ≡ next t'
        → R k s' t'
        → Agree R s t

  -- `R k s t`: after `k` rounds of the first program alone, the two stand at the same point.
  pub record IsSimulation (R : ℕ → State → State → Type 0) : Type 0 where
    pub alone :
        (k : ℕ) (s t : State)
        → R (suc k) s t
        → (s' : State) × (step code packet s ≡ next s') × R k s' t
    pub together : (s t : State) → R zero s t → Agree R s t

  module _ (R : ℕ → State → State → Type 0) (sim : IsSimulation R) where
    -- The second program reaches every outcome of the first.
    forward :
        (fuel k : ℕ) (s t : State) (o : Outcome)
        → R k s t
        → run fuel code packet s ≡ some o
        → RunsTo code' packet t o
    forward zero k s t o r e = absurd (unfold run in ground arith)
    forward (suc fuel) (suc k) s t o r e =
        let (s', moved, r') = sim.alone k s t r in
        forward fuel k s' t o r' (sym (run-next fuel code packet s s' moved) ∙ e)
    forward (suc fuel) zero s t o r e =
        from (sim.together s t r) (λ k s' t'. forward fuel k s' t' o)
      where
        from :
            Agree R s t
            → ((k : ℕ) (s' t' : State)
                → R k s' t'
                → run fuel code packet s' ≡ some o
                → RunsTo code' packet t' o)
            → RunsTo code' packet t o
        from (both_halt o' p q) ih =
            (1, run-halt 0 code' packet t o' q ∙ (sym (run-halt fuel code packet s o' p) ∙ e))
        from (both_next k s' t' p q r') ih =
            let (n, f) = ih k s' t' r' (sym (run-next fuel code packet s s' p) ∙ e) in
            (suc n, run-next n code' packet t t' q ∙ f)

    -- The first program reaches every outcome of the second.
    backward :
        (fuel k : ℕ) (s t : State) (o : Outcome)
        → R k s t
        → run fuel code' packet t ≡ some o
        → RunsTo code packet s o
    backward fuel (suc k) s t o r e =
        let (s', moved, r') = sim.alone k s t r in
        let (n, f) = backward fuel k s' t o r' e in (suc n, run-next n code packet s s' moved ∙ f)
    backward zero zero s t o r e = absurd (unfold run in ground arith)
    backward (suc fuel) zero s t o r e =
        from (sim.together s t r) (λ k s' t'. backward fuel k s' t' o)
      where
        from :
            Agree R s t
            → ((k : ℕ) (s' t' : State)
                → R k s' t'
                → run fuel code' packet t' ≡ some o
                → RunsTo code packet s' o)
            → RunsTo code packet s o
        from (both_halt o' p q) ih =
            (1, run-halt 0 code packet s o' p ∙ (sym (run-halt fuel code' packet t o' q) ∙ e))
        from (both_next k s' t' p q r') ih =
            let (n, f) = ih k s' t' r' (sym (run-next fuel code' packet t t' q) ∙ e) in
            (suc n, run-next n code packet s s' p ∙ f)

    -- A simulation that relates the start states makes the programs equivalent.
    pub same_outcomes : (k : ℕ) → R k start start → SameOutcomes packet code code'
    unfolding execute
    same_outcomes k r o =
        (λ (n, e). forward n k start start o r e, λ (n, e). backward n k start start o r e)

pub SameOutcomes-trans :
    (packet : List ℕ) (p q r : List Instruction)
    → SameOutcomes packet p q
    → SameOutcomes packet q r
    → SameOutcomes packet p r
SameOutcomes-trans packet p q r f g o = (λ e. (g o).0 ((f o).0 e), λ e. (f o).1 ((g o).1 e))
