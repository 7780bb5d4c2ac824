-- ===== src/LightBpf/Compiler/Sound/Readings.antt =====
-- LightBPF/CompilerSet/Compiler.py: code that leaves a value in A, one instruction at a time.
use light_packet.Base.{
  ℕ, Bool, true, false, Option, none, some, List, [], ◌∷◌, ◌==◌, if◌then◌else◌, ◌≡◌, refl, sym, ap,
  inl, inr, arith, Option-cases, Bool-cases,
}
use light_packet.Base.Int.{pos, eqb_ℤ}
use light_packet.LightBpf.Opcode.{bpf_jmp, bpf_ja, insn_class, insn_op, insn_src}
use light_packet.LightBpf.Emulator.{State, returned, advance, exec, operand, condition}
use light_packet.LightBpf.Emulator.Fields.{field_at, instruction, IsLoad, ldh-IsLoad}
use light_packet.LightBpf.Compiler.Code.{
  Label, Operand, num, to, Item, insn, plain, next_or, Compiler, Code, ◌▸◌, ldh_abs, jeq_k,
}
use light_packet.LightBpf.Compiler.Address.{Branch}
use light_packet.LightBpf.Compiler.Symbolic.{
  Exit, falls, jumps, ends, target, run_items, move_item, move_by, after_move, of_step,
}
use light_packet.LightBpf.Compiler.Answers.{
  short, elsewhere, value, Reading, field_reading, guard_reading, bind_reading, bind_answer,
}
use light_packet.LightBpf.Compiler.Sound.{IsOld, IsOld-mono, IsEthernet, Meets, Glues, ▸-Meets}
use light_packet.LightBpf.Compiler.Sound.Connectives.{goal, At, Decides}

-- Where the code of a value leads.
abbrev pub Gives : Reading → Label → Exit → Type 0
Gives short f (ends o) = o ≡ returned (pos 0)
Gives short f (falls s') = ⊥
Gives short f (jumps l s') = ⊥
Gives elsewhere f (jumps l s') = l ≡ f
Gives elsewhere f (falls s') = ⊥
Gives elsewhere f (ends o) = ⊥
Gives (value w) f (falls s') = s'.a ≡ w
Gives (value w) f (jumps l s') = ⊥
Gives (value w) f (ends o) = ⊥

abbrev pub Reads : Reading → Label → State → Exit → Type 0
Reads r f s x = Gives r f x

field_reading-none :
    (packet : List ℕ) (off size : ℕ)
    → field_at packet off size ≡ none
    → field_reading packet off size ≡ short
unfolding field_reading
field_reading-none packet off size e = rw (e, field_reading) refl

field_reading-some :
    (packet : List ℕ) (off size w : ℕ)
    → field_at packet off size ≡ some w
    → field_reading packet off size ≡ value w
unfolding field_reading
field_reading-some packet off size w e = rw (e, field_reading) refl

guard_reading-none :
    (packet : List ℕ) (e : ℕ) → field_at packet 12 2 ≡ none → guard_reading packet e ≡ short
unfolding guard_reading
guard_reading-none packet e h = rw (h, guard_reading) refl

guard_reading-some :
    (packet : List ℕ) (e w : ℕ)
    → field_at packet 12 2 ≡ some w
    → guard_reading packet e ≡ (if w == e then value w else elsewhere)
unfolding guard_reading
guard_reading-some packet e w h = rw (h, guard_reading) refl

eqb_ℤ-pos : (a b : ℕ) → eqb_ℤ (pos a) (pos b) ≡ (a == b)
eqb_ℤ-pos a b = ground arith

module _ (packet : List ℕ) where
  -- An instruction that is no jump, and a conditional jump.
  pub plain-run :
      (code k : ℕ) (rest : List Item) (s : State)
      → (insn_class code == bpf_jmp) ≡ false
      → run_items packet (plain code k ∷ rest) none s
        ≡ after_move (run_items packet rest) (of_step (exec packet (instruction code 0 0 k) s))
  unfolding run_items move_item move_by
  plain-run code k rest s plain_insn = rw plain_insn refl

  pub cond-run :
      (code k : ℕ) (t f : Operand) (rest : List Item) (s : State)
      → (insn_class code == bpf_jmp) ≡ true
      → (insn_op code == bpf_ja) ≡ false
      → (b : Bool) → condition (insn_op code) s.a (operand (instruction code 0 0 k) s) ≡ some b
      → run_items packet (insn code t f (num k) ∷ rest) none s
        ≡ run_items packet rest (if b then target t else target f) s
  unfolding run_items move_item move_by operand
  cond-run code k t f rest s jmp test true e = rw (jmp, test, e) refl
  cond-run code k t f rest s jmp test false e = rw (jmp, test, e) refl

  -- Code that leaves a value in A, or goes to its label, or ends the program.
  pub record Yields (r : Reading) (v : Label → Code) : Type 0 where
    pub yields :
        (c : Compiler) (f : Label)
        → IsEthernet c
        → IsOld c.label_counter f
        → Meets packet (Reads r f) c (v f c)

  -- A load.
  pub load-Gives :
      (code off size : ℕ) (f : Label) (s : State)
      → IsLoad packet (instruction code 0 0 off) off size
      → (insn_class code == bpf_jmp) ≡ false
      → Reads (field_reading packet off size) f s (run_items packet (plain code off ∷ []) none s)
  unfolding field_reading run_items
  load-Gives code off size f s load plain_insn =
      rw (plain-run code off [] s plain_insn) (elim (Option-cases (field_at packet off size)) [
        | inl lacks ↦ rw (field_reading-none packet off size lacks, load.rejects s lacks) refl
        | inr (w, found) ↦
            rw (field_reading-some packet off size w found, load.loads s w found) refl
      ])

  -- The load and the test of the Ethernet type.
  pub guard-Gives :
      (e : ℕ) (f : Label) (s : State)
      → Reads
          (guard_reading packet e)
          f
          s
          (run_items packet (plain ldh_abs 12 ∷ next_or jeq_k f e ∷ []) none s)
  unfolding run_items condition operand insn_class insn_op insn_src
  guard-Gives e f s =
      rw (plain-run ldh_abs 12 (next_or jeq_k f e ∷ []) s refl)
        (elim (Option-cases (field_at packet 12 2)) [
          | inl lacks ↦
              rw (guard_reading-none packet e lacks, (ldh-IsLoad packet 12).rejects s lacks) refl
          | inr (w, found) ↦
              let loaded : State = advance (record s { a = w }) in
              rw (guard_reading-some packet e w found, (ldh-IsLoad packet 12).loads s w found)
                (rw
                  (cond-run jeq_k e (num 0) (to f) [] loaded refl refl (w == e)
                    (ap some (eqb_ℤ-pos w e)))
                  (elim (Bool-cases (w == e)) [
                    | inl same ↦ rw same refl
                    | inr apart ↦ rw apart refl
                  ]))
        ])

  -- More code behind a value.
  bind-Gives :
      (k : ℕ) (f : Label) (g : ℕ → Reading) (r : Reading)
      → IsOld k f
      → Glues packet k (Reads r f) (λ s x. Reads (g s.a) f s x) (Reads (bind_reading g r) f)
  unfolding bind_reading
  bind-Gives k f g short old ys passes h s (ends o) l = l
  bind-Gives k f g short old ys passes h s (falls s') l = elim l [ ]
  bind-Gives k f g short old ys passes h s (jumps m s') l = elim l [ ]
  bind-Gives k f g elsewhere old ys passes h s (jumps m s') l = rw l (rw (passes f s' old) refl)
  bind-Gives k f g elsewhere old ys passes h s (falls s') l = elim l [ ]
  bind-Gives k f g elsewhere old ys passes h s (ends o) l = elim l [ ]
  bind-Gives k f g (value w) old ys passes h s (falls s') l = rw (sym l) (h s')
  bind-Gives k f g (value w) old ys passes h s (jumps m s') l = elim l [ ]
  bind-Gives k f g (value w) old ys passes h s (ends o) l = elim l [ ]

  bind-At :
      (k : ℕ) (t f : Label) (g : ℕ → Option Bool) (r : Reading)
      → IsOld k f
      → Glues packet k
          (Reads r f)
          (λ s x. At (goal (g s.a) t f) s x)
          (At (goal (bind_answer g r) t f))
  unfolding bind_answer
  bind-At k t f g short old ys passes h s (ends o) l = l
  bind-At k t f g short old ys passes h s (falls s') l = elim l [ ]
  bind-At k t f g short old ys passes h s (jumps m s') l = elim l [ ]
  bind-At k t f g elsewhere old ys passes h s (jumps m s') l = rw l (rw (passes f s' old) refl)
  bind-At k t f g elsewhere old ys passes h s (falls s') l = elim l [ ]
  bind-At k t f g elsewhere old ys passes h s (ends o) l = elim l [ ]
  bind-At k t f g (value w) old ys passes h s (falls s') l = rw (sym l) (h s')
  bind-At k t f g (value w) old ys passes h s (jumps m s') l = elim l [ ]
  bind-At k t f g (value w) old ys passes h s (ends o) l = elim l [ ]

  -- A value computed of another, and an answer.
  pub bind-Yields :
      (g : ℕ → Reading) (r : Reading) (v : Label → Code) (q : Label → Code)
      → Yields r v
      → ((c : Compiler) (f : Label)
          → IsEthernet c
          → IsOld c.label_counter f
          → Meets packet (λ s x. Reads (g s.a) f s x) c (q f c))
      → Yields (bind_reading g r) (λ f. v f ▸ q f)
  bind-Yields g r v q h after = record {
    yields = λ c f eth old.
        ▸-Meets packet (Reads r f) (λ s x. Reads (g s.a) f s x) (Reads (bind_reading g r) f) c (v f)
          (q f) (bind-Gives c.label_counter f g r old) (h.yields c f eth old)
          (λ c1 le eth1. after c1 f eth1 (IsOld-mono c.label_counter c1.label_counter f le old));
  }

  pub bind-Decides :
      (g : ℕ → Option Bool) (r : Reading) (v : Label → Code) (q : Branch)
      → Yields r v
      → ((c : Compiler) (t f : Label)
          → IsEthernet c
          → IsOld c.label_counter t
          → IsOld c.label_counter f
          → Meets packet (λ s x. At (goal (g s.a) t f) s x) c (q t f c))
      → Decides packet (bind_answer g r) (λ t f. v f ▸ q t f)
  bind-Decides g r v q h after = record {
    decides = λ c t f eth ot of.
        ▸-Meets packet (Reads r f) (λ s x. At (goal (g s.a) t f) s x)
          (At (goal (bind_answer g r) t f)) c (v f) (q t f) (bind-At c.label_counter t f g r of)
          (h.yields c f eth of)
          (λ c1 le eth1.
            after c1 t f eth1 (IsOld-mono c.label_counter c1.label_counter t le ot)
              (IsOld-mono c.label_counter c1.label_counter f le of));
  }
