-- ===== src/LightBpf/Compiler/Symbolic.antt =====
-- What the code that LightBPF/CompilerSet/Compiler.py emits does before it is assembled: a jump to a
-- label goes on behind the label.
use light_packet.Base.{
  ℕ, Bool, true, false, Option, none, some, List, [], ◌∷◌, ◌++◌, ◌==◌, if◌then◌else◌, ◌≡◌, refl,
  sym, ap, inl, inr, Bool-cases, ==_iff,
}
use light_packet.Base.Int.{pos}
use light_packet.LightBpf.Opcode.{bpf_jmp, bpf_ja, insn_class, insn_op}
use light_packet.LightBpf.Instruction.{Instruction}
use light_packet.LightBpf.Emulator.{
  State, Outcome, returned, Step, next, halt, operand, condition, exec,
}
use light_packet.LightBpf.Compiler.Code.{
  Label, accept, reject, local, Operand, num, to, Item, insn, label,
}
use light_packet.LightBpf.Compiler.Assemble.{label_eqb, field_of, number_field}
use light_packet.LightBpf.Compiler.Scope.{labels_of, IsIn}

-- Where code is left: at its end, by a jump to a label that it has not behind the jump, or the call
-- ends.
pub data Exit : Type 0 where
  falls : State → Exit
  jumps : Label → State → Exit
  ends : Outcome → Exit

-- One instruction: on to a label or to the next one, or the call ends.
pub data Move : Type 0 where
  on : Option Label → State → Move
  stop : Outcome → Move

abbrev pub target : Operand → Option Label
target (num n) = none
target (to l) = some l

abbrev pub numbered : ℕ → Operand → Operand → Operand → Instruction
numbered c t f k = record {
  code = c;
  jt = number_field (field_of t);
  jf = number_field (field_of f);
  k = number_field (field_of k);
}

abbrev pub of_condition : Option Bool → Operand → Operand → State → Move
of_condition none t f s = stop (returned (pos 0))
of_condition (some true) t f s = on (target t) s
of_condition (some false) t f s = on (target f) s

abbrev pub of_step : Step → Move
of_step (next s) = on none s
of_step (halt o) = stop o

-- By whether the instruction is a jump, and an unconditional one.
unfoldable pub move_by : Bool → Bool → List ℕ → ℕ → Operand → Operand → Operand → State → Move
move_by true true packet c t f k s = on (target k) s
move_by true false packet c t f k s =
    of_condition (condition (insn_op c) s.a (operand (numbered c t f k) s)) t f s
move_by false u packet c t f k s = of_step (exec packet (numbered c t f k) s)

unfoldable pub move_item : List ℕ → ℕ → Operand → Operand → Operand → State → Move
unfolding move_by
move_item packet c = move_by (insn_class c == bpf_jmp) (insn_op c == bpf_ja) packet c

abbrev pub after_move : (Option Label → State → Exit) → Move → Exit
after_move k (on l s) = k l s
after_move k (stop o) = ends o

-- The run of code, on the way to a label or not.
unfoldable pub run_items : List ℕ → List Item → Option Label → State → Exit
run_items packet [] none s = falls s
run_items packet [] (some l) s = jumps l s
run_items packet (label m ∷ items) none s = run_items packet items none s
run_items packet (label m ∷ items) (some l) s =
    run_items packet items (if label_eqb m l then none else some l) s
run_items packet (insn c t f k ∷ items) (some l) s = run_items packet items (some l) s
run_items packet (insn c t f k ∷ items) none s =
    after_move (run_items packet items) (move_item packet c t f k s)

-- What follows some code, from where that is left.
abbrev pub after_exit : List ℕ → List Item → Exit → Exit
after_exit packet items (falls s) = run_items packet items none s
after_exit packet items (jumps l s) = run_items packet items (some l) s
after_exit packet items (ends o) = ends o

module _ (packet : List ℕ) where
  move-append :
      (xs ys : List Item) (m : Move)
      → ((l : Option Label) (s : State)
          → run_items packet (xs ++ ys) l s ≡ after_exit packet ys (run_items packet xs l s))
      → after_move (run_items packet (xs ++ ys)) m
        ≡ after_exit packet ys (after_move (run_items packet xs) m)
  move-append xs ys (on l s) h = h l s
  move-append xs ys (stop o) h = refl

  pub run_items-append :
      (xs ys : List Item) (l : Option Label) (s : State)
      → run_items packet (xs ++ ys) l s ≡ after_exit packet ys (run_items packet xs l s)
  unfolding run_items
  run_items-append [] ys none s = refl
  run_items-append [] ys (some l) s = refl
  run_items-append (label m ∷ xs) ys none s = run_items-append xs ys none s
  run_items-append (label m ∷ xs) ys (some l) s =
      run_items-append xs ys (if label_eqb m l then none else some l) s
  run_items-append (insn c t f k ∷ xs) ys (some l) s = run_items-append xs ys (some l) s
  run_items-append (insn c t f k ∷ xs) ys none s =
      move-append xs ys (move_item packet c t f k s) (run_items-append xs ys)

-- Labels are found by their equality.
pub label_eqb→eq : (m l : Label) → label_eqb m l ≡ true → m ≡ l
unfolding label_eqb
label_eqb→eq accept accept e = refl
label_eqb→eq reject reject e = refl
label_eqb→eq (local m) (local n) e = ap local ((==_iff m n).0 e)
label_eqb→eq accept reject e = cc
label_eqb→eq accept (local n) e = cc
label_eqb→eq reject accept e = cc
label_eqb→eq reject (local n) e = cc
label_eqb→eq (local m) accept e = cc
label_eqb→eq (local m) reject e = cc

-- Code that does not define a label goes on to it.
pub run_items-missing :
    (packet : List ℕ) (items : List Item) (l : Label) (s : State)
    → (IsIn l (labels_of items) → ⊥)
    → run_items packet items (some l) s ≡ jumps l s
unfolding run_items
run_items-missing packet [] l s h = refl
run_items-missing packet (insn c t f k ∷ items) l s h = run_items-missing packet items l s h
run_items-missing packet (label m ∷ items) l s h = elim (Bool-cases (label_eqb m l)) [
  | inl same ↦ absurd (h (inl (sym (label_eqb→eq m l same))))
  | inr other ↦ rw other (run_items-missing packet items l s (λ at. h (inr at)))
]

-- No label twice.
abbrev pub Distinct : List Label → Type 0
Distinct [] = Unit
Distinct (l ∷ ls) = (IsIn l ls → ⊥) × Distinct ls
