-- ===== src/LightBpf/Compiler/Assemble/Correct.antt =====
-- `_assemble_and_backpatch` of LightBPF/CompilerSet/Compiler.py: the program that is assembled ends as
-- the emitted code does.
use light_packet.Base.{
  ℕ, suc, ◌+◌, Bool, true, false, none, List, [], ◌∷◌, ◌++◌, ◌≡◌, refl, sym, ◌∙◌, arith, length,
}
use light_packet.Base.Int.{pos}
use light_packet.Base.Exceptions.{ok, >>=-eq-ok, ok-eq}
use light_packet.LightBpf.Opcode.{bpf_max_buf_len, insn_class, insn_op, insn_mode}
use light_packet.LightBpf.Instruction.{Instruction}
use light_packet.LightBpf.Emulator.{State, Outcome, returned, exec, exec_ret, start, execute}
use light_packet.LightBpf.Simulation.{Executes}
use light_packet.LightBpf.Compiler.Code.{Label, accept, reject, Operand, num, to, Item, insn, label}
use light_packet.LightBpf.Compiler.Assemble.{
  clean, label_eqb, with_returns, patch_from, assemble_and_backpatch,
}
use light_packet.LightBpf.Compiler.Assemble.Exact.{patch_from-IsPatchOf, clean-IsStage}
use light_packet.LightBpf.Compiler.Assemble.Suffixes.{AimsAt, IsAimed, AllAimed, IsSuffix}
use light_packet.LightBpf.Compiler.Assemble.Simulates.{simulates}
use light_packet.LightBpf.Compiler.Scope.{labels_of, IsTarget, Fits, IsForward}
use light_packet.LightBpf.Compiler.Symbolic.{
  jumps, ends, run_items, move_item, move_by, run_items-append, Distinct,
}

AimsAt-IsTarget : (ls : List Label) (o : Operand) → IsTarget ls o → AimsAt o
AimsAt-IsTarget ls (num n) h = h
AimsAt-IsTarget ls (to l) h = tt

IsAimed-Fits :
    (j u r : Bool) (ls : List Label) (t f k : Operand) → Fits j u r ls t f k → IsAimed j u t f k
IsAimed-Fits true true r ls t f (num n) h = h
IsAimed-Fits true true r ls t f (to l) h = tt
IsAimed-Fits true false r ls t f k (p, q, n) = (AimsAt-IsTarget ls t p, AimsAt-IsTarget ls f q)
IsAimed-Fits false u r ls t f k h = tt

AllAimed-append : (xs ys : List Item) → AllAimed xs → AllAimed ys → AllAimed (xs ++ ys)
AllAimed-append [] ys p q = q
AllAimed-append (label l ∷ xs) ys p q = AllAimed-append xs ys p q
AllAimed-append (insn c t f k ∷ xs) ys (p, ps) q = (p, AllAimed-append xs ys ps q)

AllAimed-IsForward :
    (after : List Label) (items : List Item) → IsForward after items → AllAimed items
AllAimed-IsForward after [] h = tt
AllAimed-IsForward after (label l ∷ items) h = AllAimed-IsForward after items h
AllAimed-IsForward after (insn c t f k ∷ items) (p, ps) =
    (IsAimed-Fits _ _ _ _ t f k p, AllAimed-IsForward after items ps)

with_returns-AllAimed :
    (items : List Item) → IsForward (accept ∷ reject ∷ []) items → AllAimed (with_returns items)
unfolding with_returns insn_class insn_op
with_returns-AllAimed items h =
    AllAimed-append items _ (AllAimed-IsForward _ items h) (tt, (tt, tt))

module _ (packet : List ℕ) (items : List Item) where
  -- The verdicts behind the code.
  pub accept-ends :
      (s s' : State)
      → run_items packet items none s ≡ jumps accept s'
      → run_items packet (with_returns items) none s ≡ ends (returned (pos bpf_max_buf_len))
  unfolding with_returns run_items move_item move_by label_eqb exec exec_ret insn_class insn_mode
  accept-ends s s' e = run_items-append packet items _ none s ∙ rw e refl

  pub reject-ends :
      (s s' : State)
      → run_items packet items none s ≡ jumps reject s'
      → run_items packet (with_returns items) none s ≡ ends (returned (pos 0))
  unfolding with_returns run_items move_item move_by label_eqb exec exec_ret insn_class insn_mode
  reject-ends s s' e = run_items-append packet items _ none s ∙ rw e refl

  pub early-ends :
      (s : State) (o : Outcome)
      → run_items packet items none s ≡ ends o
      → run_items packet (with_returns items) none s ≡ ends o
  unfolding with_returns
  early-ends s o e = run_items-append packet items _ none s ∙ rw e refl

  -- A run of the emitted code, with the returns, is one of the program.
  pub assembled-Executes :
      (code : List Instruction) (o : Outcome)
      → IsForward (accept ∷ reject ∷ []) items
      → Distinct (labels_of (with_returns items))
      → assemble_and_backpatch items ≡ ok code
      → run_items packet (with_returns items) none start ≡ ends o
      → Executes code packet o
  unfolding assemble_and_backpatch execute
  assembled-Executes code o scoped distinct assembled e =
      let whole = with_returns items in
      let (final, done, last) =
        >>=-eq-ok (patch_from whole (length (clean whole)) 0 (clean whole)) _ assembled in
      let (same_length, patched) =
        patch_from-IsPatchOf whole (length (clean whole)) 0 (clean whole) final (omega arith)
          (clean-IsStage whole) done in
      let suffix : IsSuffix whole 0 whole = record {
        elements = λ m. let here : 0 + m ≡ m = omega arith in rw here refl;
        places = λ l j found. found;
        distinct = distinct;
        aimed = with_returns-AllAimed items scoped;
      } in
      rw (sym (ok-eq last)) (
        simulates whole packet final same_length patched (suc (length whole)) 0 whole start o
          (omega arith) suffix e)
