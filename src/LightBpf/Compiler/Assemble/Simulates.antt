-- ===== src/LightBpf/Compiler/Assemble/Simulates.antt =====
-- The assembled program does what the emitted code does.
use light_packet.Base.{
  ℕ, zero, suc, ◌+◌, Bool, true, false, Option, none, some, List, [], ◌∷◌, map, ◌==◌, ◌≡◌, refl,
  sym, ◌∙◌, ap, inl, inr, arith, get_elem?, get_elem?-lt, get_elem?-some, get_elem?-map-some,
  length, ◌<◌, Bool-cases,
}
use light_packet.Base.Int.{ℤ, pos, ◌+ℤ◌, jump_back, pos-+ℤ_one}
use light_packet.LightBpf.Opcode.{bpf_jmp, bpf_ja, insn_class, insn_op}
use light_packet.LightBpf.Instruction.{Instruction}
use light_packet.LightBpf.Emulator.{
  State, Outcome, returned, next, halt, jump, operand, condition, exec, step, Step-cases, run-halt,
  run-next,
}
use light_packet.LightBpf.Emulator.Fields.{step-at}
use light_packet.LightBpf.Simulation.{RunsTo}
use light_packet.LightBpf.Peephole.{is_jmp, is_ja}
use light_packet.LightBpf.Peephole.Jumps.{
  at_pc, exec-is_ja, exec-is_jmp, branch, exec_jmp-branch, condition-same,
}
use light_packet.LightBpf.Peephole.Removal.{exec-move}
use light_packet.LightBpf.Compiler.Code.{Operand, num, to, Item, insn, label}
use light_packet.LightBpf.Compiler.Assemble.{offset, Symbolic, clean, field_of, finish}
use light_packet.LightBpf.Compiler.Assemble.Exact.{Chain, stays, hops, IsPatched, IsPatchOf}
use light_packet.LightBpf.Compiler.Assemble.Suffixes.{
  AimsAt, IsAimed, symbolic, IsSuffix, label-IsSuffix, insn-IsSuffix, seek, first-jump,
}
use light_packet.LightBpf.Compiler.Symbolic.{
  ends, target, numbered, of_condition, move_by, move_item, after_move, run_items,
}

next_pc : (n : ℕ) → pos n +ℤ (pos 1 +ℤ pos 0) ≡ pos (suc n)
unfolding ◌+ℤ◌
next_pc n = ground arith

module _ (whole : List Item) (packet : List ℕ) (final : List Symbolic)
    (same_length : length final ≡ length (clean whole))
    (patched : (j : ℕ) (s s' : Symbolic)
      → get_elem? (clean whole) j ≡ some s
      → get_elem? final j ≡ some s'
      → IsPatchOf whole j s s') where
  abbrev program : List Instruction
  program = map finish final

  -- The program from an instruction on ends as it should.
  abbrev From : ℕ → State → Outcome → Type 0
  From n s o = RunsTo program packet (at_pc s (pos n)) o

  -- Code shorter than `bound` is done.
  abbrev Below : ℕ → Type 0
  Below bound =
      (n : ℕ) (items : List Item) (s : State) (o : Outcome)
      → length items < bound
      → IsSuffix whole n items
      → run_items packet items none s ≡ ends o
      → From n s o

  -- A chain of jumps is followed to its end.
  Chain-From :
      (bound p r : ℕ) (rest : List Item) (s : State) (o : Outcome)
      → Below bound
      → length rest < bound
      → Chain whole p r
      → IsSuffix whole p rest
      → run_items packet rest none s ≡ ends o
      → From r s o
  Chain-From bound p r rest s o below short stays h e = below p rest s o short h e
  Chain-From bound p r rest s o below short (hops x l q found jump placed chain) h e =
      let g = first-jump whole packet (length rest) p rest x l s o (omega arith) h found jump e in
      let same : g.place ≡ q = cc (g.placed) in
      Chain-From bound q r g.rest s o below (omega (arith, g.shorter)) chain (rw same at g.suffix)
        g.goes_on

  -- A jump by a field goes to where the emitted code goes.
  target-From :
      (bound n : ℕ) (items : List Item) (k : Operand) (v : ℤ) (s : State) (o : Outcome)
      → Below bound
      → length items < bound
      → IsSuffix whole (suc n) items
      → AimsAt k
      → IsPatched whole n (field_of k) v
      → run_items packet items (target k) s ≡ ends o
      → RunsTo program packet (at_pc s (pos n +ℤ (pos 1 +ℤ v))) o
  target-From bound n items (num w) v s o below short h aims p e =
      let there : pos n +ℤ (pos 1 +ℤ v) ≡ pos (suc n) = rw (p, aims) (next_pc n) in
      rw there (below (suc n) items s o short h e)
  target-From bound n items (to l) v s o below short h aims (p, r, placed, chain, p_eq) e =
      let g = seek whole packet (length items) (suc n) items l s o (omega arith) h e in
      let same : g.place ≡ p = cc (g.placed) in
      let there : pos n +ℤ (pos 1 +ℤ v) ≡ pos r = rw p_eq (jump_back n (pos r)) in
      rw there (
        Chain-From bound p r g.rest s o below (omega (arith, g.shorter)) chain (rw same at g.suffix)
          g.goes_on)

  -- A round of the program.
  step-program :
      (n : ℕ) (s : State) (at_n : Instruction)
      → get_elem? program n ≡ some at_n
      → step program packet (at_pc s (pos n)) ≡ exec packet at_n (at_pc s (pos n))
  step-program n s at_n found = step-at program packet (at_pc s (pos n)) n at_n refl found

  to-From :
      (n : ℕ) (s s1 : State) (at_n : Instruction) (o : Outcome)
      → get_elem? program n ≡ some at_n
      → exec packet at_n (at_pc s (pos n)) ≡ next s1
      → RunsTo program packet s1 o
      → From n s o
  to-From n s s1 at_n o found moved (fuel, rest) = (
    suc fuel,
    run-next fuel program packet (at_pc s (pos n)) s1 (step-program n s at_n found ∙ moved) ∙ rest,
  )

  halt-From :
      (n : ℕ) (s : State) (at_n : Instruction) (o : Outcome)
      → get_elem? program n ≡ some at_n
      → exec packet at_n (at_pc s (pos n)) ≡ halt o
      → From n s o
  halt-From n s at_n o found halted =
      (1, run-halt 0 program packet (at_pc s (pos n)) o (step-program n s at_n found ∙ halted))

  -- An instruction that is no jump.
  plain-From :
      (bound n c : ℕ) (t f k : Operand) (rest : List Item) (s : State) (o : Outcome)
      → Below bound
      → length rest < bound
      → IsSuffix whole (suc n) rest
      → (insn_class c == bpf_jmp) ≡ false
      → get_elem? program n ≡ some (numbered c t f k)
      → run_items packet (insn c t f k ∷ rest) none s ≡ ends o
      → From n s o
  unfolding run_items move_item move_by is_jmp
  plain-From bound n c t f k rest s o below short h other found e =
      let moved = exec-move packet (numbered c t f k) s (pos n) other in
      elim (Step-cases (exec packet (numbered c t f k) s)) [
        | inl (q, halted) ↦
            let this : q ≡ o = cc (rw halted at (rw other at e)) in
            halt-From n s (numbered c t f k) o found (rw this at (rw halted at moved))
        | inr (s1, goes) ↦
            to-From n s _ (numbered c t f k) o found (rw (pos-+ℤ_one n) at (rw goes at moved))
              (below (suc n) rest s1 o short h (rw goes at (rw other at e)))
      ]

  -- A conditional jump.
  branch-From :
      (bound n c : ℕ) (t f k : Operand) (rest : List Item) (x : Instruction) (vt vf : ℤ) (s : State)
      (o : Outcome) (b : Option Bool)
      → Below bound
      → length rest < bound
      → IsSuffix whole (suc n) rest
      → AimsAt t × AimsAt f
      → IsPatched whole n (field_of t) vt
      → IsPatched whole n (field_of f) vf
      → get_elem? program n ≡ some x
      → exec packet x (at_pc s (pos n)) ≡ branch b vt vf (at_pc s (pos n))
      → after_move (run_items packet rest) (of_condition b t f s) ≡ ends o
      → From n s o
  branch-From bound n c t f k rest x vt vf s o none below short h aims pt pf found does e =
      let this : returned (pos 0) ≡ o = cc in halt-From n s x o found (rw this at does)
  branch-From bound n c t f k rest x vt vf s o (some true) below short h aims pt pf found does e =
      to-From n s _ x o found does (target-From bound n rest t vt s o below short h aims.0 pt e)
  branch-From bound n c t f k rest x vt vf s o (some false) below short h aims pt pf found does e =
      to-From n s _ x o found does (target-From bound n rest f vf s o below short h aims.1 pf e)

  -- The instruction of the program behind some code.
  record IsAt (n c : ℕ) (t f k : Operand) : Type 0 where
    patch : Symbolic
    here : get_elem? program n ≡ some (finish patch)
    became : IsPatchOf whole n (symbolic c t f k) patch

  insn-IsAt :
      (n c : ℕ) (t f k : Operand) (rest : List Item)
      → IsSuffix whole n (insn c t f k ∷ rest)
      → IsAt n c t f k
  unfolding clean
  insn-IsAt n c t f k rest h =
      let here : n + 0 ≡ n = omega arith in
      let first : get_elem? (clean whole) n ≡ some (symbolic c t f k) =
        sym (rw here at (h.elements 0)) in
      let (x, found) =
        get_elem?-some final n (omega (arith, same_length, get_elem?-lt (clean whole) n _ first)) in
      record {
        patch = x;
        here = get_elem?-map-some finish final n x found;
        became = patched n (symbolic c t f k) x first found;
      }

  aims_of : (t f k : Operand) → IsAimed true true t f k → AimsAt k
  aims_of t f (num n) h = elim h [ ]
  aims_of t f (to l) h = tt

  -- An unconditional jump.
  ja-From :
      (bound n c : ℕ) (t f k : Operand) (rest : List Item) (s : State) (o : Outcome)
      → Below bound
      → length rest < bound
      → IsSuffix whole n (insn c t f k ∷ rest)
      → (insn_class c == bpf_jmp) ≡ true
      → (insn_op c == bpf_ja) ≡ true
      → run_items packet (insn c t f k ∷ rest) none s ≡ ends o
      → From n s o
  unfolding run_items move_item move_by finish is_ja
  ja-From bound n c t f k rest s o below short h jmp always e =
      let x = insn-IsAt n c t f k rest h in
      let behind = insn-IsSuffix whole n c t f k rest h in
      let (v, patched_k, same) = rw (jmp, always) at (x.became) in
      let aims = aims_of t f k (rw (jmp, always) at (h.aimed.0)) in
      to-From n s _ (finish x.patch) o x.here
        (rw same (exec-is_ja packet _ (at_pc s (pos n)) (rw (jmp, always) refl)))
        (target-From bound n rest k v s o below short behind aims patched_k (rw (jmp, always) at e))

  cond-From :
      (bound n c : ℕ) (t f k : Operand) (rest : List Item) (s : State) (o : Outcome)
      → Below bound
      → length rest < bound
      → IsSuffix whole n (insn c t f k ∷ rest)
      → (insn_class c == bpf_jmp) ≡ true
      → (insn_op c == bpf_ja) ≡ false
      → run_items packet (insn c t f k ∷ rest) none s ≡ ends o
      → From n s o
  unfolding run_items move_item move_by finish is_jmp operand
  cond-From bound n c t f k rest s o below short h jmp other e =
      let x = insn-IsAt n c t f k rest h in
      let behind = insn-IsSuffix whole n c t f k rest h in
      let (vt, vf, patched_t, patched_f, same) = rw (jmp, other) at (x.became) in
      let here : State = at_pc s (pos n) in
      let jump_here : Instruction =
        finish (record (symbolic c t f k) { jt = offset vt; jf = offset vf }) in
      let tests =
        exec-is_jmp packet jump_here here jmp
        ∙ exec_jmp-branch jump_here here other
        ∙ ap (λ b. branch b vt vf here)
            (condition-same (numbered c t f k) jump_here here refl refl) in
      branch-From bound n c t f k rest (finish x.patch) vt vf s o
        (condition (insn_op c) here.a (operand (numbered c t f k) here)) below short behind
        (rw (jmp, other) at (h.aimed.0)) patched_t patched_f x.here (rw same tests)
        (rw (jmp, other) at e)

  insn-From :
      (bound n c : ℕ) (t f k : Operand) (rest : List Item) (s : State) (o : Outcome)
      → Below bound
      → length rest < bound
      → IsSuffix whole n (insn c t f k ∷ rest)
      → run_items packet (insn c t f k ∷ rest) none s ≡ ends o
      → From n s o
  unfolding finish
  insn-From bound n c t f k rest s o below short h e =
      let x = insn-IsAt n c t f k rest h in
      elim (Bool-cases (insn_class c == bpf_jmp)) [
        | inr other ↦
            let same : x.patch ≡ symbolic c t f k = rw other at (x.became) in
            plain-From bound n c t f k rest s o below short (insn-IsSuffix whole n c t f k rest h)
              other (rw same at (x.here)) e
        | inl jmp ↦ elim (Bool-cases (insn_op c == bpf_ja)) [
          | inl always ↦ ja-From bound n c t f k rest s o below short h jmp always e
          | inr other ↦ cond-From bound n c t f k rest s o below short h jmp other e
        ]
      ]

  -- The program ends as the emitted code does.
  pub simulates :
      (bound n : ℕ) (items : List Item) (s : State) (o : Outcome)
      → length items < bound
      → IsSuffix whole n items
      → run_items packet items none s ≡ ends o
      → From n s o
  unfolding run_items
  simulates zero n items s o short h e = absurd (omega arith)
  simulates (suc bound) n [] s o short h e = absurd (ground arith)
  simulates (suc bound) n (label l ∷ items) s o short h e =
      simulates bound n items s o (omega arith) (label-IsSuffix whole n l items h) e
  simulates (suc bound) n (insn c t f k ∷ items) s o short h e =
      insn-From bound n c t f k items s o (simulates bound) (omega arith) h e
