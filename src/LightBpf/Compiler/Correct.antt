-- ===== src/LightBpf/Compiler/Correct.antt =====
-- The compiler of LightBPF/CompilerSet/Compiler.py with the assembler, the optimiser and the emulator:
-- the program of a filter keeps the packets that the filter means.
pub mod Tests
use Prim.Native.String.{String}
use light_packet.Base.{
  ℕ, Bool, true, false, Option, none, some, List, [], ◌∷◌, ◌++◌, if◌then◌else◌, ◌≡◌, refl, sym, ◌∙◌,
  ap, inl, inr, arith,
}
use light_packet.Base.Int.{pos}
use light_packet.Base.Text.{text_eqb}
use light_packet.Base.Exceptions.{Result, ok, raise, >>=-eq-ok, ok-eq}
use light_packet.LightBpf.Opcode.{bpf_max_buf_len}
use light_packet.LightBpf.Instruction.{Instruction}
use light_packet.LightBpf.Ast.{
  Node, binary_op, unary_op, protocol_node, keyword_filter, byte_access, length_node, number,
  literal, field_node,
}
use light_packet.LightBpf.Emulator.{returned, start}
use light_packet.LightBpf.Simulation.{Executes}
use light_packet.LightBpf.Peephole
use light_packet.LightBpf.Peephole.Optimize.{optimize-SameOutcomes}
use light_packet.LightBpf.Compiler.Code.{Label, accept, reject, local, Item, Compiler, initial}
use light_packet.LightBpf.Compiler.Platform.{Platform}
use light_packet.LightBpf.Compiler.Address.{Branch}
use light_packet.LightBpf.Compiler.Values.{compile_value}
use light_packet.LightBpf.Compiler.Boolean.{compile_bool, compile_and, compile_or, compile_nonzero}
use light_packet.LightBpf.Compiler.Assemble.{with_returns, assemble_and_backpatch, compile}
use light_packet.LightBpf.Compiler.Assemble.Correct.{
  accept-ends, reject-ends, early-ends, assembled-Executes,
}
use light_packet.LightBpf.Compiler.Scope.{IsIn, labels_of, labels_of-append, IsForward}
use light_packet.LightBpf.Compiler.Scoped.{IsKeyErrorFree}
use light_packet.LightBpf.Compiler.Symbolic.{Exit, falls, jumps, ends, run_items, Distinct}
use light_packet.LightBpf.Compiler.Total.{compile_bool-Emits}
use light_packet.LightBpf.Compiler.Answers.{and_then, or_else, negated}
use light_packet.LightBpf.Compiler.Meaning.{Meaning, both, opposite, meaning, outcome_of}
use light_packet.LightBpf.Compiler.Sound.{IsEthernet, IsNew, Sound, Meets, Distinct-append}
use light_packet.LightBpf.Compiler.Sound.Connectives.{
  goal, Leads, flip, Decides, flip-Decides, and-Decides, or-Decides,
}
use light_packet.LightBpf.Compiler.Sound.Filters.{Means}
use light_packet.LightBpf.Compiler.Sound.Keywords.{keyword-Means, protocol-Means}
use light_packet.LightBpf.Compiler.Sound.Comparisons.{operator-Means, nonzero-Means}

both-and :
    (m n : Meaning) (p q : Branch)
    → Means m p
    → Means n q
    → Means (both and_then m n) (compile_and p q)
both-and none n p q h k = tt
both-and (some m) none p q h k = tt
both-and (some m) (some n) p q h k =
    λ packet. and-Decides packet (m packet) (n packet) p q (h packet) (k packet)

both-or :
    (m n : Meaning) (p q : Branch)
    → Means m p
    → Means n q
    → Means (both or_else m n) (compile_or p q)
both-or none n p q h k = tt
both-or (some m) none p q h k = tt
both-or (some m) (some n) p q h k =
    λ packet. or-Decides packet (m packet) (n packet) p q (h packet) (k packet)

opposite-Means : (m : Meaning) (p : Branch) → Means m p → Means (opposite m) (flip p)
opposite-Means none p h = tt
opposite-Means (some m) p h = λ packet. flip-Decides packet (m packet) p (h packet)

-- By what an operator is.
case-Means :
    (b : Bool) (m m' : Meaning) (p p' : Branch)
    → Means m p
    → Means m' p'
    → Means (elim b [ true ↦ m | false ↦ m' ]) (λ t f. elim b [ true ↦ p t f | false ↦ p' t f ])
case-Means true m m' p p' h k = h
case-Means false m m' p p' h k = k

-- A filter's code decides what it means.
bool-Means :
    (platform : Platform) (node : Node) → Means (meaning platform node) (compile_bool platform node)
unfolding meaning compile_bool compile_nonzero compile_value
bool-Means platform (binary_op left op right) =
    case-Means (text_eqb op "and") _ _ _ _
      (both-and _ _ _ _ (bool-Means platform left) (bool-Means platform right))
      (case-Means (text_eqb op "or") _ _ _ _
        (both-or _ _ _ _ (bool-Means platform left) (bool-Means platform right))
        (operator-Means platform left op right))
bool-Means platform (unary_op op expr) =
    case-Means (text_eqb op "not") _ none _ _ (opposite-Means _ _ (bool-Means platform expr)) tt
bool-Means platform (protocol_node name num) = protocol-Means name num
bool-Means platform (keyword_filter node) = keyword-Means platform node
bool-Means platform (byte_access proto offset size) =
    nonzero-Means platform (byte_access proto offset size)
bool-Means platform (number n) = nonzero-Means platform (number n)
bool-Means platform length_node = nonzero-Means platform length_node
bool-Means platform (literal v kind) = tt
bool-Means platform (field_node name) = tt

-- The labels of the ends are not among those that the code makes.
with_returns-Distinct :
    (items : List Item) (lo hi : ℕ)
    → ((l : Label) → IsIn l (labels_of items) → IsNew lo hi l)
    → Distinct (labels_of items)
    → Distinct (labels_of (with_returns items))
unfolding with_returns
with_returns-Distinct items lo hi new distinct = rw (labels_of-append items _) (
    Distinct-append (labels_of items) (accept ∷ reject ∷ []) distinct
      (
        (λ inside. elim inside [ inl same ↦ absurd (cc) | inr none_left ↦ none_left ]),
        ((λ inside. inside), tt),
      )
      (λ l inside end. elim end [
        | inl a ↦ rw a at (new l inside)
        | inr (inl r) ↦ rw r at (new l inside)
        | inr (inr none_left) ↦ none_left
      ]))

-- Code that leads to the label of the answer.
answer-ends :
    (packet : List ℕ) (items : List Item) (d : Option Bool) (x : Exit)
    → run_items packet items none start ≡ x
    → Leads (goal d accept reject) x
    → run_items packet (with_returns items) none start ≡ ends (returned (pos (outcome_of d)))
answer-ends packet items none (ends o) e l = early-ends packet items start _ (rw (sym l) e)
answer-ends packet items none (falls s) e l = elim l [ ]
answer-ends packet items none (jumps m s) e l = elim l [ ]
answer-ends packet items (some true) (jumps m s) e l =
    accept-ends packet items start s (rw (sym l) e)
answer-ends packet items (some true) (ends o) e l = elim l [ ]
answer-ends packet items (some true) (falls s) e l = elim l [ ]
answer-ends packet items (some false) (jumps m s) e l =
    reject-ends packet items start s (rw (sym l) e)
answer-ends packet items (some false) (ends o) e l = elim l [ ]
answer-ends packet items (some false) (falls s) e l = elim l [ ]

-- The assembled program gives the answer.
plain-Executes :
    (d : Option Bool) (packet : List ℕ) (items : List Item) (c : Compiler) (code : List Instruction)
    → IsForward (accept ∷ reject ∷ []) items
    → Sound packet (λ s x. Leads (goal d accept reject) x) (initial 1) items c
    → assemble_and_backpatch items ≡ ok code
    → Executes code packet (returned (pos (outcome_of d)))
plain-Executes d packet items c code scoped sound e =
    assembled-Executes packet items code _ scoped
      (with_returns-Distinct items _ _ sound.new sound.distinct) e
      (answer-ends packet items d _ refl (sound.leaves start))

optimized-Executes :
    (optimize : Bool) (code : List Instruction) (packet : List ℕ) (v : ℕ)
    → Executes code packet (returned (pos v))
    → Executes (if optimize then Peephole.optimize code else code) packet (returned (pos v))
optimized-Executes false code packet v h = h
optimized-Executes true code packet v h = (optimize-SameOutcomes packet code (returned (pos v))).0 h

-- Where no call of the library raises a KeyError: when the compiler gives a program for a filter on an
-- Ethernet link, with or without the optimiser, and `meaning` gives the filter a meaning, the emulator
-- returns for the program, on every packet, the snapshot's length where the meaning's answer is true,
-- and 0 where it is false or the packet ends before a field that the answer needs.
pub compile-meaning :
    (platform : Platform) (optimize : Bool) (ast_root : Node) (m : List ℕ → Option Bool)
    (packet : List ℕ) (code : List Instruction)
    → IsKeyErrorFree platform
    → meaning platform ast_root ≡ some m
    → compile platform 1 optimize ast_root ≡ ok code
    → Executes code packet (returned (pos (outcome_of (m packet))))
unfolding compile
compile-meaning platform optimize ast_root m packet code free means e =
    let (emitted, e1, rest) =
      >>=-eq-ok (compile_bool platform ast_root accept reject (initial 1)) _ e in
    let (plain_code, e2, last) = >>=-eq-ok (assemble_and_backpatch emitted.0) _ rest in
    let scoped = rw e1 at (compile_bool-Emits platform 1 ast_root free) in
    let decides = (rw means at (bool-Means platform ast_root)) packet in
    let ethernet : IsEthernet (initial 1) = record {
      linktype = refl;
      ethertype = refl;
      ipv4 = refl;
    } in
    let sound = rw e1 at (decides.decides (initial 1) accept reject ethernet tt tt) in
    rw (sym (ok-eq last)) (
      optimized-Executes optimize plain_code packet (outcome_of (m packet))
        (plain-Executes (m packet) packet emitted.0 emitted.1 plain_code scoped.0 sound e2))
