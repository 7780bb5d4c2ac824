-- ===== src/LightBpf/Compiler/Sound/Jumps.antt =====
-- LightBPF/CompilerSet/Compiler.py: a value in A, and a conditional jump.
use light_packet.Base.{
  ℕ, bit_and, Bool, true, false, not, Option, none, some, List, [], ◌∷◌, ◌==◌, ltb, leb, ◌≡◌, refl,
  inl, inr, arith, Bool-cases,
}
use light_packet.Base.Int.{int_and}
use light_packet.LightBpf.Opcode.{bpf_jmp, bpf_ja, insn_class, insn_op, insn_src}
use light_packet.LightBpf.Emulator.{State, operand, condition}
use light_packet.LightBpf.Emulator.Fields.{instruction, IsLoad, ldh-IsLoad, ldw-IsLoad, ldb-IsLoad}
use light_packet.LightBpf.Compiler.Code.{
  Label, to, plain, cond, goto, next_or, Compiler, Code, emit, ◌▸◌, reading, ldh_abs, ldw_abs,
  ldb_abs, jeq_k, jgt_k, jge_k, jset_k,
}
use light_packet.LightBpf.Compiler.Address.{Branch, guard_ethertype}
use light_packet.LightBpf.Compiler.Symbolic.{run_items, move_item, move_by}
use light_packet.LightBpf.Compiler.Answers.{Reading, field_reading, guard_reading, bind_answer}
use light_packet.LightBpf.Compiler.Sound.{IsEthernet, Meets, emit-Meets}
use light_packet.LightBpf.Compiler.Sound.Connectives.{goal, At, Decides}
use light_packet.LightBpf.Compiler.Sound.Readings.{
  Reads, Yields, load-Gives, guard-Gives, cond-run, bind-Decides,
}

-- A conditional jump that tests A.
pub record IsTest (code k : ℕ) (test : ℕ → Bool) : Type 0 where
  pub jmp : (insn_class code == bpf_jmp) ≡ true
  pub conditional : (insn_op code == bpf_ja) ≡ false
  pub holds :
      (s : State)
      → condition (insn_op code) s.a (operand (instruction code 0 0 k) s) ≡ some (test s.a)

pub jeq-IsTest : (k : ℕ) → IsTest jeq_k k (λ w. w == k)
unfolding condition operand insn_class insn_op insn_src
jeq-IsTest k = record { jmp = refl; conditional = refl; holds = λ s. ground arith }

pub jgt-IsTest : (k : ℕ) → IsTest jgt_k k (λ w. ltb k w)
unfolding condition operand insn_class insn_op insn_src
jgt-IsTest k = record { jmp = refl; conditional = refl; holds = λ s. ground arith }

pub jge-IsTest : (k : ℕ) → IsTest jge_k k (λ w. leb k w)
unfolding condition operand insn_class insn_op insn_src
jge-IsTest k = record { jmp = refl; conditional = refl; holds = λ s. ground arith }

pub jset-IsTest : (k : ℕ) → IsTest jset_k k (λ w. not (bit_and w k == 0))
unfolding condition operand insn_class insn_op insn_src int_and
jset-IsTest k = record { jmp = refl; conditional = refl; holds = λ s. refl }

module _ (packet : List ℕ) where
  -- A jump to the first label when the test holds, or when it does not.
  cond-At :
      (code k : ℕ) (test : ℕ → Bool) (t f : Label) (s : State)
      → IsTest code k test
      → At (goal (some (test s.a)) t f) s (run_items packet (cond code t f k ∷ []) none s)
  unfolding run_items
  cond-At code k test t f s is =
      rw (cond-run packet code k (to t) (to f) [] s is.jmp is.conditional (test s.a) (is.holds s))
        (elim (Bool-cases (test s.a)) [ inl holds ↦ rw holds refl | inr fails ↦ rw fails refl ])

  swapped-At :
      (code k : ℕ) (test : ℕ → Bool) (t f : Label) (s : State)
      → IsTest code k test
      → At (goal (some (not (test s.a))) t f) s (run_items packet (cond code f t k ∷ []) none s)
  unfolding run_items
  swapped-At code k test t f s is =
      rw (cond-run packet code k (to f) (to t) [] s is.jmp is.conditional (test s.a) (is.holds s))
        (elim (Bool-cases (test s.a)) [ inl holds ↦ rw holds refl | inr fails ↦ rw fails refl ])

  pub test-Decides :
      (code k : ℕ) (test : ℕ → Bool) (r : Reading) (v : Label → Code)
      → IsTest code k test
      → Yields packet r v
      → Decides packet
          (bind_answer (λ w. some (test w)) r)
          (λ t f. v f ▸ emit (cond code t f k ∷ []))
  test-Decides code k test r v is h =
      bind-Decides packet (λ w. some (test w)) r v (λ t f. emit (cond code t f k ∷ [])) h
        (λ c t f eth ot of.
          emit-Meets packet (λ s x. At (goal (some (test s.a)) t f) s x) c (cond code t f k ∷ [])
            eth refl (λ s. cond-At code k test t f s is))

  pub swapped-Decides :
      (code k : ℕ) (test : ℕ → Bool) (r : Reading) (v : Label → Code)
      → IsTest code k test
      → Yields packet r v
      → Decides packet
          (bind_answer (λ w. some (not (test w))) r)
          (λ t f. v f ▸ emit (cond code f t k ∷ []))
  swapped-Decides code k test r v is h =
      bind-Decides packet (λ w. some (not (test w))) r v (λ t f. emit (cond code f t k ∷ [])) h
        (λ c t f eth ot of.
          emit-Meets packet (λ s x. At (goal (some (not (test s.a))) t f) s x) c
            (cond code f t k ∷ []) eth refl (λ s. swapped-At code k test t f s is))

  -- A load.
  pub load-Yields :
      (code off size : ℕ)
      → IsLoad packet (instruction code 0 0 off) off size
      → (insn_class code == bpf_jmp) ≡ false
      → Yields packet (field_reading packet off size) (λ f. emit (plain code off ∷ []))
  load-Yields code off size is other = record {
    yields = λ c f eth old.
        emit-Meets packet (Reads (field_reading packet off size) f) c (plain code off ∷ []) eth refl
          (λ s. load-Gives packet code off size f s is other);
  }

  pub ldw-Yields :
      (off : ℕ) → Yields packet (field_reading packet off 4) (λ f. emit (plain ldw_abs off ∷ []))
  unfolding insn_class
  ldw-Yields off = load-Yields ldw_abs off 4 (ldw-IsLoad packet off) refl

  pub ldh-Yields :
      (off : ℕ) → Yields packet (field_reading packet off 2) (λ f. emit (plain ldh_abs off ∷ []))
  unfolding insn_class
  ldh-Yields off = load-Yields ldh_abs off 2 (ldh-IsLoad packet off) refl

  pub ldb-Yields :
      (off : ℕ) → Yields packet (field_reading packet off 1) (λ f. emit (plain ldb_abs off ∷ []))
  unfolding insn_class
  ldb-Yields off = load-Yields ldb_abs off 1 (ldb-IsLoad packet off) refl

  -- The guard on the Ethernet type.
  guard-Meets :
      (e off : ℕ) (c : Compiler) (f : Label)
      → off ≡ 12
      → IsEthernet c
      → Meets packet
          (Reads (guard_reading packet e) f)
          c
          (emit (plain ldh_abs off ∷ next_or jeq_k f e ∷ []) c)
  guard-Meets e off c f here eth = rw here (
      emit-Meets packet (Reads (guard_reading packet e) f) c
        (plain ldh_abs 12 ∷ next_or jeq_k f e ∷ []) eth refl (λ s. guard-Gives packet e f s))

  pub guard_ethertype-Yields : (e : ℕ) → Yields packet (guard_reading packet e) (guard_ethertype e)
  unfolding guard_ethertype reading
  guard_ethertype-Yields e = record {
    yields = λ c f eth old. guard-Meets e c.e_p_offset c f eth.ethertype eth;
  }

  -- Another filter behind the guard.
  pub guarded-Decides :
      (e : ℕ) (d : Option Bool) (p : Branch)
      → Decides packet d p
      → Decides packet
          (bind_answer (λ w. d) (guard_reading packet e))
          (λ t f. guard_ethertype e f ▸ p t f)
  guarded-Decides e d p h =
      bind-Decides packet (λ w. d) (guard_reading packet e) (guard_ethertype e) p
        (guard_ethertype-Yields e) h.decides

  -- The jump that is always made.
  pub goto-Decides : Decides packet (some true) (λ t f. emit (goto t ∷ []))
  unfolding run_items move_item move_by insn_class insn_op
  goto-Decides = record {
    decides =
        λ c t f eth ot of. emit-Meets packet (At (some t)) c (goto t ∷ []) eth refl (λ s. refl);
  }
