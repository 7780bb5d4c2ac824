-- ===== src/LightBpf/Compiler/Sound/Comparisons.antt =====
-- LightBPF/CompilerSet/Compiler.py: comparisons with a constant, and values as filters.
use Prim.Native.String.{String}
use light_packet.Base.{
  ℕ, bit_and, Bool, true, false, not, ◌||◌, Option, none, some, List, [], ◌∷◌, ◌==◌, ltb, leb,
  if◌then◌else◌, ◌≡◌, refl, sym, ap, arith,
}
use light_packet.Base.Text.{text_eqb}
use light_packet.LightBpf.Ast.{Node, binary_op}
use light_packet.LightBpf.Compiler.Code.{
  Label, Item, cond, goto, Code, emit, ◌▸◌, jeq_k, jgt_k, jge_k, jset_k,
}
use light_packet.LightBpf.Compiler.Platform.{Platform}
use light_packet.LightBpf.Compiler.Address.{Branch}
use light_packet.LightBpf.Compiler.Values.{number_of, compile_value}
use light_packet.LightBpf.Compiler.Boolean.{
  compare_jump, mask_jump, mask_test, compile_comparison, compile_bitwise_bool, compile_nonzero,
  is_comparison, compile_operator,
}
use light_packet.LightBpf.Compiler.Answers.{short, elsewhere, value, Reading, bind_answer}
use light_packet.LightBpf.Compiler.Meaning.{
  Meaning, value_meaning, asks, relation_meaning, bits_meaning, comparison_meaning,
  operator_meaning,
}
use light_packet.LightBpf.Compiler.Sound.Readings.{bind-Decides}
use light_packet.LightBpf.Compiler.Sound.Jumps.{
  IsTest, jeq-IsTest, jgt-IsTest, jge-IsTest, jset-IsTest, test-Decides, swapped-Decides,
  goto-Decides,
}
use light_packet.LightBpf.Compiler.Sound.Expressions.{HasReading, value-HasReading}
use light_packet.LightBpf.Compiler.Sound.Filters.{Means, Means-if}

-- Equal tests ask for the same.
asked-same :
    (test test' : ℕ → Bool) (r : Reading)
    → ((w : ℕ) → test w ≡ test' w)
    → bind_answer (λ w. some (test w)) r ≡ bind_answer (λ w. some (test' w)) r
unfolding bind_answer
asked-same test test' short h = refl
asked-same test test' elsewhere h = refl
asked-same test test' (value w) h = ap some (h w)

asks-same :
    (test test' : ℕ → Bool) (m : Option (List ℕ → Reading)) (p : Branch)
    → ((w : ℕ) → test w ≡ test' w)
    → Means (asks test m) p
    → Means (asks test' m) p
asks-same test test' none p h k = tt
asks-same test test' (some m) p h k =
    λ packet. rw (sym (asked-same test test' (m packet) h)) (k packet)

-- A value and a conditional jump.
test-Means :
    (code k : ℕ) (test : ℕ → Bool) (m : Option (List ℕ → Reading)) (v : Label → Code)
    → IsTest code k test
    → HasReading m v
    → Means (asks test m) (λ t f. v f ▸ emit (cond code t f k ∷ []))
test-Means code k test none v is h = tt
test-Means code k test (some m) v is h =
    λ packet. test-Decides packet code k test (m packet) v is (h packet)

swapped-Means :
    (code k : ℕ) (test : ℕ → Bool) (m : Option (List ℕ → Reading)) (v : Label → Code)
    → IsTest code k test
    → HasReading m v
    → Means (asks (λ w. not (test w)) m) (λ t f. v f ▸ emit (cond code f t k ∷ []))
swapped-Means code k test none v is h = tt
swapped-Means code k test (some m) v is h =
    λ packet. swapped-Decides packet code k test (m packet) v is (h packet)

always-Means :
    (m : Option (List ℕ → Reading)) (v : Label → Code)
    → HasReading m v
    → Means (asks (λ w. true) m) (λ t f. v f ▸ emit (goto t ∷ []))
always-Means none v h = tt
always-Means (some m) v h = λ packet.
    bind-Decides packet (λ w. some true) (m packet) v (λ t f. emit (goto t ∷ [])) (h packet)
      (goto-Decides packet).decides

-- One of two endings of the code.
ending-if :
    (b : Bool) (m m' : Meaning) (v : Label → Code) (xs ys : Label → Label → List Item)
    → Means m (λ t f. v f ▸ emit (xs t f))
    → Means m' (λ t f. v f ▸ emit (ys t f))
    → Means (if b then m else m') (λ t f. v f ▸ emit (if b then xs t f else ys t f))
ending-if true m m' v xs ys h k = h
ending-if false m m' v xs ys h k = k

below : (n w : ℕ) → not (leb n w) ≡ ltb w n
below n w = ground arith

at_most : (n w : ℕ) → not (ltb n w) ≡ leb w n
at_most n w = ground arith

twice : (b : Bool) → not (not b) ≡ b
twice true = refl
twice false = refl

relation-Means :
    (op : String) (n : ℕ) (m : Option (List ℕ → Reading)) (v : Label → Code)
    → HasReading m v
    → Means (relation_meaning op n m) (λ t f. v f ▸ emit (compare_jump jeq_k jgt_k jge_k op n t f))
unfolding relation_meaning compare_jump
relation-Means op n m v h =
    ending-if (text_eqb op "==") _ _ v _ _ (test-Means jeq_k n (λ w. w == n) m v (jeq-IsTest n) h) (
      ending-if (text_eqb op "!=") _ _ v _ _
        (swapped-Means jeq_k n (λ w. w == n) m v (jeq-IsTest n) h)
        (ending-if (text_eqb op ">") _ _ v _ _
          (test-Means jgt_k n (λ w. ltb n w) m v (jgt-IsTest n) h)
          (ending-if (text_eqb op ">=") _ _ v _ _
            (test-Means jge_k n (λ w. leb n w) m v (jge-IsTest n) h)
            (ending-if (text_eqb op "<") _ _ v _ _
              (asks-same (λ w. not (leb n w)) (λ w. ltb w n) m _ (below n)
                (swapped-Means jge_k n (λ w. leb n w) m v (jge-IsTest n) h))
              (ending-if (text_eqb op "<=") _ none v _ _
                (asks-same (λ w. not (ltb n w)) (λ w. leb w n) m _ (at_most n)
                  (swapped-Means jgt_k n (λ w. ltb n w) m v (jgt-IsTest n) h))
                tt)))))

bits-Means :
    (op : String) (mask : ℕ) (m : Option (List ℕ → Reading)) (v : Label → Code)
    → HasReading m v
    → Means (bits_meaning op mask m) (λ t f. v f ▸ emit (mask_jump op mask t f))
unfolding bits_meaning mask_jump
bits-Means op mask m v h =
    ending-if (text_eqb op "!=" || text_eqb op ">") _ _ v _ _
      (test-Means jset_k mask (λ w. not (bit_and w mask == 0)) m v (jset-IsTest mask) h)
      (ending-if (text_eqb op "==") _ _ v _ _
        (asks-same (λ w. not (not (bit_and w mask == 0))) (λ w. bit_and w mask == 0) m _
          (λ w. twice (bit_and w mask == 0))
          (swapped-Means jset_k mask (λ w. not (bit_and w mask == 0)) m v (jset-IsTest mask) h))
        (ending-if (text_eqb op ">=") _ none v _ _ (always-Means m v h) tt))

-- By an optional part of the tree.
option-Means {ℓ} :
    {A : Type ℓ} (found : Option A) (m : A → Meaning) (n : Meaning) (p : A → Branch) (q : Branch)
    → ((a : A) → Means (m a) (p a))
    → Means n q
    → Means
        (elim found [ none ↦ n | some a ↦ m a ])
        (λ t f. elim found [ none ↦ q t f | some a ↦ p a t f ])
option-Means none m n p q h k = k
option-Means (some a) m n p q h k = h a

comparison-Means :
    (platform : Platform) (left : Node) (op : String) (right : Node)
    → Means (comparison_meaning left op right) (compile_comparison platform left op right)
unfolding comparison_meaning compile_comparison
comparison-Means platform left op right =
    option-Means (mask_test left right) _ _ _ _
      (λ part.
        bits-Means op part.1 (value_meaning part.0) (λ f. compile_value platform part.0 (some f))
          (value-HasReading platform part.0))
      (option-Means (number_of right) _ none _ _
        (λ n.
          relation-Means op n (value_meaning left) (λ f. compile_value platform left (some f))
            (value-HasReading platform left))
        tt)

bitwise-Means :
    (platform : Platform) (left right : Node)
    → Means
        (elim (number_of right) [
          | some mask ↦ asks (λ w. not (bit_and w mask == 0)) (value_meaning left)
          | none ↦ none
        ])
        (compile_bitwise_bool platform left right)
unfolding compile_bitwise_bool
bitwise-Means platform left right =
    option-Means (number_of right) _ none _ _
      (λ mask.
        test-Means jset_k mask (λ w. not (bit_and w mask == 0)) (value_meaning left)
          (λ f. compile_value platform left (some f)) (jset-IsTest mask)
          (value-HasReading platform left))
      tt

pub nonzero-Means :
    (platform : Platform) (node : Node)
    → Means
        (asks (λ w. not (w == 0)) (value_meaning node))
        (λ t f. compile_nonzero platform node (some f) t f)
unfolding compile_nonzero
nonzero-Means platform node =
    swapped-Means jeq_k 0 (λ w. w == 0) (value_meaning node)
      (λ f. compile_value platform node (some f)) (jeq-IsTest 0) (value-HasReading platform node)

pub operator-Means :
    (platform : Platform) (left : Node) (op : String) (right : Node)
    → Means (operator_meaning left op right) (compile_operator platform left op right)
unfolding operator_meaning compile_operator
operator-Means platform left op right =
    Means-if (is_comparison op) _ _ _ _ (comparison-Means platform left op right) (
      Means-if (text_eqb op "&") _ _ _ _ (bitwise-Means platform left right)
        (nonzero-Means platform (binary_op left op right)))
