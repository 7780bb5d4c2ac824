-- ===== src/LightBpf/Compiler/Scoped/Boolean.antt =====
-- The code of LightBPF/CompilerSet/Compiler.py for a whole filter keeps to its labels.
use Prim.Native.String.{String}
use light_packet.Base.{
  ℕ, Bool, true, false, ◌||◌, Option, none, some, List, ◌∷◌, if◌then◌else◌, refl, inl, inr,
}
use light_packet.Base.Text.{text_eqb}
use light_packet.LightBpf.Opcode.{insn_class, insn_op}
use light_packet.LightBpf.Ast.{
  Node, binary_op, unary_op, protocol_node, keyword_filter, byte_access, length_node, number,
  literal, field_node,
}
use light_packet.LightBpf.Compiler.Code.{
  Label, num, to, Item, Code, jeq_k, jgt_k, jge_k, jeq_x, jgt_x, jge_x,
}
use light_packet.LightBpf.Compiler.Platform.{Platform}
use light_packet.LightBpf.Compiler.Address.{Branch}
use light_packet.LightBpf.Compiler.Values.{number_of}
use light_packet.LightBpf.Compiler.Boolean.{
  compare_jump, mask_jump, mask_test, compile_comparison, compile_bitwise_bool, compile_nonzero,
  is_comparison, compile_operator, compile_and, compile_or, compile_bool,
}
use light_packet.LightBpf.Compiler.Scope.{IsIn, FitsCode, IsScoped, IsForward}
use light_packet.LightBpf.Compiler.Scoped.{
  ▸-IsScoped, join-IsScoped, emit-IsScoped, new_label-IsScoped, fail-IsScoped, if-IsScoped,
  option-IsScoped, IsKeyErrorFree,
}
use light_packet.LightBpf.Compiler.Scoped.Protocol.{compile_protocol-IsScoped}
use light_packet.LightBpf.Compiler.Scoped.Address.{IsBranch}
use light_packet.LightBpf.Compiler.Scoped.Keyword.{compile_keyword-IsBranch}
use light_packet.LightBpf.Compiler.Scoped.Values.{
  both_operands-IsScoped, IsGuard, compile_value-IsScoped,
}

if-IsForward :
    (after : List Label) (b : Bool) (xs ys : List Item)
    → IsForward after xs
    → IsForward after ys
    → IsForward after (if b then xs else ys)
if-IsForward after true xs ys hx hy = hx
if-IsForward after false xs ys hx hy = hy

-- An opcode of which a jump to two labels fits, where the labels may be meant.
abbrev FitsJump : ℕ → Type 0
FitsJump code =
    (ls : List Label) (t f : Label) (k : ℕ)
    → IsIn t ls
    → IsIn f ls
    → FitsCode code ls (to t) (to f) (num k)

module _ (after : List Label) (t f : Label) (ht : IsIn t after) (hf : IsIn f after) where
  mask_jump-IsForward : (op : String) (mask : ℕ) → IsForward after (mask_jump op mask t f)
  unfolding mask_jump insn_class insn_op
  mask_jump-IsForward op mask = if-IsForward _ (text_eqb op "!=" || text_eqb op ">") _ _ (search) (
      if-IsForward _ (text_eqb op "==") _ _ (search)
        (if-IsForward _ (text_eqb op ">=") _ _ (search) tt))

  compare_jump-IsForward :
      (jeq jgt jge : ℕ) (op : String) (val : ℕ)
      → FitsJump jeq
      → FitsJump jgt
      → FitsJump jge
      → IsForward after (compare_jump jeq jgt jge op val t f)
  unfolding compare_jump
  compare_jump-IsForward jeq jgt jge op val eq gt ge =
      if-IsForward _ (text_eqb op "==") _ _ (eq _ t f val ht hf, tt)
        (if-IsForward _ (text_eqb op "!=") _ _ (eq _ f t val hf ht, tt)
          (if-IsForward _ (text_eqb op ">") _ _ (gt _ t f val ht hf, tt)
            (if-IsForward _ (text_eqb op ">=") _ _ (ge _ t f val ht hf, tt)
              (if-IsForward _ (text_eqb op "<") _ _ (ge _ f t val hf ht, tt)
                (if-IsForward _ (text_eqb op "<=") _ _ (gt _ f t val hf ht, tt) tt)))))

module _ (platform : Platform) (free : IsKeyErrorFree platform) where
  compile_comparison-IsBranch :
      (left : Node) (op : String) (right : Node)
      → IsBranch (compile_comparison platform left op right)
  unfolding compile_comparison insn_class insn_op
  compile_comparison-IsBranch left op right = record {
    scoped = λ after t f ht hf.
        option-IsScoped (mask_test left right)
          (option-IsScoped (number_of right)
            (▸-IsScoped
              (both_operands-IsScoped (compile_value-IsScoped platform free left (some f) hf)
                (compile_value-IsScoped platform free right (some f) hf))
              (emit-IsScoped _ (
                compare_jump-IsForward after t f ht hf jeq_x jgt_x jge_x op 0 (search) (search)
                  (search))))
            (λ val. ▸-IsScoped (compile_value-IsScoped platform free left (some f) hf) (
              emit-IsScoped _ (
                compare_jump-IsForward after t f ht hf jeq_k jgt_k jge_k op val (search) (search)
                  (search)))))
          (λ (p : Node × ℕ).
            ▸-IsScoped (compile_value-IsScoped platform free p.0 (some f) hf)
              (emit-IsScoped _ (mask_jump-IsForward after t f ht hf op p.1)));
  }

  compile_bitwise_bool-IsBranch :
      (left right : Node) → IsBranch (compile_bitwise_bool platform left right)
  unfolding compile_bitwise_bool insn_class insn_op
  compile_bitwise_bool-IsBranch left right = record {
    scoped = λ after t f ht hf.
        option-IsScoped (number_of right)
          (▸-IsScoped
            (both_operands-IsScoped (compile_value-IsScoped platform free left (some f) hf)
              (compile_value-IsScoped platform free right (some f) hf))
            (emit-IsScoped _ (search)))
          (λ mask.
            ▸-IsScoped (compile_value-IsScoped platform free left (some f) hf)
              (emit-IsScoped _ (search)));
  }

  compile_nonzero-IsScoped :
      {after : List Label} (node : Node) (g : Option Label) (t f : Label)
      → IsGuard after g
      → IsIn t after
      → IsIn f after
      → IsScoped after (compile_nonzero platform node g t f)
  unfolding compile_nonzero insn_class insn_op
  compile_nonzero-IsScoped node g t f hg ht hf =
      ▸-IsScoped (compile_value-IsScoped platform free node g hg) (emit-IsScoped _ (search))

  compile_operator-IsBranch :
      (left : Node) (op : String) (right : Node)
      → IsBranch (compile_operator platform left op right)
  unfolding compile_operator
  compile_operator-IsBranch left op right = record {
    scoped = λ after t f ht hf.
        if-IsScoped (is_comparison op)
          ((compile_comparison-IsBranch left op right).scoped after t f ht hf)
          (if-IsScoped (text_eqb op "&")
            ((compile_bitwise_bool-IsBranch left right).scoped after t f ht hf)
            (compile_nonzero-IsScoped (binary_op left op right) (some f) t f hf ht hf));
  }

compile_and-IsBranch : {p q : Branch} → IsBranch p → IsBranch q → IsBranch (compile_and p q)
unfolding compile_and
compile_and-IsBranch hp hq = record {
  scoped = λ after t f ht hf. new_label-IsScoped λ nxt.
      join-IsScoped (hp.scoped (nxt ∷ after) nxt f (inl refl) (inr hf)) (hq.scoped after t f ht hf);
}

compile_or-IsBranch : {p q : Branch} → IsBranch p → IsBranch q → IsBranch (compile_or p q)
unfolding compile_or
compile_or-IsBranch hp hq = record {
  scoped = λ after t f ht hf. new_label-IsScoped λ nxt.
      join-IsScoped (hp.scoped (nxt ∷ after) t nxt (inr ht) (inl refl)) (hq.scoped after t f ht hf);
}

-- A test that chooses between two branches, as `elim` has it.
elim-IsScoped :
    {after : List Label} (b : Bool) {p q : Code}
    → IsScoped after p
    → IsScoped after q
    → IsScoped after (elim b [ true ↦ p | false ↦ q ])
elim-IsScoped true hp hq = hp
elim-IsScoped false hp hq = hq

module _ (platform : Platform) (free : IsKeyErrorFree platform) where
  pub compile_bool-IsBranch : (node : Node) → IsBranch (compile_bool platform node)
  unfolding compile_bool
  compile_bool-IsBranch (binary_op left op right) = record {
    scoped = λ after t f ht hf.
        elim-IsScoped (text_eqb op "and")
          ((compile_and-IsBranch (compile_bool-IsBranch left) (compile_bool-IsBranch right)).scoped
            after t f ht hf)
          (elim-IsScoped (text_eqb op "or")
            ((compile_or-IsBranch (compile_bool-IsBranch left) (compile_bool-IsBranch right)).scoped
              after t f ht hf)
            ((compile_operator-IsBranch platform free left op right).scoped after t f ht hf));
  }
  compile_bool-IsBranch (unary_op op expr) = record {
    scoped = λ after t f ht hf.
        elim-IsScoped (text_eqb op "not") ((compile_bool-IsBranch expr).scoped after f t hf ht)
          (fail-IsScoped (λ d. cc));
  }
  compile_bool-IsBranch (protocol_node name n) = record {
    scoped = λ after t f ht hf. compile_protocol-IsScoped t f ht hf name n;
  }
  compile_bool-IsBranch (keyword_filter node) = compile_keyword-IsBranch platform free node
  compile_bool-IsBranch (byte_access proto offset size) = record {
    scoped = λ after t f ht hf.
        compile_nonzero-IsScoped platform free (byte_access proto offset size) (some f) t f hf ht
          hf;
  }
  compile_bool-IsBranch (number n) = record {
    scoped = λ after t f ht hf. compile_nonzero-IsScoped platform free (number n) none t f tt ht hf;
  }
  compile_bool-IsBranch length_node = record {
    scoped =
        λ after t f ht hf. compile_nonzero-IsScoped platform free length_node none t f tt ht hf;
  }
  compile_bool-IsBranch (literal value kind) = record {
    scoped = λ after t f ht hf. fail-IsScoped (λ d. cc);
  }
  compile_bool-IsBranch (field_node name) = record {
    scoped = λ after t f ht hf. fail-IsScoped (λ d. cc);
  }
