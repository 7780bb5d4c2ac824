-- ===== src/LightBpf/Compiler/Boolean.antt =====
-- LightBPF/CompilerSet/Compiler.py: filters, which go to one of two labels.
use Prim.Native.String.{String}
use light_packet.Base.{
  ℕ, zero, Bool, true, false, ◌||◌, Option, none, some, List, [], ◌∷◌, if◌then◌else◌,
}
use light_packet.Base.Text.{text_eqb}
use light_packet.Base.Exceptions.{not_implemented_error}
use light_packet.LightBpf.Ast.{
  Node, binary_op, unary_op, protocol_node, keyword_filter, byte_access, length_node, number,
}
use light_packet.LightBpf.Compiler.Code.{
  Label, label, Item, cond, goto, emit, fail, ◌▸◌, new_label, jeq_k, jgt_k, jge_k, jset_k, jeq_x,
  jgt_x, jge_x, jset_x,
}
use light_packet.LightBpf.Compiler.Platform.{Platform}
use light_packet.LightBpf.Compiler.Address.{Branch}
use light_packet.LightBpf.Compiler.Protocol.{compile_protocol}
use light_packet.LightBpf.Compiler.Keyword.{compile_keyword}
use light_packet.LightBpf.Compiler.Values.{both_operands, compile_value, number_of}

-- The jump of a comparison, with its opcodes for `==`, `>` and `>=`, and what is compared with. An
-- operator of another name emits nothing.
unfoldable pub compare_jump : ℕ → ℕ → ℕ → String → ℕ → Label → Label → List Item
compare_jump jeq jgt jge op val t f =
    if text_eqb op "=="
    then cond jeq t f val ∷ []
    else if text_eqb op "!="
    then cond jeq f t val ∷ []
    else if text_eqb op ">"
    then cond jgt t f val ∷ []
    else if text_eqb op ">="
    then cond jge t f val ∷ []
    else if text_eqb op "<"
    then cond jge f t val ∷ []
    else if text_eqb op "<="
    then cond jgt f t val ∷ []
    else []

-- The jump of the idiomatic bit mask test; `<` and `<=` have none.
unfoldable pub mask_jump : String → ℕ → Label → Label → List Item
mask_jump op mask t f =
    if text_eqb op "!=" || text_eqb op ">"
    then cond jset_k t f mask ∷ []
    else if text_eqb op "=="
    then cond jset_k f t mask ∷ []
    else if text_eqb op ">="
    then goto t ∷ []
    else []

-- `(expr & mask)` compared with 0: the expression and the mask.
unfoldable pub mask_test : Node → Node → Option (Node × ℕ)
mask_test (binary_op inner op (number mask)) (number zero) =
    if text_eqb op "&" then some (inner, mask) else none
mask_test left right = none

-- `_compile_comparison`.
unfoldable pub compile_comparison : Platform → Node → String → Node → Branch
compile_comparison platform left op right t f = elim (mask_test left right) [
  | some (inner, mask) ↦ compile_value platform inner (some f) ▸ emit (mask_jump op mask t f)
  | none ↦ elim (number_of right) [
    | some val ↦
        compile_value platform left (some f) ▸ emit (compare_jump jeq_k jgt_k jge_k op val t f)
    | none ↦
        both_operands (compile_value platform left (some f)) (compile_value platform right (some f))
        ▸ emit (compare_jump jeq_x jgt_x jge_x op 0 t f)
  ]
]

-- `_compile_bitwise_bool`.
unfoldable pub compile_bitwise_bool : Platform → Node → Node → Branch
compile_bitwise_bool platform left right t f = elim (number_of right) [
  | some mask ↦ compile_value platform left (some f) ▸ emit (cond jset_k t f mask ∷ [])
  | none ↦
      both_operands (compile_value platform left (some f)) (compile_value platform right (some f))
      ▸ emit (cond jset_x t f 0 ∷ [])
]

-- A value as a filter: it must not be 0.
unfoldable pub compile_nonzero : Platform → Node → Option Label → Branch
compile_nonzero platform node guard t f =
    compile_value platform node guard ▸ emit (cond jeq_k f t 0 ∷ [])

abbrev pub is_comparison : String → Bool
is_comparison op =
    text_eqb op "=="
    || (text_eqb op "!="
        || (text_eqb op ">" || (text_eqb op ">=" || (text_eqb op "<" || text_eqb op "<="))))

-- An operator that is neither `and` nor `or`.
unfoldable pub compile_operator : Platform → Node → String → Node → Branch
compile_operator platform left op right t f =
    if is_comparison op
    then compile_comparison platform left op right t f
    else if text_eqb op "&"
    then compile_bitwise_bool platform left right t f
    else compile_nonzero platform (binary_op left op right) (some f) t f

unfoldable pub compile_and : Branch → Branch → Branch
compile_and left right t f = new_label λ nxt. left nxt f ▸ emit (label nxt ∷ []) ▸ right t f

unfoldable pub compile_or : Branch → Branch → Branch
compile_or left right t f = new_label λ nxt. left t nxt ▸ emit (label nxt ∷ []) ▸ right t f

-- `_compile_bool`.
unfoldable pub compile_bool : Platform → Node → Branch
compile_bool platform (binary_op left op right) t f = elim (text_eqb op "and") [
  | true ↦ compile_and (compile_bool platform left) (compile_bool platform right) t f
  | false ↦ elim (text_eqb op "or") [
    | true ↦ compile_or (compile_bool platform left) (compile_bool platform right) t f
    | false ↦ compile_operator platform left op right t f
  ]
]
compile_bool platform (unary_op op expr) t f = elim (text_eqb op "not") [
  | true ↦ compile_bool platform expr f t
  | false ↦ fail not_implemented_error
]
compile_bool platform (protocol_node name num) t f = compile_protocol name num t f
compile_bool platform (keyword_filter node) t f = compile_keyword platform node t f
compile_bool platform (byte_access proto offset size) t f =
    compile_nonzero platform (byte_access proto offset size) (some f) t f
compile_bool platform (number n) t f = compile_nonzero platform (number n) none t f
compile_bool platform length_node t f = compile_nonzero platform length_node none t f
compile_bool platform _ t f = fail not_implemented_error
