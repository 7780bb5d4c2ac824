-- ===== src/LightBpf/Parser/Arithmetic.antt =====
-- LightBPF/Parser.py: arithmetic expressions and relations.
use Prim.Native.String.{String}
use light_packet.Base.{
  ℕ, zero, suc, ◌&&◌, ◌||◌, Option, none, some, List, [], ◌∷◌, ◌==◌, if◌then◌else◌,
}
use light_packet.Base.Text.{text_eqb}
use light_packet.LightBpf.Ast.{
  Node, binary_op, protocol_node, byte_access, length_node, number, literal, field_node,
}
use light_packet.LightBpf.Parser.{
  Token, Texts, Parser, done, fails, ◌▹◌, lift, is_one_of, has, at_kind, at_token, consume_kind,
  consume, is_protocol_kind, addr_type,
}

-- The operator at the current token, and the tokens behind it.
unfoldable pub operator_at : String → List String → List Token → Option (String × List Token)
operator_at kind ops [] = none
operator_at kind ops (t ∷ ts) =
    if text_eqb t.kind kind && is_one_of t.value ops then some (t.value, ts) else none

-- The loop of `_binary_level`, and those of `expr_or` and `expr_and`: a unit of fuel for each operator.
unfoldable pub level_loop : ℕ → String → List String → Parser Node → Node → Parser Node
level_loop zero kind ops sub left ts = none
level_loop (suc n) kind ops sub left ts = elim (operator_at kind ops ts) [
  | none ↦ done left ts
  | some (op, rest) ↦ (sub ▹ λ right. level_loop n kind ops sub (binary_op left op right)) rest
]

unfoldable pub level : ℕ → String → List String → Parser Node → Parser Node
level n kind ops sub = sub ▹ level_loop n kind ops sub

-- `expr_bitor` down to `expr_mult`, over the atoms.
unfoldable pub bitor_over : ℕ → Parser Node → Parser Node
bitor_over n atom = level n "MATH_OP" ("|" ∷ []) (
    level n "MATH_OP" ("^" ∷ []) (
      level n "MATH_OP" ("&" ∷ []) (
        level n "MATH_OP" ("<<" ∷ ">>" ∷ [])
          (level n "MATH_OP" ("+" ∷ "-" ∷ []) (level n "MATH_OP" ("*" ∷ "/" ∷ "%" ∷ []) atom)))))

-- An address, or a name.
unfoldable pub literal_at : Option String → Token → Parser Node
literal_at (some kind) t = done (literal t.value kind)
literal_at none t =
    if text_eqb t.kind "IDENTIFIER" then done (literal t.value "identifier") else fails

module _ (texts : Texts) where
  -- The size behind a colon, 1 where there is none.
  unfoldable pub size_of : Parser ℕ
  size_of ts =
      if at_token "SYMBOL" ":" ts
      then (consume "SYMBOL" ":" ▹ λ colon. consume_kind "NUMBER" ▹ λ t.
            lift (texts.int_of_text t.value) ▹ λ size.
            if size == 1 || (size == 2 || size == 4) then done size else fails)
          ts
      else done 1 ts

  -- `_parse_byte_access`.
  unfoldable pub parse_byte_access : Parser Node → String → Parser Node
  parse_byte_access bitor proto = consume "SYMBOL" "[" ▹ λ opening. bitor ▹ λ offset.
      size_of ▹ λ size. consume "SYMBOL" "]" ▹ λ closing. done (byte_access proto offset size)

  -- `expr_atom` at a token, with `expr_bitor` and itself for what is nested.
  unfoldable pub atom_at : Parser Node → Parser Node → Token → Parser Node
  atom_at bitor atom t =
      if has t "SYMBOL" "("
      then (bitor ▹ λ e. consume "SYMBOL" ")" ▹ λ closing. done e)
      else if has t "MATH_OP" "-"
      then (atom ▹ λ e. done (binary_op (number 0) "-" e))
      else if text_eqb t.kind "NUMBER"
      then (lift (texts.int_of_text t.value) ▹ λ n. done (number n))
      else if has t "KEYWORD" "len"
      then done length_node
      else if text_eqb t.kind "FIELD"
      then done (field_node t.value)
      else if is_protocol_kind t.kind
      then (λ ts.
          if at_token "SYMBOL" "[" ts
          then parse_byte_access bitor t.value ts
          else done (protocol_node t.value none) ts)
      else literal_at (addr_type t.kind) t

  -- `expr_atom`: a unit of fuel for each level of nesting.
  unfoldable pub expr_atom : ℕ → Parser Node
  expr_atom zero ts = none
  expr_atom (suc n) [] = fails []
  expr_atom (suc n) (t ∷ ts) = atom_at (bitor_over n (expr_atom n)) (expr_atom n) t ts

  unfoldable pub expr_bitor : ℕ → Parser Node
  expr_bitor n = bitor_over n (expr_atom n)

  -- `expr_relation`.
  unfoldable pub expr_relation : ℕ → Parser Node
  expr_relation n = expr_bitor n ▹ λ left ts.
      if at_kind "REL_OP" ts
      then (consume_kind "REL_OP" ▹ λ op.
            expr_bitor n ▹ λ right. done (binary_op left op.value right))
          ts
      else done left ts
