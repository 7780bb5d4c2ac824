-- ===== src/LightBpf/Parser/Logical.antt =====
-- LightBPF/Parser.py: the connectives, and `parse`.
use light_packet.Base.{
  ℕ, zero, suc, Bool, true, false, not, ◌||◌, Option, none, some, List, [], ◌∷◌, length,
  if◌then◌else◌,
}
use light_packet.Base.Text.{text_eqb}
use light_packet.Base.Exceptions.{Exception, Result, ok, raise, syntax_error}
use light_packet.LightBpf.Ast.{Node, unary_op}
use light_packet.LightBpf.Parser.{
  Token, Texts, Parsed, Parser, done, fails, ◌▹◌, has, at_kind, at_token, consume, is_protocol_kind,
}
use light_packet.LightBpf.Parser.Arithmetic.{level, expr_relation}
use light_packet.LightBpf.Parser.Qualifiers.{parse_qualifier_rule}

-- `except SyntaxError`.
abbrev pub is_syntax_error : Exception → Bool
is_syntax_error syntax_error = true
is_syntax_error _ = false

-- `_starts_qualifier_rule`.
unfoldable pub starts_qualifier_rule : List Token → Bool
starts_qualifier_rule [] = false
starts_qualifier_rule (t ∷ ts) =
    if text_eqb t.kind "KEYWORD"
    then not (text_eqb t.value "len")
    else if is_protocol_kind t.kind
    then not (at_token "SYMBOL" "[" ts)
    else false

-- What a group in parentheses comes to, and what is tried where it is no group.
unfoldable pub or_retry : Parsed Node → Parsed Node → Parsed Node
or_retry none retry = none
or_retry (some (raise e)) retry = if is_syntax_error e then retry else some (raise e)
or_retry (some (ok (inner, ts))) retry =
    if at_kind "REL_OP" ts || at_kind "MATH_OP" ts then retry else some (ok (inner, ts))

module _ (texts : Texts) where
  -- `expr_primary` at a token, with `expr_or` for what is nested.
  unfoldable pub primary_at : ℕ → Parser Node → Token → Parser Node
  primary_at n expr_or t ts =
      if has t "SYMBOL" "("
      then or_retry ((expr_or ▹ λ inner. consume "SYMBOL" ")" ▹ λ closing. done inner) ts)
          (expr_relation texts n (t ∷ ts))
      else if starts_qualifier_rule (t ∷ ts)
      then parse_qualifier_rule texts (t ∷ ts)
      else expr_relation texts n (t ∷ ts)

  -- `expr_or` over `expr_and` over the negations.
  unfoldable pub or_over : ℕ → Parser Node → Parser Node
  or_over n expr_not = level n "LOGICAL" ("or" ∷ []) (level n "LOGICAL" ("and" ∷ []) expr_not)

  -- `expr_not`: a unit of fuel for each level of nesting.
  unfoldable pub expr_not : ℕ → Parser Node
  expr_not zero ts = none
  expr_not (suc n) [] = fails []
  expr_not (suc n) (t ∷ ts) =
      if has t "LOGICAL" "not"
      then (expr_not n ▹ λ e. done (unary_op "not" e)) ts
      else primary_at (suc n) (or_over n (expr_not n)) t ts

  unfoldable pub expr_or : ℕ → Parser Node
  expr_or n = or_over n (expr_not n)

  -- No token may be left.
  unfoldable pub all_read : Parsed Node → Option (Result Node)
  all_read none = none
  all_read (some (raise e)) = some (raise e)
  all_read (some (ok (ast, []))) = some (ok ast)
  all_read (some (ok (ast, t ∷ ts))) = some (raise syntax_error)

  -- `parse`, on fuel for each token and one unit more.
  unfoldable pub parse : List Token → Option (Result Node)
  parse [] = some (raise syntax_error)
  parse (t ∷ ts) = all_read (expr_or (suc (length (t ∷ ts))) (t ∷ ts))
