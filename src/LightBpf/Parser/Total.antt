-- ===== src/LightBpf/Parser/Total.antt =====
-- LightBPF/Parser.py ends on every list of tokens: each method that is called again reads a token first.
pub mod Rules
use Prim.Native.String.{String}
use light_packet.Base.{
  ℕ, zero, suc, ◌≤◌, ◌<◌, Bool, true, false, not, ◌&&◌, ◌||◌, Option, none, some, List, [], ◌∷◌,
  length, ◌==◌, ltb, if◌then◌else◌, ◌≡◌, refl, sym, ap, inl, inr, arith, Bool-cases, Option-cases,
}
use light_packet.Base.Text.{text_eqb}
use light_packet.Base.Exceptions.{Exception, Result, ok, raise, syntax_error}
use light_packet.LightBpf.Ast.{
  Node, binary_op, unary_op, protocol_node, byte_access, length_node, number, literal, field_node,
  Value, Direction, src, dst, src_and_dst, src_or_dst,
}
use light_packet.LightBpf.Parser.{
  Token, Texts, Parsed, Parser, done, fails, after, ◌▹◌, lift, is_one_of, has, at_kind, at_token,
  consume_kind, consume, is_protocol_kind, addr_type,
}
use light_packet.LightBpf.Parser.Arithmetic.{
  operator_at, level_loop, level, bitor_over, size_of, parse_byte_access, literal_at, atom_at,
  expr_atom, expr_bitor, expr_relation,
}
use light_packet.LightBpf.Parser.Qualifiers.{
  joiner_at, take_direction, with_mask, parse_address, parse_port, parse_portrange, parse_tag,
  parse_proto, parse_keyword_value, parse_keyword, parse_qualifier_rule, value_follows,
}
use light_packet.LightBpf.Parser.Logical.{
  or_retry, primary_at, or_over, expr_not, expr_or, all_read, parse, is_syntax_error,
  starts_qualifier_rule,
}
use light_packet.LightBpf.Parser.Ends.{
  Ends, Reads, Ends-mono, Ends-if, Ends-after, Ends-▹, lift-Ends, Ends-choice, lift-▹-Ends,
  consume_kind-Ends, consume-Ends, operator_at-lt, level_loop-Ends, level-Reads, bitor_over-Reads,
  closed-Ends,
}

module _ (texts : Texts) where
  size_of-Ends : (ts : List Token) → Ends (suc (length ts)) (size_of texts ts)
  unfolding size_of
  size_of-Ends ts =
      Ends-if (at_token "SYMBOL" ":" ts) (suc (length ts)) _ _
        (Ends-▹ (length ts) (suc (length ts)) (consume "SYMBOL" ":") _ ts
          (consume-Ends "SYMBOL" ":" ts)
          λ colon rest less.
            Ends-▹ (length rest) (suc (length ts)) (consume_kind "NUMBER") _ rest
              (consume_kind-Ends "NUMBER" rest)
              λ t end fewer. lift-▹-Ends (texts.int_of_text t.value) _ (suc (length ts)) end λ size.
                Ends-choice (size == 1 || (size == 2 || size == 4)) (suc (length ts)) (done size)
                  fails end (omega (arith, less, fewer)) tt)
        (omega arith)

  byte_access-Ends :
      (n : ℕ) (bitor : Parser Node) (proto : String) (ts : List Token)
      → Reads n bitor
      → length ts < n
      → Ends (suc (length ts)) (parse_byte_access texts bitor proto ts)
  unfolding parse_byte_access
  byte_access-Ends n bitor proto ts h short =
      Ends-▹ (length ts) (suc (length ts)) (consume "SYMBOL" "[") _ ts
        (consume-Ends "SYMBOL" "[" ts)
        λ opening r1 l1.
          Ends-▹ (length r1) (suc (length ts)) bitor _ r1 (h.reads r1 (omega (arith, l1, short)))
            λ offset r2 l2.
              Ends-▹ (suc (length r2)) (suc (length ts)) (size_of texts) _ r2 (size_of-Ends r2)
                λ size r3 l3.
                  Ends-▹ (length r3) (suc (length ts)) (consume "SYMBOL" "]") _ r3
                    (consume-Ends "SYMBOL" "]" r3) λ closing r4 l4. omega (arith, l1, l2, l3, l4)

  literal-Ends :
      (kind : Option String) (t : Token) (ts : List Token)
      → Ends (suc (length ts)) (literal_at kind t ts)
  unfolding literal_at
  literal-Ends none t ts =
      Ends-choice (text_eqb t.kind "IDENTIFIER") (suc (length ts))
        (done (literal t.value "identifier")) fails ts (omega arith) tt
  literal-Ends (some k) t ts = omega arith

  atom_at-Ends :
      (n : ℕ) (bitor atom : Parser Node) (t : Token) (ts : List Token)
      → Reads n bitor
      → Reads n atom
      → length ts < n
      → Ends (suc (length ts)) (atom_at texts bitor atom t ts)
  unfolding atom_at
  atom_at-Ends n bitor atom t ts hb ha short =
      let m = suc (length ts) in
      Ends-choice (has t "SYMBOL" "(") m _ _ ts
        (closed-Ends n m bitor ts ")" hb short (omega arith))
        (Ends-choice (has t "MATH_OP" "-") m _ _ ts
          (Ends-▹ (length ts) m atom _ ts (ha.reads ts short) (λ e rest less. omega (arith, less)))
          (Ends-choice (text_eqb t.kind "NUMBER") m _ _ ts
            (lift-▹-Ends (texts.int_of_text t.value) _ m ts (λ k. omega arith))
            (Ends-choice (has t "KEYWORD" "len") m _ _ ts (omega arith) (
              Ends-choice (text_eqb t.kind "FIELD") m _ _ ts (omega arith) (
                Ends-choice (is_protocol_kind t.kind) m _ _ ts
                  (Ends-if (at_token "SYMBOL" "[" ts) m _ _
                    (byte_access-Ends n bitor t.value ts hb short) (omega arith))
                  (literal-Ends (addr_type t.kind) t ts))))))

  next_atom-Reads : (n : ℕ) → Reads n (expr_atom texts n) → Reads (suc n) (expr_atom texts (suc n))
  unfolding expr_atom
  next_atom-Reads n h = record { reads = at_tokens }
    where
      at_tokens :
          (ts : List Token) → length ts < suc n → Ends (length ts) (expr_atom texts (suc n) ts)
      at_tokens [] short = tt
      at_tokens (t ∷ ts) short =
          atom_at-Ends n (bitor_over n (expr_atom texts n)) (expr_atom texts n) t ts
            (bitor_over-Reads n (expr_atom texts n) h) h (omega (arith, short))

  expr_atom-Reads : (n : ℕ) → Reads n (expr_atom texts n)
  expr_atom-Reads zero = record { reads = λ ts short. absurd (omega (arith, short)) }
  expr_atom-Reads (suc n) = next_atom-Reads n (expr_atom-Reads n)

  expr_bitor-Reads : (n : ℕ) → Reads n (expr_bitor texts n)
  unfolding expr_bitor
  expr_bitor-Reads n = bitor_over-Reads n (expr_atom texts n) (expr_atom-Reads n)

  pub expr_relation-Reads : (n : ℕ) → Reads n (expr_relation texts n)
  unfolding expr_relation
  expr_relation-Reads n = record {
    reads = λ ts short.
        Ends-▹ (length ts) (length ts) (expr_bitor texts n) _ ts
          ((expr_bitor-Reads n).reads ts short)
          λ left r1 l1.
            Ends-if (at_kind "REL_OP" r1) (length ts) _ _
              (Ends-▹ (length r1) (length ts) (consume_kind "REL_OP") _ r1
                (consume_kind-Ends "REL_OP" r1)
                λ op r2 l2.
                  Ends-▹ (length r2) (length ts) (expr_bitor texts n) _ r2
                    ((expr_bitor-Reads n).reads r2 (omega (arith, l1, l2, short)))
                    λ right r3 l3. omega (arith, l1, l2, l3))
              l1;
  }
