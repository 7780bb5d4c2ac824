-- ===== src/LightBpf/Parser/RoundTrip.antt =====
-- LightBPF/Parser.py reads back filters whose operands are written in parentheses.
use Prim.Native.String.{String}
use light_packet.Base.{
  ℕ, zero, suc, ◌≤◌, ◌<◌, false, none, some, List, [], ◌∷◌, length, ◌≡◌, refl, arith,
}
use light_packet.Base.Exceptions.{ok}
use light_packet.LightBpf.Ast.{Node, binary_op, unary_op, protocol_node}
use light_packet.LightBpf.Parser.{
  Token, Texts, Parser, ◌▹◌, at_kind, at_token, consume_kind, consume, addr_type, is_one_of,
}
use light_packet.LightBpf.Parser.Arithmetic.{operator_at, level}
use light_packet.LightBpf.Parser.Qualifiers.{
  take_direction, with_mask, parse_address, parse_keyword_value, parse_keyword,
  parse_qualifier_rule,
}
use light_packet.LightBpf.Parser.Logical.{
  or_retry, primary_at, or_over, expr_not, expr_or, all_read, parse, starts_qualifier_rule,
}
use light_packet.LightBpf.Parser.Written.{
  protocol, host, both, either, opposite, Filter, token, opening, closing, tokens_onto, tree_of,
  size, size_pos, size-length, IsEnd, gives, no_operator, level-alone, level-pair,
}

module _ (texts : Texts) where
  -- A group.
  group_lem :
      (n : ℕ) (e : Filter) (rest : List Token)
      → or_over texts n (expr_not texts n) (tokens_onto e (closing ∷ rest))
        ≡ gives (tree_of e) (closing ∷ rest)
      → at_kind "REL_OP" rest ≡ false
      → at_kind "MATH_OP" rest ≡ false
      → expr_not texts (suc n) (opening ∷ tokens_onto e (closing ∷ rest)) ≡ gives (tree_of e) rest
  unfolding expr_not primary_at or_retry consume ◌▹◌
  group_lem n e rest h rel math = rw h (rw (rel, math) refl)

  -- A group before the end or a connective.
  reads_group :
      (n : ℕ) (e : Filter) (rest : List Token)
      → ((after : List Token)
          → IsEnd after
          → or_over texts n (expr_not texts n) (tokens_onto e after) ≡ gives (tree_of e) after)
      → at_kind "REL_OP" rest ≡ false
      → at_kind "MATH_OP" rest ≡ false
      → expr_not texts (suc n) (opening ∷ tokens_onto e (closing ∷ rest)) ≡ gives (tree_of e) rest
  reads_group n e rest h rel math = group_lem n e rest (h (closing ∷ rest) refl) rel math

  ends_kind :
      (kind : String) (rest : List Token)
      → IsEnd rest
      → at_kind kind (closing ∷ []) ≡ false
      → at_kind kind rest ≡ false
  unfolding at_kind
  ends_kind kind [] h e = refl
  ends_kind kind (t ∷ ts) h e = rw h e

  -- A leaf.
  protocol_lem :
      (n : ℕ) (name : String) (rest : List Token)
      → IsEnd rest
      → expr_not texts (suc n) (token "IP-PROTOCOL" name ∷ rest)
        ≡ gives (protocol_node name none) rest
  unfolding expr_not primary_at starts_qualifier_rule at_token parse_qualifier_rule at_kind
  protocol_lem n name [] h = refl
  protocol_lem n name (t ∷ ts) h = rw h refl

  host_lem :
      (n : ℕ) (address : String) (rest : List Token)
      → expr_not texts (suc n) (token "KEYWORD" "host" ∷ token "IPV4" address ∷ rest)
        ≡ gives (tree_of (host address)) rest
  unfolding expr_not primary_at starts_qualifier_rule parse_qualifier_rule take_direction
      parse_keyword parse_keyword_value parse_address with_mask addr_type at_kind at_token
      consume_kind is_one_of tree_of ◌▹◌
  host_lem n address rest = refl

  -- The level of `or` over the level of `and`, where neither has an operator.
  alone :
      (n : ℕ) (ts rest : List Token) (a : Node)
      → IsEnd rest
      → expr_not texts (suc n) ts ≡ gives a rest
      → or_over texts (suc n) (expr_not texts (suc n)) ts ≡ gives a rest
  unfolding or_over
  alone n ts rest a end e =
      level-alone n "LOGICAL" ("or" ∷ []) _ ts rest a
        (level-alone n "LOGICAL" ("and" ∷ []) (expr_not texts (suc n)) ts rest a e
          (no_operator "and" rest end))
        (no_operator "or" rest end)

  both_lem :
      (n : ℕ) (rest : List Token) (a b : Node) (ts behind : List Token)
      → IsEnd rest
      → expr_not texts (suc (suc n)) ts ≡ gives a (token "LOGICAL" "and" ∷ behind)
      → expr_not texts (suc (suc n)) behind ≡ gives b rest
      → or_over texts (suc (suc n)) (expr_not texts (suc (suc n))) ts
        ≡ gives (binary_op a "and" b) rest
  unfolding or_over operator_at is_one_of
  both_lem n rest a b ts behind end e1 e2 =
      level-alone (suc n) "LOGICAL" ("or" ∷ []) _ ts rest _
        (level-pair n "LOGICAL" ("and" ∷ []) (expr_not texts (suc (suc n))) ts
          (token "LOGICAL" "and" ∷ behind) behind rest a b "and" e1 refl e2
          (no_operator "and" rest end))
        (no_operator "or" rest end)

  either_lem :
      (n : ℕ) (rest : List Token) (a b : Node) (ts behind : List Token)
      → IsEnd rest
      → expr_not texts (suc (suc n)) ts ≡ gives a (token "LOGICAL" "or" ∷ behind)
      → expr_not texts (suc (suc n)) behind ≡ gives b rest
      → or_over texts (suc (suc n)) (expr_not texts (suc (suc n))) ts
        ≡ gives (binary_op a "or" b) rest
  unfolding or_over operator_at is_one_of
  either_lem n rest a b ts behind end e1 e2 =
      let sub : Parser Node =
        level (suc (suc n)) "LOGICAL" ("and" ∷ []) (expr_not texts (suc (suc n))) in
      level-pair n "LOGICAL" ("or" ∷ []) sub ts (token "LOGICAL" "or" ∷ behind) behind rest a b "or"
        (level-alone (suc n) "LOGICAL" ("and" ∷ []) (expr_not texts (suc (suc n))) ts
          (token "LOGICAL" "or" ∷ behind) a e1 refl)
        refl
        (level-alone (suc n) "LOGICAL" ("and" ∷ []) (expr_not texts (suc (suc n))) behind rest b e2
          (no_operator "and" rest end))
        (no_operator "or" rest end)

  not_lem :
      (n : ℕ) (ts rest : List Token) (a : Node)
      → expr_not texts n ts ≡ gives a rest
      → expr_not texts (suc n) (token "LOGICAL" "not" ∷ ts) ≡ gives (unary_op "not" a) rest
  unfolding expr_not ◌▹◌
  not_lem n ts rest a e = rw e refl

  parse_from :
      (ts : List Token) (a : Node)
      → 0 < length ts
      → or_over texts (suc (length ts)) (expr_not texts (suc (length ts))) ts ≡ gives a []
      → parse texts ts ≡ some (ok a)
  unfolding parse expr_or all_read
  parse_from [] a some_tokens e = absurd (omega (arith, some_tokens))
  parse_from (t ∷ ts) a some_tokens e = rw e refl

  reads_filter :
      (n : ℕ) (e : Filter) (rest : List Token)
      → IsEnd rest
      → size e < n
      → or_over texts n (expr_not texts n) (tokens_onto e rest) ≡ gives (tree_of e) rest
  unfolding tokens_onto tree_of size at_kind
  reads_filter zero e rest end short = absurd (omega (arith, short))
  reads_filter (suc n) (protocol name) rest end short =
      alone n _ rest _ end (protocol_lem n name rest end)
  reads_filter (suc n) (host address) rest end short =
      alone n _ rest _ end (host_lem n address rest)
  reads_filter (suc zero) (both l r) rest end short = absurd (omega (arith, short))
  reads_filter (suc zero) (either l r) rest end short = absurd (omega (arith, short))
  reads_filter (suc zero) (opposite e) rest end short = absurd (omega (arith, short))
  reads_filter (suc (suc n)) (both l r) rest end short =
      both_lem n rest (tree_of l) (tree_of r) _ _ end
        (reads_group (suc n) l _
          (λ after stop. reads_filter (suc n) l after stop (omega (arith, short))) refl refl)
        (reads_group (suc n) r rest
          (λ after stop. reads_filter (suc n) r after stop (omega (arith, short)))
          (ends_kind "REL_OP" rest end refl) (ends_kind "MATH_OP" rest end refl))
  reads_filter (suc (suc n)) (either l r) rest end short =
      either_lem n rest (tree_of l) (tree_of r) _ _ end
        (reads_group (suc n) l _
          (λ after stop. reads_filter (suc n) l after stop (omega (arith, short))) refl refl)
        (reads_group (suc n) r rest
          (λ after stop. reads_filter (suc n) r after stop (omega (arith, short)))
          (ends_kind "REL_OP" rest end refl) (ends_kind "MATH_OP" rest end refl))
  reads_filter (suc (suc n)) (opposite e) rest end short = alone (suc n) _ rest _ end (
      not_lem (suc n) _ rest (tree_of e) (
        reads_group n e rest (λ after stop. reads_filter n e after stop (omega (arith, short)))
          (ends_kind "REL_OP" rest end refl) (ends_kind "MATH_OP" rest end refl)))

  -- The tokens of a filter over protocol names and IPv4 hosts, with the operands of the connectives in
  -- parentheses, are parsed to the filter's tree.
  pub parse-tokens_onto : (e : Filter) → parse texts (tokens_onto e []) ≡ some (ok (tree_of e))
  parse-tokens_onto e =
      let ts = tokens_onto e [] in
      let le : size e ≤ length ts = omega (arith, size-length e []) in
      parse_from ts (tree_of e) (omega (arith, le, size_pos e))
        (reads_filter (suc (length ts)) e [] tt (omega (arith, le)))
