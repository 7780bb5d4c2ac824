-- ===== src/LightBpf/Parser/Tests.antt =====
-- Token lists parsed, and the theorems on the parser at concrete inputs.
use Prim.Native.String.{String}
use light_packet.Base.{ℕ, none, some, List, [], ◌∷◌, ◌≡◌, refl, if◌then◌else◌}
use light_packet.Base.Text.{text_eqb}
use light_packet.Base.Exceptions.{Result, ok, raise, value_error}
use light_packet.LightBpf.Ast.{
  Node, binary_op, unary_op, byte_access, number, protocol_node, keyword_filter, int_value,
  src_or_dst,
}
use light_packet.LightBpf.Parser.{
  Token, Texts, ◌▹◌, lift, is_one_of, at_kind, at_token, consume_kind, consume, addr_type,
}
use light_packet.LightBpf.Parser.Arithmetic.{
  operator_at, level_loop, level, bitor_over, size_of, parse_byte_access, literal_at, atom_at,
  expr_atom, expr_bitor, expr_relation,
}
use light_packet.LightBpf.Parser.Qualifiers.{
  joiner_at, take_direction, parse_port, parse_keyword_value, parse_keyword, parse_qualifier_rule,
  value_follows,
}
use light_packet.LightBpf.Parser.Logical.{
  starts_qualifier_rule, or_retry, primary_at, or_over, expr_not, expr_or, all_read, parse,
}
use light_packet.LightBpf.Parser.Total.Rules.{parse_total}
use light_packet.LightBpf.Parser.Written.{
  protocol, host, both, either, opposite, Filter, tokens_onto, tree_of,
}
use light_packet.LightBpf.Parser.RoundTrip.{parse-tokens_onto}

abbrev digits : String → Result ℕ
digits s =
    if text_eqb s "0"
    then ok 0
    else if text_eqb s "5"
    then ok 5
    else if text_eqb s "15"
    then ok 15
    else if text_eqb s "80"
    then ok 80
    else raise value_error

abbrev sample_texts : Texts
sample_texts = record { int_of_text = digits; range_of_text = λ s. raise value_error }

abbrev token : String → String → Token
token kind v = record { kind = kind; value = v }

-- `(ip[0] & 15) > 5 or not ip and tcp port 80`.
abbrev sample_tokens : List Token
sample_tokens =
    token "SYMBOL" "("
    ∷ token "IP-PROTOCOL" "ip"
    ∷ token "SYMBOL" "["
    ∷ token "NUMBER" "0"
    ∷ token "SYMBOL" "]"
    ∷ token "MATH_OP" "&"
    ∷ token "NUMBER" "15"
    ∷ token "SYMBOL" ")"
    ∷ token "REL_OP" ">"
    ∷ token "NUMBER" "5"
    ∷ token "LOGICAL" "or"
    ∷ token "LOGICAL" "not"
    ∷ token "IP-PROTOCOL" "ip"
    ∷ token "LOGICAL" "and"
    ∷ token "IP-PROTOCOL" "tcp"
    ∷ token "KEYWORD" "port"
    ∷ token "NUMBER" "80"
    ∷ []

abbrev sample_ast : Node
sample_ast =
    binary_op (binary_op (binary_op (byte_access "ip" (number 0) 1) "&" (number 15)) ">" (number 5))
      "or"
      (binary_op (unary_op "not" (protocol_node "ip" none)) "and" (
        keyword_filter (record {
          keyword = "port";
          value = int_value 80;
          direction = src_or_dst;
          protocol = some "tcp";
          value_type = "number";
          mask = none;
        })))

parsed : parse sample_texts sample_tokens ≡ some (ok sample_ast)
unfolding parse all_read expr_or expr_not or_over primary_at or_retry starts_qualifier_rule
    parse_qualifier_rule parse_keyword parse_keyword_value parse_port take_direction joiner_at
    value_follows expr_relation expr_bitor expr_atom atom_at literal_at parse_byte_access size_of
    bitor_over level level_loop operator_at addr_type consume consume_kind at_token at_kind
    is_one_of lift ◌▹◌
parsed = refl

parse_total_example : (out : Result Node) × (parse sample_texts sample_tokens ≡ some out)
parse_total_example = parse_total sample_texts sample_tokens

-- `(ip) and (not ((host 10.0.0.1) or (arp)))`.
abbrev sample_filter : Filter
sample_filter = both (protocol "ip") (opposite (either (host "10.0.0.1") (protocol "arp")))

parse-tokens_onto_example :
    parse sample_texts (tokens_onto sample_filter []) ≡ some (ok (tree_of sample_filter))
parse-tokens_onto_example = parse-tokens_onto sample_texts sample_filter
