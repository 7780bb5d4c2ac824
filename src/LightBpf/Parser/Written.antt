-- ===== src/LightBpf/Parser/Written.antt =====
-- Filters written as tokens, and what LightBPF/Parser.py does at their ends.
use Prim.Native.String.{String}
use light_packet.Base.{
  ℕ, suc, ◌+◌, ◌≤◌, ◌<◌, none, some, List, [], ◌∷◌, length, ◌≡◌, refl, ◌∙◌, arith,
}
use light_packet.Base.Exceptions.{ok}
use light_packet.LightBpf.Ast.{
  Node, binary_op, unary_op, protocol_node, keyword_filter, str_value, src_or_dst,
}
use light_packet.LightBpf.Parser.{Token, Parsed, Parser, ◌▹◌, is_one_of}
use light_packet.LightBpf.Parser.Arithmetic.{operator_at, level_loop, level}

-- Filters over protocol names and IPv4 hosts.
pub data Filter : Type 0 where
  protocol host : String → Filter
  both either : Filter → Filter → Filter
  opposite : Filter → Filter

abbrev pub token : String → String → Token
token kind v = record { kind = kind; value = v }

abbrev pub opening : Token
opening = token "SYMBOL" "("

abbrev pub closing : Token
closing = token "SYMBOL" ")"

-- The tokens of a filter, before others.
unfoldable pub tokens_onto : Filter → List Token → List Token
tokens_onto (protocol name) rest = token "IP-PROTOCOL" name ∷ rest
tokens_onto (host address) rest = token "KEYWORD" "host" ∷ token "IPV4" address ∷ rest
tokens_onto (both l r) rest =
    opening
    ∷ tokens_onto l (closing ∷ token "LOGICAL" "and" ∷ opening ∷ tokens_onto r (closing ∷ rest))
tokens_onto (either l r) rest =
    opening
    ∷ tokens_onto l (closing ∷ token "LOGICAL" "or" ∷ opening ∷ tokens_onto r (closing ∷ rest))
tokens_onto (opposite e) rest = token "LOGICAL" "not" ∷ opening ∷ tokens_onto e (closing ∷ rest)

-- Its tree.
unfoldable pub tree_of : Filter → Node
tree_of (protocol name) = protocol_node name none
tree_of (host address) = keyword_filter (record {
  keyword = "host";
  value = str_value address;
  direction = src_or_dst;
  protocol = none;
  value_type = "ipv4";
  mask = none;
})
tree_of (both l r) = binary_op (tree_of l) "and" (tree_of r)
tree_of (either l r) = binary_op (tree_of l) "or" (tree_of r)
tree_of (opposite e) = unary_op "not" (tree_of e)

unfoldable pub size : Filter → ℕ
size (protocol name) = 1
size (host address) = 1
size (both l r) = suc (size l + size r)
size (either l r) = suc (size l + size r)
size (opposite e) = suc (suc (size e))

pub size_pos : (e : Filter) → 0 < size e
unfolding size
size_pos (protocol name) = omega arith
size_pos (host address) = omega arith
size_pos (both l r) = omega arith
size_pos (either l r) = omega arith
size_pos (opposite e) = omega arith

pub size-length :
    (e : Filter) (rest : List Token) → size e + length rest ≤ length (tokens_onto e rest)
unfolding size tokens_onto
size-length (protocol name) rest = omega arith
size-length (host address) rest = omega arith
size-length (both l r) rest =
    let more = closing ∷ token "LOGICAL" "and" ∷ opening ∷ tokens_onto r (closing ∷ rest) in
    let hl : size l + length more ≤ length (tokens_onto l more) = size-length l more in
    let hr : size r + length (closing ∷ rest) ≤ length (tokens_onto r (closing ∷ rest)) =
      size-length r (closing ∷ rest) in
    omega (arith, hl, hr)
size-length (either l r) rest =
    let more = closing ∷ token "LOGICAL" "or" ∷ opening ∷ tokens_onto r (closing ∷ rest) in
    let hl : size l + length more ≤ length (tokens_onto l more) = size-length l more in
    let hr : size r + length (closing ∷ rest) ≤ length (tokens_onto r (closing ∷ rest)) =
      size-length r (closing ∷ rest) in
    omega (arith, hl, hr)
size-length (opposite e) rest =
    let h : size e + length (closing ∷ rest) ≤ length (tokens_onto e (closing ∷ rest)) =
      size-length e (closing ∷ rest) in
    omega (arith, h)

-- The end of a group, or of the filter.
abbrev pub IsEnd : List Token → Type 0
IsEnd [] = Unit
IsEnd (t ∷ ts) = t ≡ closing

abbrev pub gives : Node → List Token → Parsed Node
gives e rest = some (ok (e, rest))

pub no_operator :
    (op : String) (rest : List Token) → IsEnd rest → operator_at "LOGICAL" (op ∷ []) rest ≡ none
unfolding operator_at is_one_of
no_operator op [] h = refl
no_operator op (t ∷ ts) h = rw h refl

module _ (n : ℕ) (kind : String) (ops : List String) (sub : Parser Node) (left : Node)
    (ts : List Token) where
  pub loop-none :
      operator_at kind ops ts ≡ none → level_loop (suc n) kind ops sub left ts ≡ gives left ts
  unfolding level_loop
  loop-none e = rw (e, level_loop) refl

  pub loop-some :
      (op : String) (behind : List Token)
      → operator_at kind ops ts ≡ some (op, behind)
      → level_loop (suc n) kind ops sub left ts
        ≡ (sub ▹ λ right. level_loop n kind ops sub (binary_op left op right)) behind
  unfolding level_loop
  loop-some op behind e = rw (e, level_loop) refl

-- A level without an operator, and with one.
pub level-alone :
    (n : ℕ) (kind : String) (ops : List String) (sub : Parser Node) (ts rest : List Token)
    (a : Node)
    → sub ts ≡ gives a rest
    → operator_at kind ops rest ≡ none
    → level (suc n) kind ops sub ts ≡ gives a rest
unfolding level ◌▹◌
level-alone n kind ops sub ts rest a e out = rw e (loop-none n kind ops sub a rest out)

pub level-pair :
    (n : ℕ) (kind : String) (ops : List String) (sub : Parser Node)
    (ts mid behind rest : List Token) (a b : Node) (op : String)
    → sub ts ≡ gives a mid
    → operator_at kind ops mid ≡ some (op, behind)
    → sub behind ≡ gives b rest
    → operator_at kind ops rest ≡ none
    → level (suc (suc n)) kind ops sub ts ≡ gives (binary_op a op b) rest
unfolding level ◌▹◌
level-pair n kind ops sub ts mid behind rest a b op e1 here e2 out = rw e1 (
    loop-some (suc n) kind ops sub a mid op behind here
    ∙ rw e2 (loop-none n kind ops sub (binary_op a op b) rest out))
