-- ===== src/LightBpf/Parser/Total/Rules.antt =====
-- LightBPF/Parser.py: the qualifier rules and the connectives end, and so does `parse`.
use Prim.Native.String.{String}
use light_packet.Base.{
  ℕ, zero, suc, ◌≤◌, ◌<◌, Bool, true, false, not, ◌&&◌, ◌||◌, Option, none, some, List, [], ◌∷◌,
  length, ltb, if◌then◌else◌, ◌≡◌, refl, sym, arith,
}
use light_packet.Base.Text.{text_eqb}
use light_packet.Base.Exceptions.{Result, ok, raise, syntax_error}
use light_packet.LightBpf.Ast.{Node, Direction}
use light_packet.LightBpf.Parser.{
  Token, Texts, Parsed, Parser, done, ◌▹◌, lift, is_one_of, has, at_kind, at_token, consume_kind,
  consume, is_protocol_kind, addr_type,
}
use light_packet.LightBpf.Parser.Qualifiers.{
  joiner_at, take_direction, with_mask, parse_address, parse_port, parse_portrange, parse_tag,
  parse_proto, parse_keyword_value, parse_keyword, parse_qualifier_rule, value_follows,
}
use light_packet.LightBpf.Parser.Logical.{
  or_retry, primary_at, or_over, expr_not, expr_or, all_read, parse, is_syntax_error,
  starts_qualifier_rule,
}
use light_packet.LightBpf.Parser.Ends.{
  Ends, Reads, Ends-mono, Ends-if, Ends-▹, Ends-choice, lift-▹-Ends, consume_kind-Ends,
  consume-Ends, closed-Ends, level-Reads,
}
use light_packet.LightBpf.Parser.Total.{expr_relation-Reads}

Ends-option :
    {A X : Type 0} (m : ℕ) (found : Option X) (n : Parsed A) (k : X → Parsed A)
    → ((x : X) → found ≡ some x → Ends m (k x))
    → Ends m n
    → Ends m (elim found [ none ↦ n | some x ↦ k x ])
Ends-option m none n k h g = g
Ends-option m (some x) n k h g = h x refl

done-Ends : {A : Type 0} (a : A) (ts : List Token) → Ends (suc (length ts)) (done a ts)
done-Ends a ts = omega arith

if_some : {A : Type 0} (b : Bool) (x y : A) → (if b then some x else none) ≡ some y → x ≡ y
if_some true x y e = cc
if_some false x y e = cc

joiner_at-le :
    (direction : String) (ts : List Token) (found : String × List Token)
    → joiner_at direction ts ≡ some found
    → length (found.1) ≤ length ts
unfolding joiner_at
joiner_at-le direction [] found e = absurd (ground arith)
joiner_at-le direction (j ∷ []) found e = absurd (ground arith)
joiner_at-le direction (j ∷ d ∷ []) found e = absurd (ground arith)
joiner_at-le direction (j ∷ d ∷ k ∷ ts) found e =
    let same : (j.value, k ∷ ts) ≡ found = if_some _ (j.value, k ∷ ts) found e in
    let le : suc (length ts) ≤ suc (suc (suc (length ts))) = omega arith in rw (sym same) le

take_direction-Ends : (ts : List Token) → Ends (suc (length ts)) (take_direction ts)
unfolding take_direction
take_direction-Ends [] = omega arith
take_direction-Ends (t ∷ ts) =
    Ends-if (has t "KEYWORD" "src" || has t "KEYWORD" "dst") (suc (suc (length ts))) _ _
      (Ends-option (suc (suc (length ts))) (joiner_at t.value ts) _ _
        (λ found e. omega (arith, joiner_at-le t.value ts found e)) (omega arith))
      (omega arith)

module _ (texts : Texts) (keyword : String) (protocol : Option String)
    (direction : Option Direction) where
  counted-Ends :
      (k : ℕ → Node) (ts : List Token)
      → Ends
          (suc (length ts))
          ((consume_kind "NUMBER" ▹ λ t. lift (texts.int_of_text t.value) ▹ λ n. done (k n)) ts)
  counted-Ends k ts =
      Ends-▹ (length ts) (suc (length ts)) (consume_kind "NUMBER") _ ts
        (consume_kind-Ends "NUMBER" ts)
        λ t rest less.
          lift-▹-Ends (texts.int_of_text t.value) _ (suc (length ts)) rest
            (λ n. omega (arith, less))

  with_mask-Ends :
      (v kind : String) (ts : List Token)
      → Ends (suc (length ts)) (with_mask texts keyword protocol direction v kind ts)
  unfolding with_mask
  with_mask-Ends v kind ts =
      Ends-if (text_eqb keyword "net" && at_token "KEYWORD" "mask" ts) (suc (length ts)) _ _
        (Ends-▹ (length ts) (suc (length ts)) (consume "KEYWORD" "mask") _ ts
          (consume-Ends "KEYWORD" "mask" ts)
          λ word r1 l1.
            Ends-▹ (length r1) (suc (length ts)) (consume_kind "IPV4") _ r1
              (consume_kind-Ends "IPV4" r1) λ m r2 l2. omega (arith, l1, l2))
        (omega arith)

  parse_address-Ends :
      (ts : List Token) → Ends (suc (length ts)) (parse_address texts keyword protocol direction ts)
  unfolding parse_address
  parse_address-Ends [] = tt
  parse_address-Ends (t ∷ ts) =
      let m = suc (suc (length ts)) in
      Ends-option m (addr_type t.kind) _ _
        (λ kind e. Ends-mono (suc (length ts)) m _ (omega arith) (with_mask-Ends t.value kind ts))
        (Ends-if (text_eqb t.kind "NUMBER" && text_eqb keyword "net") m _ _ (omega arith)
          (Ends-if (text_eqb t.kind "IDENTIFIER") m _ _ (omega arith) tt))

  parse_port-Ends :
      (ts : List Token) → Ends (suc (length ts)) (parse_port texts keyword protocol direction ts)
  unfolding parse_port
  parse_port-Ends [] = tt
  parse_port-Ends (t ∷ ts) =
      let m = suc (suc (length ts)) in
      Ends-if (text_eqb t.kind "NUMBER") m _ _
        (lift-▹-Ends (texts.int_of_text t.value) _ m ts (λ n. omega arith))
        (Ends-if (is_one_of t.kind ("IDENTIFIER" ∷ "IP-PROTOCOL" ∷ [])) m _ _ (omega arith) tt)

  parse_portrange-Ends :
      (ts : List Token)
      → Ends (suc (length ts)) (parse_portrange texts keyword protocol direction ts)
  unfolding parse_portrange
  parse_portrange-Ends ts =
      let m = suc (length ts) in
      Ends-▹ (length ts) m (consume_kind "RANGE") _ ts (consume_kind-Ends "RANGE" ts) λ t rest less.
        lift-▹-Ends (texts.range_of_text t.value) _ m rest
          λ ends. Ends-choice (ltb ends.1 ends.0) m _ _ rest tt (omega (arith, less))

  parse_tag-Ends :
      (ts : List Token) → Ends (suc (length ts)) (parse_tag texts keyword protocol direction ts)
  unfolding parse_tag
  parse_tag-Ends ts =
      let m = suc (length ts) in
      Ends-if (at_kind "NUMBER" ts) m _ _ (counted-Ends _ ts) (omega arith)

  parse_proto-Ends :
      (ts : List Token) → Ends (suc (length ts)) (parse_proto texts keyword protocol direction ts)
  unfolding parse_proto
  parse_proto-Ends [] = tt
  parse_proto-Ends (t ∷ ts) =
      Ends-if (is_one_of t.kind ("NUMBER" ∷ "IP-PROTOCOL" ∷ "ETHERTYPE" ∷ "IDENTIFIER" ∷ []))
        (suc (suc (length ts))) _ _ (omega arith) tt

  keyword_value-Ends :
      (ts : List Token)
      → Ends (suc (length ts)) (parse_keyword_value texts keyword protocol direction ts)
  unfolding parse_keyword_value
  keyword_value-Ends ts =
      let m = suc (length ts) in
      Ends-if
        (is_one_of keyword ("broadcast" ∷ "multicast" ∷ "inbound" ∷ "outbound" ∷ "gateway" ∷ [])
          && not (value_follows ts))
        m _ _ (omega arith)
        (Ends-if (is_one_of keyword ("less" ∷ "greater" ∷ [])) m _ _ (counted-Ends _ ts) (
          Ends-if (is_one_of keyword ("proto" ∷ "protochain" ∷ [])) m _ _ (parse_proto-Ends ts) (
            Ends-if (is_one_of keyword ("vlan" ∷ "mpls" ∷ [])) m _ _ (parse_tag-Ends ts) (
              Ends-if (text_eqb keyword "portrange") m _ _ (parse_portrange-Ends ts) (
                Ends-if (text_eqb keyword "port") m _ _ (parse_port-Ends ts) (
                  Ends-if (is_one_of keyword ("host" ∷ "net" ∷ "gateway" ∷ [])) m _ _
                    (parse_address-Ends ts) tt))))))

module _ (texts : Texts) where
  keyword-Ends :
      (protocol : Option String) (direction : Option Direction) (ts : List Token) (m : ℕ)
      → length ts ≤ m
      → ((name : String) → protocol ≡ some name → length ts < m)
      → Ends m (parse_keyword texts protocol direction ts)
  unfolding parse_keyword
  keyword-Ends protocol direction ts m le named =
      Ends-if (at_kind "KEYWORD" ts) m _ _
        (Ends-▹ (length ts) m (consume_kind "KEYWORD") _ ts (consume_kind-Ends "KEYWORD" ts)
          λ t rest less.
            Ends-mono (suc (length rest)) m _ (omega (arith, less, le))
              (keyword_value-Ends texts t.value protocol direction rest))
        (Ends-option m protocol _ _
          (λ name e. Ends-option m direction _ _ (λ d e'. tt) (named name e)) tt)

  qualifier_rule-Ends : (ts : List Token) → Ends (length ts) (parse_qualifier_rule texts ts)
  unfolding parse_qualifier_rule
  qualifier_rule-Ends [] = tt
  qualifier_rule-Ends (t ∷ ts) =
      let m = suc (length ts) in
      Ends-if (is_protocol_kind t.kind) m _ _
        (Ends-if (at_kind "KEYWORD" ts) m _ _
          (Ends-▹ (suc (length ts)) m take_direction _ ts (take_direction-Ends ts)
            λ direction rest less.
              keyword-Ends (some t.value) direction rest m (omega (arith, less)) (λ name e. less))
          (omega arith))
        (Ends-▹ (suc (suc (length ts))) m take_direction _ (t ∷ ts) (take_direction-Ends (t ∷ ts))
          λ direction rest less.
            keyword-Ends none direction rest m (omega (arith, less)) (λ name e. absurd (cc)))

  retry-Ends : (m : ℕ) (r retry : Parsed Node) → Ends m r → Ends m retry → Ends m (or_retry r retry)
  unfolding or_retry
  retry-Ends m none retry h k = h
  retry-Ends m (some (raise e)) retry h k = Ends-if (is_syntax_error e) m _ _ k tt
  retry-Ends m (some (ok (inner, ts))) retry h k =
      Ends-if (at_kind "REL_OP" ts || at_kind "MATH_OP" ts) m _ _ k h

  primary_at-Ends :
      (n : ℕ) (or_expr : Parser Node) (t : Token) (ts : List Token)
      → Reads n or_expr
      → length ts < n
      → Ends (suc (length ts)) (primary_at texts (suc n) or_expr t ts)
  unfolding primary_at
  primary_at-Ends n or_expr t ts h short =
      let m = suc (length ts) in
      let relation = (expr_relation-Reads texts (suc n)).reads (t ∷ ts) (omega (arith, short)) in
      Ends-if (has t "SYMBOL" "(") m _ _
        (retry-Ends m _ _ (closed-Ends n m or_expr ts ")" h short (omega arith)) relation)
        (Ends-if (starts_qualifier_rule (t ∷ ts)) m _ _ (qualifier_rule-Ends (t ∷ ts)) relation)

  or_over-Reads : (n : ℕ) (p : Parser Node) → Reads n p → Reads n (or_over texts n p)
  unfolding or_over
  or_over-Reads n p h = level-Reads n _ _ _ (level-Reads n _ _ p h)

  next_not-Reads : (n : ℕ) → Reads n (expr_not texts n) → Reads (suc n) (expr_not texts (suc n))
  unfolding expr_not
  next_not-Reads n h = record { reads = at_tokens }
    where
      at_tokens :
          (ts : List Token) → length ts < suc n → Ends (length ts) (expr_not texts (suc n) ts)
      at_tokens [] short = tt
      at_tokens (t ∷ ts) short =
          Ends-if (has t "LOGICAL" "not") (suc (length ts)) _ _
            (Ends-▹ (length ts) (suc (length ts)) (expr_not texts n) _ ts
              (h.reads ts (omega (arith, short))) (λ e rest less. omega (arith, less)))
            (primary_at-Ends n (or_over texts n (expr_not texts n)) t ts
              (or_over-Reads n (expr_not texts n) h) (omega (arith, short)))

  expr_not-Reads : (n : ℕ) → Reads n (expr_not texts n)
  expr_not-Reads zero = record { reads = λ ts short. absurd (omega (arith, short)) }
  expr_not-Reads (suc n) = next_not-Reads n (expr_not-Reads n)

  all_read-total :
      (m : ℕ) (r : Parsed Node) → Ends m r → (out : Result Node) × (all_read texts r ≡ some out)
  unfolding all_read
  all_read-total m none h = elim h [ ]
  all_read-total m (some (raise e)) h = (raise e, refl)
  all_read-total m (some (ok (ast, []))) h = (ok ast, refl)
  all_read-total m (some (ok (ast, t ∷ ts))) h = (raise syntax_error, refl)

  -- For every list of tokens, `parse` gives a tree or an exception: its fuel is enough.
  pub parse_total : (tokens : List Token) → (out : Result Node) × (parse texts tokens ≡ some out)
  unfolding parse expr_or
  parse_total [] = (raise syntax_error, refl)
  parse_total (t ∷ ts) =
      let n = suc (length (t ∷ ts)) in
      all_read-total (length (t ∷ ts)) (expr_or texts n (t ∷ ts))
        ((or_over-Reads n (expr_not texts n) (expr_not-Reads n)).reads (t ∷ ts) (omega arith))
