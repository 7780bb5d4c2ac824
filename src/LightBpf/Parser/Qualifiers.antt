-- ===== src/LightBpf/Parser/Qualifiers.antt =====
-- LightBPF/Parser.py: `_parse_qualifier_rule` and `_parse_keyword_value`.
use Prim.Native.String.{String}
use light_packet.Base.{
  Bool, false, not, ◌&&◌, ◌||◌, Option, none, some, List, [], ◌∷◌, ltb, if◌then◌else◌,
}
use light_packet.Base.Text.{text_eqb}
use light_packet.LightBpf.Ast.{
  Node, protocol_node, keyword_filter, Value, int_value, str_value, range_value, no_value,
  Direction, src, dst, src_and_dst, src_or_dst,
}
use light_packet.LightBpf.Parser.{
  Token, Texts, Parser, done, fails, ◌▹◌, lift, is_one_of, has, at_kind, at_token, consume_kind,
  consume, is_protocol_kind, addr_type,
}

-- A filter node. No direction means either; a value type or a mask that is None is no text.
abbrev filter_node :
    String → Value → Option Direction → Option String → String → Option String → Node
filter_node keyword value direction protocol value_type mask = keyword_filter (record {
  keyword = keyword;
  value = value;
  direction = elim direction [ none ↦ src_or_dst | some d ↦ d ];
  protocol = protocol;
  value_type = value_type;
  mask = mask;
})

-- `_value_follows`.
unfoldable pub value_follows : List Token → Bool
value_follows [] = false
value_follows (t ∷ ts) =
    is_one_of t.kind
      ("IPV4" ∷ "IPV6" ∷ "MAC" ∷ "IPV4_CIDR" ∷ "IPV6_CIDR" ∷ "NUMBER" ∷ "IDENTIFIER" ∷ [])

abbrev is_src_or_dst : String → Bool
is_src_or_dst v = is_one_of v ("src" ∷ "dst" ∷ [])

-- The joiner of `src or dst` and `src and dst`, where both and a keyword follow.
unfoldable pub joiner_at : String → List Token → Option (String × List Token)
joiner_at direction (j ∷ d ∷ k ∷ ts) =
    if (text_eqb j.kind "LOGICAL" && is_one_of j.value ("or" ∷ "and" ∷ []))
      && ((text_eqb d.kind "KEYWORD" && (is_src_or_dst d.value && not (text_eqb d.value direction)))
          && (text_eqb k.kind "KEYWORD" && not (is_src_or_dst k.value)))
    then some (j.value, k ∷ ts)
    else none
joiner_at direction _ = none

-- The direction, if one stands there.
unfoldable pub take_direction : Parser (Option Direction)
take_direction [] = done none []
take_direction (t ∷ ts) =
    if has t "KEYWORD" "src" || has t "KEYWORD" "dst"
    then (elim (joiner_at t.value ts) [
      | some (joiner, rest) ↦
          done (some (if text_eqb joiner "or" then src_or_dst else src_and_dst)) rest
      | none ↦ done (some (if text_eqb t.value "src" then src else dst)) ts
    ])
    else done none (t ∷ ts)

module _ (texts : Texts) (keyword : String) (protocol : Option String)
    (direction : Option Direction) where
  -- `net X mask Y`.
  unfoldable pub with_mask : String → String → Parser Node
  with_mask v value_type ts =
      if text_eqb keyword "net" && at_token "KEYWORD" "mask" ts
      then (consume "KEYWORD" "mask" ▹ λ word. consume_kind "IPV4" ▹ λ m.
            done (filter_node keyword (str_value v) direction protocol value_type (some m.value)))
          ts
      else done (filter_node keyword (str_value v) direction protocol value_type none) ts

  unfoldable pub parse_address : Parser Node
  parse_address [] = fails []
  parse_address (t ∷ ts) = elim (addr_type t.kind) [
    | some kind ↦ with_mask t.value kind ts
    | none ↦
        if text_eqb t.kind "NUMBER" && text_eqb keyword "net"
        then done (filter_node keyword (str_value t.value) direction protocol "number" none) ts
        else if text_eqb t.kind "IDENTIFIER"
        then done (filter_node keyword (str_value t.value) direction protocol "name" none) ts
        else fails ts
  ]

  unfoldable pub parse_port : Parser Node
  parse_port [] = fails []
  parse_port (t ∷ ts) =
      if text_eqb t.kind "NUMBER"
      then (lift (texts.int_of_text t.value) ▹ λ n.
            done (filter_node keyword (int_value n) direction protocol "number" none))
          ts
      else if is_one_of t.kind ("IDENTIFIER" ∷ "IP-PROTOCOL" ∷ [])
      then done (filter_node keyword (str_value t.value) direction protocol "name" none) ts
      else fails ts

  unfoldable pub parse_portrange : Parser Node
  parse_portrange = consume_kind "RANGE" ▹ λ t. lift (texts.range_of_text t.value) ▹ λ ends.
      if ltb ends.1 ends.0
      then fails
      else done (filter_node keyword (range_value ends.0 ends.1) direction protocol "range" none)

  unfoldable pub parse_tag : Parser Node
  parse_tag ts =
      if at_kind "NUMBER" ts
      then (consume_kind "NUMBER" ▹ λ t. lift (texts.int_of_text t.value) ▹ λ n.
            done (filter_node keyword (int_value n) direction protocol "number" none))
          ts
      else done (filter_node keyword no_value direction protocol "" none) ts

  unfoldable pub parse_proto : Parser Node
  parse_proto [] = fails []
  parse_proto (t ∷ ts) =
      if is_one_of t.kind ("NUMBER" ∷ "IP-PROTOCOL" ∷ "ETHERTYPE" ∷ "IDENTIFIER" ∷ [])
      then done
          (filter_node keyword (str_value t.value) direction protocol
            (if text_eqb t.kind "NUMBER" then "number" else "name") none)
          ts
      else fails ts

  -- `_parse_keyword_value`.
  unfoldable pub parse_keyword_value : Parser Node
  parse_keyword_value ts =
      if is_one_of keyword ("broadcast" ∷ "multicast" ∷ "inbound" ∷ "outbound" ∷ "gateway" ∷ [])
        && not (value_follows ts)
      then done (filter_node keyword no_value direction protocol "" none) ts
      else if is_one_of keyword ("less" ∷ "greater" ∷ [])
      then (consume_kind "NUMBER" ▹ λ t. lift (texts.int_of_text t.value) ▹ λ n.
            done (filter_node keyword (int_value n) direction protocol "number" none))
          ts
      else if is_one_of keyword ("proto" ∷ "protochain" ∷ [])
      then parse_proto ts
      else if is_one_of keyword ("vlan" ∷ "mpls" ∷ [])
      then parse_tag ts
      else if text_eqb keyword "portrange"
      then parse_portrange ts
      else if text_eqb keyword "port"
      then parse_port ts
      else if is_one_of keyword ("host" ∷ "net" ∷ "gateway" ∷ [])
      then parse_address ts
      else fails ts

module _ (texts : Texts) where
  -- The keyword behind a protocol and a direction.
  unfoldable pub parse_keyword : Option String → Option Direction → Parser Node
  parse_keyword protocol direction ts =
      if at_kind "KEYWORD" ts
      then (consume_kind "KEYWORD" ▹ λ t. parse_keyword_value texts t.value protocol direction) ts
      else elim protocol [
        | none ↦ fails ts
        | some name ↦ elim direction [
          | none ↦ done (protocol_node name none) ts
          | some d ↦ fails ts
        ]
      ]

  -- `_parse_qualifier_rule`.
  unfoldable pub parse_qualifier_rule : Parser Node
  parse_qualifier_rule [] = fails []
  parse_qualifier_rule (t ∷ ts) =
      if is_protocol_kind t.kind
      then (if at_kind "KEYWORD" ts
          then (take_direction ▹ λ direction. parse_keyword (some t.value) direction) ts
          else done (protocol_node t.value none) ts)
      else (take_direction ▹ λ direction. parse_keyword none direction) (t ∷ ts)
