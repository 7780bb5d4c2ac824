-- ===== src/LightBpf/Ast.antt =====
-- LightBPF/Parser.py: the syntax trees that the parser makes and the compiler reads. Protocol names
-- are in lower case, as the compiler first makes them.
use Prim.Native.String.{String}
use light_packet.Base.{ℕ, Option}

-- The values that a keyword filter carries: an int, a str, a pair of ints, or None.
pub data Value : Type 0 where
  int_value : ℕ → Value
  str_value : String → Value
  range_value : ℕ → ℕ → Value
  no_value : Value

-- `direction`; any other string, and None, mean either direction.
pub data Direction : Type 0 where
  src dst src_and_dst src_or_dst : Direction

-- `KeywordFilterNode`.
pub record KeywordFilter : Type 0 where
  pub keyword : String
  pub value : Value
  pub direction : Direction
  pub protocol : Option String
  pub value_type : String
  pub mask : Option String

-- The classes of nodes.
pub data Node : Type 0 where
  binary_op : Node → String → Node → Node
  unary_op : String → Node → Node
  protocol_node : String → Option ℕ → Node
  keyword_filter : KeywordFilter → Node
  byte_access : String → Node → ℕ → Node
  length_node : Node
  number : ℕ → Node
  literal : String → String → Node
  field_node : String → Node
