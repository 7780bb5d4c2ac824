-- ===== src/LightBpf/Compiler/Sound/Expressions.antt =====
-- LightBPF/CompilerSet/Compiler.py: the values that the code of an expression leaves in A.
use Prim.Native.String.{String}
use light_packet.Base.{
  ℕ, Bool, true, false, ◌||◌, ◌&&◌, Option, none, some, List, [], ◌∷◌, ◌==◌, if◌then◌else◌, ◌≡◌, ap,
}
use light_packet.Base.Text.{text_eqb}
use light_packet.Base.Exceptions.{Exception, not_implemented_error, value_error}
use light_packet.LightBpf.Ast.{
  Node, binary_op, unary_op, protocol_node, keyword_filter, byte_access, length_node, number,
  literal, field_node,
}
use light_packet.LightBpf.Emulator.{State}
use light_packet.LightBpf.Compiler.Code.{Label, plain, Compiler, Code, emit, fail, ◌▸◌, reading}
use light_packet.LightBpf.Compiler.Platform.{Platform}
use light_packet.LightBpf.Compiler.Tables.{lookup}
use light_packet.LightBpf.Compiler.Values.{
  offset_val, compile_byte_access, alu_ops, alu_k, number_of, compile_arithmetic, compile_value,
  is_ip4_name, is_ip6_name, is_zero,
}
use light_packet.LightBpf.Compiler.Scoped.Values.{Every}
use light_packet.LightBpf.Compiler.Symbolic.{Exit}
use light_packet.LightBpf.Compiler.Answers.{Reading, bind_reading}
use light_packet.LightBpf.Compiler.Meaning.{
  access_reading, operation, arithmetic_reading, value_meaning,
}
use light_packet.LightBpf.Compiler.Sound.{Meets}
use light_packet.LightBpf.Compiler.Sound.Readings.{Reads, Yields}
use light_packet.LightBpf.Compiler.Sound.Loads.{
  IsOperation, alu_ops-IsOperation, arithmetic-Yields, network-Yields, link-Yields, number-Yields,
  length-Yields,
}

-- The meaning of an expression is what its code leaves in A, where it has one.
abbrev pub HasReading : Option (List ℕ → Reading) → (Label → Code) → Type 0
HasReading none v = Unit
HasReading (some m) v = (packet : List ℕ) → Yields packet (m packet) v

HasReading-if :
    (b : Bool) (m m' : Option (List ℕ → Reading)) (v v' : Label → Code)
    → HasReading m v
    → HasReading m' v'
    → HasReading (if b then m else m') (λ f. if b then v f else v' f)
HasReading-if true m m' v v' p q = p
HasReading-if false m m' v v' p q = q

pub on_link :
    (b : Bool) (leads : State → Exit → Type 0) (packet : List ℕ) (c : Compiler) (p q : Code)
    → b ≡ true
    → Meets packet leads c (p c)
    → Meets packet leads c ((if b then p else q) c)
on_link b leads packet c p q e h = rw e h

on_link-Yields :
    (packet : List ℕ) (r : Reading) (v w : Label → Code)
    → Yields packet r v
    → Yields packet r (λ f. reading λ c. if c.linktype == 1 then v f else w f)
unfolding reading
on_link-Yields packet r v w h = record {
  yields = λ c f eth old.
      on_link (c.linktype == 1) (Reads r f) packet c (v f) (w f) (ap (λ n. n == 1) eth.linktype)
        (h.yields c f eth old);
}

on_link-HasReading :
    (m : Option (List ℕ → Reading)) (v w : Label → Code)
    → HasReading m v
    → HasReading m (λ f. reading λ c. if c.linktype == 1 then v f else w f)
on_link-HasReading none v w h = tt
on_link-HasReading (some m) v w h = λ packet. on_link-Yields packet (m packet) v w (h packet)

access-HasReading :
    (proto : String) (off size : ℕ) (offset : Label → Code)
    → HasReading
        (access_reading proto off size)
        (λ f. compile_byte_access proto (some off) size (offset f) f)
unfolding access_reading compile_byte_access
access-HasReading proto off size offset = on_link-HasReading _ _ _ (
    HasReading-if (text_eqb proto "ether" || text_eqb proto "link") _ _ _ _
      (λ packet. link-Yields packet size off offset)
      (HasReading-if (is_ip4_name proto) _ _ _ _
        (λ packet. network-Yields packet 0x0800 size off offset)
        (HasReading-if (is_ip6_name proto) _ none _ _
          (λ packet. network-Yields packet 0x86dd size off offset) tt)))

offset-HasReading :
    (proto : String) (known : Option ℕ) (size : ℕ) (offset : Label → Code)
    → HasReading
        (elim known [ none ↦ none | some off ↦ access_reading proto off size ])
        (λ f. compile_byte_access proto known size (offset f) f)
offset-HasReading proto none size offset = tt
offset-HasReading proto (some off) size offset = access-HasReading proto off size offset

-- Code that is refused by a test.
refused-Yields :
    (b : Bool) (e : Exception) (packet : List ℕ) (r : Reading) (v : Label → Code)
    → Yields packet r v
    → Yields packet r (λ f. if b then fail e else v f)
unfolding fail
refused-Yields true e packet r v h = record { yields = λ c f eth old. tt }
refused-Yields false e packet r v h = h

operation-HasReading :
    (found : Option ℕ) (division : Bool) (n : ℕ) (m : List ℕ → Reading) (left right : Label → Code)
    → Every IsOperation found
    → HasReading (some m) left
    → HasReading
        (elim found [
          | none ↦ none
          | some code ↦ some (λ packet. bind_reading (operation code n) (m packet))
        ])
        (λ f. elim found [
          | none ↦ fail not_implemented_error
          | some op_code ↦
              if division && is_zero (some n)
              then fail value_error
              else (left f ▸ emit (plain (alu_k op_code) n ∷ []))
        ])
operation-HasReading none division n m left right is h = tt
operation-HasReading (some code) division n m left right is h = λ packet.
    refused-Yields (division && is_zero (some n)) value_error packet
      (bind_reading (operation code n) (m packet)) (λ f. left f ▸ emit (plain (alu_k code) n ∷ []))
      (arithmetic-Yields packet code n (m packet) left is (h packet))

arithmetic-HasReading :
    (op : String) (constant : Option ℕ) (m : Option (List ℕ → Reading)) (left right : Label → Code)
    → HasReading m left
    → HasReading
        (arithmetic_reading op constant m)
        (λ f. compile_arithmetic op constant (left f) (right f))
unfolding arithmetic_reading compile_arithmetic
arithmetic-HasReading op none m left right h = tt
arithmetic-HasReading op (some n) none left right h = tt
arithmetic-HasReading op (some n) (some m) left right h =
    operation-HasReading (lookup op alu_ops) (text_eqb op "/" || text_eqb op "%") n m left right
      (alu_ops-IsOperation op) h

pub value-HasReading :
    (platform : Platform) (node : Node)
    → HasReading (value_meaning node) (λ f. compile_value platform node (some f))
unfolding value_meaning compile_value offset_val
value-HasReading platform (number n) = λ packet. number-Yields packet n
value-HasReading platform length_node = λ packet. length-Yields packet
value-HasReading platform (binary_op left op right) =
    arithmetic-HasReading op (number_of right) (value_meaning left) _ _
      (value-HasReading platform left)
value-HasReading platform (byte_access proto offset size) =
    offset-HasReading proto (offset_val offset) size (λ f. compile_value platform offset (some f))
value-HasReading platform (unary_op op expr) = tt
value-HasReading platform (protocol_node name num) = tt
value-HasReading platform (keyword_filter node) = tt
value-HasReading platform (literal v kind) = tt
value-HasReading platform (field_node name) = tt
