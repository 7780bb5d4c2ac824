-- ===== src/LightBpf/Compiler/Correct/Tests.antt =====
-- Meanings of filters, and the theorem on the compiler at concrete inputs.
use light_packet.Base.{
  ℕ, Bool, true, false, not, bit_and, Option, none, some, List, [], ◌∷◌, ◌++◌, replicate, ◌==◌, ◌≡◌,
  refl,
}
use light_packet.Base.Int.{pos, int_and}
use light_packet.Base.Bytes.{unpack_be, unpack_from}
use light_packet.LightBpf.Opcode.{bpf_max_buf_len}
use light_packet.LightBpf.Ast.{Node, src, binary_op, unary_op, byte_access, number, protocol_node}
use light_packet.LightBpf.Emulator.{returned, alu}
use light_packet.LightBpf.Emulator.Fields.{field_at}
use light_packet.LightBpf.Peephole
use light_packet.LightBpf.Simulation.{Executes}
use light_packet.LightBpf.Compiler.Address.{text_of}
use light_packet.LightBpf.Compiler.Boolean.{mask_test}
use light_packet.LightBpf.Compiler.Values.{offset_val}
use light_packet.LightBpf.Compiler.Answers.{
  and_then, or_else, negated, field_reading, guard_reading, bind_reading, bind_answer, toward,
  test_field, ipv4_answer,
}
use light_packet.LightBpf.Compiler.Meaning.{
  host_meaning, keyword_meaning, protocol_meaning, access_reading, operation, arithmetic_reading,
  value_meaning, relation_meaning, comparison_meaning, operator_meaning, meaning,
}
use light_packet.LightBpf.Compiler.Correct.{compile-meaning}
use light_packet.LightBpf.Compiler.Tests.{
  sample_platform, sample_platform-IsKeyErrorFree, sample_tree, sample_code, compiles,
}

-- IPv4 from 10.0.0.1.
abbrev sample_packet : List ℕ
sample_packet = replicate 12 0 ++ (8 ∷ 0 ∷ replicate 12 0 ++ (10 ∷ 0 ∷ 0 ∷ 1 ∷ replicate 30 0))

abbrev sample_answer : List ℕ → Option Bool
sample_answer packet =
    and_then (ipv4_answer 0x0a000001 src packet)
      (negated (bind_answer (λ w. some (not (bit_and w 1 == 0))) (field_reading packet 0 1)))

sample_meaning : meaning sample_platform sample_tree ≡ some sample_answer
unfolding meaning keyword_meaning host_meaning text_of
sample_meaning = refl

-- `ip[0] & 15 > 5 or not ip`: the answers for an IPv4 header without options and with some, for a
-- short frame and for another protocol.
abbrev with_options : Node
with_options =
    binary_op (binary_op (binary_op (byte_access "ip" (number 0) 1) "&" (number 15)) ">" (number 5))
      "or" (unary_op "not" (protocol_node "ip" none))

abbrev frame : ℕ → ℕ → List ℕ
frame e b = replicate 12 0 ++ (e ∷ 0 ∷ b ∷ [])

abbrev answer : Node → List ℕ → Option Bool
answer node packet = elim (meaning sample_platform node) [ none ↦ none | some m ↦ m packet ]

answers :
    (answer with_options (frame 8 0x45) ≡ some false)
    × (answer with_options (frame 8 0x46) ≡ some true)
    × (answer with_options (replicate 13 0) ≡ none)
    × (answer with_options (frame 9 0x45) ≡ some true)
unfolding meaning operator_meaning comparison_meaning mask_test relation_meaning value_meaning
    arithmetic_reading access_reading offset_val operation alu int_and protocol_meaning test_field
    or_else negated bind_answer bind_reading field_reading guard_reading field_at unpack_be
    unpack_from
answers = (refl, refl, refl, refl)

compile-meaning_example :
    Executes (Peephole.optimize sample_code) sample_packet (returned (pos bpf_max_buf_len))
unfolding ipv4_answer and_then negated toward test_field bind_answer field_reading guard_reading
    field_at unpack_be unpack_from
compile-meaning_example =
    compile-meaning sample_platform true sample_tree sample_answer sample_packet
      (Peephole.optimize sample_code) sample_platform-IsKeyErrorFree sample_meaning compiles
