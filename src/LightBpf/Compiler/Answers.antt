-- ===== src/LightBpf/Compiler/Answers.antt =====
-- Answers for a packet, and values read from it, by which the filters of
-- LightBPF/CompilerSet/Compiler.py have a meaning.
use light_packet.Base.{
  ℕ, ◌+◌, ◌^◌, ◌%◌, bit_and, Bool, true, false, not, Option, none, some, List, ◌==◌, if◌then◌else◌,
}
use light_packet.LightBpf.Ast.{Direction, src, dst, src_and_dst, src_or_dst}
use light_packet.LightBpf.Emulator.Fields.{field_at}
use light_packet.LightBpf.Compiler.Platform.{Words}

-- A filter's answer on a packet; `none` is that the packet is too short for a field, at which the whole
-- program returns 0.
unfoldable pub and_then : Option Bool → Option Bool → Option Bool
and_then none right = none
and_then (some true) right = right
and_then (some false) right = some false

unfoldable pub or_else : Option Bool → Option Bool → Option Bool
or_else none right = none
or_else (some true) right = some true
or_else (some false) right = right

unfoldable pub negated : Option Bool → Option Bool
negated none = none
negated (some b) = some (not b)

-- What reading a value comes to: the packet is too short for it, another protocol's packet has no such
-- value, or the value.
pub data Reading : Type 0 where
  short elsewhere : Reading
  value : ℕ → Reading

-- The field of `size` bytes at `off`.
unfoldable pub field_reading : List ℕ → ℕ → ℕ → Reading
field_reading packet off size = elim (field_at packet off size) [ none ↦ short | some w ↦ value w ]

-- The test of the Ethernet type.
unfoldable pub guard_reading : List ℕ → ℕ → Reading
guard_reading packet e = elim (field_at packet 12 2) [
  | none ↦ short
  | some w ↦ if w == e then value w else elsewhere
]

-- What is computed of a value that is read.
unfoldable pub bind_reading : (ℕ → Reading) → Reading → Reading
bind_reading g short = short
bind_reading g elsewhere = elsewhere
bind_reading g (value w) = g w

-- A filter's answer by a value that is read; it rejects the packets of another protocol.
unfoldable pub bind_answer : (ℕ → Option Bool) → Reading → Option Bool
bind_answer g short = none
bind_answer g elsewhere = some false
bind_answer g (value w) = g w

-- A field that must have a value, or a value under a mask.
unfoldable pub test_field : ℕ → ℕ → ℕ → List ℕ → Option Bool
test_field off size v packet = bind_answer (λ w. some (w == v)) (field_reading packet off size)

-- The answers for a source and for a destination, by direction; where both count, in the order in
-- which they are looked at.
unfoldable pub toward :
    Option Bool → Option Bool → Option Bool → Option Bool → Direction → Option Bool
toward source destination first second src = source
toward source destination first second dst = destination
toward source destination first second src_and_dst = and_then first second
toward source destination first second src_or_dst = or_else first second

unfoldable pub ipv4_answer : ℕ → Direction → List ℕ → Option Bool
ipv4_answer ip direction packet =
    let s = test_field 26 4 ip packet in
    let d = test_field 30 4 ip packet in
    bind_answer (λ e. toward s d s d direction) (guard_reading packet 0x0800)

unfoldable pub words_at : Words → ℕ → List ℕ → Option Bool
words_at words off packet = and_then (test_field off 4 words.w0 packet) (
    and_then (test_field (off + 4) 4 words.w1 packet)
      (and_then (test_field (off + 8) 4 words.w2 packet) (test_field (off + 12) 4 words.w3 packet)))

unfoldable pub ipv6_answer : Words → Direction → List ℕ → Option Bool
ipv6_answer words direction packet =
    let s = words_at words 22 packet in
    let d = words_at words 38 packet in
    bind_answer (λ e. toward s d s d direction) (guard_reading packet 0x86dd)

unfoldable pub mac_at : ℕ × ℕ → ℕ → List ℕ → Option Bool
mac_at mac off packet =
    and_then (test_field off 4 mac.0 packet) (test_field (off + 4) 2 mac.1 packet)

unfoldable pub mac_answer : ℕ × ℕ → Direction → List ℕ → Option Bool
mac_answer mac direction packet =
    let s = mac_at mac 6 packet in let d = mac_at mac 0 packet in toward s d d s direction

-- The field under the network's mask.
abbrev pub masked : ℕ → ℕ → ℕ
masked mask w = if mask == 0xffffffff then w else bit_and w mask % 2 ^ 32

unfoldable pub network_at : ℕ × ℕ → ℕ → List ℕ → Option Bool
network_at net off packet =
    bind_answer (λ w. some (masked net.1 w == net.0)) (field_reading packet off 4)

unfoldable pub network_answer : ℕ × ℕ → Direction → List ℕ → Option Bool
network_answer net direction packet =
    let s = network_at net 26 packet in
    let d = network_at net 30 packet in
    bind_answer (λ e. toward s d s d direction) (guard_reading packet 0x0800)
