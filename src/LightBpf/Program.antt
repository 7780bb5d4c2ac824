-- ===== src/LightBpf/Program.antt =====
-- LightBPF/CompilerSet: `to_bytes` of Instruction.py and `to_fprog` of Fprog.py, the two forms in which a
-- program goes to the kernel. The byte order is the machine's.
pub mod Tests
use light_packet.Base.{
  ℕ, suc, ◌+◌, ◌*◌, ◌/◌, ◌%◌, ◌^◌, ◌<◌, Bool, true, false, ◌&&◌, Option, some, List, [], ◌∷◌, ◌++◌,
  map, length, get_elem?, get_elem?-map-some, ltb, ltb→lt, Bool-cases, inl, inr, if◌then◌else◌, ◌≡◌,
  refl, sym, ap, ◌∙◌, arith,
}
use light_packet.Base.Int.{ℤ, pos, negsuc, low_bits, low_bits_32-lt}
use light_packet.Base.Exceptions.{Result, ok, raise, ◌>>=◌, >>=-eq-ok, ok-eq, struct_error}
use light_packet.LightBpf.Instruction.{Instruction}

-- The machine's order of the bytes of a field of two, and of four.
unfoldable pub two_bytes : Bool → ℕ → List ℕ
two_bytes little n = if little then n % 256 ∷ n / 256 ∷ [] else n / 256 ∷ n % 256 ∷ []

unfoldable pub four_bytes : Bool → ℕ → List ℕ
unfolding two_bytes
four_bytes little n =
    if little
    then two_bytes little (n % 2 ^ 16) ++ two_bytes little (n / 2 ^ 16)
    else two_bytes little (n / 2 ^ 16) ++ two_bytes little (n % 2 ^ 16)

-- A field of `struct.pack`: it must be below the bound.
unfoldable pub in_range : ℕ → ℤ → Result ℕ
in_range bound (pos n) = if ltb n bound then ok n else raise struct_error
in_range bound (negsuc n) = raise struct_error

-- `to_bytes`: `struct.pack("HBBI", code, jt, jf, k & 0xFFFFFFFF)`.
unfoldable pub to_bytes : Bool → Instruction → Result (List ℕ)
to_bytes little insn = do
  code ← in_range (2 ^ 16) (pos insn.code)
  jt ← in_range (2 ^ 8) insn.jt
  jf ← in_range (2 ^ 8) insn.jf
  k ← in_range (2 ^ 32) (pos (low_bits 32 insn.k))
  ok (two_bytes little code ++ jt ∷ jf ∷ four_bytes little k)

-- `bpf_insn`; an assignment to a field keeps the low bits.
pub record BpfInsn : Type 0 where
  pub code : ℕ
  pub jt : ℕ
  pub jf : ℕ
  pub k : ℕ

unfoldable pub bpf_insn_of : Instruction → BpfInsn
bpf_insn_of insn = record {
  code = insn.code % 2 ^ 16;
  jt = low_bits 8 insn.jt;
  jf = low_bits 8 insn.jf;
  k = low_bits 32 (pos (low_bits 32 insn.k));
}

-- `sock_fprog`, with the array that `filter` points to.
pub record SockFprog : Type 0 where
  pub len : ℕ
  pub filter : List BpfInsn

unfoldable pub to_fprog : List Instruction → SockFprog
to_fprog instructions = record {
  len = length instructions % 2 ^ 16;
  filter = map bpf_insn_of instructions;
}

-- How the kernel reads an array of instructions of eight bytes each.
unfoldable pub word : Bool → ℕ → ℕ → ℕ
word little a b = if little then b * 256 + a else a * 256 + b

unfoldable pub double_word : Bool → ℕ → ℕ → ℕ
double_word little a b = if little then b * 2 ^ 16 + a else a * 2 ^ 16 + b

-- The instructions of a program, one after another.
unfoldable pub program_bytes : Bool → List Instruction → Result (List ℕ)
program_bytes little [] = ok []
program_bytes little (insn ∷ instructions) = do
  bytes ← to_bytes little insn
  rest ← program_bytes little instructions
  ok (bytes ++ rest)

unfoldable pub read_program : Bool → List ℕ → List BpfInsn
unfolding word double_word
read_program little (a ∷ b ∷ jt ∷ jf ∷ c ∷ d ∷ e ∷ f ∷ bytes) =
    record {
      code = word little a b;
      jt = jt;
      jf = jf;
      k = double_word little (word little c d) (word little e f);
    }
    ∷ read_program little bytes
read_program little _ = []

in_range-pos : (bound m n : ℕ) → in_range bound (pos m) ≡ ok n → (n ≡ m) × (m < bound)
unfolding in_range
in_range-pos bound m n e = elim (Bool-cases (ltb m bound)) [
  | inl less ↦ (sym (ok-eq (rw less at e)), ltb→lt m bound less)
  | inr more ↦ absurd (cc (rw more at e))
]

-- A jump that fits keeps its low bits.
in_range-low_bits : (v : ℤ) (n : ℕ) → in_range (2 ^ 8) v ≡ ok n → n ≡ low_bits 8 v
unfolding low_bits in_range
in_range-low_bits (pos m) n e =
    let (same, less) = in_range-pos (2 ^ 8) m n e in omega (arith, same, less)
in_range-low_bits (negsuc m) n e = absurd (cc)

split_bytes : (n : ℕ) → n / 256 * 256 + n % 256 ≡ n
split_bytes n = omega arith

split_words : (n : ℕ) → n / 2 ^ 16 * 2 ^ 16 + n % 2 ^ 16 ≡ n
split_words n = omega arith

read_program-append :
    (little : Bool) (code jt jf k : ℕ) (bytes : List ℕ)
    → read_program little ((two_bytes little code ++ jt ∷ jf ∷ four_bytes little k) ++ bytes)
      ≡ record { code = code; jt = jt; jf = jf; k = k } ∷ read_program little bytes
unfolding read_program word double_word two_bytes four_bytes
read_program-append true code jt jf k bytes =
    rw (split_bytes code, split_bytes (k / 2 ^ 16), split_bytes (k % 2 ^ 16))
      (rw (split_words k) refl)
read_program-append false code jt jf k bytes =
    rw (split_bytes code, split_bytes (k / 2 ^ 16), split_bytes (k % 2 ^ 16))
      (rw (split_words k) refl)

entry_same :
    (insn : Instruction) (code jt jf k : ℕ)
    → in_range (2 ^ 16) (pos insn.code) ≡ ok code
    → in_range (2 ^ 8) insn.jt ≡ ok jt
    → in_range (2 ^ 8) insn.jf ≡ ok jf
    → in_range (2 ^ 32) (pos (low_bits 32 insn.k)) ≡ ok k
    → record { code = code; jt = jt; jf = jf; k = k } ≡ bpf_insn_of insn
unfolding bpf_insn_of low_bits
entry_same insn code jt jf k c1 c2 c3 c4 =
    let (same_code, less) = in_range-pos (2 ^ 16) insn.code code c1 in
    let (same_k, less_k) = in_range-pos (2 ^ 32) (low_bits 32 insn.k) k c4 in
    let ec : code ≡ insn.code % 2 ^ 16 = omega (arith, same_code, less) in
    let ek : k ≡ low_bits 32 insn.k % 2 ^ 32 = omega (arith, same_k, less_k) in
    rw (ec, in_range-low_bits insn.jt jt c2, in_range-low_bits insn.jf jf c3, ek) refl

insn-to_bytes :
    (little : Bool) (insn : Instruction) (bytes rest : List ℕ)
    → to_bytes little insn ≡ ok bytes
    → read_program little (bytes ++ rest) ≡ bpf_insn_of insn ∷ read_program little rest
unfolding to_bytes
insn-to_bytes little insn bytes rest e =
    let (code, c1, q1) = >>=-eq-ok (in_range (2 ^ 16) (pos insn.code)) _ e in
    let (jt, c2, q2) = >>=-eq-ok (in_range (2 ^ 8) insn.jt) _ q1 in
    let (jf, c3, q3) = >>=-eq-ok (in_range (2 ^ 8) insn.jf) _ q2 in
    let (k, c4, end) = >>=-eq-ok (in_range (2 ^ 32) (pos (low_bits 32 insn.k))) _ q3 in
    let read = read_program-append little code jt jf k rest in
    rw (sym (ok-eq end))
      (read ∙ ap (λ x. x ∷ read_program little rest) (entry_same insn code jt jf k c1 c2 c3 c4))

-- A program's bytes, where `to_bytes` gives them, are read on a machine of the same byte order as the
-- array of `to_fprog`.
pub program_bytes-to_fprog :
    (little : Bool) (instructions : List Instruction) (bytes : List ℕ)
    → program_bytes little instructions ≡ ok bytes
    → read_program little bytes ≡ (to_fprog instructions).filter
unfolding program_bytes to_fprog read_program
program_bytes-to_fprog little [] bytes e = rw (sym (ok-eq e)) refl
program_bytes-to_fprog little (insn ∷ instructions) bytes e =
    let (head, e1, r1) = >>=-eq-ok (to_bytes little insn) _ e in
    let (rest, e2, last) = >>=-eq-ok (program_bytes little instructions) _ r1 in
    rw (sym (ok-eq last)) (
      insn-to_bytes little insn head rest e1
      ∙ ap (λ xs. bpf_insn_of insn ∷ xs) (program_bytes-to_fprog little instructions rest e2))
