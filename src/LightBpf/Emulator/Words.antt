-- ===== src/LightBpf/Emulator/Words.antt =====
-- The registers and the scratch words of the virtual machine stay 32-bit words.
use light_packet.Base.{
  ℕ, ◌%◌, ◌^◌, ◌<◌, ◌≡◌, refl, Option, none, some, List, arith, length, drop, All, All-drop,
  All-set, All-get_or, length-set, if-both, ltb, Option-cases, inl, inr,
}
use light_packet.Base.Bytes.{IsBytes, unpack_be-take_2, unpack_be-take_4}
use light_packet.Base.Bits.{and_mask}
use light_packet.Base.Int.{
  ℤ, pos, negsuc, low_bits_32-lt, ◌+ℤ◌, ◌-ℤ◌, ◌*ℤ◌, floor_div, floor_mod, int_or, int_xor,
}
use light_packet.LightBpf.Instruction.{Instruction}
use light_packet.LightBpf.Opcode.{insn_op}
use light_packet.LightBpf.Emulator.{
  size_bytes, State, Step, next, halt, Outcome, advance, read, load_scratch, store_scratch,
  index_packet, exec_ld, exec_msh, exec_ldx, alu, exec_alu, operand, exec_jmp, exec_ret, exec_misc,
  exec, fetch, step,
}

abbrev pub IsWord : ℕ → Type 0
IsWord n = n < 2 ^ 32

pub record IsWords (s : State) : Type 0 where
  pub a_fits : IsWord s.a
  pub x_fits : IsWord s.x
  pub m_fits : All IsWord s.m
  pub m_size : length s.m ≡ 16

-- What a round of the loop has to keep.
pub data StepIsWords : Step → Type 0 where
  continues : {s : State} → IsWords s → StepIsWords (next s)
  halts : {o : Outcome} → StepIsWords (halt o)

data SomeIsWord : Option ℕ → Type 0 where
  nothing : SomeIsWord none
  word : {n : ℕ} → IsWord n → SomeIsWord (some n)

module _ (packet : List ℕ) (bytes : IsBytes packet) where
  read-IsWord : (off : ℤ) (sz : ℕ) → IsWord (read packet off sz)
  unfolding read
  read-IsWord (negsuc n) sz = omega arith
  read-IsWord (pos off) sz = ground (
    arith,
    All-get_or (λ (b : ℕ). b < 256) packet off 0 bytes (omega arith),
    unpack_be-take_2 (drop off packet) (All-drop (λ (b : ℕ). b < 256) off packet bytes),
    unpack_be-take_4 (drop off packet) (All-drop (λ (b : ℕ). b < 256) off packet bytes),
  )

load_scratch-IsWord : (m : List ℕ) (k : ℤ) → All IsWord m → IsWord (load_scratch m k)
unfolding load_scratch
load_scratch-IsWord m (negsuc n) h = omega arith
load_scratch-IsWord m (pos k) h = ground (arith, All-get_or IsWord m k 0 h (omega arith))

store_scratch-IsWord :
    (m : List ℕ) (k : ℤ) (v : ℕ) → All IsWord m → All IsWord (store_scratch m k v)
unfolding store_scratch
store_scratch-IsWord m (negsuc n) v h = h
store_scratch-IsWord m (pos k) v h =
    if-both {A = List ℕ} (All IsWord) (ltb k 16) (All-set IsWord m k (v % 2 ^ 32) h (omega arith)) h

length-store_scratch : (m : List ℕ) (k : ℤ) (v : ℕ) → length (store_scratch m k v) ≡ length m
unfolding store_scratch
length-store_scratch m (negsuc n) v = refl
length-store_scratch m (pos k) v = ground (arith, length-set m k (v % 2 ^ 32))

masked : (n : ℕ) → IsWord (n % 2 ^ 32)
masked n = omega arith

alu-IsWord : (op a : ℕ) (v : ℤ) (r : ℕ) → IsWord a → alu op a v ≡ some r → IsWord r
unfolding alu
alu-IsWord op a v r h e = ground (
  arith,
  low_bits_32-lt (pos a +ℤ v),
  low_bits_32-lt (pos a -ℤ v),
  low_bits_32-lt (pos a *ℤ v),
  low_bits_32-lt (floor_div a v),
  low_bits_32-lt (floor_mod a v),
  low_bits_32-lt (int_or a v),
  low_bits_32-lt (int_xor a v),
  low_bits_32-lt (pos 0 -ℤ pos a),
)

module _ (packet : List ℕ) (bytes : IsBytes packet) (size : IsWord (length packet))
    (insn : Instruction) (s : State) (w : IsWords s) where
  with_a : (a : ℕ) → IsWord a → IsWords (advance (record s { a = a }))
  with_a a h = record { a_fits = h; x_fits = w.x_fits; m_fits = w.m_fits; m_size = w.m_size }

  with_x : (x : ℕ) → IsWord x → IsWords (advance (record s { x = x }))
  with_x x h = record { a_fits = w.a_fits; x_fits = h; m_fits = w.m_fits; m_size = w.m_size }

  with_pc : (pc : ℤ) → IsWords (record s { pc = pc })
  with_pc pc = record { a_fits = w.a_fits; x_fits = w.x_fits; m_fits = w.m_fits; m_size = w.m_size }

  stored : (v : ℕ) → IsWords (advance (record s { m = store_scratch s.m insn.k v }))
  stored v = record {
    a_fits = w.a_fits;
    x_fits = w.x_fits;
    m_fits = store_scratch-IsWord s.m insn.k v w.m_fits;
    m_size = rw (length-store_scratch s.m insn.k v) w.m_size;
  }

  exec_ld-IsWords : (t : State) → exec_ld packet insn s ≡ next t → IsWords t
  unfolding exec_ld
  exec_ld-IsWords t e = ground (
    arith,
    low_bits_32-lt insn.k,
    read-IsWord packet bytes insn.k (size_bytes insn.code),
    read-IsWord packet bytes (pos s.x +ℤ insn.k) (size_bytes insn.code),
    load_scratch-IsWord s.m insn.k w.m_fits,
  )

  exec_msh-IsWords : (t : State) → exec_msh packet insn s ≡ next t → IsWords t
  unfolding exec_msh
  exec_msh-IsWords t e = elim (Option-cases (index_packet packet insn.k)) [
    | inl out ↦ ground arith
    | inr (byte, at) ↦ ground (arith, and_mask 4 byte)
  ]

  exec_ldx-IsWords : (t : State) → exec_ldx packet insn s ≡ next t → IsWords t
  unfolding exec_ldx
  exec_ldx-IsWords t e =
      ground
        (arith, low_bits_32-lt insn.k, load_scratch-IsWord s.m insn.k w.m_fits, exec_msh-IsWords t)

  exec_alu-IsWords : (t : State) → exec_alu insn s ≡ next t → IsWords t
  unfolding exec_alu
  exec_alu-IsWords t e = elim (Option-cases (alu (insn_op insn.code) s.a (operand insn s))) [
    | inl out ↦ ground arith
    | inr (r, at) ↦
        ground (arith, alu-IsWord (insn_op insn.code) s.a (operand insn s) r w.a_fits at)
  ]

  exec_jmp-IsWords : (t : State) → exec_jmp insn s ≡ next t → IsWords t
  unfolding exec_jmp
  exec_jmp-IsWords t e = ground arith

  exec_misc-IsWords : (t : State) → exec_misc insn s ≡ next t → IsWords t
  unfolding exec_misc
  exec_misc-IsWords t e = ground arith

  exec-IsWords : (t : State) → exec packet insn s ≡ next t → IsWords t
  unfolding exec exec_ret
  exec-IsWords t e = ground (
    arith,
    exec_ld-IsWords t,
    exec_ldx-IsWords t,
    exec_alu-IsWords t,
    exec_jmp-IsWords t,
    exec_misc-IsWords t,
    stored s.a,
    stored s.x,
  )

-- A round of the loop keeps A, X and the sixteen scratch words below 2 ^ 32, for a packet of bytes
-- whose length is itself a 32-bit word.
pub step-IsWords :
    (code : List Instruction) (packet : List ℕ) (s t : State)
    → IsBytes packet
    → IsWord (length packet)
    → IsWords s
    → step code packet s ≡ next t
    → IsWords t
unfolding step
step-IsWords code packet s t bytes size w e = elim (Option-cases (fetch code s.pc)) [
  | inl out ↦ ground arith
  | inr (insn, at) ↦ ground (arith, exec-IsWords packet bytes size insn s w t)
]
