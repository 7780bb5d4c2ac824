-- ===== src/LightBpf/Compiler/Sound/Loads.antt =====
-- LightBPF/CompilerSet/Compiler.py: code of one operation, load or constant.
use Prim.Native.String.{String}
use light_packet.Base.{
  ℕ, ◌+◌, ◌^◌, ◌%◌, false, none, some, List, [], ◌∷◌, length, ◌==◌, ◌≡◌, refl, inl, inr, Bool-cases,
  Option-cases,
}
use light_packet.Base.Int.{pos, low_bits}
use light_packet.LightBpf.Opcode.{bpf_jmp, insn_class, insn_op, insn_src, insn_mode, bpf_and}
use light_packet.LightBpf.Emulator.{
  State, next, advance, reject, exec, exec_ld, exec_alu, alu, operand,
}
use light_packet.LightBpf.Emulator.Fields.{instruction, IsLoad, ldh-IsLoad, ldw-IsLoad, ldb-IsLoad}
use light_packet.LightBpf.Compiler.Code.{
  Label, plain, Compiler, Code, emit, ◌▸◌, reading, ld_imm, ld_len,
}
use light_packet.LightBpf.Compiler.Address.{guard_ethertype}
use light_packet.LightBpf.Compiler.Tables.{lookup}
use light_packet.LightBpf.Compiler.Values.{ld_abs, load_link, load_network, alu_ops, alu_k}
use light_packet.LightBpf.Compiler.Scoped.Values.{Every, lookup-Every}
use light_packet.LightBpf.Compiler.Symbolic.{run_items}
use light_packet.LightBpf.Compiler.Answers.{
  short, value, Reading, field_reading, guard_reading, bind_reading,
}
use light_packet.LightBpf.Compiler.Meaning.{width, operation}
use light_packet.LightBpf.Compiler.Sound.{IsOld, IsEthernet, Meets, emit-Meets}
use light_packet.LightBpf.Compiler.Sound.Readings.{Reads, Yields, plain-run, bind-Yields}
use light_packet.LightBpf.Compiler.Sound.Jumps.{guard_ethertype-Yields, load-Yields}

-- An operation of the machine with a constant.
pub record IsOperation (code : ℕ) : Type 0 where
  pub plain_insn : (insn_class (alu_k code) == bpf_jmp) ≡ false
  pub does :
      (packet : List ℕ) (k : ℕ) (s : State)
      → exec packet (instruction (alu_k code) 0 0 k) s ≡ elim (alu code s.a (pos k)) [
        | none ↦ reject
        | some a' ↦ next (advance (record s { a = a' }))
      ]

pub IsOperation-intro :
    (code : ℕ)
    → (insn_class (alu_k code) == bpf_jmp) ≡ false
    → ((packet : List ℕ) (k : ℕ) (s : State)
        → exec packet (instruction (alu_k code) 0 0 k) s ≡ elim (alu code s.a (pos k)) [
          | none ↦ reject
          | some a' ↦ next (advance (record s { a = a' }))
        ])
    → IsOperation code
IsOperation-intro code p d = record { plain_insn = p; does = d }

pub bpf_and-IsOperation : IsOperation bpf_and
unfolding exec exec_alu operand insn_class insn_op insn_src alu_k
bpf_and-IsOperation = record { plain_insn = refl; does = λ packet k s. refl }

pub alu_ops-IsOperation : (op : String) → Every IsOperation (lookup op alu_ops)
unfolding exec exec_alu operand insn_class insn_op insn_src alu_k
alu_ops-IsOperation op = lookup-Every IsOperation op alu_ops (search IsOperation-intro)

-- The loads of one, two and four bytes.
pub ld_abs-IsLoad :
    (packet : List ℕ) (size off : ℕ)
    → IsLoad packet (instruction (ld_abs size) 0 0 off) off (width size)
unfolding ld_abs
ld_abs-IsLoad packet size off = elim (Bool-cases (size == 1)) [
  | inl one ↦ rw one (ldb-IsLoad packet off)
  | inr more ↦ elim (Bool-cases (size == 2)) [
    | inl two ↦ rw (more, two) (ldh-IsLoad packet off)
    | inr four ↦ rw (more, four) (ldw-IsLoad packet off)
  ]
]

pub ld_abs-plain : (size : ℕ) → (insn_class (ld_abs size) == bpf_jmp) ≡ false
unfolding ld_abs insn_class
ld_abs-plain size = elim (Bool-cases (size == 1)) [
  | inl one ↦ rw one refl
  | inr more ↦ elim (Bool-cases (size == 2)) [
    | inl two ↦ rw (more, two) refl
    | inr four ↦ rw (more, four) refl
  ]
]

pub operation-none : (code k w : ℕ) → alu code w (pos k) ≡ none → operation code k w ≡ short
unfolding operation
operation-none code k w e = rw (e, operation) refl

pub operation-some : (code k w v : ℕ) → alu code w (pos k) ≡ some v → operation code k w ≡ value v
unfolding operation
operation-some code k w v e = rw (e, operation) refl

module _ (packet : List ℕ) where
  pub operation-Meets :
      (code k : ℕ) (c : Compiler) (f : Label)
      → IsOperation code
      → IsEthernet c
      → Meets packet
          (λ s x. Reads (operation code k s.a) f s x)
          c
          (emit (plain (alu_k code) k ∷ []) c)
  unfolding run_items
  operation-Meets code k c f is eth =
      emit-Meets packet (λ s x. Reads (operation code k s.a) f s x) c (plain (alu_k code) k ∷ [])
        eth refl
        λ s.
          rw (plain-run packet (alu_k code) k [] s is.plain_insn, is.does packet k s)
            (elim (Option-cases (alu code s.a (pos k))) [
              | inl e ↦ rw (operation-none code k s.a e, e) refl
              | inr (w, e) ↦ rw (operation-some code k s.a w e, e) refl
            ])

  pub arithmetic-Yields :
      (code k : ℕ) (r : Reading) (v : Label → Code)
      → IsOperation code
      → Yields packet r v
      → Yields packet
          (bind_reading (operation code k) r)
          (λ f. v f ▸ emit (plain (alu_k code) k ∷ []))
  arithmetic-Yields code k r v is h =
      bind-Yields packet (operation code k) r v (λ f. emit (plain (alu_k code) k ∷ [])) h
        (λ c f eth old. operation-Meets code k c f is eth)

  -- The load of a field, and one behind the guard.
  pub field-Yields :
      (size off : ℕ)
      → Yields packet
          (field_reading packet off (width size))
          (λ f. emit (plain (ld_abs size) off ∷ []))
  field-Yields size off =
      load-Yields packet (ld_abs size) off (width size) (ld_abs-IsLoad packet size off)
        (ld_abs-plain size)

  pub network-Meets :
      (e size off start : ℕ) (c : Compiler) (f : Label)
      → start ≡ 14
      → IsEthernet c
      → IsOld c.label_counter f
      → Meets packet
          (Reads
            (bind_reading
              (λ w. field_reading packet (14 + off) (width size))
              (guard_reading packet e))
            f)
          c
          ((guard_ethertype e f ▸ emit (plain (ld_abs size) (start + off) ∷ [])) c)
  network-Meets e size off start c f here eth old = rw here (
      (bind-Yields packet (λ w. field_reading packet (14 + off) (width size))
          (guard_reading packet e) (guard_ethertype e)
          (λ g. emit (plain (ld_abs size) (14 + off) ∷ [])) (guard_ethertype-Yields packet e)
          (field-Yields size (14 + off)).yields).yields
        c f eth old)

  pub network-Yields :
      (e size off : ℕ) (offset : Label → Code)
      → Yields packet
          (bind_reading
            (λ w. field_reading packet (14 + off) (width size))
            (guard_reading packet e))
          (λ f. load_network e (some off) size (offset f) f)
  unfolding load_network guard_ethertype reading ◌▸◌
  network-Yields e size off offset = record {
    yields = λ c f eth old. network-Meets e size off c.ipv4_h_st c f eth.ipv4 eth old;
  }

  pub link-Yields :
      (size off : ℕ) (offset : Label → Code)
      → Yields packet
          (field_reading packet off (width size))
          (λ f. load_link (some off) size (offset f))
  unfolding load_link
  link-Yields size off offset = field-Yields size off

  pub number-Yields : (n : ℕ) → Yields packet (value (n % 2 ^ 32)) (λ f. emit (plain ld_imm n ∷ []))
  unfolding run_items exec exec_ld insn_class insn_mode low_bits
  number-Yields n = record {
    yields = λ c f eth old.
        emit-Meets packet (Reads (value (n % 2 ^ 32)) f) c (plain ld_imm n ∷ []) eth refl
          λ s. rw (plain-run packet ld_imm n [] s refl) refl;
  }

  pub length-Yields : Yields packet (value (length packet)) (λ f. emit (plain ld_len 0 ∷ []))
  unfolding run_items exec exec_ld insn_class insn_mode
  length-Yields = record {
    yields = λ c f eth old.
        emit-Meets packet (Reads (value (length packet)) f) c (plain ld_len 0 ∷ []) eth refl
          λ s. rw (plain-run packet ld_len 0 [] s refl) refl;
  }
