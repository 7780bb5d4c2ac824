-- ===== src/LightBpf/Emulator/Fields.antt =====
-- Tests of the fields of a packet, by a load and a conditional jump.
use light_packet.Base.{
  ℕ, zero, suc, ◌+◌, ◌<◌, [], ◌∷◌, Bool, true, false, Option, none, some, List, length, take, drop,
  ltb, ◌==◌, if◌then◌else◌, ◌≡◌, refl, sym, ◌∙◌, arith, Option-cases, Bool-cases, get_elem?, get_or,
  inl, inr, ap,
}
use light_packet.Base.Bytes.{unpack_be}
use light_packet.Base.Int.{low_bits, ℤ, pos, ◌+ℤ◌, pos-+ℤ_one}
use light_packet.LightBpf.Opcode.{insn_class, insn_size, insn_mode, insn_op, insn_src}
use light_packet.LightBpf.Instruction.{Instruction}
use light_packet.LightBpf.Emulator.{
  State, next, halt, returned, size_bytes, read, exec_ld, exec_ldx, operand, condition, exec_jmp,
  exec_ret, exec, fetch, step, run-halt, run-next,
}
use light_packet.LightBpf.Simulation.{RunsTo}

-- The number in `size` bytes at `off`, in network order, where the packet has them.
unfoldable pub field_at : List ℕ → ℕ → ℕ → Option ℕ
field_at packet off size =
    if ltb (length packet) (off + size)
    then none
    else some (unpack_be (take size (drop off packet)))

abbrev pub instruction : ℕ → ℕ → ℕ → ℕ → Instruction
instruction c t f k = record { code = c; jt = pos t; jf = pos f; k = pos k }

-- A byte as the number in a string of one byte.
unpack_be-one :
    (packet : List ℕ) (off : ℕ)
    → off < length packet
    → unpack_be (take 1 (drop off packet)) ≡ get_or packet off 0
unfolding unpack_be
unpack_be-one [] off h = absurd (omega arith)
unpack_be-one (b ∷ packet) zero h = omega arith
unpack_be-one (b ∷ packet) (suc off) h = unpack_be-one packet off (omega arith)

module _ (packet : List ℕ) (s : State) where
  -- Loads of two and of four bytes, and the comparison with a constant.
  exec-ldh :
      (off w : ℕ)
      → field_at packet off 2 ≡ some w
      → exec packet (instruction 40 0 0 off) s ≡ next (record s { a = w; pc = s.pc +ℤ pos 1 })
  unfolding exec exec_ld insn_class insn_mode insn_size size_bytes read field_at ◌+ℤ◌
  exec-ldh off w e = ground arith

  exec-ldh_short :
      (off : ℕ)
      → field_at packet off 2 ≡ none
      → exec packet (instruction 40 0 0 off) s ≡ halt (returned (pos 0))
  unfolding exec exec_ld insn_class insn_mode insn_size size_bytes read field_at ◌+ℤ◌
  exec-ldh_short off e = ground arith

  exec-ldw :
      (off w : ℕ)
      → field_at packet off 4 ≡ some w
      → exec packet (instruction 32 0 0 off) s ≡ next (record s { a = w; pc = s.pc +ℤ pos 1 })
  unfolding exec exec_ld insn_class insn_mode insn_size size_bytes read field_at ◌+ℤ◌
  exec-ldw off w e = ground arith

  exec-ldw_short :
      (off : ℕ)
      → field_at packet off 4 ≡ none
      → exec packet (instruction 32 0 0 off) s ≡ halt (returned (pos 0))
  unfolding exec exec_ld insn_class insn_mode insn_size size_bytes read field_at ◌+ℤ◌
  exec-ldw_short off e = ground arith

  exec-jeq :
      (t f v : ℕ)
      → exec packet (instruction 21 t f v) s
        ≡ next (record s { pc = s.pc +ℤ (pos 1 +ℤ pos (if s.a == v then t else f)) })
  unfolding exec exec_jmp insn_class insn_op insn_src operand condition
  exec-jeq t f v = ground arith

  exec-ldx_imm :
      (k : ℕ)
      → exec packet (instruction 1 0 0 k) s
        ≡ next (record s { x = low_bits 32 (pos k); pc = s.pc +ℤ pos 1 })
  unfolding exec exec_ldx insn_class insn_mode
  exec-ldx_imm k = refl

  exec-ldb :
      (off w : ℕ)
      → field_at packet off 1 ≡ some w
      → exec packet (instruction 48 0 0 off) s ≡ next (record s { a = w; pc = s.pc +ℤ pos 1 })
  unfolding exec exec_ld insn_class insn_mode insn_size size_bytes read field_at ◌+ℤ◌
  exec-ldb off w e = ground (arith, unpack_be-one packet off)

  exec-ldb_short :
      (off : ℕ)
      → field_at packet off 1 ≡ none
      → exec packet (instruction 48 0 0 off) s ≡ halt (returned (pos 0))
  unfolding exec exec_ld insn_class insn_mode insn_size size_bytes read field_at ◌+ℤ◌
  exec-ldb_short off e = ground arith

  exec-ret : (t f v : ℕ) → exec packet (instruction 6 t f v) s ≡ halt (returned (pos v))
  unfolding exec exec_ret insn_class insn_mode
  exec-ret t f v = refl

-- A load of the field of `size` bytes at `off`, which ends the call where the packet lacks it.
pub record IsLoad (packet : List ℕ) (load : Instruction) (off size : ℕ) : Type 0 where
  pub loads :
      (s : State) (w : ℕ)
      → field_at packet off size ≡ some w
      → exec packet load s ≡ next (record s { a = w; pc = s.pc +ℤ pos 1 })
  pub rejects :
      (s : State) → field_at packet off size ≡ none → exec packet load s ≡ halt (returned (pos 0))

pub ldh-IsLoad : (packet : List ℕ) (off : ℕ) → IsLoad packet (instruction 40 0 0 off) off 2
ldh-IsLoad packet off = record {
  loads = λ s w e. exec-ldh packet s off w e;
  rejects = λ s e. exec-ldh_short packet s off e;
}

pub ldw-IsLoad : (packet : List ℕ) (off : ℕ) → IsLoad packet (instruction 32 0 0 off) off 4
ldw-IsLoad packet off = record {
  loads = λ s w e. exec-ldw packet s off w e;
  rejects = λ s e. exec-ldw_short packet s off e;
}

pub ldb-IsLoad : (packet : List ℕ) (off : ℕ) → IsLoad packet (instruction 48 0 0 off) off 1
ldb-IsLoad packet off = record {
  loads = λ s w e. exec-ldb packet s off w e;
  rejects = λ s e. exec-ldb_short packet s off e;
}

-- Whether the packet has a field with a value.
unfoldable pub has_field : List ℕ → ℕ → ℕ → ℕ → Bool
has_field packet off size v = elim (field_at packet off size) [ none ↦ false | some w ↦ w == v ]

pc_next : (pc : ℤ) (i : ℕ) → pc ≡ pos i → pc +ℤ pos 1 ≡ pos (suc i)
pc_next pc i at = rw at (pos-+ℤ_one i)

pc_jump : (pc : ℤ) (i d : ℕ) → pc ≡ pos i → pc +ℤ (pos 1 +ℤ pos d) ≡ pos (suc i + d)
unfolding ◌+ℤ◌
pc_jump pc i d at = rw at (ground arith)

module _ (packet : List ℕ) (off size v : ℕ) where
  pub has_field-none : field_at packet off size ≡ none → has_field packet off size v ≡ false
  unfolding has_field
  has_field-none e = rw (e, has_field) refl

  has_field-some :
      (w : ℕ) → field_at packet off size ≡ some w → has_field packet off size v ≡ (w == v)
  unfolding has_field
  has_field-some w e = rw (e, has_field) refl

module _ (code : List Instruction) (packet : List ℕ) where
  fetch-at :
      (pc : ℤ) (i : ℕ) (insn : Instruction)
      → pc ≡ pos i
      → get_elem? code i ≡ some insn
      → fetch code pc ≡ some insn
  unfolding fetch
  fetch-at pc i insn at found = rw at found

  pub step-at :
      (s : State) (i : ℕ) (insn : Instruction)
      → s.pc ≡ pos i
      → get_elem? code i ≡ some insn
      → step code packet s ≡ exec packet insn s
  unfolding step
  step-at s i insn at found = rw (fetch-at s.pc i insn at found, step) refl

  -- A run from any state that stands at `i`.
  abbrev pub EndsFrom : ℕ → ℕ → Type 0
  EndsFrom i v = (s : State) → s.pc ≡ pos i → RunsTo code packet s (returned (pos v))

  pub ret-EndsFrom : (i t f v : ℕ) → get_elem? code i ≡ some (instruction 6 t f v) → EndsFrom i v
  ret-EndsFrom i t f v found s at = (
    1,
    run-halt 0 code packet s _
        (step-at s i (instruction 6 t f v) at found ∙ exec-ret packet s t f v),
  )

  -- The same, with a number in A.
  abbrev pub EndsWith : ℕ → ℕ → ℕ → Type 0
  EndsWith i w v = (s : State) → s.pc ≡ pos i → s.a ≡ w → RunsTo code packet s (returned (pos v))

  -- A load: where the packet lacks the field the program returns 0.
  pub load-EndsFrom :
      (i off size out : ℕ) (load : Instruction)
      → IsLoad packet load off size
      → get_elem? code i ≡ some load
      → (field_at packet off size ≡ none → out ≡ 0)
      → ((w : ℕ) → field_at packet off size ≡ some w → EndsWith (suc i) w out)
      → EndsFrom i out
  load-EndsFrom i off size out load is_load here missing found s at =
      elim (Option-cases (field_at packet off size)) [
        | inl lacks ↦ (
          1,
          run-halt 0 code packet s _ (
              step-at s i load at here
              ∙ is_load.rejects s lacks
              ∙ ap (λ (n : ℕ). halt (returned (pos n))) (sym (missing lacks))),
        )
        | inr (w, has) ↦
            let s1 : State = record s { a = w; pc = s.pc +ℤ pos 1 } in
            let (fuel, ends) = found w has s1 (pc_next s.pc i at) refl in
            (
              suc fuel,
              run-next fuel code packet s s1 (step-at s i load at here ∙ is_load.loads s w has)
                  ∙ ends,
            )
      ]

  -- A comparison of A with a constant.
  pub jeq-EndsWith :
      (i w v t f out : ℕ)
      → get_elem? code i ≡ some (instruction 21 t f v)
      → EndsWith (suc i + (if w == v then t else f)) w out
      → EndsWith i w out
  jeq-EndsWith i w v t f out here after s at holds =
      let d : ℕ = if s.a == v then t else f in
      let s1 : State = record s { pc = s.pc +ℤ (pos 1 +ℤ pos d) } in
      let (fuel, ends) = (rw (sym holds) at after) s1 (pc_jump s.pc i d at) refl in
      (
        suc fuel,
        run-next fuel code packet s s1
              (step-at s i (instruction 21 t f v) at here ∙ exec-jeq packet s t f v)
            ∙ ends,
      )

  -- A constant for X.
  pub ldx_imm-EndsFrom :
      (i k out : ℕ)
      → get_elem? code i ≡ some (instruction 1 0 0 k)
      → EndsFrom (suc i) out
      → EndsFrom i out
  ldx_imm-EndsFrom i k out here after s at =
      let s1 : State = record s { x = low_bits 32 (pos k); pc = s.pc +ℤ pos 1 } in
      let (fuel, ends) = after s1 (pc_next s.pc i at) in
      (
        suc fuel,
        run-next fuel code packet s s1
              (step-at s i (instruction 1 0 0 k) at here ∙ exec-ldx_imm packet s k)
            ∙ ends,
      )

  -- The same, by whether the packet has the field with the value.
  pub branch-EndsFrom :
      (i off size v t f out : ℕ) (load : Instruction)
      → IsLoad packet load off size
      → get_elem? code i ≡ some load
      → get_elem? code (suc i) ≡ some (instruction 21 t f v)
      → (field_at packet off size ≡ none → out ≡ 0)
      → (has_field packet off size v ≡ true → EndsFrom (suc (suc i) + t) out)
      → (has_field packet off size v ≡ false → EndsFrom (suc (suc i) + f) out)
      → EndsFrom i out
  branch-EndsFrom i off size v t f out load is_load first second missing hit other =
      load-EndsFrom i off size out load is_load first missing λ w found.
        jeq-EndsWith (suc i) w v t f out second (elim (Bool-cases (w == v)) [
          | inl same ↦
              rw same (λ s at holds. hit (has_field-some packet off size v w found ∙ same) s at)
          | inr apart ↦
              rw apart (λ s at holds. other (has_field-some packet off size v w found ∙ apart) s at)
        ])
