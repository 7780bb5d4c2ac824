-- ===== src/LightBpf/Compiler/Scoped/Values.antt =====
-- The code of LightBPF/CompilerSet/Compiler.py for expressions keeps to its labels.
use Prim.Native.String.{String}
use light_packet.Base.{
  ℕ, ◌+◌, ◌||◌, ◌&&◌, Option, none, some, List, [], ◌∷◌, ◌==◌, inl, inr, Bool-cases, All,
}
use light_packet.Base.Text.{text_eqb}
use light_packet.LightBpf.Opcode.{insn_class, insn_op}
use light_packet.LightBpf.Ethertype.{ethertype_keywords}
use light_packet.LightBpf.Ast.{
  Node, binary_op, unary_op, protocol_node, keyword_filter, byte_access, length_node, number,
  literal, field_node,
}
use light_packet.LightBpf.Compiler.Code.{Label, num, Code}
use light_packet.LightBpf.Compiler.Platform.{Platform}
use light_packet.LightBpf.Compiler.Tables.{lookup, transport_proto_num}
use light_packet.LightBpf.Compiler.Values.{
  ld_abs, ld_ind, offset_val, load_computed, load_link, load_network, setup_known, load_transport,
  access_transport, access_ethertype, is_ip4_name, is_ip6_name, compile_byte_access, alu_ops, alu_k,
  alu_x, number_of, is_zero, both_operands, compile_arithmetic, compile_value,
}
use light_packet.LightBpf.Compiler.Scope.{IsIn, IsScoped, FitsCode}
use light_packet.LightBpf.Compiler.Scoped.{
  ▸-IsScoped, emit-IsScoped, reading-IsScoped, new_label-IsScoped, alloc_scratch-IsScoped,
  free_scratch-IsScoped, attempt-IsScoped, fail-IsScoped, if-IsScoped, option-IsScoped,
  IsKeyErrorFree,
}
use light_packet.LightBpf.Compiler.Scoped.Transport.{setup_transport_layer-IsScoped}

-- The loads of every size fit anywhere.
module _ (ls : List Label) (size k : ℕ) where
  ld_abs-Fits : FitsCode (ld_abs size) ls (num 0) (num 0) (num k)
  unfolding ld_abs insn_class insn_op
  ld_abs-Fits = elim (Bool-cases (size == 1)) [
    | inl p ↦ rw p tt
    | inr p ↦ elim (Bool-cases (size == 2)) [ inl q ↦ rw (p, q) tt | inr q ↦ rw (p, q) tt ]
  ]

  ld_ind-Fits : FitsCode (ld_ind size) ls (num 0) (num 0) (num k)
  unfolding ld_ind insn_class insn_op
  ld_ind-Fits = elim (Bool-cases (size == 1)) [
    | inl p ↦ rw p tt
    | inr p ↦ elim (Bool-cases (size == 2)) [ inl q ↦ rw (p, q) tt | inr q ↦ rw (p, q) tt ]
  ]

-- An opcode whose instructions are of the arithmetic class, as the table's are.
abbrev FitsAlu : ℕ → Type 0
FitsAlu op =
    ((ls : List Label) (n : ℕ) → FitsCode (alu_k op) ls (num 0) (num 0) (num n))
    × ((ls : List Label) (n : ℕ) → FitsCode (alu_x op) ls (num 0) (num 0) (num n))

abbrev pub Every {ℓ} : {A : Type 0} → (A → Type ℓ) → Option A → Type ℓ
Every P none = Unit
Every P (some a) = P a

pub lookup-Every :
    (P : ℕ → Type 0) (k : String) (l : List (String × ℕ))
    → All (λ p. P p.1) l
    → Every P (lookup k l)
lookup-Every P k [] h = tt
lookup-Every P k ((j, v) ∷ rest) h = elim (Bool-cases (text_eqb j k)) [
  | inl e ↦ rw e h.0
  | inr e ↦ rw e (lookup-Every P k rest h.1)
]

Every-IsScoped :
    {A : Type 0} {P : A → Type 0} {after : List Label} (o : Option A) {p : Code} {k : A → Code}
    → Every P o
    → IsScoped after p
    → ((a : A) → P a → IsScoped after (k a))
    → IsScoped after (elim o [ none ↦ p | some a ↦ k a ])
Every-IsScoped none e hp hk = hp
Every-IsScoped (some a) e hp hk = hk a e

module _ {after : List Label} {offset : Code} (ho : IsScoped after offset) where
  load_computed-IsScoped :
      (base : List ℕ) (size : ℕ) → IsScoped after (load_computed base size offset)
  unfolding load_computed insn_class insn_op
  load_computed-IsScoped [] size = ▸-IsScoped ho (emit-IsScoped _ (tt, (ld_ind-Fits _ size 0, tt)))
  load_computed-IsScoped (base ∷ more) size =
      ▸-IsScoped ho (emit-IsScoped _ (tt, (tt, (ld_ind-Fits _ size 0, tt))))

  load_link-IsScoped : (known : Option ℕ) (size : ℕ) → IsScoped after (load_link known size offset)
  unfolding load_link
  load_link-IsScoped (some off) size = emit-IsScoped _ (ld_abs-Fits _ size off, tt)
  load_link-IsScoped none size = load_computed-IsScoped [] size

  load_network-IsScoped :
      (e : ℕ) (known : Option ℕ) (size : ℕ) (f : Label)
      → IsIn f after
      → IsScoped after (load_network e known size offset f)
  unfolding load_network insn_class insn_op
  load_network-IsScoped e known size f hf = reading-IsScoped _ λ c.
      ▸-IsScoped (emit-IsScoped _ (search)) (
        option-IsScoped known (load_computed-IsScoped (c.ipv4_h_st ∷ []) size)
          λ off. emit-IsScoped _ (ld_abs-Fits _ size (c.ipv4_h_st + off), tt))

  load_transport-IsScoped :
      (known : Option ℕ) (size : ℕ) → IsScoped after (load_transport known size offset)
  unfolding load_transport insn_class insn_op
  load_transport-IsScoped (some off) size = emit-IsScoped _ (ld_ind-Fits _ size (14 + off), tt)
  load_transport-IsScoped none size = alloc_scratch-IsScoped λ scratch.
      ▸-IsScoped (emit-IsScoped _ (search)) (
        ▸-IsScoped ho (
          ▸-IsScoped (emit-IsScoped _ (search)) (
            ▸-IsScoped free_scratch-IsScoped
              (emit-IsScoped _ (tt, (tt, (ld_ind-Fits _ size 0, tt)))))))

  setup_known-IsScoped :
      (o : Option ℕ) (n : ℕ) (f : Label) → IsIn f after → IsScoped after (setup_known o n f)
  unfolding setup_known insn_class insn_op
  setup_known-IsScoped none n f hf = emit-IsScoped [] tt
  setup_known-IsScoped (some e) n f hf = reading-IsScoped _ λ c.
      if-IsScoped (e == 0x0800)
        (new_label-IsScoped λ first_frag. emit-IsScoped _ (search (inl, inr)))
        (if-IsScoped (e == 0x86dd) (emit-IsScoped _ (search)) (emit-IsScoped [] tt))

  access_transport-IsScoped :
      (proto : String) (n : ℕ) (known : Option ℕ) (size : ℕ) (f : Label)
      → IsIn f after
      → IsScoped after (access_transport proto n known size offset f)
  unfolding access_transport
  access_transport-IsScoped proto n known size f hf = reading-IsScoped _ λ c.
      ▸-IsScoped
        (if-IsScoped c.sip (setup_known-IsScoped c.explicit n f hf)
          (setup_transport_layer-IsScoped f hf (some proto)))
        (load_transport-IsScoped known size)

  access_ethertype-IsScoped :
      (e : ℕ) (known : Option ℕ) (size : ℕ) (f : Label)
      → IsIn f after
      → IsScoped after (access_ethertype e known size f)
  unfolding access_ethertype insn_class insn_op
  access_ethertype-IsScoped e known size f hf = reading-IsScoped _ λ c.
      ▸-IsScoped (emit-IsScoped _ (search)) (
        option-IsScoped known (emit-IsScoped [] tt)
          λ off. emit-IsScoped _ (ld_abs-Fits _ size (14 + off), tt))

  compile_byte_access-IsScoped :
      (proto : String) (known : Option ℕ) (size : ℕ) (f : Label)
      → IsIn f after
      → IsScoped after (compile_byte_access proto known size offset f)
  unfolding compile_byte_access
  compile_byte_access-IsScoped proto known size f hf = reading-IsScoped _ λ c.
      if-IsScoped (c.linktype == 1)
        (if-IsScoped (text_eqb proto "ether" || text_eqb proto "link")
          (load_link-IsScoped known size)
          (if-IsScoped (is_ip4_name proto) (load_network-IsScoped 0x0800 known size f hf) (
            if-IsScoped (is_ip6_name proto) (load_network-IsScoped 0x86dd known size f hf) (
              option-IsScoped (lookup proto transport_proto_num)
                (option-IsScoped (lookup proto ethertype_keywords) (fail-IsScoped (λ d. cc))
                  (λ e. access_ethertype-IsScoped e known size f hf))
                (λ n. access_transport-IsScoped proto n known size f hf)))))
        (fail-IsScoped (λ d. cc))

pub both_operands-IsScoped :
    {after : List Label} {left right : Code}
    → IsScoped after left
    → IsScoped after right
    → IsScoped after (both_operands left right)
unfolding both_operands insn_class insn_op
both_operands-IsScoped hl hr = alloc_scratch-IsScoped λ scratch. ▸-IsScoped hr (
    ▸-IsScoped (emit-IsScoped _ (search))
      (▸-IsScoped hl (▸-IsScoped (emit-IsScoped _ (search)) free_scratch-IsScoped)))

lookup-FitsAlu : (op : String) → Every FitsAlu (lookup op alu_ops)
unfolding alu_k alu_x insn_class insn_op
lookup-FitsAlu op = lookup-Every FitsAlu op alu_ops (search)

compile_arithmetic-IsScoped :
    {after : List Label} {left right : Code} (op : String) (constant : Option ℕ)
    → IsScoped after left
    → IsScoped after right
    → IsScoped after (compile_arithmetic op constant left right)
unfolding compile_arithmetic
compile_arithmetic-IsScoped op constant hl hr =
    Every-IsScoped {P = FitsAlu} (lookup op alu_ops) (lookup-FitsAlu op) (fail-IsScoped (λ d. cc))
      λ code fits.
        if-IsScoped ((text_eqb op "/" || text_eqb op "%") && is_zero constant)
          (fail-IsScoped (λ d. cc))
          (option-IsScoped constant
            (▸-IsScoped (both_operands-IsScoped hl hr) (emit-IsScoped _ (fits.1 _ 0, tt)))
            (λ n. ▸-IsScoped hl (emit-IsScoped _ (fits.0 _ n, tt))))

-- The label that a failing access goes to, if there is one.
abbrev pub IsGuard : List Label → Option Label → Type 0
IsGuard after none = Unit
IsGuard after (some f) = IsIn f after

module _ (platform : Platform) (free : IsKeyErrorFree platform) {after : List Label} where
  pub compile_value-IsScoped :
      (node : Node) (f : Option Label)
      → IsGuard after f
      → IsScoped after (compile_value platform node f)
  unfolding compile_value insn_class insn_op
  compile_value-IsScoped (number n) f h = emit-IsScoped _ (search)
  compile_value-IsScoped length_node f h = emit-IsScoped _ (search)
  compile_value-IsScoped (byte_access proto offset size) none h = fail-IsScoped (λ d. cc)
  compile_value-IsScoped (byte_access proto offset size) (some f) h =
      compile_byte_access-IsScoped (compile_value-IsScoped offset (some f) h) proto
        (offset_val offset) size f h
  compile_value-IsScoped (binary_op left op right) f h =
      compile_arithmetic-IsScoped op (number_of right) (compile_value-IsScoped left f h)
        (compile_value-IsScoped right f h)
  compile_value-IsScoped (literal value kind) f h =
      if-IsScoped (text_eqb kind "ipv4")
        (attempt-IsScoped _ (free.inet_aton_known value) (λ ip. emit-IsScoped _ (search)))
        (fail-IsScoped (λ d. cc))
  compile_value-IsScoped (unary_op op expr) f h = fail-IsScoped (λ d. cc)
  compile_value-IsScoped (protocol_node name n) f h = fail-IsScoped (λ d. cc)
  compile_value-IsScoped (keyword_filter node) f h = fail-IsScoped (λ d. cc)
  compile_value-IsScoped (field_node name) f h = fail-IsScoped (λ d. cc)
