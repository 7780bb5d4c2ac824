-- ===== src/LightBpf/Compiler/Code.antt =====
-- What the compiler emits, its state, and the emitting code. A method of the source is a function
-- from the state to what it appends to `self.instructions` and the state it leaves.
use light_packet.Base.{
  ℕ, suc, ◌-◌, bit_or, Bool, false, Option, none, List, [], ◌++◌, leb, if◌then◌else◌,
}
use light_packet.LightBpf.Opcode.{
  bpf_ld, bpf_ldx, bpf_alu, bpf_jmp, bpf_ret, bpf_misc, bpf_w, bpf_h, bpf_b, bpf_imm, bpf_abs,
  bpf_ind, bpf_mem, bpf_len, bpf_msh, bpf_add, bpf_and, bpf_rsh, bpf_ja, bpf_jeq, bpf_jgt, bpf_jge,
  bpf_jset, bpf_k, bpf_x, bpf_tax,
}
use light_packet.Base.Exceptions.{Exception, Result, ok, raise, ◌>>=◌, runtime_error}

-- The labels: those of `compile`, and those of `_new_label`, which their number tells apart.
pub data Label : Type 0 where
  accept reject : Label
  local : ℕ → Label

-- A field of an instruction before assembly: an int or a label.
pub data Operand : Type 0 where
  num : ℕ → Operand
  to : Label → Operand

-- `Instruction(code, jt, jf, k)`, or `"LABEL:" + name`.
pub data Item : Type 0 where
  insn : ℕ → Operand → Operand → Operand → Item
  label : Label → Item

-- The opcodes that the compiler writes.
abbrev pub ldw_abs : ℕ
ldw_abs = bit_or (bit_or bpf_ld bpf_w) bpf_abs

abbrev pub ldh_abs : ℕ
ldh_abs = bit_or (bit_or bpf_ld bpf_h) bpf_abs

abbrev pub ldb_abs : ℕ
ldb_abs = bit_or (bit_or bpf_ld bpf_b) bpf_abs

abbrev pub ldh_ind : ℕ
ldh_ind = bit_or (bit_or bpf_ld bpf_h) bpf_ind

abbrev pub ld_len : ℕ
ld_len = bit_or (bit_or bpf_ld bpf_w) bpf_len

abbrev pub ld_imm : ℕ
ld_imm = bit_or bpf_ld bpf_imm

abbrev pub ldx_imm : ℕ
ldx_imm = bit_or bpf_ldx bpf_imm

abbrev pub ldx_mem : ℕ
ldx_mem = bit_or bpf_ldx bpf_mem

abbrev pub ldx_msh : ℕ
ldx_msh = bit_or (bit_or bpf_ldx bpf_b) bpf_msh

abbrev pub and_k : ℕ
and_k = bit_or (bit_or bpf_alu bpf_and) bpf_k

abbrev pub rsh_k : ℕ
rsh_k = bit_or (bit_or bpf_alu bpf_rsh) bpf_k

abbrev pub add_k : ℕ
add_k = bit_or (bit_or bpf_alu bpf_add) bpf_k

abbrev pub add_x : ℕ
add_x = bit_or (bit_or bpf_alu bpf_add) bpf_x

abbrev pub tax : ℕ
tax = bit_or bpf_misc bpf_tax

abbrev pub ja : ℕ
ja = bit_or bpf_jmp bpf_ja

abbrev pub jeq_k : ℕ
jeq_k = bit_or (bit_or bpf_jmp bpf_jeq) bpf_k

abbrev pub jgt_k : ℕ
jgt_k = bit_or (bit_or bpf_jmp bpf_jgt) bpf_k

abbrev pub jge_k : ℕ
jge_k = bit_or (bit_or bpf_jmp bpf_jge) bpf_k

abbrev pub jset_k : ℕ
jset_k = bit_or (bit_or bpf_jmp bpf_jset) bpf_k

abbrev pub jeq_x : ℕ
jeq_x = bit_or (bit_or bpf_jmp bpf_jeq) bpf_x

abbrev pub jgt_x : ℕ
jgt_x = bit_or (bit_or bpf_jmp bpf_jgt) bpf_x

abbrev pub jge_x : ℕ
jge_x = bit_or (bit_or bpf_jmp bpf_jge) bpf_x

abbrev pub jset_x : ℕ
jset_x = bit_or (bit_or bpf_jmp bpf_jset) bpf_x

abbrev pub ret_k : ℕ
ret_k = bit_or bpf_ret bpf_k

-- `Instruction(code, 0, 0, k)`, the conditional jump to two labels, and the unconditional jump.
abbrev pub plain : ℕ → ℕ → Item
plain code k = insn code (num 0) (num 0) (num k)

abbrev pub cond : ℕ → Label → Label → ℕ → Item
cond code t f k = insn code (to t) (to f) (num k)

-- The conditional jump with `jt` 0, to the next instruction.
abbrev pub next_or : ℕ → Label → ℕ → Item
next_or code f k = insn code (num 0) (to f) (num k)

abbrev pub goto : Label → Item
goto l = insn ja (num 0) (num 0) (to l)

-- The attributes of `BpfCompiler` but the instructions.
pub record Compiler : Type 0 where
  pub label_counter : ℕ
  pub scratch_counter : ℕ
  pub parsed_upper : Bool
  pub explicit : Option ℕ
  pub sip : Bool
  pub linktype : ℕ
  pub e_p_offset : ℕ
  pub vlan_id_off : ℕ
  pub ipv4_proto_off : ℕ
  pub ipv6_proto_off : ℕ
  pub port_field_src : ℕ
  pub port_field_dst : ℕ
  pub ipv4_h_st : ℕ
  pub ipv6_h_st : ℕ
  pub ipv4_frag : ℕ

-- `__init__`, and the resets of `compile`.
abbrev pub initial : ℕ → Compiler
initial linktype = record {
  label_counter = 0;
  scratch_counter = 0;
  parsed_upper = false;
  explicit = none;
  sip = false;
  linktype = linktype;
  e_p_offset = 12;
  vlan_id_off = 14;
  ipv4_proto_off = 23;
  ipv6_proto_off = 20;
  port_field_src = 14;
  port_field_dst = 16;
  ipv4_h_st = 14;
  ipv6_h_st = 20;
  ipv4_frag = 20;
}

abbrev pub Emitted : Type 0
Emitted = Result (List Item × Compiler)

abbrev pub Code : Type 0
Code = Compiler → Emitted

unfoldable pub emit : List Item → Code
emit items c = ok (items, c)

unfoldable pub fail : Exception → Code
fail e c = raise e

-- One piece of code after another.
infixr 20 ◌▸◌
unfoldable pub ◌▸◌ : Code → Code → Code
(p ▸ q) c = do first ← p c; second ← q first.1; ok (first.0 ++ second.0, second.1)

-- Code that reads the state, and code that changes it.
unfoldable pub reading : (Compiler → Code) → Code
reading k c = k c c

unfoldable pub update : (Compiler → Compiler) → Code
update f c = ok ([], f c)

-- Code that goes on with a value, unless computing it raises.
unfoldable pub attempt {ℓ} : {A : Type ℓ} → Result A → (A → Code) → Code
attempt r k c = r >>= λ a. k a c

-- `_new_label`.
unfoldable pub new_label : (Label → Code) → Code
new_label k c = k (local (suc c.label_counter)) (record c { label_counter = suc c.label_counter })

-- `_alloc_scratch` and `_free_scratch`.
unfoldable pub alloc_scratch : (ℕ → Code) → Code
alloc_scratch k c =
    if leb 16 c.scratch_counter
    then raise runtime_error
    else k c.scratch_counter (record c { scratch_counter = suc c.scratch_counter })

unfoldable pub free_scratch : Code
free_scratch c = ok ([], record c { scratch_counter = c.scratch_counter - 1 })
