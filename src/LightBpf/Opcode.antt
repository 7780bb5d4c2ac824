-- ===== src/LightBpf/Opcode.antt =====
-- LightBPF/CompilerSet/Opcode.py: the opcode constants and the fields of an opcode.
use light_packet.Base.{ℕ, bit_and}

-- Instruction classes (code & 0x07).
abbrev pub bpf_ld : ℕ
bpf_ld = 0x00

abbrev pub bpf_ldx : ℕ
bpf_ldx = 0x01

abbrev pub bpf_st : ℕ
bpf_st = 0x02

abbrev pub bpf_stx : ℕ
bpf_stx = 0x03

abbrev pub bpf_alu : ℕ
bpf_alu = 0x04

abbrev pub bpf_jmp : ℕ
bpf_jmp = 0x05

abbrev pub bpf_ret : ℕ
bpf_ret = 0x06

abbrev pub bpf_misc : ℕ
bpf_misc = 0x07

-- Size modifiers (code & 0x18).
abbrev pub bpf_w : ℕ
bpf_w = 0x00

abbrev pub bpf_h : ℕ
bpf_h = 0x08

abbrev pub bpf_b : ℕ
bpf_b = 0x10

-- Addressing modes (code & 0xe0).
abbrev pub bpf_imm : ℕ
bpf_imm = 0x00

abbrev pub bpf_abs : ℕ
bpf_abs = 0x20

abbrev pub bpf_ind : ℕ
bpf_ind = 0x40

abbrev pub bpf_mem : ℕ
bpf_mem = 0x60

abbrev pub bpf_len : ℕ
bpf_len = 0x80

abbrev pub bpf_msh : ℕ
bpf_msh = 0xa0

-- Arithmetic operations (code & 0xf0).
abbrev pub bpf_add : ℕ
bpf_add = 0x00

abbrev pub bpf_sub : ℕ
bpf_sub = 0x10

abbrev pub bpf_mul : ℕ
bpf_mul = 0x20

abbrev pub bpf_div : ℕ
bpf_div = 0x30

abbrev pub bpf_or : ℕ
bpf_or = 0x40

abbrev pub bpf_and : ℕ
bpf_and = 0x50

abbrev pub bpf_lsh : ℕ
bpf_lsh = 0x60

abbrev pub bpf_rsh : ℕ
bpf_rsh = 0x70

abbrev pub bpf_neg : ℕ
bpf_neg = 0x80

abbrev pub bpf_mod : ℕ
bpf_mod = 0x90

abbrev pub bpf_xor : ℕ
bpf_xor = 0xa0

-- Jumps (code & 0xf0).
abbrev pub bpf_ja : ℕ
bpf_ja = 0x00

abbrev pub bpf_jeq : ℕ
bpf_jeq = 0x10

abbrev pub bpf_jgt : ℕ
bpf_jgt = 0x20

abbrev pub bpf_jge : ℕ
bpf_jge = 0x30

abbrev pub bpf_jset : ℕ
bpf_jset = 0x40

-- Source operand (code & 0x08), the moves between A and X, and the return of A.
abbrev pub bpf_k : ℕ
bpf_k = 0x00

abbrev pub bpf_x : ℕ
bpf_x = 0x08

abbrev pub bpf_tax : ℕ
bpf_tax = 0x00

abbrev pub bpf_txa : ℕ
bpf_txa = 0x80

abbrev pub bpf_a : ℕ
bpf_a = 0x10

-- The snapshot length that an accepting program returns.
abbrev pub bpf_max_buf_len : ℕ
bpf_max_buf_len = 0x40000

unfoldable pub insn_class : ℕ → ℕ
insn_class code = bit_and code 0x07

unfoldable pub insn_size : ℕ → ℕ
insn_size code = bit_and code 0x18

unfoldable pub insn_mode : ℕ → ℕ
insn_mode code = bit_and code 0xe0

unfoldable pub insn_op : ℕ → ℕ
insn_op code = bit_and code 0xf0

unfoldable pub insn_src : ℕ → ℕ
insn_src code = bit_and code 0x08
