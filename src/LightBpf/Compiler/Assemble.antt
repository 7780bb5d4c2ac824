-- ===== src/LightBpf/Compiler/Assemble.antt =====
-- LightBPF/CompilerSet/Compiler.py: `_assemble_and_backpatch`, and `compile`.
pub mod Labels
pub mod Placed
pub mod Resolve
pub mod Loop
pub mod Patch
pub mod Exact
pub mod Suffixes
pub mod Simulates
pub mod Correct
use light_packet.Base.{
  ℕ, zero, suc, ◌+◌, bit_and, Bool, true, false, ◌&&◌, Option, none, some, List, [], ◌∷◌, ◌++◌, map,
  length, get_elem?, get_or, set, replicate, ltb, leb, ◌==◌, if◌then◌else◌,
}
use light_packet.Base.Int.{ℤ, pos, negsuc, ◌-ℤ◌, leb_ℤ}
use light_packet.Base.Exceptions.{Result, ok, raise, ◌>>=◌, key_error, value_error}
use light_packet.LightBpf.Opcode.{bpf_jmp, bpf_ja, bpf_max_buf_len, insn_class, insn_op}
use light_packet.LightBpf.Instruction.{Instruction}
use light_packet.LightBpf.Peephole
use light_packet.LightBpf.Ast.{Node}
use light_packet.LightBpf.Compiler.Code.{
  Label, accept, reject, local, Operand, num, to, Item, insn, label, plain, initial, ret_k,
}
use light_packet.LightBpf.Compiler.Platform.{Platform}
use light_packet.LightBpf.Compiler.Boolean.{compile_bool}

-- Labels are equal as the strings are.
unfoldable pub label_eqb : Label → Label → Bool
label_eqb accept accept = true
label_eqb reject reject = true
label_eqb (local m) (local n) = m == n
label_eqb _ _ = false

-- An operand in the course of backpatching: an offset, or a label still.
pub data Field : Type 0 where
  offset : ℤ → Field
  pending : Label → Field

pub record Symbolic : Type 0 where
  pub code : ℕ
  pub jt : Field
  pub jf : Field
  pub k : Field

abbrev pub field_of : Operand → Field
field_of (num n) = offset (pos n)
field_of (to l) = pending l

-- The instructions without the labels.
unfoldable pub clean : List Item → List Symbolic
clean [] = []
clean (label l ∷ items) = clean items
clean (insn c t f k ∷ items) =
    record { code = c; jt = field_of t; jf = field_of f; k = field_of k } ∷ clean items

-- `label_map`, from the index `n` on: the last definition of a label counts.
unfoldable pub label_map : ℕ → List Item → Label → Option ℕ
label_map n [] l = none
label_map n (insn c t f k ∷ items) l = label_map (suc n) items l
label_map n (label m ∷ items) l = elim (label_map n items l) [
  | some i ↦ some i
  | none ↦ if label_eqb m l then some n else none
]

-- The two return instructions, with the labels of the filter's ends.
unfoldable pub with_returns : List Item → List Item
with_returns items =
    items ++ label accept ∷ plain ret_k bpf_max_buf_len ∷ label reject ∷ plain ret_k 0 ∷ []

-- `label_map[l]`.
unfoldable pub index_of : List Item → Label → Result ℕ
index_of items l = elim (label_map 0 items l) [ none ↦ raise key_error | some i ↦ ok i ]

-- An unconditional jump to a label still.
unfoldable pub jump_label : Symbolic → Option Label
jump_label s =
    if (insn_class s.code == bpf_jmp) && (insn_op s.code == bpf_ja)
    then elim s.k [ offset v ↦ none | pending l ↦ some l ]
    else none

-- The loop of `resolve`, on fuel: each round marks an index, so the length is enough.
unfoldable pub resolve : ℕ → List Item → List Symbolic → List Bool → ℕ → Result ℕ
resolve zero items code seen idx = ok idx
resolve (suc fuel) items code seen idx = elim (get_elem? code idx) [
  | none ↦ ok idx
  | some s ↦ elim (get_or seen idx true) [
    | true ↦ ok idx
    | false ↦ elim (jump_label s) [
      | none ↦ ok idx
      | some l ↦ index_of items l >>= resolve fuel items code (set seen idx true)
    ]
  ]
]

-- `resolve(label_map[l]) - (i + 1)`, and an offset as it is.
unfoldable pub patch : List Item → List Symbolic → ℕ → Field → Result ℤ
patch items code i (offset v) = ok v
patch items code i (pending l) = do
  idx ← index_of items l
  target ← resolve (length code) items code (replicate (length code) false) idx
  ok (pos target -ℤ pos (i + 1))

-- `0 <= v <= 255`.
unfoldable pub check_offset : ℤ → Result ℤ
check_offset v = if leb_ℤ (pos 0) v && leb_ℤ v (pos 255) then ok v else raise value_error

-- The body of the loop: the instruction at `i`, backpatched.
unfoldable pub patch_insn : List Item → List Symbolic → ℕ → Symbolic → Result Symbolic
patch_insn items code i s =
    if insn_class s.code == bpf_jmp
    then (if insn_op s.code == bpf_ja
        then (patch items code i s.k >>= λ k. ok (record s { k = offset k }))
        else (do
          t ← patch items code i s.jt
          f ← patch items code i s.jf
          t' ← check_offset t
          f' ← check_offset f
          ok (record s { jt = offset t'; jf = offset f' })))
    else ok s

-- The loop over `n` instructions from `i` on; the list is changed in place.
unfoldable pub patch_from : List Item → ℕ → ℕ → List Symbolic → Result (List Symbolic)
patch_from items zero i code = ok code
patch_from items (suc n) i code = elim (get_elem? code i) [
  | none ↦ ok code
  | some s ↦ patch_insn items code i s >>= λ s'. patch_from items n (suc i) (set code i s')
]

-- A label that is left, in a field that no jump has, counts as 0.
abbrev pub number_field : Field → ℤ
number_field (offset v) = v
number_field (pending l) = pos 0

unfoldable pub finish : Symbolic → Instruction
finish s = record {
  code = s.code;
  jt = number_field s.jt;
  jf = number_field s.jf;
  k = number_field s.k;
}

unfoldable pub assemble_and_backpatch : List Item → Result (List Instruction)
assemble_and_backpatch items = do
  let whole = with_returns items
  code ← patch_from whole (length (clean whole)) 0 (clean whole)
  ok (map finish code)

-- `compile`.
unfoldable pub compile : Platform → ℕ → Bool → Node → Result (List Instruction)
compile platform linktype optimize ast_root = do
  emitted ← compile_bool platform ast_root accept reject (initial linktype)
  code ← assemble_and_backpatch emitted.0
  ok (if optimize then Peephole.optimize code else code)
