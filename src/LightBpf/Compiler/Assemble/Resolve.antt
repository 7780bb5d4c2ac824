-- ===== src/LightBpf/Compiler/Assemble/Resolve.antt =====
-- `resolve` of LightBPF/CompilerSet/Compiler.py, on code of which every label is ahead.
use light_packet.Base.{
  ℕ, zero, suc, ◌≤◌, Bool, true, some, List, ◌==◌, ◌≡◌, refl, inl, inr, arith, get_elem?, get_or,
  set, Bool-cases, Option-cases,
}
use light_packet.Base.Exceptions.{ok}
use light_packet.LightBpf.Opcode.{bpf_jmp, bpf_ja, insn_class, insn_op}
use light_packet.LightBpf.Compiler.Code.{Label, Item}
use light_packet.LightBpf.Compiler.Assemble.{
  pending, Symbolic, label_map, index_of, jump_label, resolve,
}
use light_packet.LightBpf.Compiler.Assemble.Placed.{IsAhead, JumpsAhead, IsFinal}

module _ (items : List Item) where
  -- The list while it is backpatched up to `i`: what is behind is still placed.
  abbrev pub Patched : ℕ → List Symbolic → Type 0
  Patched i code =
      (j : ℕ) (s : Symbolic)
      → get_elem? code j ≡ some s
      → IsFinal s
        × (i ≤ j
            → JumpsAhead (insn_class s.code == bpf_jmp) (insn_op s.code == bpf_ja)
                (label_map 0 items) j s)

  pub jump_label-some :
      (s : Symbolic) (l : Label)
      → jump_label s ≡ some l
      → ((insn_class s.code == bpf_jmp) ≡ true)
        × ((insn_op s.code == bpf_ja) ≡ true)
        × (s.k ≡ pending l)
  unfolding jump_label
  jump_label-some s l e = ground arith

  jump_label-IsAhead :
      (j : ℕ) (s : Symbolic) (l : Label)
      → jump_label s ≡ some l
      → JumpsAhead (insn_class s.code == bpf_jmp) (insn_op s.code == bpf_ja) (label_map 0 items) j s
      → IsAhead (label_map 0 items) j (pending l)
  jump_label-IsAhead j s l e h =
      let (jmp, always, k) = jump_label-some s l e in rw (jmp, always, k) at h

  pub index_of_lem : (l : Label) (j : ℕ) → label_map 0 items l ≡ some j → index_of items l ≡ ok j
  unfolding index_of
  index_of_lem l j e = ground arith

  -- The chain of unconditional jumps leads on.
  pub resolve-ge :
      (i : ℕ) (code : List Symbolic)
      → Patched i code
      → (fuel : ℕ) (seen : List Bool) (idx : ℕ) → i ≤ idx
      → (r : ℕ) × (resolve fuel items code seen idx ≡ ok r) × (idx ≤ r)
  unfolding resolve
  resolve-ge i code h zero seen idx ge = (idx, refl, omega arith)
  resolve-ge i code h (suc fuel) seen idx ge = elim (Option-cases (get_elem? code idx)) [
    | inl out ↦ (idx, rw (out, resolve) refl, omega arith)
    | inr (s, found) ↦ elim (Bool-cases (get_or seen idx true)) [
      | inl visited ↦ (idx, rw (found, resolve) (rw (visited, resolve) refl), omega arith)
      | inr fresh ↦ elim (Option-cases (jump_label s)) [
        | inl other ↦
            (idx, rw (found, resolve) (rw (fresh, resolve) (rw (other, resolve) refl)), omega arith)
        | inr (l, jump) ↦
            let (j, at, later) = jump_label-IsAhead idx s l jump ((h idx s found).1 ge) in
            let (r, done, on) = resolve-ge i code h fuel (set seen idx true) j (omega arith) in
            (
              r,
              rw (found, resolve)
                  (rw (fresh, resolve) (rw (jump, resolve) (rw (index_of_lem l j at) done))),
              omega arith,
            )
      ]
    ]
  ]
