-- ===== src/LightBpf/Compiler/Assemble/Patch.antt =====
-- `_assemble_and_backpatch` of LightBPF/CompilerSet/Compiler.py on code of which every label is
-- ahead: it finds every label, and raises only where a jump is too long.
use light_packet.Base.{
  ℕ, zero, suc, ◌+◌, ◌≤◌, ◌<◌, true, false, ◌&&◌, some, List, ◌==◌, ◌≡◌, refl, sym, inl, inr, arith,
  length, get_elem?, get_elem?-lt, length-set, ==_iff, ◌≢◌, get_elem?-set_self, get_elem?-set_ne,
  set, replicate, Bool-cases, Option-cases,
}
use light_packet.Base.Int.{ℤ, pos, ◌-ℤ◌, leb_ℤ, neg_part, -ℤ_parts}
use light_packet.Base.Exceptions.{Result, ok, raise, ◌>>=◌, value_error}
use light_packet.LightBpf.Opcode.{bpf_jmp, bpf_ja, bpf_ret, insn_class, insn_op}
use light_packet.LightBpf.Compiler.Code.{Item}
use light_packet.LightBpf.Compiler.Assemble.{
  Field, offset, pending, Symbolic, label_map, patch, check_offset, patch_insn, patch_from,
}
use light_packet.LightBpf.Compiler.Assemble.Placed.{IsAhead, JumpsAhead, IsFinal}
use light_packet.LightBpf.Compiler.Assemble.Resolve.{Patched, index_of_lem, resolve-ge}

-- What may be raised is the ValueError of a jump that is too long.
abbrev pub Gives {ℓ} : {A : Type ℓ} → (A → Type 0) → Result A → Type 0
Gives P (ok a) = P a
Gives P (raise e) = e ≡ value_error

pub Gives-bind :
    {A B : Type 0} (P : A → Type 0) (Q : B → Type 0) (r : Result A) (k : A → Result B)
    → Gives P r
    → ((a : A) → P a → Gives Q (k a))
    → Gives Q (r >>= k)
Gives-bind P Q (ok a) k h hk = hk a h
Gives-bind P Q (raise e) k h hk = h

module _ (items : List Item) where
  -- An offset from `i` to a later instruction.
  distance : (i r : ℕ) → i < r → neg_part (pos r -ℤ pos (i + 1)) ≡ 0
  distance i r h = ground (arith, -ℤ_parts (pos r) (pos (i + 1)))

  patch-unsigned :
      (i : ℕ) (code : List Symbolic) (f : Field)
      → Patched items i code
      → IsAhead (label_map 0 items) i f
      → (v : ℤ) × (patch items code i f ≡ ok v) × (neg_part v ≡ 0)
  unfolding patch
  patch-unsigned i code (offset v) h a = (v, refl, a)
  patch-unsigned i code (pending l) h (j, at, later) =
      let (r, done, on) =
        resolve-ge items i code h (length code) (replicate (length code) false) j (omega arith) in
      (
        pos r -ℤ pos (i + 1),
        rw (index_of_lem items l j at) (rw done refl),
        distance i r (omega arith),
      )

  abbrev IsUnsignedOffset : ℤ → Type 0
  IsUnsignedOffset v = neg_part v ≡ 0

  check_offset-Gives : (v : ℤ) → neg_part v ≡ 0 → Gives IsUnsignedOffset (check_offset v)
  unfolding check_offset
  check_offset-Gives v h = elim (Bool-cases (leb_ℤ (pos 0) v && leb_ℤ v (pos 255))) [
    | inl e ↦ rw e h
    | inr e ↦ rw e refl
  ]

  -- A return is no jump.
  no-verdict :
      (s : Symbolic) → (insn_class s.code == bpf_jmp) ≡ true → (insn_class s.code ≡ bpf_ret) → ⊥
  no-verdict s jmp ret = absurd (ground arith)

  patch_insn-IsFinal :
      (i : ℕ) (code : List Symbolic) (s : Symbolic)
      → Patched items i code
      → IsFinal s
      → JumpsAhead (insn_class s.code == bpf_jmp) (insn_op s.code == bpf_ja) (label_map 0 items) i s
      → Gives IsFinal (patch_insn items code i s)
  unfolding patch_insn
  patch_insn-IsFinal i code s h final ahead = elim (Bool-cases (insn_class s.code == bpf_jmp)) [
    | inr other ↦ rw (other, patch_insn) final
    | inl jmp ↦ elim (Bool-cases (insn_op s.code == bpf_ja)) [
      | inl always ↦
          let (v, e, sign) = patch-unsigned i code s.k h (rw (jmp, always) at ahead) in
          rw (jmp, patch_insn)
            (rw (always, patch_insn)
              (rw e (record {
                jt_sign = final.jt_sign;
                jf_sign = final.jf_sign;
                k_sign = sign;
                verdict = λ ret. absurd (no-verdict s jmp ret);
              })))
      | inr when ↦
          let both = rw (jmp, when) at ahead in
          let (t, te, ts) = patch-unsigned i code s.jt h both.0 in
          let (f, fe, fs) = patch-unsigned i code s.jf h both.1 in
          rw (jmp, patch_insn)
            (rw (when, patch_insn)
              (rw (te, fe)
                (Gives-bind IsUnsignedOffset IsFinal (check_offset t) _ (check_offset-Gives t ts)
                  λ t' ts'.
                    Gives-bind IsUnsignedOffset IsFinal (check_offset f) _ (check_offset-Gives f fs)
                      λ f' fs'. record {
                        jt_sign = ts';
                        jf_sign = fs';
                        k_sign = final.k_sign;
                        verdict = λ ret. absurd (no-verdict s jmp ret);
                      })))
    ]
  ]

  -- An instruction that is backpatched is behind the rest.
  set-Patched :
      (i : ℕ) (code : List Symbolic) (s' : Symbolic)
      → i < length code
      → Patched items i code
      → IsFinal s'
      → Patched items (suc i) (set code i s')
  set-Patched i code s' inside h final j s e = elim (Bool-cases (i == j)) [
    | inl p ↦
        let at : i ≡ j = (==_iff i j).0 p in
        let same : s' ≡ s = cc (get_elem?-set_self code i s' inside) in
        (rw (sym same) final, λ after. absurd (omega arith))
    | inr n ↦
        let apart : i ≢ j = λ at. absurd (ground (arith, ==_iff i j)) in
        let old : get_elem? code j ≡ some s = cc (get_elem?-set_ne code i j s' apart) in
        ((h j s old).0, λ after. (h j s old).1 (omega arith))
  ]

  pub patch_from-IsFinal :
      (n i : ℕ) (code : List Symbolic)
      → length code ≤ i + n
      → Patched items i code
      → Gives
          (λ code'. (j : ℕ) (s : Symbolic) → get_elem? code' j ≡ some s → IsFinal s)
          (patch_from items n i code)
  unfolding patch_from
  patch_from-IsFinal zero i code bound h = λ j s e. (h j s e).0
  patch_from-IsFinal (suc n) i code bound h = elim (Option-cases (get_elem? code i)) [
    | inl out ↦ rw (out, patch_from) (λ j s e. (h j s e).0)
    | inr (s, found) ↦
        rw (found, patch_from)
          (Gives-bind IsFinal _ (patch_insn items code i s) _
            (patch_insn-IsFinal i code s h (h i s found).0 ((h i s found).1 (omega arith)))
            λ s' final.
              patch_from-IsFinal n (suc i) (set code i s') (omega (arith, length-set code i s'))
                (set-Patched i code s' (get_elem?-lt code i s found) h final))
  ]
