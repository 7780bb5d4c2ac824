-- ===== src/LightBpf/Compiler/Assemble/Exact.antt =====
-- What `_assemble_and_backpatch` of LightBPF/CompilerSet/Compiler.py makes of each instruction.
use light_packet.Base.{
  ℕ, zero, suc, ◌+◌, ◌≤◌, ◌<◌, Bool, true, false, none, some, List, ◌==◌, ◌≡◌, ◌≢◌, refl, sym, ◌∙◌,
  inl, inr, arith, length, get_elem?, get_elem?-lt, get_elem?-some, get_elem?-set_self,
  get_elem?-set_ne, length-set, le_of_get_elem?-none, get_or, set, replicate, ==_iff, ltb, ltb→lt,
  Bool-cases, Option-cases,
}
use light_packet.Base.Int.{ℤ, pos, ◌-ℤ◌}
use light_packet.Base.Exceptions.{ok, >>=-eq-ok, ok-eq}
use light_packet.LightBpf.Opcode.{bpf_jmp, bpf_ja, insn_class, insn_op}
use light_packet.LightBpf.Compiler.Code.{Label, Item}
use light_packet.LightBpf.Compiler.Assemble.{
  Field, offset, pending, Symbolic, clean, label_map, index_of, jump_label, resolve, patch,
  check_offset, patch_insn, patch_from,
}

module _ (items : List Item) where
  -- Unconditional jumps lead from an index to another.
  pub data Chain : ℕ → ℕ → Type 0 where
    stays : {j : ℕ} → Chain j j
    hops :
        {j r : ℕ} (s : Symbolic) (l : Label) (p : ℕ)
        → get_elem? (clean items) j ≡ some s
        → jump_label s ≡ some l
        → label_map 0 items l ≡ some p
        → Chain p r
        → Chain j r

  -- The offset that a field of the instruction at `j` gets.
  abbrev pub IsPatched : ℕ → Field → ℤ → Type 0
  IsPatched j (offset w) v = v ≡ w
  IsPatched j (pending l) v =
      (p : ℕ) × (r : ℕ) × (label_map 0 items l ≡ some p) × Chain p r × (v ≡ pos r -ℤ pos (j + 1))

  abbrev pub Became : Bool → Bool → ℕ → Symbolic → Symbolic → Type 0
  Became true true j s s' = (v : ℤ) × IsPatched j s.k v × (s' ≡ record s { k = offset v })
  Became true false j s s' =
      (t : ℤ) × (f : ℤ) × IsPatched j s.jt t
      × IsPatched j s.jf f
      × (s' ≡ record s { jt = offset t; jf = offset f })
  Became false u j s s' = s' ≡ s

  abbrev pub IsPatchOf : ℕ → Symbolic → Symbolic → Type 0
  IsPatchOf j s = Became (insn_class s.code == bpf_jmp) (insn_op s.code == bpf_ja) j s

  -- The list while it is backpatched up to `i`.
  pub record IsStage (i : ℕ) (code : List Symbolic) : Type 0 where
    pub same_length : length code ≡ length (clean items)
    pub old : (j : ℕ) → i ≤ j → get_elem? code j ≡ get_elem? (clean items) j
    pub new :
        (j : ℕ) (s s' : Symbolic)
        → j < i
        → get_elem? (clean items) j ≡ some s
        → get_elem? code j ≡ some s'
        → IsPatchOf j s s'

  -- What is backpatched is no jump to a label any more.
  Became-jump_label :
      (b u : Bool) (j : ℕ) (s s' : Symbolic)
      → (insn_class s.code == bpf_jmp) ≡ b
      → (insn_op s.code == bpf_ja) ≡ u
      → Became b u j s s'
      → jump_label s' ≡ none
  unfolding jump_label
  Became-jump_label true true j s s' jmp ja (v, p, e) = rw (e, jmp, ja) refl
  Became-jump_label true false j s s' jmp ja (t, f, p, q, e) = rw (e, jmp, ja) refl
  Became-jump_label false u j s s' jmp ja e = rw (e, jmp) refl

  index_of-some : (l : Label) (p : ℕ) → index_of items l ≡ ok p → label_map 0 items l ≡ some p
  unfolding index_of
  index_of-some l p e = ground arith

  stage-jump :
      (i : ℕ) (code : List Symbolic)
      → IsStage i code
      → (j : ℕ) (s : Symbolic) (l : Label) → get_elem? code j ≡ some s
      → jump_label s ≡ some l
      → get_elem? (clean items) j ≡ some s
  stage-jump i code st j s l found jump = elim (Bool-cases (ltb j i)) [
    | inr after ↦ let later : i ≤ j = ground arith in sym (st.old j later) ∙ found
    | inl before ↦
        let (s0, e0) =
          get_elem?-some (clean items) j
            (omega (arith, get_elem?-lt code j s found, st.same_length)) in
        let none_e =
          Became-jump_label _ _ j s0 s refl refl (st.new j s0 s (ltb→lt j i before) e0 found) in
        absurd (ground arith)
  ]

  stays-eq : (j r : ℕ) → ok j ≡ ok r → Chain j r
  stays-eq j r e = rw (ok-eq e) stays

  resolve-Chain :
      (i : ℕ) (code : List Symbolic)
      → IsStage i code
      → (fuel : ℕ) (seen : List Bool) (idx r : ℕ) → resolve fuel items code seen idx ≡ ok r
      → Chain idx r
  unfolding resolve
  resolve-Chain i code st zero seen idx r e = stays-eq idx r e
  resolve-Chain i code st (suc fuel) seen idx r e = elim (Option-cases (get_elem? code idx)) [
    | inl out ↦ stays-eq idx r (rw (out, resolve) at e)
    | inr (s, found) ↦ elim (Bool-cases (get_or seen idx true)) [
      | inl visited ↦ stays-eq idx r (rw (visited, resolve) at (rw (found, resolve) at e))
      | inr fresh ↦ elim (Option-cases (jump_label s)) [
        | inl other ↦
            stays-eq idx r
              (rw (other, resolve) at (rw (fresh, resolve) at (rw (found, resolve) at e)))
        | inr (l, jump) ↦
            let (p, at, rest) =
              >>=-eq-ok (index_of items l) _
                (rw (jump, resolve) at (rw (fresh, resolve) at (rw (found, resolve) at e))) in
            hops s l p (stage-jump i code st idx s l found jump) jump (index_of-some l p at)
              (resolve-Chain i code st fuel (set seen idx true) p r rest)
      ]
    ]
  ]

  patch-IsPatched :
      (i : ℕ) (code : List Symbolic)
      → IsStage i code
      → (f : Field) (v : ℤ) → patch items code i f ≡ ok v
      → IsPatched i f v
  unfolding patch
  patch-IsPatched i code st (offset w) v e = sym (ok-eq e)
  patch-IsPatched i code st (pending l) v e =
      let (p, at, rest) = >>=-eq-ok (index_of items l) _ e in
      let (r, done, last) =
        >>=-eq-ok (resolve (length code) items code (replicate (length code) false) p) _ rest in
      (
        p,
        r,
        index_of-some l p at,
        resolve-Chain i code st (length code) _ p r done,
        sym (ok-eq last),
      )

  check_offset-same : (v w : ℤ) → check_offset v ≡ ok w → w ≡ v
  unfolding check_offset
  check_offset-same v w e = ground arith

  patch_insn-Became :
      (i : ℕ) (code : List Symbolic)
      → IsStage i code
      → (b u : Bool) (s s' : Symbolic) → (insn_class s.code == bpf_jmp) ≡ b
      → (insn_op s.code == bpf_ja) ≡ u
      → patch_insn items code i s ≡ ok s'
      → Became b u i s s'
  unfolding patch_insn
  patch_insn-Became i code st true true s s' jmp ja e =
      let (v, ev, last) = >>=-eq-ok (patch items code i s.k) _ (rw ja at (rw jmp at e)) in
      (v, patch-IsPatched i code st s.k v ev, sym (ok-eq last))
  patch_insn-Became i code st true false s s' jmp ja e =
      let (t, et, r1) = >>=-eq-ok (patch items code i s.jt) _ (rw ja at (rw jmp at e)) in
      let (f, ef, r2) = >>=-eq-ok (patch items code i s.jf) _ r1 in
      let (t', et', r3) = >>=-eq-ok (check_offset t) _ r2 in
      let (f', ef', last) = >>=-eq-ok (check_offset f) _ r3 in
      (
        t',
        f',
        rw (check_offset-same t t' et') (patch-IsPatched i code st s.jt t et),
        rw (check_offset-same f f' ef') (patch-IsPatched i code st s.jf f ef),
        sym (ok-eq last),
      )
  patch_insn-Became i code st false u s s' jmp ja e = sym (ok-eq (rw jmp at e))

  set-IsStage :
      (i : ℕ) (code : List Symbolic) (s' : Symbolic)
      → i < length code
      → IsStage i code
      → ((s : Symbolic) → get_elem? (clean items) i ≡ some s → IsPatchOf i s s')
      → IsStage (suc i) (set code i s')
  set-IsStage i code s' inside st patched = record {
    same_length = length-set code i s' ∙ st.same_length;
    old = λ j after.
        let apart : i ≢ j = λ e. absurd (omega arith) in
        let le : i ≤ j = omega arith in get_elem?-set_ne code i j s' apart ∙ st.old j le;
    new = λ j s x before e0 e. elim (Bool-cases (i == j)) [
      | inl p ↦
          let at : i ≡ j = (==_iff i j).0 p in
          let same : s' ≡ x = cc (get_elem?-set_self code i s' inside) in
          let here : get_elem? (clean items) i ≡ some s = cc in
          rw (sym at, sym same) (patched s here)
      | inr n ↦
          let apart : i ≢ j = λ at. absurd (ground (arith, ==_iff i j)) in
          let earlier : j < i = omega arith in
          st.new j s x earlier e0 (sym (get_elem?-set_ne code i j s' apart) ∙ e)
    ];
  }

  -- At the end every instruction is backpatched.
  stage-end :
      (i : ℕ) (code code' : List Symbolic)
      → length code ≤ i
      → IsStage i code
      → code ≡ code'
      → (length code' ≡ length (clean items))
        × ((j : ℕ) (s s' : Symbolic)
            → get_elem? (clean items) j ≡ some s
            → get_elem? code' j ≡ some s'
            → IsPatchOf j s s')
  stage-end i code code' bound st same = (
    rw (sym same) st.same_length,
    λ j s s' e0 e.
        let there : get_elem? code j ≡ some s' = cc in
        st.new j s s' (omega (arith, get_elem?-lt code j s' there)) e0 there,
  )

  -- The instruction at each index of what comes out.
  pub patch_from-IsPatchOf :
      (n i : ℕ) (code code' : List Symbolic)
      → length code ≤ i + n
      → IsStage i code
      → patch_from items n i code ≡ ok code'
      → (length code' ≡ length (clean items))
        × ((j : ℕ) (s s' : Symbolic)
            → get_elem? (clean items) j ≡ some s
            → get_elem? code' j ≡ some s'
            → IsPatchOf j s s')
  unfolding patch_from
  patch_from-IsPatchOf zero i code code' bound st e =
      stage-end i code code' (omega arith) st (ok-eq e)
  patch_from-IsPatchOf (suc n) i code code' bound st e = elim (Option-cases (get_elem? code i)) [
    | inl out ↦
        stage-end i code code' (le_of_get_elem?-none code i out) st
          (ok-eq (rw (out, patch_from) at e))
    | inr (s, found) ↦
        let (s', es, rest) =
          >>=-eq-ok (patch_insn items code i s) _ (rw (found, patch_from) at e) in
        patch_from-IsPatchOf n (suc i) (set code i s') code' (omega (arith, length-set code i s'))
          (set-IsStage i code s' (get_elem?-lt code i s found) st λ s0 e0.
            let this : s0 ≡ s = cc (st.old i (omega arith)) in
            rw this (patch_insn-Became i code st _ _ s s' refl refl es))
          rest
  ]

  pub clean-IsStage : IsStage 0 (clean items)
  clean-IsStage = record { same_length = refl; old = λ j h. refl; new = λ j s s' h. elim h [ ] }
