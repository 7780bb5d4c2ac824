-- ===== src/LightBpf/Compiler/Assemble/Placed.antt =====
-- Code that keeps to its labels, as LightBPF/CompilerSet/Compiler.py assembles it: every label of a
-- jump stands behind the jump.
use light_packet.Base.{
  ℕ, zero, suc, ◌+◌, ◌<◌, Bool, true, false, Option, some, List, [], ◌∷◌, ◌++◌, ◌==◌, ◌≡◌, refl,
  sym, ◌⊎◌, inl, inr, arith, get_elem?,
}
use light_packet.Base.Int.{pos, neg_part}
use light_packet.LightBpf.Opcode.{bpf_jmp, bpf_ja, bpf_ret, bpf_max_buf_len, insn_class, insn_op}
use light_packet.LightBpf.Compiler.Code.{
  Label, accept, reject, Operand, num, to, Item, insn, label, plain, ret_k,
}
use light_packet.LightBpf.Compiler.Assemble.{
  Field, offset, pending, Symbolic, field_of, clean, label_map, with_returns, number_field,
}
use light_packet.LightBpf.Compiler.Assemble.Labels.{label_map-some, label_map-there}
use light_packet.LightBpf.Compiler.Scope.{
  IsIn, labels_of, labels_of-append, IsTarget, Fits, FitsCode, IsForward,
}

-- The places of the labels, as `label_map` has them.
abbrev pub Places : Type 0
Places = Label → Option ℕ

-- A field of the instruction at `i`: an offset that is not negative, or a label behind it.
abbrev pub IsAhead : Places → ℕ → Field → Type 0
IsAhead places i (offset v) = neg_part v ≡ 0
IsAhead places i (pending l) = (j : ℕ) × (places l ≡ some j) × (i < j)

-- What an instruction jumps to is ahead: whether it is a jump, and an unconditional one.
abbrev pub JumpsAhead : Bool → Bool → Places → ℕ → Symbolic → Type 0
JumpsAhead true true places i s = IsAhead places i s.k
JumpsAhead true false places i s = IsAhead places i s.jt × IsAhead places i s.jf
JumpsAhead false j places i s = Unit

-- The operands are unsigned, and an instruction that returns has one of the two verdicts.
pub record IsFinal (s : Symbolic) : Type 0 where
  pub jt_sign : neg_part (number_field s.jt) ≡ 0
  pub jf_sign : neg_part (number_field s.jf) ≡ 0
  pub k_sign : neg_part (number_field s.k) ≡ 0
  pub verdict :
      insn_class s.code ≡ bpf_ret
      → (number_field s.k ≡ pos 0) ⊎ (number_field s.k ≡ pos bpf_max_buf_len)

-- An instruction before it is backpatched.
pub record IsPlaced (places : Places) (i : ℕ) (s : Symbolic) : Type 0 where
  pub final : IsFinal s
  pub ahead : JumpsAhead (insn_class s.code == bpf_jmp) (insn_op s.code == bpf_ja) places i s

-- All of a list, each at its index, from `n` on.
abbrev pub AllFrom : (ℕ → Symbolic → Type 0) → ℕ → List Symbolic → Type 0
AllFrom P n [] = Unit
AllFrom P n (s ∷ code) = P n s × AllFrom P (suc n) code

pub AllFrom-get_elem? :
    (P : ℕ → Symbolic → Type 0) (n : ℕ) (code : List Symbolic) (j : ℕ) (s : Symbolic)
    → AllFrom P n code
    → get_elem? code j ≡ some s
    → P (n + j) s
AllFrom-get_elem? P n [] j s h e = absurd (ground arith)
AllFrom-get_elem? P n (x ∷ code) zero s h e =
    let i : n + 0 ≡ n = omega arith in let same : x ≡ s = cc in rw (i, sym same) h.0
AllFrom-get_elem? P n (x ∷ code) (suc j) s h e =
    let i : n + suc j ≡ suc n + j = omega arith in rw i (AllFrom-get_elem? P (suc n) code j s h.1 e)

-- The places of a part of the code are those of the whole.
abbrev Agrees : Places → ℕ → List Item → Type 0
Agrees places n items = (l : Label) (j : ℕ) → label_map n items l ≡ some j → places l ≡ some j

module _ (places : Places) where
  label-IsAhead :
      (n : ℕ) (items : List Item) (l : Label)
      → Agrees places (suc n) items
      → IsIn l (labels_of items)
      → IsAhead places n (pending l)
  label-IsAhead n items l h at =
      let (j, found, ge) = label_map-some (suc n) items l at in (j, h l j found, omega (arith, ge))

  field_of-IsAhead :
      (n : ℕ) (items : List Item) (o : Operand)
      → Agrees places (suc n) items
      → IsTarget (labels_of items) o
      → IsAhead places n (field_of o)
  field_of-IsAhead n items (num k) h t = refl
  field_of-IsAhead n items (to l) h t = label-IsAhead n items l h t

field_sign : (o : Operand) → neg_part (number_field (field_of o)) ≡ 0
field_sign (num n) = refl
field_sign (to l) = refl

module _ (places : Places) where
  Fits-JumpsAhead :
      (j u r : Bool) (n c : ℕ) (items : List Item) (t f k : Operand)
      → Agrees places (suc n) items
      → Fits j u r (labels_of items) t f k
      → JumpsAhead j u places n
          (record { code = c; jt = field_of t; jf = field_of f; k = field_of k })
  Fits-JumpsAhead true true r n c items t f (num k) h p = elim p [ ]
  Fits-JumpsAhead true true r n c items t f (to l) h p = label-IsAhead places n items l h p
  Fits-JumpsAhead true false r n c items t f k h p =
      (field_of-IsAhead places n items t h p.0, field_of-IsAhead places n items f h p.1)
  Fits-JumpsAhead false u r n c items t f k h p = tt

  insn-IsPlaced :
      (n c : ℕ) (items : List Item) (t f k : Operand)
      → Agrees places (suc n) items
      → FitsCode c (labels_of items) t f k
      → IsPlaced places n (record { code = c; jt = field_of t; jf = field_of f; k = field_of k })
  insn-IsPlaced n c items t f k h p = record {
    final = record {
      jt_sign = field_sign t;
      jf_sign = field_sign f;
      k_sign = field_sign k;
      verdict = λ ret. absurd (rw ret at p);
    };
    ahead =
        Fits-JumpsAhead (insn_class c == bpf_jmp) (insn_op c == bpf_ja) (insn_class c == bpf_ret) n
          c items t f k h p;
  }

  clean-IsPlaced :
      (n : ℕ) (items ends : List Item)
      → Agrees places n (items ++ ends)
      → IsForward (labels_of ends) items
      → ((m : ℕ) → AllFrom (IsPlaced places) m (clean ends))
      → AllFrom (IsPlaced places) n (clean (items ++ ends))
  unfolding clean label_map
  clean-IsPlaced n [] ends h p e = e n
  clean-IsPlaced n (label l ∷ items) ends h p e =
      clean-IsPlaced n items ends
        (λ m j found. h m j (label_map-there n (items ++ ends) m l j found)) p e
  clean-IsPlaced n (insn c t f k ∷ items) ends h (p, ps) e = (
    insn-IsPlaced n c (items ++ ends) t f k h (rw (labels_of-append items ends) p),
    clean-IsPlaced (suc n) items ends h ps e,
  )

  -- The two returns that stand last.
  returns-IsPlaced :
      (m : ℕ)
      → AllFrom
          (IsPlaced places)
          m
          (clean (label accept ∷ plain ret_k bpf_max_buf_len ∷ label reject ∷ plain ret_k 0 ∷ []))
  unfolding clean insn_class insn_op
  returns-IsPlaced m = (
    record {
      final = record { jt_sign = refl; jf_sign = refl; k_sign = refl; verdict = λ ret. inr refl };
      ahead = tt;
    },
    (
      record {
        final = record { jt_sign = refl; jf_sign = refl; k_sign = refl; verdict = λ ret. inl refl };
        ahead = tt;
      },
      tt,
    ),
  )

-- What is emitted for a filter that goes to `accept` and `reject`, with the returns: each instruction
-- is placed.
pub with_returns-IsPlaced :
    (items : List Item)
    → IsForward (accept ∷ reject ∷ []) items
    → AllFrom (IsPlaced (label_map 0 (with_returns items))) 0 (clean (with_returns items))
unfolding with_returns
with_returns-IsPlaced items p =
    clean-IsPlaced _ 0 items
      (label accept ∷ plain ret_k bpf_max_buf_len ∷ label reject ∷ plain ret_k 0 ∷ [])
      (λ l j found. found) p (returns-IsPlaced _)
