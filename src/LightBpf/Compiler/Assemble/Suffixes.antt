-- ===== src/LightBpf/Compiler/Assemble/Suffixes.antt =====
-- The parts of the emitted code behind its instructions, and where a run of them goes to.
use light_packet.Base.{
  ℕ, suc, ◌+◌, Bool, true, false, none, some, List, [], ◌∷◌, ◌==◌, ◌≡◌, refl, sym, inl, inr, arith,
  get_elem?, length, ◌≤◌, ◌<◌, Bool-cases, Option-cases,
}
use light_packet.LightBpf.Opcode.{bpf_jmp, bpf_ja, insn_class, insn_op}
use light_packet.LightBpf.Emulator.{State, Outcome}
use light_packet.LightBpf.Compiler.Code.{Label, Operand, num, to, Item, insn, label}
use light_packet.LightBpf.Compiler.Assemble.{
  pending, Symbolic, clean, label_map, label_eqb, jump_label, field_of,
}
use light_packet.LightBpf.Compiler.Assemble.Resolve.{jump_label-some}
use light_packet.LightBpf.Compiler.Scope.{IsIn, labels_of}
use light_packet.LightBpf.Compiler.Symbolic.{
  ends, on, run_items, move_item, move_by, label_eqb→eq, Distinct,
}

-- A label that stands somewhere is defined.
label_map-IsIn :
    (n : ℕ) (items : List Item) (l : Label) (j : ℕ)
    → label_map n items l ≡ some j
    → IsIn l (labels_of items)
unfolding label_map
label_map-IsIn n [] l j e = absurd (ground arith)
label_map-IsIn n (insn c t f k ∷ items) l j e = label_map-IsIn (suc n) items l j e
label_map-IsIn n (label m ∷ items) l j e = elim (Bool-cases (label_eqb m l)) [
  | inl same ↦ inl (sym (label_eqb→eq m l same))
  | inr other ↦ elim (Option-cases (label_map n items l)) [
    | inl out ↦ absurd (ground arith)
    | inr (i, found) ↦ inr (label_map-IsIn n items l i found)
  ]
]

abbrev pub symbolic : ℕ → Operand → Operand → Operand → Symbolic
symbolic c t f k = record { code = c; jt = field_of t; jf = field_of f; k = field_of k }

field_of-pending : (k : Operand) (l : Label) → field_of k ≡ pending l → k ≡ to l
field_of-pending (num n) l e = cc
field_of-pending (to m) l e = cc

move_item-ja :
    (packet : List ℕ) (c : ℕ) (t f k : Operand) (s : State) (l : Label)
    → (insn_class c == bpf_jmp) ≡ true
    → (insn_op c == bpf_ja) ≡ true
    → k ≡ to l
    → move_item packet c t f k s ≡ on (some l) s
unfolding move_item move_by
move_item-ja packet c t f k s l jmp always e = rw (jmp, always, e) refl

-- A jump has labels, or the next instruction by the offset 0.
abbrev pub AimsAt : Operand → Type 0
AimsAt (num n) = n ≡ 0
AimsAt (to l) = Unit

abbrev pub IsAimed : Bool → Bool → Operand → Operand → Operand → Type 0
IsAimed true true t f (num n) = ⊥
IsAimed true true t f (to l) = Unit
IsAimed true false t f k = AimsAt t × AimsAt f
IsAimed false u t f k = Unit

abbrev pub AllAimed : List Item → Type 0
AllAimed [] = Unit
AllAimed (label l ∷ items) = AllAimed items
AllAimed (insn c t f k ∷ items) =
    IsAimed (insn_class c == bpf_jmp) (insn_op c == bpf_ja) t f k × AllAimed items

module _ (whole : List Item) where
  -- A part of the whole code that has `n` instructions before it.
  pub record IsSuffix (n : ℕ) (items : List Item) : Type 0 where
    pub elements : (m : ℕ) → get_elem? (clean items) m ≡ get_elem? (clean whole) (n + m)
    pub places : (l : Label) (j : ℕ) → label_map n items l ≡ some j → label_map 0 whole l ≡ some j
    pub distinct : Distinct (labels_of items)
    pub aimed : AllAimed items

  pub label-IsSuffix :
      (n : ℕ) (l : Label) (items : List Item) → IsSuffix n (label l ∷ items) → IsSuffix n items
  unfolding clean label_map
  label-IsSuffix n l items h = record {
    elements = h.elements;
    places = λ m j e. h.places m j (ground arith);
    distinct = h.distinct.1;
    aimed = h.aimed;
  }

  pub insn-IsSuffix :
      (n c : ℕ) (t f k : Operand) (items : List Item)
      → IsSuffix n (insn c t f k ∷ items)
      → IsSuffix (suc n) items
  unfolding clean label_map
  insn-IsSuffix n c t f k items h = record {
    elements = λ m. let e : n + suc m ≡ suc n + m = omega arith in rw e at (h.elements (suc m));
    places = h.places;
    distinct = h.distinct;
    aimed = h.aimed.1;
  }

  -- The label is the next thing in the code.
  label_map-first :
      (n : ℕ) (m l : Label) (items : List Item)
      → Distinct (labels_of (label m ∷ items))
      → label_eqb m l ≡ true
      → label_map n (label m ∷ items) l ≡ some n
  unfolding label_map
  label_map-first n m l items d e = elim (Option-cases (label_map n items l)) [
    | inl out ↦ rw (out, label_map) (rw e refl)
    | inr (i, found) ↦
        let same : m ≡ l = label_eqb→eq m l e in
        absurd (d.0 (rw same (label_map-IsIn n items l i found)))
  ]

  module _ (packet : List ℕ) where
    -- Where a run goes on behind a label.
    pub record GoesTo (bound : ℕ) (l : Label) (s : State) (o : Outcome) : Type 0 where
      pub place : ℕ
      pub rest : List Item
      pub placed : label_map 0 whole l ≡ some place
      pub suffix : IsSuffix place rest
      pub goes_on : run_items packet rest none s ≡ ends o
      pub shorter : length rest < bound

    pub seek :
        (bound n : ℕ) (items : List Item) (l : Label) (s : State) (o : Outcome)
        → length items ≤ bound
        → IsSuffix n items
        → run_items packet items (some l) s ≡ ends o
        → GoesTo bound l s o
    unfolding run_items
    seek bound n [] l s o b h e = absurd (ground arith)
    seek bound n (insn c t f k ∷ items) l s o b h e =
        seek bound (suc n) items l s o (omega arith) (insn-IsSuffix n c t f k items h) e
    seek bound n (label m ∷ items) l s o b h e = elim (Bool-cases (label_eqb m l)) [
      | inr other ↦
          seek bound n items l s o (omega arith) (label-IsSuffix n m items h) (rw other at e)
      | inl same ↦ record {
        place = n;
        rest = items;
        placed = h.places l n (label_map-first n m l items h.distinct same);
        suffix = label-IsSuffix n m items h;
        goes_on = rw same at e;
        shorter = omega arith;
      }
    ]

    -- Code of which the first instruction jumps to a label goes on there.
    pub first-jump :
        (bound n : ℕ) (items : List Item) (sym_insn : Symbolic) (l : Label) (s : State)
        (o : Outcome)
        → length items ≤ bound
        → IsSuffix n items
        → get_elem? (clean whole) n ≡ some sym_insn
        → jump_label sym_insn ≡ some l
        → run_items packet items none s ≡ ends o
        → GoesTo bound l s o
    unfolding run_items clean
    first-jump bound n [] x l s o b h at jump e = absurd (ground arith)
    first-jump bound n (label m ∷ items) x l s o b h at jump e =
        first-jump bound n items x l s o (omega arith) (label-IsSuffix n m items h) at jump e
    first-jump bound n (insn c t f k ∷ items) x l s o b h at jump e =
        let here : n + 0 ≡ n = omega arith in
        let first : get_elem? (clean whole) n ≡ some (symbolic c t f k) =
          sym (rw here at (h.elements 0)) in
        let same : x ≡ symbolic c t f k = cc in
        let (jmp, always, kl) = rw same at (jump_label-some whole x l jump) in
        let move = move_item-ja packet c t f k s l jmp always (field_of-pending k l kl) in
        seek bound (suc n) items l s o (omega arith) (insn-IsSuffix n c t f k items h)
          (rw move at e)
