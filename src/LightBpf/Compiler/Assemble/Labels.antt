-- ===== src/LightBpf/Compiler/Assemble/Labels.antt =====
-- Where `label_map` of LightBPF/CompilerSet/Compiler.py has the labels.
use light_packet.Base.{
  ℕ, suc, ◌≤◌, true, none, some, List, [], ◌∷◌, ◌≡◌, refl, sym, inl, inr, arith, Option-cases,
  ==_iff,
}
use light_packet.LightBpf.Compiler.Code.{Label, accept, reject, local, Item, insn, label}
use light_packet.LightBpf.Compiler.Assemble.{label_eqb, label_map}
use light_packet.LightBpf.Compiler.Scope.{IsIn, labels_of}

label_eqb_refl : (l : Label) → label_eqb l l ≡ true
unfolding label_eqb
label_eqb_refl accept = refl
label_eqb_refl reject = refl
label_eqb_refl (local n) = (==_iff n n).1 refl

-- A label stands at the index of an instruction behind it.
label_map-ge :
    (n : ℕ) (items : List Item) (l : Label) (j : ℕ) → label_map n items l ≡ some j → n ≤ j
unfolding label_map
label_map-ge n [] l j e = absurd (ground arith)
label_map-ge n (insn c t f k ∷ items) l j e = omega (arith, label_map-ge (suc n) items l j e)
label_map-ge n (label m ∷ items) l j e = elim (Option-cases (label_map n items l)) [
  | inl none_e ↦ ground arith
  | inr (i, found) ↦ ground (arith, label_map-ge n items l i found)
]

label_map-here :
    (n : ℕ) (items : List Item) (l m : Label)
    → l ≡ m
    → label_map n items l ≡ none
    → label_map n (label m ∷ items) l ≡ some n
unfolding label_map
label_map-here n items l m e none_e =
    rw (none_e, label_map) (rw (sym e) (rw (label_eqb_refl l) refl))

pub label_map-there :
    (n : ℕ) (items : List Item) (l m : Label) (j : ℕ)
    → label_map n items l ≡ some j
    → label_map n (label m ∷ items) l ≡ some j
unfolding label_map
label_map-there n items l m j e = ground arith

-- A label that is defined has a place, no earlier than where the search starts.
pub label_map-some :
    (n : ℕ) (items : List Item) (l : Label)
    → IsIn l (labels_of items)
    → (j : ℕ) × (label_map n items l ≡ some j) × (n ≤ j)
unfolding label_map
label_map-some n [] l h = elim h [ ]
label_map-some n (insn c t f k ∷ items) l h =
    let (j, found, ge) = label_map-some (suc n) items l h in (j, found, omega (arith, ge))
label_map-some n (label m ∷ items) l (inr at) =
    let (j, found, ge) = label_map-some n items l at in (j, label_map-there n items l m j found, ge)
label_map-some n (label m ∷ items) l (inl e) = elim (Option-cases (label_map n items l)) [
  | inr (i, found) ↦ (i, label_map-there n items l m i found, label_map-ge n items l i found)
  | inl none_e ↦ (n, label_map-here n items l m e none_e, omega arith)
]
