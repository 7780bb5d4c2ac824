-- ===== src/LightBpf/Compiler/Scope.antt =====
-- What is compiled jumps to labels that stand behind the jump, or that the caller defines behind the
-- code.
use light_packet.Base.{
  ℕ, Bool, true, false, Option, none, some, List, [], ◌∷◌, ◌++◌, ◌==◌, ◌≡◌, ◌⊎◌, inl, inr, refl, ap,
  append_assoc,
}
use light_packet.Base.Exceptions.{ok, raise, key_error}
use light_packet.LightBpf.Opcode.{bpf_jmp, bpf_ja, bpf_ret, insn_class, insn_op}
use light_packet.LightBpf.Compiler.Code.{
  Label, Operand, num, to, Item, insn, label, Compiler, Code, Emitted,
}

-- A label is one of a list.
abbrev pub IsIn : Label → List Label → Type 0
IsIn l [] = ⊥
IsIn l (m ∷ ls) = (l ≡ m) ⊎ IsIn l ls

-- The labels that code defines.
abbrev pub labels_of : List Item → List Label
labels_of [] = []
labels_of (label l ∷ items) = l ∷ labels_of items
labels_of (insn c t f k ∷ items) = labels_of items

-- The labels that may be meant from before some code, of which the caller defines the last.
abbrev pub scope : List Item → List Label → List Label
scope items after = labels_of items ++ after

abbrev pub IsNumber : Operand → Type 0
IsNumber (num n) = Unit
IsNumber (to l) = ⊥

abbrev pub IsTarget : List Label → Operand → Type 0
IsTarget ls (num n) = n ≡ 0
IsTarget ls (to l) = IsIn l ls

abbrev pub IsLabel : List Label → Operand → Type 0
IsLabel ls (num n) = ⊥
IsLabel ls (to l) = IsIn l ls

-- The operands that an instruction must have: whether it is a jump, an unconditional one, a return.
abbrev pub Fits : Bool → Bool → Bool → List Label → Operand → Operand → Operand → Type 0
Fits true true r ls t f k = IsLabel ls k
Fits true false r ls t f k = IsTarget ls t × IsTarget ls f × IsNumber k
Fits false j true ls t f k = ⊥
Fits false j false ls t f k = IsNumber k

abbrev pub FitsCode : ℕ → List Label → Operand → Operand → Operand → Type 0
FitsCode c = Fits (insn_class c == bpf_jmp) (insn_op c == bpf_ja) (insn_class c == bpf_ret)

abbrev pub IsForward : List Label → List Item → Type 0
IsForward after [] = Unit
IsForward after (label l ∷ items) = IsForward after items
IsForward after (insn c t f k ∷ items) =
    FitsCode c (scope items after) t f k × IsForward after items

-- Where an Ethernet type was asserted, an upper layer was parsed.
abbrev pub Asserted : Option ℕ → Bool → Type 0
Asserted none parsed = Unit
Asserted (some e) parsed = parsed ≡ true

pub Asserted-true : (o : Option ℕ) → Asserted o true
Asserted-true none = tt
Asserted-true (some e) = refl

abbrev pub IsConsistent : Compiler → Type 0
IsConsistent c = Asserted c.explicit c.parsed_upper

-- What a method may do: raise, but no KeyError, or emit such code and keep the state consistent.
abbrev pub Emits : List Label → Emitted → Type 0
Emits after (raise e) = e ≡ key_error → ⊥
Emits after (ok (items, c)) = IsForward after items × IsConsistent c

pub record IsScoped (after : List Label) (p : Code) : Type 0 where
  pub emits : (c : Compiler) → IsConsistent c → Emits after (p c)

-- A longer list of labels is as good.
pub IsIn-right : (l : Label) (ls ms : List Label) → IsIn l ms → IsIn l (ls ++ ms)
IsIn-right l [] ms h = h
IsIn-right l (m ∷ ls) ms h = inr (IsIn-right l ls ms h)

pub IsIn-left : (l : Label) (ls ms : List Label) → IsIn l ls → IsIn l (ls ++ ms)
IsIn-left l [] ms h = elim h [ ]
IsIn-left l (m ∷ ls) ms (inl e) = inl e
IsIn-left l (m ∷ ls) ms (inr h) = inr (IsIn-left l ls ms h)

abbrev pub IsSubset : List Label → List Label → Type 0
IsSubset ls ms = (l : Label) → IsIn l ls → IsIn l ms

IsSubset-append : (ks ls ms : List Label) → IsSubset ls ms → IsSubset (ks ++ ls) (ks ++ ms)
IsSubset-append [] ls ms h l at = h l at
IsSubset-append (k ∷ ks) ls ms h l (inl e) = inl e
IsSubset-append (k ∷ ks) ls ms h l (inr at) = inr (IsSubset-append ks ls ms h l at)

IsTarget-mono : (ls ms : List Label) (o : Operand) → IsSubset ls ms → IsTarget ls o → IsTarget ms o
IsTarget-mono ls ms (num n) h t = t
IsTarget-mono ls ms (to l) h t = h l t

Fits-mono :
    (j u r : Bool) (ls ms : List Label) (t f k : Operand)
    → IsSubset ls ms
    → Fits j u r ls t f k
    → Fits j u r ms t f k
Fits-mono true true r ls ms t f (to l) h p = h l p
Fits-mono true true r ls ms t f (num n) h p = elim p [ ]
Fits-mono true false r ls ms t f k h (p, q, n) =
    (IsTarget-mono ls ms t h p, IsTarget-mono ls ms f h q, n)
Fits-mono false u true ls ms t f k h p = elim p [ ]
Fits-mono false u false ls ms t f k h p = p

pub IsForward-mono :
    (after later : List Label) (items : List Item)
    → IsSubset after later
    → IsForward after items
    → IsForward later items
IsForward-mono after later [] h p = tt
IsForward-mono after later (label l ∷ items) h p = IsForward-mono after later items h p
IsForward-mono after later (insn c t f k ∷ items) h (p, ps) = (
  Fits-mono (insn_class c == bpf_jmp) (insn_op c == bpf_ja) (insn_class c == bpf_ret)
      (scope items after) (scope items later) t f k
      (IsSubset-append (labels_of items) after later h) p,
  IsForward-mono after later items h ps,
)

pub labels_of-append : (xs ys : List Item) → labels_of (xs ++ ys) ≡ labels_of xs ++ labels_of ys
labels_of-append [] ys = refl
labels_of-append (label l ∷ xs) ys = ap (λ ls. l ∷ ls) (labels_of-append xs ys)
labels_of-append (insn c t f k ∷ xs) ys = labels_of-append xs ys

scope-append :
    (xs ys : List Item) (after : List Label) → scope (xs ++ ys) after ≡ scope xs (scope ys after)
scope-append xs ys after =
    rw (labels_of-append xs ys) (append_assoc (labels_of xs) (labels_of ys) after)

-- The first of two pieces of code may jump to what the second one defines.
pub IsForward-append :
    (xs ys : List Item) (after : List Label)
    → IsForward (scope ys after) xs
    → IsForward after ys
    → IsForward after (xs ++ ys)
IsForward-append [] ys after p q = q
IsForward-append (label l ∷ xs) ys after p q = IsForward-append xs ys after p q
IsForward-append (insn c t f k ∷ xs) ys after (p, ps) q =
    (rw (scope-append xs ys after) p, IsForward-append xs ys after ps q)
