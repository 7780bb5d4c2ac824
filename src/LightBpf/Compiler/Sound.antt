-- ===== src/LightBpf/Compiler/Sound.antt =====
-- The code that the methods of LightBPF/CompilerSet/Compiler.py emit: its labels are new, and where it
-- goes to. Pieces of code are put together.
pub mod Connectives
pub mod Readings
pub mod Jumps
pub mod Addresses
pub mod Loads
pub mod Expressions
pub mod Filters
pub mod Keywords
pub mod Comparisons
use light_packet.Base.{
  ℕ, suc, ◌+◌, ◌≤◌, ◌<◌, Bool, true, false, Option, none, some, List, [], ◌∷◌, ◌++◌, ◌≡◌, ◌≢◌, refl,
  sym, ◌∙◌, ap, ◌⊎◌, inl, inr, arith,
}
use light_packet.Base.Int.{pos}
use light_packet.Base.Exceptions.{Exception, Result, ok, raise, ◌>>=◌}
use light_packet.LightBpf.Emulator.{State, Outcome, returned}
use light_packet.LightBpf.Compiler.Code.{
  Label, accept, reject, local, Item, insn, label, Compiler, Code, Emitted, emit, fail, ◌▸◌,
  reading, update, attempt, new_label,
}
use light_packet.LightBpf.Compiler.Scope.{IsIn, labels_of, labels_of-append}
use light_packet.LightBpf.Compiler.Symbolic.{
  Exit, falls, jumps, ends, run_items, after_exit, run_items-append, run_items-missing, Distinct,
}

-- The labels that are in use when the counter stands at `n`.
abbrev pub IsOld : ℕ → Label → Type 0
IsOld n accept = Unit
IsOld n reject = Unit
IsOld n (local m) = m ≤ n

-- The labels that are made while it runs from `lo` to `hi`.
abbrev pub IsNew : ℕ → ℕ → Label → Type 0
IsNew lo hi accept = ⊥
IsNew lo hi reject = ⊥
IsNew lo hi (local m) = (lo < m) × (m ≤ hi)

pub IsOld-mono : (lo hi : ℕ) (l : Label) → lo ≤ hi → IsOld lo l → IsOld hi l
IsOld-mono lo hi accept h o = tt
IsOld-mono lo hi reject h o = tt
IsOld-mono lo hi (local m) h o = omega arith

pub IsNew-mono : (a b c d : ℕ) (l : Label) → a ≤ b → c ≤ d → IsNew b c l → IsNew a d l
IsNew-mono a b c d accept h k n = n
IsNew-mono a b c d reject h k n = n
IsNew-mono a b c d (local m) h k n = (omega (arith, n.0), omega (arith, n.1))

pub IsOld-IsNew : (k lo hi : ℕ) (l : Label) → k ≤ lo → IsOld k l → IsNew lo hi l → ⊥
IsOld-IsNew k lo hi accept h o n = n
IsOld-IsNew k lo hi reject h o n = n
IsOld-IsNew k lo hi (local m) h o n = absurd (omega (arith, n.0))

pub IsNew-apart : (a b c d : ℕ) (l : Label) → b ≤ c → IsNew a b l → IsNew c d l → ⊥
IsNew-apart a b c d accept h n m = n
IsNew-apart a b c d reject h n m = n
IsNew-apart a b c d (local x) h n m = absurd (omega (arith, n.1, m.0))

-- An Ethernet link, and offsets that no tag has shifted.
pub record IsEthernet (c : Compiler) : Type 0 where
  pub linktype : c.linktype ≡ 1
  pub ethertype : c.e_p_offset ≡ 12
  pub ipv4 : c.ipv4_h_st ≡ 14

IsIn-append : (l : Label) (ls ms : List Label) → IsIn l (ls ++ ms) → IsIn l ls ⊎ IsIn l ms
IsIn-append l [] ms h = inr h
IsIn-append l (m ∷ ls) ms (inl e) = inl (inl e)
IsIn-append l (m ∷ ls) ms (inr h) = elim (IsIn-append l ls ms h) [
  | inl a ↦ inl (inr a)
  | inr b ↦ inr b
]

pub Distinct-append :
    (ls ms : List Label)
    → Distinct ls
    → Distinct ms
    → ((l : Label) → IsIn l ls → IsIn l ms → ⊥)
    → Distinct (ls ++ ms)
Distinct-append [] ms p q apart = q
Distinct-append (l ∷ ls) ms (out, p) q apart = (
  λ h. elim (IsIn-append l ls ms h) [ inl a ↦ out a | inr b ↦ apart l (inl refl) b ],
  Distinct-append ls ms p q (λ m a b. apart m (inr a) b),
)

module _ (packet : List ℕ) where
  -- Code that is emitted between two states, and where it leads.
  pub record Sound (leads : State → Exit → Type 0) (c : Compiler) (items : List Item)
      (c' : Compiler) : Type 0 where
    pub grows : c.label_counter ≤ c'.label_counter
    pub ethernet : IsEthernet c'
    pub new : (l : Label) → IsIn l (labels_of items) → IsNew c.label_counter c'.label_counter l
    pub distinct : Distinct (labels_of items)
    pub leaves : (s : State) → leads s (run_items packet items none s)

  -- What a method may do: raise, or emit such code.
  abbrev pub Meets : (State → Exit → Type 0) → Compiler → Emitted → Type 0
  Meets leads c (raise e) = Unit
  Meets leads c (ok (items, c')) = Sound leads c items c'

  -- Some code, and more behind it that has other labels.
  pub Sound-append :
      (before leads : State → Exit → Type 0) (c c1 c2 c3 : Compiler) (xs zs : List Item)
      → c.label_counter ≤ c1.label_counter
      → Sound before c1 xs c2
      → c2.label_counter ≤ c3.label_counter
      → IsEthernet c3
      → ((l : Label) → IsIn l (labels_of zs) → IsNew c.label_counter c3.label_counter l)
      → ((l : Label) → IsIn l (labels_of zs) → IsNew c1.label_counter c2.label_counter l → ⊥)
      → Distinct (labels_of zs)
      → ((s : State) (x : Exit) → before s x → leads s (after_exit packet zs x))
      → Sound leads c (xs ++ zs) c3
  Sound-append before leads c c1 c2 c3 xs zs le h further eth new apart distinct goes_on = record {
    grows = omega (arith, h.grows);
    ethernet = eth;
    new = λ l inside.
        elim (IsIn-append l (labels_of xs) (labels_of zs) (rw (labels_of-append xs zs) at inside)) [
          | inl a ↦
              IsNew-mono c.label_counter c1.label_counter c2.label_counter c3.label_counter l le
                further (h.new l a)
          | inr b ↦ new l b
        ];
    distinct = rw (labels_of-append xs zs) (
        Distinct-append (labels_of xs) (labels_of zs) h.distinct distinct
          (λ l a b. apart l b (h.new l a)));
    leaves = λ s.
        rw (run_items-append packet xs zs none s)
          (goes_on s (run_items packet xs none s) (h.leaves s));
  }

  -- Code does not stop a jump to a label in use before it.
  abbrev pub Passes : ℕ → List Item → Type 0
  Passes k ys = (l : Label) (s : State) → IsOld k l → run_items packet ys (some l) s ≡ jumps l s

  pub Sound-Passes :
      (leads : State → Exit → Type 0) (k : ℕ) (c : Compiler) (ys : List Item) (c' : Compiler)
      → k ≤ c.label_counter
      → Sound leads c ys c'
      → Passes k ys
  Sound-Passes leads k c ys c' le h l s old =
      run_items-missing packet ys l s
        (λ inside. IsOld-IsNew k c.label_counter c'.label_counter l le old (h.new l inside))

  -- Where code and more behind it lead, of which each leads somewhere.
  abbrev pub Glues :
      ℕ → (State → Exit → Type 0) → (State → Exit → Type 0) → (State → Exit → Type 0) → Type 0
  Glues k before behind leads =
      (ys : List Item)
      → Passes k ys
      → ((s : State) → behind s (run_items packet ys none s))
      → (s : State) (x : Exit) → before s x
      → leads s (after_exit packet ys x)

  Meets-append :
      (before behind leads : State → Exit → Type 0) (c c1 : Compiler) (xs : List Item) (r : Emitted)
      → Glues c.label_counter before behind leads
      → Sound before c xs c1
      → Meets behind c1 r
      → Meets leads c (r >>= λ second. ok (xs ++ second.0, second.1))
  Meets-append before behind leads c c1 xs (raise e) glue p q = tt
  Meets-append before behind leads c c1 xs (ok (ys, c2)) glue p q =
      Sound-append before leads c c c1 c2 xs ys (omega arith) p q.grows q.ethernet
        (λ l inside.
          IsNew-mono c.label_counter c1.label_counter c2.label_counter c2.label_counter l (p.grows)
            (omega arith) (q.new l inside))
        (λ l inside n.
          IsNew-apart c.label_counter c1.label_counter c1.label_counter c2.label_counter l
            (omega arith) n (q.new l inside))
        q.distinct (glue ys (Sound-Passes behind c.label_counter c1 ys c2 p.grows q) q.leaves)

  Meets-bind :
      (before behind leads : State → Exit → Type 0) (c : Compiler) (r : Emitted) (q : Code)
      → Glues c.label_counter before behind leads
      → Meets before c r
      → ((c1 : Compiler)
          → c.label_counter ≤ c1.label_counter
          → IsEthernet c1
          → Meets behind c1 (q c1))
      → Meets leads c (r >>= λ first. q first.1 >>= λ second. ok (first.0 ++ second.0, second.1))
  Meets-bind before behind leads c (raise e) q glue h k = tt
  Meets-bind before behind leads c (ok (xs, c1)) q glue h k =
      Meets-append before behind leads c c1 xs (q c1) glue h (k c1 h.grows h.ethernet)

  pub ▸-Meets :
      (before behind leads : State → Exit → Type 0) (c : Compiler) (p q : Code)
      → Glues c.label_counter before behind leads
      → Meets before c (p c)
      → ((c1 : Compiler)
          → c.label_counter ≤ c1.label_counter
          → IsEthernet c1
          → Meets behind c1 (q c1))
      → Meets leads c ((p ▸ q) c)
  unfolding ◌▸◌
  ▸-Meets before behind leads c p q glue h k = Meets-bind before behind leads c (p c) q glue h k

  -- Instructions alone.
  pub emit-Meets :
      (leads : State → Exit → Type 0) (c : Compiler) (items : List Item)
      → IsEthernet c
      → labels_of items ≡ []
      → ((s : State) → leads s (run_items packet items none s))
      → Meets leads c (emit items c)
  unfolding emit
  emit-Meets leads c items eth none_new h = record {
    grows = omega arith;
    ethernet = eth;
    new = λ l inside. elim (rw none_new at inside) [ ];
    distinct = rw none_new tt;
    leaves = h;
  }
