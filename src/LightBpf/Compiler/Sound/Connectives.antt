-- ===== src/LightBpf/Compiler/Sound/Connectives.antt =====
-- LightBPF/CompilerSet/Compiler.py: code that decides, and its conjunction, disjunction and negation.
use light_packet.Base.{
  ℕ, suc, ◌≤◌, Bool, true, false, Option, none, some, List, ◌∷◌, ◌++◌, ◌≡◌, refl, sym, inl, inr,
  arith,
}
use light_packet.Base.Int.{pos}
use light_packet.Base.Exceptions.{ok, raise, ◌>>=◌}
use light_packet.LightBpf.Emulator.{State, returned}
use light_packet.LightBpf.Compiler.Code.{
  Label, accept, reject, local, Item, label, Compiler, Emitted, emit, ◌▸◌, new_label,
}
use light_packet.LightBpf.Compiler.Address.{Branch}
use light_packet.LightBpf.Compiler.Assemble.{label_eqb}
use light_packet.LightBpf.Compiler.Boolean.{compile_and, compile_or}
use light_packet.LightBpf.Compiler.Scope.{IsIn, labels_of}
use light_packet.LightBpf.Compiler.Symbolic.{
  Exit, falls, jumps, ends, run_items, after_exit, run_items-missing,
}
use light_packet.LightBpf.Compiler.Answers.{and_then, or_else, negated}
use light_packet.LightBpf.Compiler.Sound.{
  IsOld, IsNew, IsOld-mono, IsOld-IsNew, IsNew-mono, IsNew-apart, IsEthernet, Sound, Sound-append,
  Meets,
}

-- The label that an answer leads to, and being there.
abbrev pub goal : Option Bool → Label → Label → Option Label
goal none t f = none
goal (some true) t f = some t
goal (some false) t f = some f

abbrev pub Leads : Option Label → Exit → Type 0
Leads none (ends o) = o ≡ returned (pos 0)
Leads none (falls s) = ⊥
Leads none (jumps l s) = ⊥
Leads (some l) (jumps m s) = m ≡ l
Leads (some l) (falls s) = ⊥
Leads (some l) (ends o) = ⊥

abbrev pub At : Option Label → State → Exit → Type 0
At l s x = Leads l x

goal-negated : (d : Option Bool) (t f : Label) → goal (negated d) t f ≡ goal d f t
unfolding negated
goal-negated none t f = refl
goal-negated (some true) t f = refl
goal-negated (some false) t f = refl

or_else-negated : (d e : Option Bool) → negated (and_then (negated d) (negated e)) ≡ or_else d e
unfolding negated and_then or_else
or_else-negated none e = refl
or_else-negated (some true) e = refl
or_else-negated (some false) none = refl
or_else-negated (some false) (some true) = refl
or_else-negated (some false) (some false) = refl

label_eqb_refl : (l : Label) → label_eqb l l ≡ true
unfolding label_eqb
label_eqb_refl accept = refl
label_eqb_refl reject = refl
label_eqb_refl (local n) = ground arith

abbrev pub flip : Branch → Branch
flip p t f = p f t

abbrev labelled : Label → List Item × Compiler → Emitted
labelled l second = ok (label l ∷ second.0, second.1)

module _ (packet : List ℕ) where
  -- Code that goes to one of its two labels as the answer is.
  pub record Decides (d : Option Bool) (p : Branch) : Type 0 where
    pub decides :
        (c : Compiler) (t f : Label)
        → IsEthernet c
        → IsOld c.label_counter t
        → IsOld c.label_counter f
        → Meets packet (At (goal d t f)) c (p t f c)

  pub flip-Decides : (d : Option Bool) (p : Branch) → Decides d p → Decides (negated d) (flip p)
  flip-Decides d p h = record {
    decides = λ c t f eth ot of. rw (goal-negated d t f) (h.decides c f t eth of ot);
  }

  -- The first code has gone to the label between, or is done.
  and-leads :
      (dl dr : Option Bool) (nxt t f : Label) (ys : List Item)
      → (IsIn f (labels_of (label nxt ∷ ys)) → ⊥)
      → ((s : State) → At (goal dr t f) s (run_items packet ys none s))
      → (s : State) (x : Exit) → At (goal dl nxt f) s x
      → At (goal (and_then dl dr) t f) s (after_exit packet (label nxt ∷ ys) x)
  unfolding and_then run_items
  and-leads none dr nxt t f ys out h s0 (ends o) l = l
  and-leads none dr nxt t f ys out h s0 (falls s) l = elim l [ ]
  and-leads none dr nxt t f ys out h s0 (jumps m s) l = elim l [ ]
  and-leads (some true) dr nxt t f ys out h s0 (jumps m s) l = rw (l, label_eqb_refl nxt) (h s)
  and-leads (some true) dr nxt t f ys out h s0 (ends o) l = elim l [ ]
  and-leads (some true) dr nxt t f ys out h s0 (falls s) l = elim l [ ]
  and-leads (some false) dr nxt t f ys out h s0 (jumps m s) l =
      rw l (rw (run_items-missing packet (label nxt ∷ ys) f s out) refl)
  and-leads (some false) dr nxt t f ys out h s0 (ends o) l = elim l [ ]
  and-leads (some false) dr nxt t f ys out h s0 (falls s) l = elim l [ ]

  IsNew-label :
      (k hi lo : ℕ) (ys : List Item)
      → suc k ≤ lo
      → lo ≤ hi
      → ((l : Label) → IsIn l (labels_of ys) → IsNew lo hi l)
      → (l : Label) → IsIn l (labels_of (label (local (suc k)) ∷ ys))
      → IsNew k hi l
  IsNew-label k hi lo ys h further new l (inl e) = rw e (omega arith, omega arith)
  IsNew-label k hi lo ys h further new l (inr inside) =
      IsNew-mono k lo hi hi l (omega arith) (omega arith) (new l inside)

  apart-label :
      (k hi lo : ℕ) (ys : List Item)
      → ((l : Label) → IsIn l (labels_of ys) → IsNew lo hi l)
      → (l : Label) → IsIn l (labels_of (label (local (suc k)) ∷ ys))
      → IsNew (suc k) lo l
      → ⊥
  apart-label k hi lo ys new l (inl e) n = absurd (omega (arith, (rw e at n).0))
  apart-label k hi lo ys new l (inr inside) n =
      IsNew-apart (suc k) lo lo hi l (omega arith) n (new l inside)

  out-label :
      (k hi lo : ℕ) (f : Label) (ys : List Item)
      → suc k ≤ lo
      → ((l : Label) → IsIn l (labels_of ys) → IsNew lo hi l)
      → IsOld k f
      → IsIn f (labels_of (label (local (suc k)) ∷ ys))
      → ⊥
  out-label k hi lo f ys h new old (inl e) = absurd (omega (arith, rw e at old))
  out-label k hi lo f ys h new old (inr inside) =
      IsOld-IsNew k lo hi f (omega arith) old (new f inside)

  and-second :
      (dl dr : Option Bool) (c c1 c2 : Compiler) (t f : Label) (xs : List Item) (r : Emitted)
      → c1.label_counter ≡ suc c.label_counter
      → IsOld c.label_counter f
      → Sound packet (At (goal dl (local (suc c.label_counter)) f)) c1 xs c2
      → Meets packet (At (goal dr t f)) c2 r
      → Meets packet (At (goal (and_then dl dr) t f)) c (
          (r >>= labelled (local (suc c.label_counter))) >>= λ second.
          ok (xs ++ second.0, second.1))
  and-second dl dr c c1 c2 t f xs (raise e) made old p q = tt
  and-second dl dr c c1 c2 t f xs (ok (ys, c3)) made old p q =
      let k = c.label_counter in
      let further : suc k ≤ c2.label_counter = omega (arith, made, p.grows) in
      Sound-append packet (At (goal dl (local (suc k)) f)) (At (goal (and_then dl dr) t f)) c c1 c2
        c3 xs (label (local (suc k)) ∷ ys) (omega (arith, made)) p q.grows q.ethernet
        (IsNew-label k c3.label_counter c2.label_counter ys further q.grows q.new)
        (rw made (apart-label k c3.label_counter c2.label_counter ys q.new))
        ((λ inside. absurd (omega (arith, (q.new (local (suc k)) inside).0))), q.distinct)
        (and-leads dl dr (local (suc k)) t f ys
          (out-label k c3.label_counter c2.label_counter f ys further q.new old) q.leaves)

  and-first :
      (dl dr : Option Bool) (c c1 : Compiler) (t f : Label) (r : Emitted) (right : Branch)
      → c1.label_counter ≡ suc c.label_counter
      → IsOld c.label_counter t
      → IsOld c.label_counter f
      → Decides dr right
      → Meets packet (At (goal dl (local (suc c.label_counter)) f)) c1 r
      → Meets packet (At (goal (and_then dl dr) t f)) c (
          r >>= λ first.
          (right t f first.1 >>= labelled (local (suc c.label_counter))) >>= λ second.
          ok (first.0 ++ second.0, second.1))
  and-first dl dr c c1 t f (raise e) right made ot of h p = tt
  and-first dl dr c c1 t f (ok (xs, c2)) right made ot of h p =
      let later : c.label_counter ≤ c2.label_counter = omega (arith, made, p.grows) in
      and-second dl dr c c1 c2 t f xs (right t f c2) made of p (
        h.decides c2 t f p.ethernet (IsOld-mono c.label_counter c2.label_counter t later ot)
          (IsOld-mono c.label_counter c2.label_counter f later of))

  pub and-Decides :
      (dl dr : Option Bool) (left right : Branch)
      → Decides dl left
      → Decides dr right
      → Decides (and_then dl dr) (compile_and left right)
  unfolding compile_and new_label emit ◌▸◌
  and-Decides dl dr left right hl hr = record {
    decides = λ c t f eth ot of.
        let k = c.label_counter in
        let c1 : Compiler = record c { label_counter = suc k } in
        let eth1 : IsEthernet c1 = record {
          linktype = eth.linktype;
          ethertype = eth.ethertype;
          ipv4 = eth.ipv4;
        } in
        and-first dl dr c c1 t f (left (local (suc k)) f c1) right refl ot of hr (
          hl.decides c1 (local (suc k)) f eth1 (omega arith)
            (IsOld-mono k (suc k) f (omega arith) of));
  }

  pub or-Decides :
      (dl dr : Option Bool) (left right : Branch)
      → Decides dl left
      → Decides dr right
      → Decides (or_else dl dr) (compile_or left right)
  unfolding compile_and compile_or
  or-Decides dl dr left right hl hr = rw (sym (or_else-negated dl dr)) (
      flip-Decides (and_then (negated dl) (negated dr)) (compile_and (flip left) (flip right)) (
        and-Decides (negated dl) (negated dr) (flip left) (flip right) (flip-Decides dl left hl)
          (flip-Decides dr right hr)))
