-- ===== src/LightBpf/Parser/Ends.antt =====
-- When the functions of LightBPF/Parser.py end, and how many tokens they leave.

use Prim.Native.String.{String}
use light_packet.Base.{
  ℕ, zero, suc, ◌≤◌, ◌<◌, Bool, true, false, ◌&&◌, none, some, List, [], ◌∷◌, length, if◌then◌else◌,
  ◌≡◌, sym, inl, inr, arith, Bool-cases, Option-cases,
}
use light_packet.Base.Text.{text_eqb}
use light_packet.Base.Exceptions.{Result, ok, raise}
use light_packet.LightBpf.Ast.{Node, binary_op}
use light_packet.LightBpf.Parser.{
  Token, Parsed, Parser, done, after, ◌▹◌, lift, is_one_of, has, consume_kind, consume,
}
use light_packet.LightBpf.Parser.Arithmetic.{operator_at, level_loop, level, bitor_over}

-- The fuel is enough, and what is read leaves fewer than `m` tokens.
abbrev pub Ends : {A : Type 0} → ℕ → Parsed A → Type 0
Ends m none = ⊥
Ends m (some (raise e)) = Unit
Ends m (some (ok (a, rest))) = length rest < m

-- A parser that reads a token at least, from fewer than `n`.
pub record Reads (n : ℕ) (p : Parser Node) : Type 0 where
  pub reads : (ts : List Token) → length ts < n → Ends (length ts) (p ts)

pub Ends-mono : {A : Type 0} (m m' : ℕ) (r : Parsed A) → m ≤ m' → Ends m r → Ends m' r
Ends-mono m m' none le h = h
Ends-mono m m' (some (raise e)) le h = tt
Ends-mono m m' (some (ok (a, rest))) le h = omega (arith, h)

pub Ends-if :
    {A : Type 0} (b : Bool) (m : ℕ) (r r' : Parsed A)
    → Ends m r
    → Ends m r'
    → Ends m (if b then r else r')
Ends-if true m r r' h k = h
Ends-if false m r r' h k = k

pub Ends-after :
    {A B : Type 0} (m m' : ℕ) (r : Parsed A) (k : A → Parser B)
    → Ends m r
    → ((a : A) (rest : List Token) → length rest < m → Ends m' (k a rest))
    → Ends m' (after r k)
Ends-after m m' none k h g = h
Ends-after m m' (some (raise e)) k h g = tt
Ends-after m m' (some (ok (a, rest))) k h g = g a rest h

pub Ends-▹ :
    {A B : Type 0} (m m' : ℕ) (p : Parser A) (k : A → Parser B) (ts : List Token)
    → Ends m (p ts)
    → ((a : A) (rest : List Token) → length rest < m → Ends m' (k a rest))
    → Ends m' ((p ▹ k) ts)
unfolding ◌▹◌
Ends-▹ m m' p k ts h g = Ends-after m m' (p ts) k h g

pub lift-Ends : {A : Type 0} (r : Result A) (ts : List Token) → Ends (suc (length ts)) (lift r ts)
unfolding lift
lift-Ends (ok a) ts = omega arith
lift-Ends (raise e) ts = tt

pub Ends-choice :
    {A : Type 0} (b : Bool) (m : ℕ) (p q : Parser A) (ts : List Token)
    → Ends m (p ts)
    → Ends m (q ts)
    → Ends m ((if b then p else q) ts)
Ends-choice true m p q ts h k = h
Ends-choice false m p q ts h k = k

-- An int, and what is made of it.
pub lift-▹-Ends :
    {A B : Type 0} (r : Result A) (k : A → Parser B) (m : ℕ) (ts : List Token)
    → ((a : A) → Ends m (k a ts))
    → Ends m ((lift r ▹ k) ts)
unfolding lift ◌▹◌
lift-▹-Ends (ok a) k m ts h = h a
lift-▹-Ends (raise e) k m ts h = tt

pub consume_kind-Ends : (kind : String) (ts : List Token) → Ends (length ts) (consume_kind kind ts)
unfolding consume_kind
consume_kind-Ends kind [] = tt
consume_kind-Ends kind (t ∷ ts) =
    Ends-if (text_eqb t.kind kind) (suc (length ts)) _ _ (omega arith) tt

pub consume-Ends : (kind v : String) (ts : List Token) → Ends (length ts) (consume kind v ts)
unfolding consume
consume-Ends kind v [] = tt
consume-Ends kind v (t ∷ ts) = Ends-if (has t kind v) (suc (length ts)) _ _ (omega arith) tt

-- The operators of a level.
pub operator_at-lt :
    (kind : String) (ops : List String) (ts : List Token) (found : String × List Token)
    → operator_at kind ops ts ≡ some found
    → length (found.1) < length ts
unfolding operator_at
operator_at-lt kind ops [] found e = absurd (ground arith)
operator_at-lt kind ops (t ∷ ts) found e =
    elim (Bool-cases (text_eqb t.kind kind && is_one_of t.value ops)) [
      | inl here ↦
          let same : (t.value, ts) ≡ found = cc (rw here at e) in
          let shorter : length ts < suc (length ts) = omega arith in rw (sym same) shorter
      | inr missing ↦ absurd (ground (arith, rw missing at e))
    ]

pub level_loop-Ends :
    (n bound : ℕ) (kind : String) (ops : List String) (sub : Parser Node) (left : Node)
    (ts : List Token)
    → Reads bound sub
    → length ts < n
    → length ts < bound
    → Ends (suc (length ts)) (level_loop n kind ops sub left ts)
unfolding level_loop
level_loop-Ends zero bound kind ops sub left ts h short within = absurd (omega (arith, short))
level_loop-Ends (suc n) bound kind ops sub left ts h short within =
    elim (Option-cases (operator_at kind ops ts)) [
      | inl out ↦ rw (out, level_loop) (omega arith)
      | inr (found, here) ↦
          let fewer : length (found.1) < length ts = operator_at-lt kind ops ts found here in
          rw (here, level_loop)
            (Ends-▹ (length (found.1)) (suc (length ts)) sub
              (λ right. level_loop n kind ops sub (binary_op left (found.0) right)) (found.1)
              (h.reads (found.1) (omega (arith, fewer, within)))
              (λ right rest less.
                Ends-mono (suc (length rest)) (suc (length ts)) _ (omega (arith, fewer, less)) (
                  level_loop-Ends n bound kind ops sub (binary_op left (found.0) right) rest h
                    (omega (arith, fewer, less, short)) (omega (arith, fewer, less, within)))))
    ]

pub level-Reads :
    (n : ℕ) (kind : String) (ops : List String) (sub : Parser Node)
    → Reads n sub
    → Reads n (level n kind ops sub)
unfolding level
level-Reads n kind ops sub h = record {
  reads = λ ts short.
      Ends-▹ (length ts) (length ts) sub (level_loop n kind ops sub) ts (h.reads ts short)
        (λ left rest less. Ends-mono (suc (length rest)) (length ts) _ (omega (arith, less)) (
          level_loop-Ends n n kind ops sub left rest h (omega (arith, less, short))
            (omega (arith, less, short))));
}

pub bitor_over-Reads : (n : ℕ) (atom : Parser Node) → Reads n atom → Reads n (bitor_over n atom)
unfolding bitor_over
bitor_over-Reads n atom h = level-Reads n _ _ _ (
    level-Reads n _ _ _
      (level-Reads n _ _ _ (level-Reads n _ _ _ (level-Reads n _ _ _ (level-Reads n _ _ atom h)))))

-- A group in parentheses, and a byte access.
pub closed-Ends :
    (n m : ℕ) (p : Parser Node) (ts : List Token) (v : String)
    → Reads n p
    → length ts < n
    → length ts ≤ m
    → Ends m ((p ▹ λ e. consume "SYMBOL" v ▹ λ closing. done e) ts)
closed-Ends n m p ts v h short le = Ends-▹ (length ts) m p _ ts (h.reads ts short) λ e rest less.
    Ends-▹ (length rest) m (consume "SYMBOL" v) _ rest (consume-Ends "SYMBOL" v rest)
      λ closing end fewer. omega (arith, less, fewer)
