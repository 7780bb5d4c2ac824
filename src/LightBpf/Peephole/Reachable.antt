-- ===== src/LightBpf/Peephole/Reachable.antt =====
-- The worklist of `_eliminate_dead_code` ends, and what it marks is closed under execution.
use mathlib.Core.Path.{subst₂}
use light_packet.Base.{
  ℕ, zero, suc, ◌+◌, ◌*◌, ◌≤◌, ◌<◌, ◌≡◌, ◌≢◌, refl, ap, ◌∙◌, ◌⊎◌, inl, inr, Bool, true, false, none,
  some, List, [], ◌∷◌, ◌++◌, arith, length, length-append, length-set, get_elem?, get_or,
  get_or-set_ne, get_or-default, length-replicate, set, get_elem?-lt, Option-cases, Bool-cases,
  replicate, ◌==◌, ==_iff,
}
use light_packet.Base.Int.{ℤ, pos, negsuc}
use light_packet.LightBpf.Instruction.{Instruction}
use light_packet.LightBpf.Emulator.{fetch}
use light_packet.LightBpf.Peephole.{successors, visit, mark, reachable_from}

abbrev pub In : ℤ → List ℤ → Type 0
In a [] = ⊥
In a (x ∷ xs) = (a ≡ x) ⊎ In a xs

In-append_left : (a : ℤ) (xs ys : List ℤ) → In a xs → In a (xs ++ ys)
In-append_left a [] ys h = absurd h
In-append_left a (x ∷ xs) ys (inl e) = inl e
In-append_left a (x ∷ xs) ys (inr h) = inr (In-append_left a xs ys h)

In-append_right : (a : ℤ) (xs ys : List ℤ) → In a ys → In a (xs ++ ys)
In-append_right a [] ys h = h
In-append_right a (x ∷ xs) ys h = inr (In-append_right a xs ys h)

-- How many instructions are not marked yet.
unmarked : List Bool → ℕ
unmarked [] = 0
unmarked (true ∷ r) = unmarked r
unmarked (false ∷ r) = suc (unmarked r)

unmarked-set :
    (r : List Bool) (i : ℕ) → get_or r i true ≡ false → unmarked r ≡ suc (unmarked (set r i true))
unfolding unmarked
unmarked-set [] i h = absurd (ground arith)
unmarked-set (true ∷ r) zero h = absurd (ground arith)
unmarked-set (false ∷ r) zero h = refl
unmarked-set (true ∷ r) (suc i) h = unmarked-set r i h
unmarked-set (false ∷ r) (suc i) h = ap suc (unmarked-set r i h)

unmarked-replicate : (n : ℕ) → unmarked (replicate n false) ≡ n
unfolding unmarked
unmarked-replicate zero = refl
unmarked-replicate (suc n) = ap suc (unmarked-replicate n)

length-successors : (pc : ℕ) (insn : Instruction) → length (successors pc insn) ≤ 3
unfolding successors
length-successors pc insn = ground arith

-- A marked index is one that the set holds.
abbrev pub Marked : List Bool → ℤ → Type 0
Marked r t = (i : ℕ) × (t ≡ pos i) × (get_or r i false ≡ true)

Marked-set : (r : List Bool) (i : ℕ) (t : ℤ) → Marked r t → Marked (set r i true) t
Marked-set r i t (j, e, m) = (j, e, stays r i j m)
  where
    stays :
        (r : List Bool) (i j : ℕ) → get_or r j false ≡ true → get_or (set r i true) j false ≡ true
    stays [] i j m = m
    stays (b ∷ r) zero zero m = refl
    stays (b ∷ r) zero (suc j) m = m
    stays (b ∷ r) (suc i) zero m = m
    stays (b ∷ r) (suc i) (suc j) m = stays r i j m

module _ (code : List Instruction) where
  -- An index that needs no more work, or is still on the stack.
  pub data Covered (r : List Bool) (stack : List ℤ) (t : ℤ) : Type 0 where
    outside : fetch code t ≡ none → Covered r stack t
    marked : Marked r t → Covered r stack t
    waiting : In t stack → Covered r stack t

  -- Every successor of a marked instruction is covered.
  abbrev pub IsClosedUpTo : List Bool → List ℤ → Type 0
  IsClosedUpTo r stack =
      (i : ℕ) (insn : Instruction)
      → get_or r i false ≡ true
      → get_elem? code i ≡ some insn
      → (t : ℤ) → In t (successors i insn)
      → Covered r stack t

  -- An entry that is outside or marked may be taken off the stack.
  pop-Covered :
      (r : List Bool) (stack : List ℤ) (t u : ℤ)
      → Covered r [] t
      → Covered r (t ∷ stack) u
      → Covered r stack u
  pop-Covered r stack t u c (outside h) = outside h
  pop-Covered r stack t u c (marked m) = marked m
  pop-Covered r stack t u (outside h) (waiting (inl e)) = outside (rw e h)
  pop-Covered r stack t u (marked m) (waiting (inl e)) = marked (rw e m)
  pop-Covered r stack t u (waiting h) (waiting (inl e)) = absurd h
  pop-Covered r stack t u c (waiting (inr w)) = waiting w

  -- Marking an instruction and pushing entries keeps what is covered.
  visit-Covered :
      (r : List Bool) (stack more : List ℤ) (i : ℕ) (u : ℤ)
      → i < length r
      → Covered r (pos i ∷ stack) u
      → Covered (set r i true) (more ++ stack) u
  visit-Covered r stack more i u h (outside o) = outside o
  visit-Covered r stack more i u h (marked m) = marked (Marked-set r i u m)
  visit-Covered r stack more i u h (waiting (inl e)) = marked (i, e, just_set r i h)
    where
      just_set : (r : List Bool) (i : ℕ) → i < length r → get_or (set r i true) i false ≡ true
      just_set [] i h = elim h [ ]
      just_set (b ∷ r) zero h = refl
      just_set (b ∷ r) (suc i) h = just_set r i (omega arith)
  visit-Covered r stack more i u h (waiting (inr w)) = waiting (In-append_right u more stack w)

  -- What the loop reaches from a stack and a set of marks.
  pub record Ends (stack : List ℤ) (r final : List Bool) : Type 0 where
    pub size : length final ≡ length code
    pub closed : IsClosedUpTo final []
    pub keeps : (u : ℤ) → Covered r stack u → Covered final [] u

  -- The loop goes on from another stack and set that cover as much.
  Ends-from :
      (stack stack' : List ℤ) (r r' final : List Bool)
      → ((u : ℤ) → Covered r stack u → Covered r' stack' u)
      → Ends stack' r' final
      → Ends stack r final
  Ends-from stack stack' r r' final h e = record {
    size = e.size;
    closed = e.closed;
    keeps = λ u c. e.keeps u (h u c);
  }

  mark-none :
      (fuel pc : ℕ) (stack : List ℤ) (r : List Bool)
      → get_elem? code pc ≡ none
      → mark (suc fuel) code (pos pc ∷ stack) r ≡ mark fuel code stack r
  unfolding mark
  mark-none fuel pc stack r e = rw (e, mark)

  mark-old :
      (fuel pc : ℕ) (insn : Instruction) (stack : List ℤ) (r : List Bool)
      → get_elem? code pc ≡ some insn
      → get_or r pc true ≡ true
      → mark (suc fuel) code (pos pc ∷ stack) r ≡ mark fuel code stack r
  unfolding mark visit
  mark-old fuel pc insn stack r e m = rw (e, mark) (rw m)

  mark-new :
      (fuel pc : ℕ) (insn : Instruction) (stack : List ℤ) (r : List Bool)
      → get_elem? code pc ≡ some insn
      → get_or r pc true ≡ false
      → mark (suc fuel) code (pos pc ∷ stack) r
        ≡ mark fuel code (successors pc insn ++ stack) (set r pc true)
  unfolding mark visit
  mark-new fuel pc insn stack r e m = rw (e, mark) (rw m)

  -- Marking `pc` and pushing its successors keeps the set closed up to the stack.
  visit-IsClosedUpTo :
      (r : List Bool) (stack : List ℤ) (pc : ℕ) (insn : Instruction)
      → pc < length r
      → get_elem? code pc ≡ some insn
      → IsClosedUpTo r (pos pc ∷ stack)
      → IsClosedUpTo (set r pc true) (successors pc insn ++ stack)
  visit-IsClosedUpTo r stack pc insn h found closed i other m at t w = elim (Bool-cases (i == pc)) [
    | inl e ↦
        let same : i ≡ pc = (==_iff i pc).0 e in
        waiting (
          In-append_left t (successors pc insn) stack
            (subst₂ (λ j o. In t (successors j o)) same (same_insn i other same at) w))
    | inr ne ↦
        visit-Covered r stack (successors pc insn) pc t h
          (closed i other (rw (← get_or-set_ne r pc i true false (apart i ne)) m) at t w)
  ]
    where
      same_insn : (i : ℕ) (o : Instruction) → i ≡ pc → get_elem? code i ≡ some o → o ≡ insn
      same_insn i o e at = ground arith

      apart : (i : ℕ) → (i == pc) ≡ false → pc ≢ i
      apart i ne e = ground arith

  mark-Ends :
      (fuel : ℕ) (stack : List ℤ) (r : List Bool)
      → length r ≡ length code
      → length stack + 3 * unmarked r ≤ fuel
      → IsClosedUpTo r stack
      → Ends stack r (mark fuel code stack r)
  unfolding mark fetch
  mark-Ends zero [] r e h closed = record { size = e; closed = closed; keeps = λ u c. c }
  mark-Ends zero (t ∷ stack) r e h closed = absurd (omega arith)
  mark-Ends (suc fuel) [] r e h closed = record { size = e; closed = closed; keeps = λ u c. c }
  mark-Ends (suc fuel) (negsuc n ∷ stack) r e h closed =
      let pop = λ (u : ℤ). pop-Covered r stack (negsuc n) u (outside refl) in
      Ends-from (negsuc n ∷ stack) stack r r _ pop
        (mark-Ends fuel stack r e (omega arith) λ i insn m at t w. pop t (closed i insn m at t w))
  mark-Ends (suc fuel) (pos pc ∷ stack) r e h closed = elim (Option-cases (get_elem? code pc)) [
    | inl out ↦
        rw (mark-none fuel pc stack r out)
          (popped (outside out) (mark-Ends fuel stack r e (omega arith)))
    | inr (insn, found) ↦
        let fits : pc < length r = omega (arith, get_elem?-lt code pc insn found) in
        elim (Bool-cases (get_or r pc true)) [
          | inl old ↦ rw (mark-old fuel pc insn stack r found old) (
              popped (marked (pc, refl, get_or-default r pc false true fits ∙ old))
                (mark-Ends fuel stack r e (omega arith)))
          | inr new ↦ rw (mark-new fuel pc insn stack r found new) (
              Ends-from (pos pc ∷ stack) (successors pc insn ++ stack) r (set r pc true) _
                (λ u. visit-Covered r stack (successors pc insn) pc u fits)
                (mark-Ends fuel (successors pc insn ++ stack) (set r pc true)
                  (length-set r pc true ∙ e)
                  (omega (
                    arith,
                    length-append (successors pc insn) stack,
                    length-successors pc insn,
                    unmarked-set r pc new,
                  ))
                  (visit-IsClosedUpTo r stack pc insn fits found closed)))
        ]
  ]
    where
      popped :
          {final : List Bool}
          → Covered r [] (pos pc)
          → (IsClosedUpTo r stack → Ends stack r final)
          → Ends (pos pc ∷ stack) r final
      popped c rest =
          Ends-from (pos pc ∷ stack) stack r r _ (λ u. pop-Covered r stack (pos pc) u c)
            (rest (λ i insn m at t w. pop-Covered r stack (pos pc) t c (closed i insn m at t w)))

  pub reachable_from-Ends :
      (stack : List ℤ) → Ends stack (replicate (length code) false) (reachable_from code stack)
  unfolding reachable_from
  reachable_from-Ends stack =
      mark-Ends (length stack + 3 * length code) stack (replicate (length code) false)
        (length-replicate (length code) false) (omega (arith, unmarked-replicate (length code)))
        (λ i insn m at t w. absurd (none_marked (length code) i m))
    where
      none_marked : (n i : ℕ) → get_or (replicate n false) i false ≡ true → ⊥
      none_marked zero i m = cc
      none_marked (suc n) zero m = cc
      none_marked (suc n) (suc i) m = none_marked n i m
