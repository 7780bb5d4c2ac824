-- ===== src/LightBpf/Compiler/Assemble/Loop.antt =====
-- The loop of `resolve` in LightBPF/CompilerSet/Compiler.py, without fuel.
use light_packet.Base.{
  ℕ, zero, suc, ◌≤◌, ◌≡◌, refl, inl, inr, arith, Bool, true, false, none, some, List, [], ◌∷◌,
  length, get_elem?, get_or, set, replicate, Bool-cases, Option-cases,
}
use light_packet.Base.Exceptions.{Result, ok, raise, Exception, Result-cases}
use light_packet.LightBpf.Compiler.Code.{Label, Item}
use light_packet.LightBpf.Compiler.Assemble.{Symbolic, index_of, jump_label, resolve}

module _ (items : List Item) (code : List Symbolic) where
  -- `Resolves seen idx r`: the loop, when it is at `idx` and has been at the indices that `seen`
  -- marks, ends after some rounds, with the index or the exception `r`. There is a mark for each
  -- instruction, so that an index that is in the code has one.
  pub data Resolves : List Bool → ℕ → Result ℕ → Type 0 where
    outside : (seen : List Bool) (idx : ℕ) → get_elem? code idx ≡ none → Resolves seen idx (ok idx)
    visited :
        (seen : List Bool) (idx : ℕ) → get_or seen idx true ≡ true → Resolves seen idx (ok idx)
    arrived :
        (seen : List Bool) (idx : ℕ) (s : Symbolic)
        → get_elem? code idx ≡ some s
        → jump_label s ≡ none
        → Resolves seen idx (ok idx)
    undefined :
        (seen : List Bool) (idx : ℕ) (s : Symbolic) (l : Label) (x : Exception)
        → get_elem? code idx ≡ some s
        → get_or seen idx true ≡ false
        → jump_label s ≡ some l
        → index_of items l ≡ raise x
        → Resolves seen idx (raise x)
    follows :
        (seen : List Bool) (idx : ℕ) (s : Symbolic) (l : Label) (j : ℕ) (r : Result ℕ)
        → get_elem? code idx ≡ some s
        → get_or seen idx true ≡ false
        → jump_label s ≡ some l
        → index_of items l ≡ ok j
        → Resolves (set seen idx true) j r
        → Resolves seen idx r

-- How many indices the loop has not been at.
unmarked : List Bool → ℕ
unmarked [] = 0
unmarked (true ∷ seen) = unmarked seen
unmarked (false ∷ seen) = suc (unmarked seen)

unmarked-replicate : (n : ℕ) → unmarked (replicate n false) ≡ n
unfolding unmarked
unmarked-replicate zero = refl
unmarked-replicate (suc n) = omega (arith, unmarked-replicate n)

unmarked-set :
    (seen : List Bool) (i : ℕ)
    → get_or seen i true ≡ false
    → suc (unmarked (set seen i true)) ≡ unmarked seen
unfolding unmarked
unmarked-set [] i e = absurd (ground arith)
unmarked-set (true ∷ seen) zero e = absurd (ground arith)
unmarked-set (false ∷ seen) zero e = refl
unmarked-set (true ∷ seen) (suc i) e = unmarked-set seen i e
unmarked-set (false ∷ seen) (suc i) e = omega (arith, unmarked-set seen i e)

all_marked : (seen : List Bool) (i : ℕ) → unmarked seen ≡ 0 → get_or seen i true ≡ true
unfolding unmarked
all_marked [] i e = refl
all_marked (true ∷ seen) zero e = refl
all_marked (true ∷ seen) (suc i) e = all_marked seen i e
all_marked (false ∷ seen) i e = absurd (omega (arith, e))

module _ (items : List Item) (code : List Symbolic) where
  -- Each round marks an index, so that the indices without a mark are fuel enough.
  resolve-Resolves_from :
      (fuel : ℕ) (seen : List Bool) (idx : ℕ)
      → unmarked seen ≤ fuel
      → Resolves items code seen idx (resolve fuel items code seen idx)
  unfolding resolve
  resolve-Resolves_from zero seen idx h = visited seen idx (all_marked seen idx (omega arith))
  resolve-Resolves_from (suc fuel) seen idx h = elim (Option-cases (get_elem? code idx)) [
    | inl out ↦ rw (out, resolve) (outside seen idx out)
    | inr (s, found) ↦ elim (Bool-cases (get_or seen idx true)) [
      | inl marked ↦ rw (found, resolve) (rw (marked, resolve) (visited seen idx marked))
      | inr fresh ↦ elim (Option-cases (jump_label s)) [
        | inl other ↦
            rw (found, resolve)
              (rw (fresh, resolve) (rw (other, resolve) (arrived seen idx s found other)))
        | inr (l, jump) ↦
            rw (found, resolve)
              (rw (fresh, resolve)
                (rw (jump, resolve)
                  (elim (Result-cases (index_of items l)) [
                    | inl (x, lost) ↦
                        rw (lost, resolve) (undefined seen idx s l x found fresh jump lost)
                    | inr (j, at) ↦
                        rw (at, resolve)
                          (follows seen idx s l j _ found fresh jump at (
                            resolve-Resolves_from fuel (set seen idx true) j
                              (omega (arith, unmarked-set seen idx fresh))))
                  ])))
      ]
    ]
  ]

-- The loop of `resolve` ends on every list of instructions, cycles of jumps and instructions that are
-- patched already included, and its end, an index or an exception, is what `resolve` gives with the
-- fuel and the marks that `patch` gives it.
pub resolve-Resolves :
    (items : List Item) (code : List Symbolic) (idx : ℕ)
    → Resolves items code
        (replicate (length code) false)
        idx
        (resolve (length code) items code (replicate (length code) false) idx)
resolve-Resolves items code idx =
    resolve-Resolves_from items code (length code) (replicate (length code) false) idx
      (omega (arith, unmarked-replicate (length code)))
