-- ===== src/LightBpf/Peephole/Indices.antt =====
-- How `_apply_removals` renumbers the instructions that it keeps.
use light_packet.Base.{
  ℕ, zero, suc, ◌+◌, ◌≤◌, ◌<◌, ◌≡◌, refl, ap, ◌∙◌, Bool, true, false, some, List, [], ◌∷◌, arith,
  length, get_elem?, get_or,
}
use light_packet.LightBpf.Instruction.{Instruction}
use light_packet.LightBpf.Peephole.{new_index, skip_removed, remap, compact}

pub new_index-suc :
    (removed : List Bool) (j : ℕ)
    → get_or removed j true ≡ false
    → new_index removed (suc j) ≡ suc (new_index removed j)
unfolding new_index
new_index-suc [] j h = absurd (ground arith)
new_index-suc (true ∷ removed) zero h = absurd (ground arith)
new_index-suc (false ∷ []) zero h = refl
new_index-suc (false ∷ b ∷ removed) zero h = refl
new_index-suc (true ∷ removed) (suc j) h = new_index-suc removed j h
new_index-suc (false ∷ removed) (suc j) h = ap suc (new_index-suc removed j h)

pub skip_removed-kept :
    (removed : List Bool) (j : ℕ) → get_or removed j true ≡ false → skip_removed removed j ≡ j
unfolding skip_removed
skip_removed-kept [] j h = refl
skip_removed-kept (true ∷ removed) zero h = absurd (ground arith)
skip_removed-kept (false ∷ removed) zero h = refl
skip_removed-kept (true ∷ removed) (suc j) h = ap suc (skip_removed-kept removed j h)
skip_removed-kept (false ∷ removed) (suc j) h = ap suc (skip_removed-kept removed j h)

pub skip_removed-gone :
    (removed : List Bool) (j : ℕ)
    → get_elem? removed j ≡ some true
    → skip_removed removed j ≡ skip_removed removed (suc j)
unfolding skip_removed
skip_removed-gone [] j h = absurd (ground arith)
skip_removed-gone (true ∷ removed) zero h = refl
skip_removed-gone (false ∷ removed) zero h = absurd (ground arith)
skip_removed-gone (true ∷ removed) (suc j) h = ap suc (skip_removed-gone removed j h)
skip_removed-gone (false ∷ removed) (suc j) h = ap suc (skip_removed-gone removed j h)

pub skip_removed-ge : (removed : List Bool) (j : ℕ) → j ≤ skip_removed removed j
unfolding skip_removed
skip_removed-ge [] j = omega arith
skip_removed-ge (true ∷ removed) zero = omega arith
skip_removed-ge (false ∷ removed) zero = omega arith
skip_removed-ge (true ∷ removed) (suc j) = omega (arith, skip_removed-ge removed j)
skip_removed-ge (false ∷ removed) (suc j) = omega (arith, skip_removed-ge removed j)

-- The index that `next_kept` comes to is kept, or lies outside the program.
pub skip_removed-lands :
    (removed : List Bool) (j : ℕ)
    → skip_removed removed j < length removed
    → get_or removed (skip_removed removed j) true ≡ false
unfolding skip_removed
skip_removed-lands [] j h = elim h [ ]
skip_removed-lands (true ∷ removed) zero h = skip_removed-lands removed zero (omega arith)
skip_removed-lands (false ∷ removed) zero h = refl
skip_removed-lands (true ∷ removed) (suc j) h = skip_removed-lands removed j (omega arith)
skip_removed-lands (false ∷ removed) (suc j) h = skip_removed-lands removed j (omega arith)

pub new_index-zero : (removed : List Bool) → new_index removed zero ≡ 0
unfolding new_index
new_index-zero [] = refl
new_index-zero (true ∷ removed) = refl
new_index-zero (false ∷ removed) = refl

-- Skipping removed instructions does not change the new index.
pub new_index-skip_removed :
    (removed : List Bool) (j : ℕ) → new_index removed (skip_removed removed j) ≡ new_index removed j
unfolding new_index skip_removed
new_index-skip_removed [] j = refl
new_index-skip_removed (true ∷ []) zero = refl
new_index-skip_removed (true ∷ b ∷ removed) zero =
    new_index-skip_removed (b ∷ removed) zero ∙ new_index-zero (b ∷ removed)
new_index-skip_removed (false ∷ removed) zero = refl
new_index-skip_removed (true ∷ removed) (suc j) = new_index-skip_removed removed j
new_index-skip_removed (false ∷ removed) (suc j) = ap suc (new_index-skip_removed removed j)

-- A kept instruction stands at its new index, with its jumps rewritten for that place.
pub get_elem?-compact :
    (full gone : List Bool) (code : List Instruction) (old_i new_i j old' new' : ℕ)
    (insn : Instruction)
    → old' ≡ old_i + j
    → new' ≡ new_i + new_index gone j
    → get_or gone j true ≡ false
    → get_elem? code j ≡ some insn
    → get_elem? (compact full old_i new_i code gone) (new_index gone j)
      ≡ some (remap full old' new' insn)
unfolding new_index compact
get_elem?-compact full [] code old_i new_i j old' new' insn eo en kept at = absurd (ground arith)
get_elem?-compact full (b ∷ gone) [] old_i new_i j old' new' insn eo en kept at =
    absurd (ground arith)
get_elem?-compact full (true ∷ gone) (x ∷ code) old_i new_i zero old' new' insn eo en kept at =
    absurd (ground arith)
get_elem?-compact full (false ∷ gone) (x ∷ code) old_i new_i zero old' new' insn eo en kept at =
    let p : old' ≡ old_i = omega arith in let q : new' ≡ new_i = omega arith in ground arith
get_elem?-compact full (true ∷ gone) (x ∷ code) old_i new_i (suc j) old' new' insn eo en kept at =
    get_elem?-compact full gone code (suc old_i) new_i j old' new' insn (omega arith) (omega arith)
      kept at
get_elem?-compact full (false ∷ gone) (x ∷ code) old_i new_i (suc j) old' new' insn eo en kept at =
    get_elem?-compact full gone code (suc old_i) (suc new_i) j old' new' insn (omega arith)
      (omega arith) kept at

-- Past the end of the program the new index is the length of the new program.
pub length-compact :
    (full gone : List Bool) (code : List Instruction) (old_i new_i j : ℕ)
    → length gone ≡ length code
    → length gone ≤ j
    → length (compact full old_i new_i code gone) ≡ new_index gone j
unfolding new_index compact
length-compact full [] [] old_i new_i j e h = refl
length-compact full [] (x ∷ code) old_i new_i j e h = absurd (omega arith)
length-compact full (b ∷ gone) [] old_i new_i j e h = absurd (omega arith)
length-compact full (b ∷ gone) (x ∷ code) old_i new_i zero e h = absurd (omega arith)
length-compact full (true ∷ gone) (x ∷ code) old_i new_i (suc j) e h =
    length-compact full gone code (suc old_i) new_i j (omega arith) (omega arith)
length-compact full (false ∷ gone) (x ∷ code) old_i new_i (suc j) e h =
    ap suc (length-compact full gone code (suc old_i) (suc new_i) j (omega arith) (omega arith))

pub length-compact-le :
    (full gone : List Bool) (code : List Instruction) (old_i new_i : ℕ)
    → length (compact full old_i new_i code gone) ≤ length code
unfolding compact
length-compact-le full gone [] old_i new_i = omega arith
length-compact-le full [] (x ∷ code) old_i new_i = omega arith
length-compact-le full (true ∷ gone) (x ∷ code) old_i new_i =
    omega (arith, length-compact-le full gone code (suc old_i) new_i)
length-compact-le full (false ∷ gone) (x ∷ code) old_i new_i =
    omega (arith, length-compact-le full gone code (suc old_i) (suc new_i))
