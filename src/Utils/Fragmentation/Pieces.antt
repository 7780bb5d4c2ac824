-- ===== src/Utils/Fragmentation/Pieces.antt =====
-- How the loop divides a payload.
use light_packet.Base.{
  ℕ, zero, suc, ◌+◌, ◌-◌, ◌%◌, ◌≤◌, ◌<◌, ◌≡◌, refl, ap, sym, ◌∙◌, Bool, true, false, List, [], ◌∷◌,
  ◌++◌, arith, length, length-take, length-drop, take, drop, ltb, take-append-drop, Bool-cases, inl,
  inr, ltb→lt, lt→ltb,
}
use mathlib.Core.Path.{subst}
use Prim.Native.Nat.{min}
use light_packet.Utils.Fragmentation.{fragment_loop}

drop-nil {ℓ} : {A : Type ℓ} (n : ℕ) → drop {A = A} n [] ≡ []
drop-nil zero = refl
drop-nil (suc n) = refl

drop-drop {ℓ} : {A : Type ℓ} (n m : ℕ) (xs : List A) → drop n (drop m xs) ≡ drop (m + n) xs
drop-drop n zero xs = ap (λ k. drop k xs) (omega arith)
drop-drop zero (suc m) [] = sym (drop-nil (suc m + 0))
drop-drop (suc n) (suc m) [] = sym (drop-nil (suc m + suc n))
drop-drop n (suc m) (x ∷ xs) = drop-drop n m xs ∙ ap (λ k. drop k (x ∷ xs)) one_more
  where
    one_more : suc (m + n) ≡ suc m + n
    one_more = omega arith

take-ge {ℓ} : {A : Type ℓ} (n : ℕ) (xs : List A) → length xs ≤ n → take n xs ≡ xs
take-ge zero [] h = refl
take-ge (suc n) [] h = refl
take-ge zero (x ∷ xs) h = absurd (omega arith)
take-ge (suc n) (x ∷ xs) h = rw (take-ge n xs (omega arith)) refl

module _ {ℓ} {F : Type ℓ} (make : ℕ → Bool → List ℕ → F) (max_data : ℕ) where
  -- `Covers off bs fs`: the fragments `fs` carry `bs` from offset `off`, a full chunk in each but
  -- the last, which is not empty, at offsets that are multiples of 8.
  pub data Covers : ℕ → List ℕ → List F → Type ℓ where
    last :
        (off : ℕ) (chunk : List ℕ)
        → off % 8 ≡ 0
        → 0 < length chunk
        → length chunk ≤ max_data
        → Covers off chunk (make off false chunk ∷ [])
    more :
        (off : ℕ) (chunk rest : List ℕ) (fs : List F)
        → off % 8 ≡ 0
        → length chunk ≡ max_data
        → Covers (off + length chunk) rest fs
        → Covers off (chunk ++ rest) (make off true chunk ∷ fs)

  module _ (units : max_data % 8 ≡ 0) (positive : 0 < max_data) (payload : List ℕ) where
    abbrev chunk_at : ℕ → List ℕ
    chunk_at off = take max_data (drop off payload)

    fragment_loop-next :
        (n off : ℕ)
        → off < length payload
        → fragment_loop make max_data payload (suc n) off
          ≡ make off (ltb (off + length (chunk_at off)) (length payload)) (chunk_at off)
            ∷ fragment_loop make max_data payload n (off + length (chunk_at off))
    unfolding fragment_loop
    fragment_loop-next n off h = rw (lt→ltb off (length payload) h, fragment_loop) refl

    fragment_loop-end :
        (n off : ℕ) → length payload ≤ off → fragment_loop make max_data payload n off ≡ []
    unfolding fragment_loop
    fragment_loop-end zero off h = refl
    fragment_loop-end (suc n) off h = rw (beyond, fragment_loop) refl
      where
        beyond : ltb off (length payload) ≡ false
        beyond = ground arith

    length-chunk : (off : ℕ) → length (chunk_at off) ≡ min max_data (length payload - off)
    length-chunk off =
        omega (arith, length-take max_data (drop off payload), length-drop off payload)

    pub fragment_loop-Covers :
        (n off : ℕ)
        → off % 8 ≡ 0
        → off < length payload
        → length payload ≤ off + n
        → Covers off (drop off payload) (fragment_loop make max_data payload n off)
    fragment_loop-Covers zero off e h g = absurd (omega arith)
    fragment_loop-Covers (suc n) off e h g =
        elim (Bool-cases (ltb (off + length (chunk_at off)) (length payload))) [
          | inl t ↦
              let below = ltb→lt _ _ t in
              let full : length (chunk_at off) ≡ max_data = omega (arith, length-chunk off) in
              rw (fragment_loop-next n off h, t)
                (subst
                  (λ z. Covers off z (
                    make off true (chunk_at off)
                    ∷ fragment_loop make max_data payload n (off + length (chunk_at off))))
                  (parts off full)
                  (more off (chunk_at off) _ _ e full (
                    fragment_loop-Covers n (off + length (chunk_at off)) (omega (arith, full)) below
                      (omega (arith, full)))))
          | inr t ↦
              rw
                (
                  fragment_loop-next n off h,
                  t,
                  fragment_loop-end n (off + length (chunk_at off)) (ground arith),
                )
                (subst (λ z. Covers off z (make off false (chunk_at off) ∷ []))
                  (take-ge max_data (drop off payload)
                    (ground (arith, length-chunk off, length-drop off payload)))
                  (last off (chunk_at off) e (omega (arith, length-chunk off))
                    (omega (arith, length-chunk off))))
        ]
      where
        parts :
            (off : ℕ)
            → length (chunk_at off) ≡ max_data
            → chunk_at off ++ drop (off + length (chunk_at off)) payload ≡ drop off payload
        parts off full =
            ap (λ k. chunk_at off ++ drop (off + k) payload) full
            ∙ ap (λ r. chunk_at off ++ r) (sym (drop-drop max_data off payload))
            ∙ take-append-drop max_data (drop off payload)
