-- ===== src/Utils/Checksum/Sums.antt =====
-- The checksum as the sum of the 16-bit words, in one's complement arithmetic.
use light_packet.Base.{
  ℕ, ◌+◌, ◌-◌, ◌*◌, ◌%◌, ◌^◌, ◌≤◌, ◌<◌, ◌≡◌, refl, ap, ◌∙◌, List, [], ◌∷◌, ◌++◌, arith, length,
  length-append, if◌then◌else◌, ◌==◌, All-append, if-both,
}
use light_packet.Base.Bits.{or_disjoint}
use light_packet.Base.Bytes.{IsBytes}
use light_packet.Utils.Checksum.{pad_even, fold_carry, add_words, ones_complement}
use light_packet.Base.Int.{low_bits}

-- The sum of the words of `bs`, an odd last byte taken as the high byte of a word.
unfoldable pub sum_words : List ℕ → ℕ
sum_words (hi ∷ lo ∷ rest) = hi * 256 + lo + sum_words rest
sum_words (hi ∷ []) = hi * 256
sum_words [] = 0

-- The representative of `n` modulo 0xFFFF that is 0 only for 0.
unfoldable pub carry_around : ℕ → ℕ
carry_around n = if n == 0 then 0 else (n - 1) % 65535 + 1

fold_carry-carry_around :
    (x w : ℕ) → w < 65536 → fold_carry (carry_around x + w) ≡ carry_around (x + w)
unfolding fold_carry carry_around
fold_carry-carry_around x w h = ground arith

add_words-carry_around :
    (x : ℕ) (bs : List ℕ)
    → IsBytes bs
    → length bs % 2 ≡ 0
    → add_words (carry_around x) bs ≡ carry_around (x + sum_words bs)
unfolding add_words sum_words
add_words-carry_around x [] b e = ap carry_around (omega arith)
add_words-carry_around x (hi ∷ []) b e = absurd (omega arith)
add_words-carry_around x (hi ∷ lo ∷ rest) b e =
    rw
      (
        or_disjoint 8 hi lo b.1.0,
        fold_carry-carry_around x (hi * 2 ^ 8 + lo) (omega arith),
        add_words-carry_around (x + (hi * 2 ^ 8 + lo)) rest b.1.1 (omega arith),
      )
      (ap carry_around (omega arith))

sum_words-pad : (bs : List ℕ) → sum_words (bs ++ 0 ∷ []) ≡ sum_words bs
unfolding sum_words
sum_words-pad [] = refl
sum_words-pad (hi ∷ []) = omega arith
sum_words-pad (hi ∷ lo ∷ rest) = omega (arith, sum_words-pad rest)

sum_words-pad_even : (bs : List ℕ) → sum_words (pad_even bs) ≡ sum_words bs
unfolding pad_even
sum_words-pad_even bs = ground (arith, sum_words-pad bs)

length-pad_even : (bs : List ℕ) → length (pad_even bs) % 2 ≡ 0
unfolding pad_even
length-pad_even bs = ground (arith, length-append bs (0 ∷ []))

pad_even-IsBytes : (bs : List ℕ) → IsBytes bs → IsBytes (pad_even bs)
unfolding pad_even
pad_even-IsBytes bs b =
    if-both IsBytes (length bs % 2 == 0) b
      (All-append (λ (n : ℕ). n < 256) bs (0 ∷ []) b (omega arith, tt))

pub sum_words-append :
    (pre post : List ℕ)
    → length pre % 2 ≡ 0
    → sum_words (pre ++ post) ≡ sum_words pre + sum_words post
unfolding sum_words
sum_words-append [] post e = omega arith
sum_words-append (hi ∷ []) post e = absurd (omega arith)
sum_words-append (hi ∷ lo ∷ pre) post e = omega (arith, sum_words-append pre post (omega arith))

-- The checksum is the complement of the sum of the words with its carries added back in.
pub ones_complement_lem :
    (bs : List ℕ)
    → IsBytes bs
    → (ones_complement bs ≡ 65535 - carry_around (sum_words bs))
      × (carry_around (sum_words bs) ≤ 65535)
unfolding ones_complement low_bits carry_around
ones_complement_lem bs b = ground (arith, below (sum_words bs), added, sum_words-pad_even bs)
  where
    below : (n : ℕ) → carry_around n ≤ 65535
    below n = unfold carry_around in ground arith

    added : add_words 0 (pad_even bs) ≡ carry_around (sum_words (pad_even bs))
    added =
        add_words-carry_around 0 (pad_even bs) (pad_even-IsBytes bs b) (length-pad_even bs)
        ∙ ap carry_around (omega arith)

-- A sum that the complement completes is all ones.
pub carry_around-completed : (n : ℕ) → carry_around (n + (65535 - carry_around n)) ≡ 65535
unfolding carry_around
carry_around-completed n = ground arith

-- All ones may be written for 0, which changes no sum that is not 0.
pub carry_around-all_ones : (n : ℕ) → 65535 - carry_around n ≡ 0 → carry_around (n + 65535) ≡ 65535
unfolding carry_around
carry_around-all_ones n h = ground arith
