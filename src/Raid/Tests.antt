-- ===== src/Raid/Tests.antt =====
-- The parities of two vectors of data, each of two bytes.
use cerasure.Base.{
  ◌*◌, ◌/◌, ℕ, zero, suc, ◌-◌, ◌<◌, ◌≤◌, ◌≡◌, ◌≢◌, ◌↔◌, ◌⊎◌, refl, arith, [], ◌∷◌, Block, of_list,
  of_list-lt, for_range, set,
}
use cerasure.Raid.{
  xor_gen_base, xor_check_base, pq_check_base, pq_gen_base, pq_gen_word, pq_at, pq_down,
  double_word,
}
use cerasure.Raid.Xor.{AllZero, xor_check_base-sum, xor_check_base-xor_gen_base}
use cerasure.Raid.Words.{bytes_of, pq_check_base-pq_gen_base}
use cerasure.Raid.Pq.{sum_p, sum_q, pq_check_base-sum}

-- Two vectors of data, then P and Q.
abbrev vectors : Block (Block ℕ)
vectors zero = of_list (0x81 ∷ 2 ∷ [])
vectors (suc zero) = of_list (0x90 ∷ 3 ∷ [])
vectors (suc (suc zero)) = of_list (0x11 ∷ 1 ∷ [])
vectors (suc (suc (suc j))) = of_list (0xbc ∷ 4 ∷ [])

vectors-lt : (j i : ℕ) → j < 4 - 2 → i < 2 → vectors j i < 256
vectors-lt zero i hj hi = of_list-lt 256 (0x81 ∷ 2 ∷ []) (omega arith) i
vectors-lt (suc zero) i hj hi = of_list-lt 256 (0x90 ∷ 3 ∷ []) (omega arith) i
vectors-lt (suc (suc j)) i hj hi = absurd (omega arith)

-- One word with the first byte of each vector in two of its lanes.
abbrev words : Block (Block ℕ)
words zero = of_list (0x8100000000000002 ∷ [])
words (suc j) = of_list (0x9000000000000003 ∷ [])

pq_gen_base_value : pq_gen_base 4 8 words 3 0 ≡ 0xbc00000000000004
unfolding pq_gen_base pq_gen_word pq_at pq_down double_word for_range set
pq_gen_base_value = refl

xor_check_base-sum_example :
    (AllZero 4 2 vectors → xor_check_base 4 2 vectors ≡ 0)
    × (xor_check_base 4 2 vectors ≡ 0 → AllZero 4 2 vectors)
    × ((xor_check_base 4 2 vectors ≡ 0) ⊎ (xor_check_base 4 2 vectors ≡ 2))
xor_check_base-sum_example = xor_check_base-sum 4 2 vectors

xor_check_base-xor_gen_base_example :
    (xor_check_base 4 2 (xor_gen_base 4 2 vectors) ≡ 0)
    × ((j i : ℕ) → (suc j ≢ 4) ⊎ (2 ≤ i) → xor_gen_base 4 2 vectors j i ≡ vectors j i)
xor_check_base-xor_gen_base_example = xor_check_base-xor_gen_base 4 2 vectors (omega arith)

pq_check_base-sum_example : (pq_check_base 4 2 vectors ≡ 0) ↔ (
    (i : ℕ)
    → i < 2
    → (vectors (4 - 2) i ≡ sum_p 4 vectors i) × (vectors (4 - 1) i ≡ sum_q 4 vectors i))
pq_check_base-sum_example = pq_check_base-sum 4 2 vectors (omega arith) vectors-lt

pq_check_base-pq_gen_base_example :
    (pq_check_base 4 (8 / 8 * 8) (bytes_of (pq_gen_base 4 8 words)) ≡ 0)
    × ((j i : ℕ)
        → ((suc (suc j) ≢ 4) × (suc j ≢ 4)) ⊎ (8 / 8 ≤ i)
        → pq_gen_base 4 8 words j i ≡ words j i)
pq_check_base-pq_gen_base_example = pq_check_base-pq_gen_base 4 8 words (omega arith)
