-- ===== src/Mem/Tests.antt =====
-- A buffer of eleven bytes, of which the last but one is not 0.
use cerasure.Base.{ℕ, ◌<◌, ◌≡◌, ◌↔◌, refl, [], ◌∷◌, Block, of_list}
use cerasure.Mem.{
  all_zero, not_zero, load, or_byte, or_load, or_tail, scan_tail, scan_words, mem_zero_detect_base,
}
use cerasure.Mem.Zero.{mem_zero_detect_base-zero}

abbrev buffer : Block ℕ
buffer = of_list (0 ∷ 0 ∷ 0 ∷ 0 ∷ 0 ∷ 0 ∷ 0 ∷ 0 ∷ 0 ∷ 7 ∷ 0 ∷ [])

nine_value : mem_zero_detect_base buffer 9 ≡ all_zero
unfolding mem_zero_detect_base scan_words scan_tail or_tail or_byte or_load load
nine_value = refl

eleven_value : mem_zero_detect_base buffer 11 ≡ not_zero
unfolding mem_zero_detect_base scan_words scan_tail or_tail or_byte or_load load
eleven_value = refl

mem_zero_detect_base-zero_example :
    (mem_zero_detect_base buffer 11 ≡ all_zero) ↔ ((i : ℕ) → i < 11 → buffer i ≡ 0)
mem_zero_detect_base-zero_example = mem_zero_detect_base-zero buffer 11
