-- ===== src/Crc/Copy.antt =====
-- `crc16_t10dif_copy_base` of crc/crc_base.c: the check of a buffer that is copied on the way.
use cerasure.Base.{
  ℕ, ◌+◌, ◌<◌, ◌≤◌, ◌≡◌, refl, ap, ap₂, ◌∙◌, arith, Block, for_range, for_range_rel, set, fill,
  fill_inside, fill_outside, inr,
}
use cerasure.Crc.{crc16_byte, crc16_t10dif_base, CopyState, crc16_copy_byte, crc16_t10dif_copy_base}

-- `crc16_t10dif_copy_base` returns what `crc16_t10dif_base` returns for the source, copies its
-- first len bytes, and writes nothing else.
pub crc16_t10dif_copy_base-crc16_t10dif_base :
    (seed : ℕ) (dst src : Block ℕ) (len : ℕ)
    → ((crc16_t10dif_copy_base seed dst src len).crc ≡ crc16_t10dif_base seed src len)
      × ((i : ℕ) → i < len → (crc16_t10dif_copy_base seed dst src len).dst i ≡ src i)
      × ((i : ℕ) → len ≤ i → (crc16_t10dif_copy_base seed dst src len).dst i ≡ dst i)
unfolding crc16_t10dif_copy_base crc16_t10dif_base crc16_copy_byte fill
crc16_t10dif_copy_base-crc16_t10dif_base seed dst src len = (
  for_range_rel (λ s crc. s.crc ≡ crc) (crc16_copy_byte src) (λ i. crc16_byte (src i)) 0 len
      (λ i s crc lo hi e. ap (crc16_byte (src i)) e) len 0 start seed (omega arith) (omega arith)
      refl,
  λ i h.
      ap (λ (m : Block ℕ). m i) copied
      ∙ ap (fill 0 len src dst) {x = i} {y = 0 + i} (omega arith)
      ∙ fill_inside 0 len src dst i h,
  λ i h. ap (λ (m : Block ℕ). m i) copied ∙ fill_outside 0 len src dst i (inr (omega arith)),
)
  where
    start : CopyState
    start = record { crc = seed; dst = dst }

    copied : (for_range len 0 (crc16_copy_byte src) start).dst ≡ fill 0 len src dst
    copied =
        for_range_rel (λ s m. s.dst ≡ m) (crc16_copy_byte src) (λ k m. set m (0 + k) (src k)) 0 len
          (λ i s m lo hi e.
            ap₂ (λ (p : ℕ) (m : Block ℕ). set m p (src i)) {x = i} {y = 0 + i} (omega arith) e)
          len 0 start dst (omega arith) (omega arith) refl
