-- ===== src/Crc/Word32.antt =====
-- All of crc/crc_base.c against crc/crc_ref.h.
use cerasure.Base.{
  ℕ, ◌-◌, ◌*◌, ◌%◌, ◌^◌, ◌<◌, ◌≡◌, refl, sym, ap, ap₂, ◌∙◌, arith, Block, for_range, for_range_rel,
  set,
}
use cerasure.Bits.{◌⊕◌}
use cerasure.Crc.{
  CopyState, crc16_copy_byte, crc16_t10dif_base, crc16_t10dif_copy_base, crc32_ieee_base,
  crc32_iscsi_base, crc32_gzip_refl_base,
}
use cerasure.Crc.Ref.{
  wide_bit, wide_ref, crc16_copy_round, crc16_t10dif_ref, crc16_t10dif_copy_ref, crc32_ieee_ref,
  crc32_iscsi_ref, crc32_gzip_refl_ref,
}
use cerasure.Crc.Copy.{crc16_t10dif_copy_base-crc16_t10dif_base}
use cerasure.Crc.Left32.{crc16_t10dif_base-crc16_t10dif_ref, crc32_ieee_base-crc32_ieee_ref}
use cerasure.Crc.Right32.{
  crc32_gzip_refl_base-crc32_gzip_refl_ref, crc32_iscsi_base-crc32_iscsi_ref,
}
use cerasure.Crc.Word64.{Bytes}

module _ (seed : ℕ) (dst src : Block ℕ) (len : ℕ) where
  abbrev start : CopyState
  start = record { crc = seed; dst = dst }

  -- The remainder does not depend on the copy, nor the copy on the remainder.
  copy_ref-crc : (crc16_t10dif_copy_ref seed dst src len).crc ≡ crc16_t10dif_ref seed src len
  unfolding crc16_t10dif_copy_ref crc16_t10dif_ref wide_ref crc16_copy_round
  copy_ref-crc =
      ap (λ (t : ℕ). t % 2 ^ 16)
        (for_range_rel (λ s rem. s.crc ≡ rem) (crc16_copy_round src)
          (λ i rem. for_range 8 0 (λ j. wide_bit 16 0x8bb7) (rem ⊕ (src i * 2 ^ (16 - 8)))) 0 len
          (λ i s rem lo hi e.
            ap (λ (t : ℕ). for_range 8 0 (λ j. wide_bit 16 0x8bb7) (t ⊕ (src i * 2 ^ (16 - 8)))) e)
          len 0 start seed (omega arith) (omega arith) refl)

  copy_ref-dst :
      (crc16_t10dif_copy_base seed dst src len).dst ≡ (crc16_t10dif_copy_ref seed dst src len).dst
  unfolding crc16_t10dif_copy_base crc16_t10dif_copy_ref crc16_copy_byte crc16_copy_round
  copy_ref-dst =
      for_range_rel (λ s t. s.dst ≡ t.dst) (crc16_copy_byte src) (crc16_copy_round src) 0 len
        (λ i s t lo hi e. ap (λ (m : Block ℕ). set m i (src i)) e) len 0 start start (omega arith)
        (omega arith) refl

-- On a buffer of bytes, a seed of 16 bits for the functions of that width and one of 32 bits for
-- the others, each of the five functions of crc_base.c returns what its bitwise reference does; the
-- two that copy also leave the same destination.
pub crc_base-crc_ref :
    (narrow seed : ℕ) (dst buf : Block ℕ) (len : ℕ)
    → Bytes buf len
    → narrow < 2 ^ 16
    → seed < 2 ^ 32
    → (crc16_t10dif_base narrow buf len ≡ crc16_t10dif_ref narrow buf len)
      × (crc16_t10dif_copy_base narrow dst buf len ≡ crc16_t10dif_copy_ref narrow dst buf len)
      × (crc32_ieee_base seed buf len ≡ crc32_ieee_ref seed buf len)
      × (crc32_iscsi_base buf len seed ≡ crc32_iscsi_ref buf len seed)
      × (crc32_gzip_refl_base seed buf len ≡ crc32_gzip_refl_ref seed buf len)
crc_base-crc_ref narrow seed dst buf len hb hn hs =
    let check = crc16_t10dif_base-crc16_t10dif_ref narrow buf len hb hn in
    let copied = crc16_t10dif_copy_base-crc16_t10dif_base narrow dst buf len in
    (
      check,
      ap₂ (λ (c : ℕ) (d : Block ℕ). record { crc = c; dst = d })
          (copied.0 ∙ check ∙ sym (copy_ref-crc narrow dst buf len))
          (copy_ref-dst narrow dst buf len),
      crc32_ieee_base-crc32_ieee_ref seed buf len hb,
      crc32_iscsi_base-crc32_iscsi_ref buf len seed hb hs,
      crc32_gzip_refl_base-crc32_gzip_refl_ref seed buf len hb,
    )
