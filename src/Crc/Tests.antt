-- ===== src/Crc/Tests.antt =====
-- The checks on the nine bytes of "123456789", whose values the published catalogues give.
use cerasure.Base.{
  ℕ, ◌<◌, ◌≤◌, ◌≡◌, refl, arith, [], ◌∷◌, Block, of_list, of_list-lt, for_range, ◌-◌,
}
use cerasure.Crc.{
  crc16_byte, crc16_t10dif_base, crc16_t10dif_copy_base, refl_byte, refl_byte64,
  crc32_gzip_refl_base, crc32_ieee_base, crc32_iscsi_base, crc64_ecma_norm_base,
  crc64_ecma_refl_base, crc64_iso_norm_base, crc64_iso_refl_base, crc64_jones_norm_base,
  crc64_jones_refl_base,
}
use cerasure.Crc.Ref.{
  crc16_t10dif_ref, crc16_t10dif_copy_ref, crc32_gzip_refl_ref, crc32_ieee_ref, crc32_iscsi_ref,
  crc64_ecma_norm_ref, crc64_ecma_refl_ref, crc64_iso_norm_ref, crc64_iso_refl_ref,
  crc64_jones_norm_ref, crc64_jones_refl_ref,
}
use cerasure.Crc.Word32.{crc_base-crc_ref}
use cerasure.Crc.Word64.{Bytes, crc64_base-crc64_ref}
use cerasure.Crc.Copy.{crc16_t10dif_copy_base-crc16_t10dif_base}

abbrev digits : Block ℕ
digits = of_list (0x31 ∷ 0x32 ∷ 0x33 ∷ 0x34 ∷ 0x35 ∷ 0x36 ∷ 0x37 ∷ 0x38 ∷ 0x39 ∷ [])

digits-Bytes : Bytes digits 9
digits-Bytes i h =
    of_list-lt 256 (0x31 ∷ 0x32 ∷ 0x33 ∷ 0x34 ∷ 0x35 ∷ 0x36 ∷ 0x37 ∷ 0x38 ∷ 0x39 ∷ []) (omega arith)
      i

crc32_gzip_refl_base_value : crc32_gzip_refl_base 0 digits 9 ≡ 0xCBF43926
unfolding crc32_gzip_refl_base for_range refl_byte
crc32_gzip_refl_base_value = refl

crc32_iscsi_base_value : crc32_iscsi_base digits 9 0xFFFFFFFF ≡ 0xFFFFFFFF - 0xE3069283
unfolding crc32_iscsi_base for_range refl_byte
crc32_iscsi_base_value = refl

crc16_t10dif_base_value : crc16_t10dif_base 0 digits 9 ≡ 0xD0DB
unfolding crc16_t10dif_base for_range crc16_byte
crc16_t10dif_base_value = refl

crc64_ecma_refl_base_value : crc64_ecma_refl_base 0 digits 9 ≡ 0x995DC9BBDF1939FA
unfolding crc64_ecma_refl_base for_range refl_byte64
crc64_ecma_refl_base_value = refl

crc_base-crc_ref_example :
    (crc16_t10dif_base 0x1234 digits 9 ≡ crc16_t10dif_ref 0x1234 digits 9)
    × (crc16_t10dif_copy_base 0x1234 (λ i. 0) digits 9
        ≡ crc16_t10dif_copy_ref 0x1234 (λ i. 0) digits 9)
    × (crc32_ieee_base 0xFFFFFFFF digits 9 ≡ crc32_ieee_ref 0xFFFFFFFF digits 9)
    × (crc32_iscsi_base digits 9 0xFFFFFFFF ≡ crc32_iscsi_ref digits 9 0xFFFFFFFF)
    × (crc32_gzip_refl_base 0xFFFFFFFF digits 9 ≡ crc32_gzip_refl_ref 0xFFFFFFFF digits 9)
crc_base-crc_ref_example =
    crc_base-crc_ref 0x1234 0xFFFFFFFF (λ i. 0) digits 9 digits-Bytes (omega arith) (omega arith)

crc64_base-crc64_ref_example :
    (crc64_ecma_refl_base 0x1234 digits 9 ≡ crc64_ecma_refl_ref 0x1234 digits 9)
    × (crc64_ecma_norm_base 0x1234 digits 9 ≡ crc64_ecma_norm_ref 0x1234 digits 9)
    × (crc64_iso_refl_base 0x1234 digits 9 ≡ crc64_iso_refl_ref 0x1234 digits 9)
    × (crc64_iso_norm_base 0x1234 digits 9 ≡ crc64_iso_norm_ref 0x1234 digits 9)
    × (crc64_jones_refl_base 0x1234 digits 9 ≡ crc64_jones_refl_ref 0x1234 digits 9)
    × (crc64_jones_norm_base 0x1234 digits 9 ≡ crc64_jones_norm_ref 0x1234 digits 9)
crc64_base-crc64_ref_example = crc64_base-crc64_ref 0x1234 digits 9 digits-Bytes

crc16_t10dif_copy_base-crc16_t10dif_base_example :
    ((crc16_t10dif_copy_base 7 (λ i. 0) digits 9).crc ≡ crc16_t10dif_base 7 digits 9)
    × ((i : ℕ) → i < 9 → (crc16_t10dif_copy_base 7 (λ i. 0) digits 9).dst i ≡ digits i)
    × ((i : ℕ) → 9 ≤ i → (crc16_t10dif_copy_base 7 (λ i. 0) digits 9).dst i ≡ 0)
crc16_t10dif_copy_base-crc16_t10dif_base_example =
    crc16_t10dif_copy_base-crc16_t10dif_base 7 (λ i. 0) digits 9
