-- ===== src/Crc/Ref.antt =====
-- The bitwise checks of crc/crc_ref.h and crc/crc64_ref.h, "slow crc from the definition". The
-- remainder is a `uint64_t` or a `size_t` of 64 bits, whatever the width of the check.
use cerasure.Base.{ℕ, ◌-◌, ◌*◌, ◌/◌, ◌%◌, ◌^◌, ◌==◌, if◌then◌else◌, Block, set, for_range}
use cerasure.Bits.{◌⊕◌}
use cerasure.Crc.{not32, not64, CopyState}

-- rem = (rem & 0x1ULL) ? (rem >> 1) ^ poly : (rem >> 1);
unfoldable pub refl_bit32 : ℕ → ℕ → ℕ
refl_bit32 poly rem = if rem % 2 == 1 then rem / 2 ⊕ poly else rem / 2

unfoldable pub refl_ref : ℕ → Block ℕ → ℕ → ℕ → ℕ
refl_ref poly buf len rem =
    for_range len 0 (λ i rem. for_range 8 0 (λ j. refl_bit32 poly) (rem ⊕ buf i)) rem

unfoldable pub crc32_iscsi_ref : Block ℕ → ℕ → ℕ → ℕ
crc32_iscsi_ref buffer len crc_init = refl_ref 0x82F63B78 buffer len crc_init % 2 ^ 32

-- rem = rem << 1; rem = (rem & (1 << w)) ? rem ^ poly : rem;  for the width w
unfoldable pub wide_bit : ℕ → ℕ → ℕ → ℕ
wide_bit w poly rem =
    let rem' = rem * 2 % 2 ^ 64 in if rem' / 2 ^ w % 2 == 1 then rem' ⊕ poly else rem'

unfoldable pub wide_ref : ℕ → ℕ → Block ℕ → ℕ → ℕ → ℕ
wide_ref w poly buf len rem =
    for_range len 0 (λ i rem. for_range 8 0 (λ j. wide_bit w poly) (rem ⊕ (buf i * 2 ^ (w - 8))))
      rem

unfoldable pub crc16_t10dif_ref : ℕ → Block ℕ → ℕ → ℕ
crc16_t10dif_ref seed buf len = wide_ref 16 0x8bb7 buf len seed % 2 ^ 16

-- The remainder stands in the field for the check until it is cut down.
unfoldable pub crc16_copy_round : Block ℕ → ℕ → CopyState → CopyState
crc16_copy_round src i s = record {
  crc = for_range 8 0 (λ j. wide_bit 16 0x8bb7) (s.crc ⊕ (src i * 2 ^ (16 - 8)));
  dst = set s.dst i (src i);
}

unfoldable pub crc16_t10dif_copy_ref : ℕ → Block ℕ → Block ℕ → ℕ → CopyState
crc16_t10dif_copy_ref seed dst src len =
    let start : CopyState = record { crc = seed; dst = dst } in
    let s = for_range len 0 (crc16_copy_round src) start in
    record { crc = s.crc % 2 ^ 16; dst = s.dst }

unfoldable pub crc32_ieee_ref : ℕ → Block ℕ → ℕ → ℕ
crc32_ieee_ref seed buf len = not64 (wide_ref 32 0x04C11DB7 buf len (not32 seed)) % 2 ^ 32

unfoldable pub crc32_gzip_refl_ref : ℕ → Block ℕ → ℕ → ℕ
crc32_gzip_refl_ref seed buf len = not64 (refl_ref 0xEDB88320 buf len (not32 seed)) % 2 ^ 32

-- rem = (rem & 0x1ULL ? poly : 0) ^ (rem >> 1);
unfoldable pub refl_bit64 : ℕ → ℕ → ℕ
refl_bit64 poly rem = (if rem % 2 == 1 then poly else 0) ⊕ rem / 2

unfoldable pub refl_ref64 : ℕ → ℕ → Block ℕ → ℕ → ℕ
refl_ref64 poly seed buf len =
    not64
      (for_range len 0 (λ i rem. for_range 8 0 (λ j. refl_bit64 poly) (rem ⊕ buf i)) (not64 seed))

-- rem = (rem & 0x8000000000000000ULL ? poly : 0) ^ (rem << 1);
unfoldable pub norm_bit64 : ℕ → ℕ → ℕ
norm_bit64 poly rem = (if rem / 2 ^ 63 % 2 == 1 then poly else 0) ⊕ (rem * 2 % 2 ^ 64)

unfoldable pub norm_ref64 : ℕ → ℕ → Block ℕ → ℕ → ℕ
norm_ref64 poly seed buf len = not64 (
    for_range len 0 (λ i rem. for_range 8 0 (λ j. norm_bit64 poly) (rem ⊕ (buf i * 2 ^ 56)))
      (not64 seed))

unfoldable pub crc64_ecma_refl_ref : ℕ → Block ℕ → ℕ → ℕ
crc64_ecma_refl_ref = refl_ref64 0xC96C5795D7870F42

unfoldable pub crc64_ecma_norm_ref : ℕ → Block ℕ → ℕ → ℕ
crc64_ecma_norm_ref = norm_ref64 0x42F0E1EBA9EA3693

unfoldable pub crc64_iso_refl_ref : ℕ → Block ℕ → ℕ → ℕ
crc64_iso_refl_ref = refl_ref64 0xD800000000000000

unfoldable pub crc64_iso_norm_ref : ℕ → Block ℕ → ℕ → ℕ
crc64_iso_norm_ref = norm_ref64 0x000000000000001B

unfoldable pub crc64_jones_refl_ref : ℕ → Block ℕ → ℕ → ℕ
crc64_jones_refl_ref = refl_ref64 0x95ac9329ac4bc9b5

unfoldable pub crc64_jones_norm_ref : ℕ → Block ℕ → ℕ → ℕ
crc64_jones_norm_ref = norm_ref64 0xad93d23594c935a9
