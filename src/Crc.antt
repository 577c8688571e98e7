-- ===== src/Crc.antt =====
-- The table-driven checks of crc/crc_base.c and crc/crc64_base.c. A `uint16_t`, `uint32_t` or
-- `uint64_t` is a number below 2 ^ 16, 2 ^ 32 or 2 ^ 64; a length is below 2 ^ 31, so that the
-- counter of type `int` in crc/crc_base.c does not overflow. A pointer that moves along the
-- buffer is the offset i.
mod Tables
pub mod Ref
mod Rounds
mod LeftRounds
pub mod Right32
pub mod Word64
pub mod Left32
pub mod Copy
pub mod Word32
mod Tests
use cerasure.Base.{ℕ, ◌+◌, ◌-◌, ◌*◌, ◌/◌, ◌%◌, ◌^◌, List, get_or, Block, set, for_range}
use cerasure.Bits.{◌⊕◌}
use Tables.{
  crc16tab, crc32_table_iscsi_refl, crc32_table_ieee_norm, crc32_table_gzip_refl,
  crc64_ecma_refl_table, crc64_ecma_norm_table, crc64_iso_refl_table, crc64_iso_norm_table,
  crc64_jones_refl_table, crc64_jones_norm_table,
}

-- ~x at 32 and at 64 bits
abbrev pub not32 : ℕ → ℕ
not32 x = 2 ^ 32 - 1 - x

abbrev pub not64 : ℕ → ℕ
not64 x = 2 ^ 64 - 1 - x

-- crc = (crc << 8) ^ crc16tab[((crc >> 8) ^ *buf++) & 0x00FF];
unfoldable pub crc16_byte : ℕ → ℕ → ℕ
crc16_byte byte crc = (crc * 256 ⊕ get_or crc16tab ((crc / 2 ^ 8 ⊕ byte) % 256) 0) % 2 ^ 16

unfoldable pub crc16_t10dif_base : ℕ → Block ℕ → ℕ → ℕ
crc16_t10dif_base seed buf len = for_range len 0 (λ i. crc16_byte (buf i)) seed

pub record CopyState : Type 0 where
  pub crc : ℕ
  pub dst : Block ℕ

unfoldable pub crc16_copy_byte : Block ℕ → ℕ → CopyState → CopyState
crc16_copy_byte src i s = record { crc = crc16_byte (src i) s.crc; dst = set s.dst i (src i) }

-- What is returned, and the copy.
unfoldable pub crc16_t10dif_copy_base : ℕ → Block ℕ → Block ℕ → ℕ → CopyState
crc16_t10dif_copy_base seed dst src len =
    for_range len 0 (crc16_copy_byte src) (record { crc = seed; dst = dst })

-- One byte of a check that shifts right.
unfoldable pub refl_byte : List ℕ → ℕ → ℕ → ℕ
refl_byte table byte crc = crc / 2 ^ 8 ⊕ get_or table (crc % 256 ⊕ byte) 0

unfoldable pub crc32_iscsi_base : Block ℕ → ℕ → ℕ → ℕ
crc32_iscsi_base buffer len crc_init =
    for_range len 0 (λ i. refl_byte crc32_table_iscsi_refl (buffer i)) crc_init

-- crc = (crc << 8) ^ crc32_table_ieee_norm[((crc >> 24) ^ *buf) & 255];
unfoldable pub ieee_byte : ℕ → ℕ → ℕ
ieee_byte byte crc =
    crc * 256 % 2 ^ 32 ⊕ get_or crc32_table_ieee_norm ((crc / 2 ^ 24 ⊕ byte) % 256) 0

unfoldable pub crc32_ieee_base : ℕ → Block ℕ → ℕ → ℕ
crc32_ieee_base seed buf len = not32 (for_range len 0 (λ i. ieee_byte (buf i)) (not32 seed))

unfoldable pub crc32_gzip_refl_base : ℕ → Block ℕ → ℕ → ℕ
crc32_gzip_refl_base seed buf len =
    not32 (for_range len 0 (λ i. refl_byte crc32_table_gzip_refl (buf i)) (not32 seed))

-- crc = table[(uint8_t) crc ^ byte] ^ (crc >> 8);
unfoldable pub refl_byte64 : List ℕ → ℕ → ℕ → ℕ
refl_byte64 table byte crc = get_or table (crc % 256 ⊕ byte) 0 ⊕ crc / 2 ^ 8

-- crc = table[((crc >> 56) ^ byte) & 0xff] ^ (crc << 8);
unfoldable pub norm_byte64 : List ℕ → ℕ → ℕ → ℕ
norm_byte64 table byte crc = get_or table ((crc / 2 ^ 56 ⊕ byte) % 256) 0 ⊕ (crc * 256 % 2 ^ 64)

unfoldable pub crc64_ecma_refl_base : ℕ → Block ℕ → ℕ → ℕ
crc64_ecma_refl_base seed buf len =
    not64 (for_range len 0 (λ i. refl_byte64 crc64_ecma_refl_table (buf i)) (not64 seed))

unfoldable pub crc64_ecma_norm_base : ℕ → Block ℕ → ℕ → ℕ
crc64_ecma_norm_base seed buf len =
    not64 (for_range len 0 (λ i. norm_byte64 crc64_ecma_norm_table (buf i)) (not64 seed))

unfoldable pub crc64_iso_refl_base : ℕ → Block ℕ → ℕ → ℕ
crc64_iso_refl_base seed buf len =
    not64 (for_range len 0 (λ i. refl_byte64 crc64_iso_refl_table (buf i)) (not64 seed))

unfoldable pub crc64_iso_norm_base : ℕ → Block ℕ → ℕ → ℕ
crc64_iso_norm_base seed buf len =
    not64 (for_range len 0 (λ i. norm_byte64 crc64_iso_norm_table (buf i)) (not64 seed))

unfoldable pub crc64_jones_refl_base : ℕ → Block ℕ → ℕ → ℕ
crc64_jones_refl_base seed buf len =
    not64 (for_range len 0 (λ i. refl_byte64 crc64_jones_refl_table (buf i)) (not64 seed))

unfoldable pub crc64_jones_norm_base : ℕ → Block ℕ → ℕ → ℕ
crc64_jones_norm_base seed buf len =
    not64 (for_range len 0 (λ i. norm_byte64 crc64_jones_norm_table (buf i)) (not64 seed))
