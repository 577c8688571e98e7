-- ===== src/Crc/Tables.antt =====
-- The tables of crc/crc_base.c and crc/crc64_base.c.
mod T10dif
mod IscsiRefl
mod IeeeNorm
mod GzipRefl
mod EcmaRefl
mod EcmaNorm
mod IsoRefl
mod IsoNorm
mod JonesRefl
mod JonesNorm
pub use T10dif.{crc16tab}
pub use IscsiRefl.{crc32_table_iscsi_refl}
pub use IeeeNorm.{crc32_table_ieee_norm}
pub use GzipRefl.{crc32_table_gzip_refl}
pub use EcmaRefl.{crc64_ecma_refl_table}
pub use EcmaNorm.{crc64_ecma_norm_table}
pub use IsoRefl.{crc64_iso_refl_table}
pub use IsoNorm.{crc64_iso_norm_table}
pub use JonesRefl.{crc64_jones_refl_table}
pub use JonesNorm.{crc64_jones_norm_table}
