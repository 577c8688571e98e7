-- ===== src/Igzip/Symbols.antt =====
-- The symbols of DEFLATE: how igzip/huffman.h and igzip/huff_codes.c choose them for a length or a
-- distance, and the table by which igzip/igzip_inflate.c reads them back.
pub mod Distance
pub mod Length
mod Tests
use cerasure.Base.{
  ℕ, zero, suc, ◌+◌, ◌-◌, ◌*◌, ◌/◌, ◌^◌, bit_and, List, [], ◌∷◌, ltb, leb, ◌==◌, if◌then◌else◌,
}

-- for(msb = 0; val > 0; val >>= 1) msb++;  in as many rounds as a word has bits
unfoldable pub bsr_from : ℕ → ℕ → ℕ
bsr_from zero val = 0
bsr_from (suc left) val = let more = bsr_from left (val / 2) in if val == 0 then 0 else suc more

abbrev pub bsr : ℕ → ℕ
bsr val = bsr_from 32 val

pub record DistCode : Type 0 where
  pub code : ℕ
  pub extra_bits : ℕ

unfoldable pub compute_dist_icf_code : ℕ → DistCode
compute_dist_icf_code dist =
    let num_extra_bits = bsr (dist - 1) - 2 in
    record {
      code = (dist - 1) / 2 ^ num_extra_bits + 2 * num_extra_bits;
      extra_bits = bit_and (dist - 1) (2 ^ num_extra_bits - 1);
    }

unfoldable pub get_dist_icf_code : ℕ → DistCode
get_dist_icf_code dist =
    let small : DistCode = record { code = dist - 1; extra_bits = 0 } in
    if leb dist 2 then small else compute_dist_icf_code dist

-- A distance of more than 32768 fails the assertion.
unfoldable pub convert_dist_to_dist_sym : ℕ → ℕ
convert_dist_to_dist_sym dist =
    let msb = if ltb 4 dist then bsr (dist - 1) - 2 else 0 in
    if leb dist 32768 then msb * 2 + (dist - 1) / 2 ^ msb else 0xFFFFFFFF

unfoldable pub convert_length_to_len_sym : ℕ → ℕ
convert_length_to_len_sym length =
    if ltb length 11
    then 257 + length - 3
    else if ltb length 19
    then 261 + (length - 3) / 2
    else if ltb length 35
    then 265 + (length - 3) / 4
    else if ltb length 67
    then 269 + (length - 3) / 8
    else if ltb length 131
    then 273 + (length - 3) / 16
    else if ltb length 258
    then 277 + (length - 3) / 32
    else 285

abbrev pub dist_extra_bit_count : List ℕ
dist_extra_bit_count =
    0x00 ∷ 0x00 ∷ 0x00 ∷ 0x00 ∷ 0x01 ∷ 0x01 ∷ 0x02 ∷ 0x02 ∷ 0x03 ∷ 0x03 ∷ 0x04 ∷ 0x04 ∷ 0x05 ∷ 0x05
    ∷ 0x06 ∷ 0x06 ∷ 0x07 ∷ 0x07 ∷ 0x08 ∷ 0x08 ∷ 0x09 ∷ 0x09 ∷ 0x0a ∷ 0x0a ∷ 0x0b ∷ 0x0b ∷ 0x0c
    ∷ 0x0c ∷ 0x0d ∷ 0x0d ∷ 0x00 ∷ 0x00 ∷ []

abbrev pub dist_start : List ℕ
dist_start =
    0x0001 ∷ 0x0002 ∷ 0x0003 ∷ 0x0004 ∷ 0x0005 ∷ 0x0007 ∷ 0x0009 ∷ 0x000d ∷ 0x0011 ∷ 0x0019 ∷ 0x0021
    ∷ 0x0031 ∷ 0x0041 ∷ 0x0061 ∷ 0x0081 ∷ 0x00c1 ∷ 0x0101 ∷ 0x0181 ∷ 0x0201 ∷ 0x0301 ∷ 0x0401
    ∷ 0x0601 ∷ 0x0801 ∷ 0x0c01 ∷ 0x1001 ∷ 0x1801 ∷ 0x2001 ∷ 0x3001 ∷ 0x4001 ∷ 0x6001 ∷ 0x0000
    ∷ 0x0000 ∷ []

abbrev pub len_extra_bit_count : List ℕ
len_extra_bit_count =
    0x00 ∷ 0x00 ∷ 0x00 ∷ 0x00 ∷ 0x00 ∷ 0x00 ∷ 0x00 ∷ 0x00 ∷ 0x01 ∷ 0x01 ∷ 0x01 ∷ 0x01 ∷ 0x02 ∷ 0x02
    ∷ 0x02 ∷ 0x02 ∷ 0x03 ∷ 0x03 ∷ 0x03 ∷ 0x03 ∷ 0x04 ∷ 0x04 ∷ 0x04 ∷ 0x04 ∷ 0x05 ∷ 0x05 ∷ 0x05
    ∷ 0x05 ∷ 0x00 ∷ 0x00 ∷ 0x00 ∷ 0x00 ∷ []

abbrev pub len_start : List ℕ
len_start =
    0x0003 ∷ 0x0004 ∷ 0x0005 ∷ 0x0006 ∷ 0x0007 ∷ 0x0008 ∷ 0x0009 ∷ 0x000a ∷ 0x000b ∷ 0x000d ∷ 0x000f
    ∷ 0x0011 ∷ 0x0013 ∷ 0x0017 ∷ 0x001b ∷ 0x001f ∷ 0x0023 ∷ 0x002b ∷ 0x0033 ∷ 0x003b ∷ 0x0043
    ∷ 0x0053 ∷ 0x0063 ∷ 0x0073 ∷ 0x0083 ∷ 0x00a3 ∷ 0x00c3 ∷ 0x00e3 ∷ 0x0102 ∷ 0x0103 ∷ 0x0000
    ∷ 0x0000 ∷ []
