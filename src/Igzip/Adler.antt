-- ===== src/Igzip/Adler.antt =====
-- `adler32_base` of igzip/adler32_base.c and the definition it is compared with, `adler_ref` of
-- igzip/checksum_test_ref.h. MAX_ADLER_BUF and ADLER_MOD are those of igzip/igzip_checksums.h.
pub mod Sums
pub mod Ref
mod Tests
use cerasure.Base.{
  ℕ, zero, suc, ◌+◌, ◌-◌, ◌*◌, ◌/◌, ◌%◌, ◌^◌, bit_or, Block, for_range, ltb, if◌then◌else◌,
}

abbrev pub max_adler_buf : ℕ
max_adler_buf = 2 ^ 28

abbrev pub adler_mod : ℕ
adler_mod = 65521

-- The two sums.
pub record Adler : Type 0 where
  pub a : ℕ
  pub b : ℕ

-- A += *next; B += A;  in words of 64 bits
pub add_byte : Block ℕ → ℕ → Adler → Adler
add_byte start next s =
    let a = (s.a + start next) % 2 ^ 64 in record { a = a; b = (s.b + a) % 2 ^ 64 }

-- A = A % ADLER_MOD; B = B % ADLER_MOD;
pub reduce : Adler → Adler
reduce s = record { a = s.a % adler_mod; b = s.b % adler_mod }

-- The loop over whole buffers and the rest after it, with the rounds of the former bounded by the
-- fuel.
pub adler_from : ℕ → Block ℕ → ℕ → ℕ → Adler → Adler
adler_from zero start next length s = reduce (for_range length next (add_byte start) s)
adler_from (suc fuel) start next length s =
    let block = reduce (for_range max_adler_buf next (add_byte start) s) in
    let more = adler_from fuel start (next + max_adler_buf) (length - max_adler_buf) block in
    if ltb max_adler_buf length then more else reduce (for_range length next (add_byte start) s)

-- A round of the loop takes at least one byte.
unfoldable pub adler32_base : ℕ → Block ℕ → ℕ → ℕ
adler32_base adler32 start length =
    let s =
      adler_from length start 0 length (record { a = adler32 % 2 ^ 16; b = adler32 / 2 ^ 16 }) in
    bit_or (s.b * 2 ^ 16 % 2 ^ 64) s.a % 2 ^ 32

-- a = (a + buf[i]) % ADLER_MOD; b = (b + a) % ADLER_MOD;  in words of 32 bits
pub ref_byte : Block ℕ → ℕ → Adler → Adler
ref_byte buf i s =
    let a = (s.a + buf i) % 2 ^ 32 % adler_mod in
    record { a = a; b = (s.b + a) % 2 ^ 32 % adler_mod }

unfoldable pub adler_ref : ℕ → Block ℕ → ℕ → ℕ
adler_ref init buf len =
    let start : Adler = record { a = init % 2 ^ 16; b = init / 2 ^ 16 } in
    let s = for_range len 0 (ref_byte buf) start in bit_or (s.b * 2 ^ 16 % 2 ^ 32) s.a
