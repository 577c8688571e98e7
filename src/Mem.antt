-- ===== src/Mem.antt =====
-- mem_zero_detect_base of mem/mem_zero_detect_base.c: a scan by words of 8 bytes and then by what is
-- left. The loads of unaligned.h take the bytes in the order of a little-endian machine.
pub mod Zero
mod Tests
use cerasure.Base.{
  ℕ, zero, suc, ◌+◌, ◌-◌, ◌*◌, ◌/◌, ◌%◌, ◌^◌, Block, bit_or, ◌==◌, if◌then◌else◌, ltb,
}

-- The returned 0 and -1.
pub data Detected : Type 0 where
  all_zero not_zero : Detected

-- A load of so many bytes from c.
pub load : ℕ → Block ℕ → ℕ → ℕ
load zero buf c = 0
load (suc width) buf c = buf c + 256 * load width buf (c + 1)

pub record Tail : Type 0 where
  pub c : ℕ
  pub a : ℕ

-- a |= *c++
pub or_byte : Block ℕ → Tail → Tail
or_byte buf s = record { c = s.c + 1; a = bit_or s.a (buf s.c) }

-- a |= load(c)
pub or_load : ℕ → Block ℕ → Tail → Tail
or_load width buf s = record { c = s.c; a = bit_or s.a (load width buf s.c) }

-- switch (n), with the cases that fall through
pub or_tail : Block ℕ → ℕ → Tail → Tail
or_tail buf n s =
    if n == 7
    then or_load 4 buf (or_byte buf (or_byte buf (or_byte buf s)))
    else if n == 6
    then or_load 4 buf (or_byte buf (or_byte buf s))
    else if n == 5
    then or_load 4 buf (or_byte buf s)
    else if n == 4
    then or_load 4 buf s
    else if n == 3
    then or_load 2 buf (or_byte buf s)
    else if n == 2
    then or_load 2 buf s
    else if n == 1
    then record { c = s.c; a = bit_or s.a (buf s.c) }
    else s

pub scan_tail : Block ℕ → ℕ → ℕ → Detected
scan_tail buf n c = if (or_tail buf n (record { c = c; a = 0 })).a == 0 then all_zero else not_zero

-- while (n >= 8), whose rounds are n / 8 at the start
pub scan_words : Block ℕ → ℕ → ℕ → ℕ → Detected
scan_words buf zero n c = scan_tail buf n c
scan_words buf (suc rounds) n c =
    let rest = scan_words buf rounds (n - 8) (c + 8) in if load 8 buf c == 0 then rest else not_zero

pub mem_zero_detect_base : Block ℕ → ℕ → Detected
mem_zero_detect_base buf n = scan_words buf (n / 8) n 0
