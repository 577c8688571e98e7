-- ===== src/Raid.antt =====
-- The parities of raid/raid_base.c. The vectors are a block of blocks, as are the buffers of the
-- encoders; xor_gen_base, xor_check_base and pq_check_base read them by bytes, pq_gen_base by words
-- of 64 bits. The functions need 2 vectors and the pq functions 3.
pub mod Xor
pub mod Pq
mod Lanes
mod Words
mod Tests
use cerasure.Base.{
  ℕ, zero, suc, ◌+◌, ◌-◌, ◌*◌, ◌/◌, ◌%◌, ◌^◌, bit_and, bit_or, Bool, true, false, ◌==◌, not, ltb,
  if◌then◌else◌, Block, set, for_range,
}
use cerasure.Bits.{◌⊕◌}
use cerasure.Gf.Double.{double}

-- parity = src[0][i]; for (j = 1; j < vects - 1; j++) parity ^= src[j][i];
pub parity_gen : ℕ → Block (Block ℕ) → ℕ → ℕ
parity_gen vects src i = for_range (vects - 2) 1 (λ j parity. parity ⊕ src j i) (src 0 i)

pub xor_gen_byte : ℕ → ℕ → Block (Block ℕ) → Block (Block ℕ)
xor_gen_byte vects i src = set src (vects - 1) (set (src (vects - 1)) i (parity_gen vects src i))

pub xor_gen_base : ℕ → ℕ → Block (Block ℕ) → Block (Block ℕ)
xor_gen_base vects len array = for_range len 0 (xor_gen_byte vects) array

pub parity_check : ℕ → Block (Block ℕ) → ℕ → ℕ
parity_check vects src i = for_range vects 0 (λ j parity. parity ⊕ src j i) 0

-- The loop that a parity other than 0 ends, with the rounds left: the value of `fail`.
pub fail_from : ℕ → Block (Block ℕ) → ℕ → ℕ → ℕ
fail_from vects src zero i = 0
fail_from vects src (suc left) i =
    let rest = fail_from vects src left (suc i) in if parity_check vects src i == 0 then rest else 1

pub xor_check_base : ℕ → ℕ → Block (Block ℕ) → ℕ
xor_check_base vects len array =
    let fail = fail_from vects array len 0 in
    if fail == 0 then fail else (if ltb 0 len then len else fail)

pub record Syndromes : Type 0 where
  pub p : ℕ
  pub q : ℕ

-- for (j = vects - 4; j >= 0; j--), by the value of j + 1
pub pq_down : (ℕ → ℕ) → (ℕ → ℕ) → ℕ → Syndromes → Syndromes
pq_down times_two src zero s = s
pq_down times_two src (suc j) s =
    pq_down times_two src j (record { p = s.p ⊕ src j; q = src j ⊕ times_two s.q })

-- p and q for the bytes or the words at i
pub pq_at : (ℕ → ℕ) → ℕ → Block (Block ℕ) → ℕ → Syndromes
pq_at times_two vects src i =
    pq_down times_two (λ j. src j i) (vects - 3)
      (record { p = src (vects - 3) i; q = src (vects - 3) i })

-- ((q << 1) & notbit0) ^ ((((q & bit7) << 1) - ((q & bit7) >> 7)) & gf8poly)
pub double_word : ℕ → ℕ
double_word q =
    let high = bit_and q 0x8080808080808080 in
    bit_and (q * 2 % 2 ^ 64) 0xfefefefefefefefe
    ⊕ bit_and ((high * 2 % 2 ^ 64 + 2 ^ 64 - high / 2 ^ 7) % 2 ^ 64) 0x1d1d1d1d1d1d1d1d

pub pq_gen_word : ℕ → ℕ → Block (Block ℕ) → Block (Block ℕ)
pq_gen_word vects i src =
    let s = pq_at double_word vects src i in
    let src' = set src (vects - 2) (set (src (vects - 2)) i s.p) in
    set src' (vects - 1) (set (src' (vects - 1)) i s.q)

-- The vectors are of words.
pub pq_gen_base : ℕ → ℕ → Block (Block ℕ) → Block (Block ℕ)
pq_gen_base vects len array = for_range (len / 8) 0 (pq_gen_word vects) array

-- The loop with its two returns, with the rounds left.
pub pq_check_from : ℕ → Block (Block ℕ) → ℕ → ℕ → ℕ
pq_check_from vects src zero i = 0
pq_check_from vects src (suc left) i =
    let rest = pq_check_from vects src left (suc i) in
    let s = pq_at double vects src i in
    if src (vects - 2) i == s.p
    then (if src (vects - 1) i == s.q then rest else bit_or i 2)
    else bit_or i 1

pub pq_check_base : ℕ → ℕ → Block (Block ℕ) → ℕ
pq_check_base vects len array = pq_check_from vects array len 0

-- The functions for two sums at once have no portable code: they write nothing and return 0.
pub split_genf_base : ℕ → ℕ → ℕ → ℕ → Block (Block ℕ) → Block (Block ℕ) → ℕ
split_genf_base vects vects_1 vects_2 len array dest = 0

pub split_gen_base : ℕ → ℕ → ℕ → ℕ → Block (Block ℕ) → Block (Block ℕ) → ℕ
split_gen_base vects vects_1 vects_2 len array dest = 0
