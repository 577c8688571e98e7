-- ===== src/XorMatch/Program.antt =====
-- Straight-line programs, as the optimiser prints them, and their schedules: rustslp_to_schedule and
-- max_var of xorMatch/slp.c. The array of ints that ends with -2 is a list here; an entry -1, which
-- ends a row, is none.
pub mod Meaning
pub mod Refine
pub mod Bounds
use cerasure.Base.{
  ℕ, zero, suc, ◌+◌, ◌-◌, ◌*◌, ◌/◌, ◌%◌, ◌^◌, List, [], ◌∷◌, Block, set, ltb, if◌then◌else◌, Option,
  none, some,
}
use cerasure.XorMatch.Machine.{Row}

-- schedule[i][2*j-1] = slp[index] / w; schedule[i][2*j] = slp[index] % w;
pub write_variable : ℕ → ℕ → ℕ → Row → Row
write_variable w j variable row = set (set row (2 * j - 1) (variable / w)) (2 * j) (variable % w)

-- schedule[i][0] = j - 2; schedule[i][2*j-1] = -1; on ints of 32 bits. A row without variables gets
-- the count -1, at which the encoders would stop.
pub end_row : ℕ → Row → Row
end_row j row = set (set row 0 ((j + 2 ^ 32 - 2) % 2 ^ 32)) (2 * j - 1) (2 ^ 32 - 1)

-- The second loop, in the row that it writes; each row comes from malloc and holds anything. The row
-- that is not ended when the program ends becomes the end of the schedule.
pub rustslp_rows : ℕ → Row → List (Option ℕ) → ℕ → Row → List Row
rustslp_rows w fresh [] j row = []
rustslp_rows w fresh (none ∷ slp) j row = end_row j row ∷ rustslp_rows w fresh slp 1 fresh
rustslp_rows w fresh (some variable ∷ slp) j row =
    rustslp_rows w fresh slp (j + 1) (write_variable w j variable row)

unfoldable pub rustslp_to_schedule : ℕ → Row → List (Option ℕ) → List Row
rustslp_to_schedule w fresh slp = rustslp_rows w fresh slp 1 fresh

pub max_from : List (Option ℕ) → ℕ → ℕ
max_from [] value = value
max_from (none ∷ slp) value = max_from slp value
max_from (some variable ∷ slp) value = max_from slp (if ltb value variable then variable else value)

pub max_var : List (Option ℕ) → ℕ
max_var slp = max_from slp 0
