-- ===== src/Gf.antt =====
-- `gf_mul` and `gf_inv` of erasure_code/ec_base.c, as built without GF_LARGE_TABLES. A byte is a
-- number below 256; the index computations are done in `int`.
mod Tables
pub mod Double
pub mod Power
pub mod Laws
pub mod Poly
mod Tests
use cerasure.Base.{ℕ, ◌+◌, ◌-◌, Bool, ◌||◌, ◌==◌, ltb, if◌then◌else◌, get_or}
use Tables.{gff_base, gflog_base}

unfoldable pub gff : ℕ → ℕ
gff i = get_or gff_base i 0

unfoldable pub gflog : ℕ → ℕ
gflog a = get_or gflog_base a 0

unfoldable pub gf_mul : ℕ → ℕ → ℕ
unfolding gff gflog
gf_mul a b =
    if a == 0 || b == 0
    then 0
    else let i = gflog a + gflog b in gff (if ltb 254 i then i - 255 else i)

unfoldable pub gf_inv : ℕ → ℕ
unfolding gff gflog
gf_inv a = if a == 0 then 0 else gff (255 - gflog a)
