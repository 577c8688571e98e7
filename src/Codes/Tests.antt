-- ===== src/Codes/Tests.antt =====
-- Both generators at 2 data and 2 coding rows.
use cerasure.Base.{ℕ, ◌+◌, ◌-◌, ◌*◌, ◌<◌, ◌≤◌, ◌≡◌, refl, arith, Block, for_range, set, fill}
use cerasure.Bits.{◌⊕◌}
use cerasure.Gf.{gf_mul, gf_inv}
use cerasure.Invert.Rows.{delta}
use cerasure.Codes.{
  gf_gen_rs_matrix, gf_gen_cauchy1_matrix, identity_top, rs_row, rs_cell, cauchy_cell,
}
use cerasure.Codes.Rs.{gf_pow, gf_gen_rs_matrix-gf_pow}
use cerasure.Codes.Cauchy.{gf_gen_cauchy1_matrix-inverse}

abbrev blank : Block ℕ
blank p = 0

last_rows :
    (gf_gen_rs_matrix blank 4 2 7 ≡ 2)
    × (gf_gen_cauchy1_matrix blank 4 2 4 ≡ gf_inv 2)
    × (gf_gen_cauchy1_matrix blank 4 2 7 ≡ gf_inv 2)
unfolding gf_gen_rs_matrix gf_gen_cauchy1_matrix identity_top rs_row rs_cell cauchy_cell for_range
    set fill gf_mul
last_rows = (refl, refl, refl)

gf_gen_rs_matrix-gf_pow_example :
    ((r c : ℕ) → r < 2 → c < 2 → gf_gen_rs_matrix blank 4 2 (r * 2 + c) ≡ delta r c)
    × ((r c : ℕ)
        → 2 ≤ r
        → r < 4
        → c < 2
        → gf_gen_rs_matrix blank 4 2 (r * 2 + c) ≡ gf_pow (gf_pow 2 (r - 2)) c)
gf_gen_rs_matrix-gf_pow_example = gf_gen_rs_matrix-gf_pow blank 4 2 (omega arith)

gf_gen_cauchy1_matrix-inverse_example :
    ((r c : ℕ) → r < 2 → c < 2 → gf_gen_cauchy1_matrix blank 4 2 (r * 2 + c) ≡ delta r c)
    × ((r c : ℕ)
        → 2 ≤ r
        → r < 4
        → c < 2
        → gf_mul (r ⊕ c) (gf_gen_cauchy1_matrix blank 4 2 (r * 2 + c)) ≡ 1)
gf_gen_cauchy1_matrix-inverse_example =
    gf_gen_cauchy1_matrix-inverse blank 4 2 (omega arith) (omega arith)
