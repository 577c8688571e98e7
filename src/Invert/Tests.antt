-- ===== src/Invert/Tests.antt =====
-- Inversions of small matrices.
use cerasure.Base.{
  ℕ, zero, suc, ◌+◌, ◌*◌, ◌<◌, ◌≡◌, ◌≢◌, refl, arith, [], ◌∷◌, Block, of_list, of_list-lt, eq_below,
  all_below, for_range, set,
}
use cerasure.Field.Sum.{sum}
use cerasure.Gf.{gf_mul, gf_inv}
use cerasure.Invert.{ok, singular, gf_invert_matrix}
use cerasure.Invert.Rows.{delta}
use cerasure.Invert.Gf.{Bytes, cell_product, gf_invert_matrix-ok, gf_invert_matrix-singular}

abbrev blank : Block ℕ
blank p = 0

-- The first pivot is 0, so the rows change places.
abbrev swapping : Block ℕ
swapping = of_list (0 ∷ 2 ∷ 3 ∷ 1 ∷ [])

swapping-Bytes : Bytes 2 swapping
swapping-Bytes r c hr hc = of_list-lt 256 (0 ∷ 2 ∷ 3 ∷ 1 ∷ []) (omega arith) (r * 2 + c)

-- Both rows are the same.
abbrev doubled : Block ℕ
doubled = of_list (3 ∷ 5 ∷ 3 ∷ 5 ∷ [])

doubled-Bytes : Bytes 2 doubled
doubled-Bytes r c hr hc = of_list-lt 256 (3 ∷ 5 ∷ 3 ∷ 5 ∷ []) (omega arith) (r * 2 + c)

swapping_inverts : (gf_invert_matrix swapping blank 2).0 ≡ ok
unfolding gf_invert_matrix gf_mul gf_inv for_range set
swapping_inverts = refl

doubled_is_singular : (gf_invert_matrix doubled blank 2).0 ≡ singular
unfolding gf_invert_matrix gf_mul gf_inv for_range set
doubled_is_singular = refl

gf_invert_matrix-ok_example :
    Bytes 2 (gf_invert_matrix swapping blank 2).1.out_mat
    × ((r c : ℕ)
        → r < 2
        → c < 2
        → cell_product 2 (gf_invert_matrix swapping blank 2).1.out_mat swapping r c ≡ delta r c)
    × ((r c : ℕ)
        → r < 2
        → c < 2
        → (gf_invert_matrix swapping blank 2).1.in_mat (r * 2 + c) ≡ delta r c)
gf_invert_matrix-ok_example = gf_invert_matrix-ok 2 swapping blank swapping-Bytes swapping_inverts

gf_invert_matrix-singular_example :
    (x : ℕ → ℕ) × ((k : ℕ) → k < 2 → x k < 256)
    × ((p : ℕ) × (p < 2) × (x p ≢ 0))
    × ((r : ℕ) → r < 2 → sum 2 (λ k. gf_mul (doubled (r * 2 + k)) (x k)) ≡ 0)
gf_invert_matrix-singular_example =
    gf_invert_matrix-singular 2 doubled blank doubled-Bytes doubled_is_singular

abbrev half_swapped : Block ℕ
half_swapped = of_list (0x7a ∷ 0xf4 ∷ 0x8e ∷ 0 ∷ [])

half_swapped-Bytes : Bytes 2 half_swapped
half_swapped-Bytes r c hr hc =
    of_list-lt 256 (0x7a ∷ 0xf4 ∷ 0x8e ∷ 0 ∷ []) (omega arith) (r * 2 + c)

half_swapped_inverse :
    (r c : ℕ) → r < 2 → c < 2 → cell_product 2 half_swapped swapping r c ≡ delta r c
unfolding sum gf_mul all_below
half_swapped_inverse zero c hr hc =
    eq_below 2 (cell_product 2 half_swapped swapping 0) (delta 0) refl c hc
half_swapped_inverse (suc zero) c hr hc =
    eq_below 2 (cell_product 2 half_swapped swapping 1) (delta 1) refl c hc
half_swapped_inverse (suc (suc r)) c hr hc = absurd (omega arith)
