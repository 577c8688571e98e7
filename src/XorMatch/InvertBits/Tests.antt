-- ===== src/XorMatch/InvertBits/Tests.antt =====
-- Inversions of small bit matrices.
use cerasure.Base.{
  ℕ, ◌+◌, ◌*◌, ◌≡◌, refl, arith, [], ◌∷◌, Block, of_list, of_list-lt, for_range, set,
}
use cerasure.Field.Sum.{sum}
use cerasure.Invert.{ok, singular, find_row, swap_cell, swap_rows, choose_pivot}
use cerasure.Invert.Invariant.{IsMatrix}
use cerasure.Invert.Singular.{IsSingular}
use cerasure.XorMatch.Schedule.Product.{select}
use cerasure.XorMatch.InvertBits.{
  write_identity, xor_rows, xor_cell, eliminate_row, clear_below, upper_from, clear_above,
  back_from, finish, invert_bitmatrix,
}
use cerasure.XorMatch.InvertBits.Bit.{bit_field}
use cerasure.XorMatch.InvertBits.Correct.{invert_bitmatrix-product, invert_bitmatrix-singular}

abbrev blank : Block ℕ
blank p = 0

-- The rows change places, and one is added to the other.
abbrev mixed : Block ℕ
mixed = of_list (0 ∷ 1 ∷ 1 ∷ 1 ∷ [])

abbrev doubled : Block ℕ
doubled = of_list (1 ∷ 1 ∷ 1 ∷ 1 ∷ [])

mixed-IsMatrix : IsMatrix bit_field 2 mixed
unfolding bit_field
mixed-IsMatrix r c hr hc = of_list-lt 2 (0 ∷ 1 ∷ 1 ∷ 1 ∷ []) (omega arith) (r * 2 + c)

doubled-IsMatrix : IsMatrix bit_field 2 doubled
unfolding bit_field
doubled-IsMatrix r c hr hc = of_list-lt 2 (1 ∷ 1 ∷ 1 ∷ 1 ∷ []) (omega arith) (r * 2 + c)

mixed_inverts : (invert_bitmatrix mixed blank 2).0 ≡ ok
unfolding invert_bitmatrix write_identity upper_from choose_pivot find_row swap_rows swap_cell
    clear_below eliminate_row xor_rows xor_cell finish back_from clear_above for_range set
mixed_inverts = refl

doubled_is_singular : (invert_bitmatrix doubled blank 2).0 ≡ singular
unfolding invert_bitmatrix write_identity upper_from choose_pivot find_row swap_rows swap_cell
    clear_below eliminate_row xor_rows xor_cell finish back_from clear_above for_range set
doubled_is_singular = refl

invert_bitmatrix-product_example :
    sum 2 (λ k. select ((invert_bitmatrix mixed blank 2).1.out_mat (1 * 2 + k)) (mixed (k * 2 + 0)))
    ≡ 0
invert_bitmatrix-product_example =
    invert_bitmatrix-product 2 mixed mixed-IsMatrix blank mixed_inverts 1 0 (omega arith)
      (omega arith)

invert_bitmatrix-singular_example : IsSingular bit_field 2 doubled doubled-IsMatrix
invert_bitmatrix-singular_example =
    invert_bitmatrix-singular 2 doubled doubled-IsMatrix blank doubled_is_singular
