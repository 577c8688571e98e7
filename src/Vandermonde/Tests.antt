-- ===== src/Vandermonde/Tests.antt =====
-- The wider-field functions with the arithmetic of bytes for theirs.
use cerasure.Base.{
  ℕ, ◌+◌, ◌*◌, ◌-◌, ◌^◌, ◌≡◌, ◌≢◌, ◌==◌, ==_ne, if◌then◌else◌, refl, arith, [], ◌∷◌, Block, of_list,
  of_list-lt, for_range, set,
}
use cerasure.Field.{Field}
use cerasure.Field.Dot.{dot}
use cerasure.Gf.{gf_mul, gf_inv}
use cerasure.Gf.Laws.{gf_field}
use cerasure.Invert.{ok, singular, gf_invert_matrix}
use cerasure.Invert.Invariant.{row, column, IsMatrix}
use cerasure.Invert.Singular.{IsSingular}
use cerasure.Vandermonde.{gf_invert_matrix_w, vandermonde_sub_coding_matrix}
use cerasure.Vandermonde.Inverse.{gf_invert_matrix_w-product, gf_invert_matrix_w-singular}
use cerasure.Vandermonde.Powers.{power, vandermonde_sub_coding_matrix-power}

abbrev blank : Block ℕ
blank p = 0

abbrev multiply : ℕ → ℕ → ℕ → ℕ
multiply a b w = gf_mul a b

-- With -1 for the inverse of 0.
abbrev inverse : ℕ → ℕ → ℕ
inverse a w = if a == 0 then 2 ^ 32 - 1 else gf_inv a

inverse-gf_inv : (a : ℕ) → a ≢ 0 → inverse a 8 ≡ gf_inv a
inverse-gf_inv a na = rw (==_ne a 0 na) refl

abbrev byte_field : Field
byte_field = record gf_field {
  inv = λ a. inverse a 8;
  inv-lt = λ a na h. rw (inverse-gf_inv a na) (gf_field.inv-lt a na h);
  mul-inv = λ a na h. rw (inverse-gf_inv a na) (gf_field.mul-inv a na h);
}

abbrev swapping : Block ℕ
swapping = of_list (0 ∷ 2 ∷ 3 ∷ 1 ∷ [])

abbrev repeated : Block ℕ
repeated = of_list (3 ∷ 5 ∷ 3 ∷ 5 ∷ [])

swapping-IsMatrix : IsMatrix byte_field 2 swapping
swapping-IsMatrix r c hr hc = of_list-lt 256 (0 ∷ 2 ∷ 3 ∷ 1 ∷ []) (omega arith) (r * 2 + c)

repeated-IsMatrix : IsMatrix byte_field 2 repeated
repeated-IsMatrix r c hr hc = of_list-lt 256 (3 ∷ 5 ∷ 3 ∷ 5 ∷ []) (omega arith) (r * 2 + c)

swapping_inverts : (gf_invert_matrix_w multiply inverse swapping blank 2 8).0 ≡ ok
unfolding gf_invert_matrix_w gf_invert_matrix gf_mul gf_inv for_range set
swapping_inverts = refl

repeated_is_singular : (gf_invert_matrix_w multiply inverse repeated blank 2 8).0 ≡ singular
unfolding gf_invert_matrix_w gf_invert_matrix gf_mul gf_inv for_range set
repeated_is_singular = refl

gf_invert_matrix_w-product_example :
    dot byte_field 2
      (row 2 (gf_invert_matrix_w multiply inverse swapping blank 2 8).1.out_mat 1)
      (column 2 swapping 0)
    ≡ 0
gf_invert_matrix_w-product_example =
    gf_invert_matrix_w-product byte_field multiply inverse 8 (λ a b. refl) (λ a. refl) 2 swapping
      blank swapping-IsMatrix swapping_inverts 1 0 (omega arith) (omega arith)

gf_invert_matrix_w-singular_example : IsSingular byte_field 2 repeated repeated-IsMatrix
gf_invert_matrix_w-singular_example =
    gf_invert_matrix_w-singular byte_field multiply inverse 8 (λ a b. refl) (λ a. refl) 2 repeated
      blank repeated-IsMatrix repeated_is_singular

vandermonde_sub_coding_matrix-power_example :
    vandermonde_sub_coding_matrix multiply 3 2 8 blank (1 * 3 + 2)
    ≡ power multiply 8 (power multiply 8 2 1) 2
vandermonde_sub_coding_matrix-power_example =
    vandermonde_sub_coding_matrix-power multiply 8 3 2 blank 1 2 (omega arith) (omega arith)
