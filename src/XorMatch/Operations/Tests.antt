-- ===== src/XorMatch/Operations/Tests.antt =====
-- The schedules with a copy tag, on a matrix with 2 rows of 4 bits.
use cerasure.Base.{
  ℕ, ◌+◌, ◌*◌, ◌≡◌, refl, arith, [], ◌∷◌, Block, of_list, ◌==◌, if◌then◌else◌, for_range, set, fill,
}
use cerasure.XorMatch.Machine.{Values}
use cerasure.XorMatch.Matching.Run.{put}
use cerasure.XorMatch.Schedule.{count_bits}
use cerasure.XorMatch.Schedule.Rows.{product}
use cerasure.XorMatch.Operations.{
  bitmatrix_to_schedule_dgc, bitmatrix_to_schedule_pgc_mad, dgc_column, visit, emit, no_operations,
}
use cerasure.XorMatch.Operations.Run.{apply_operations, apply_operation}
use cerasure.XorMatch.Operations.Order.{bitmatrix_to_schedule_dgc-product}

abbrev bits : Block ℕ
bits = of_list (1 ∷ 0 ∷ 1 ∷ 1 ∷ 0 ∷ 0 ∷ 0 ∷ 0 ∷ [])

abbrev packets : Values
packets b q = b * 16 + q + 1

abbrev parities : Values
parities b q = 99

bitmatrix_to_schedule_dgc_value :
    apply_operations (bitmatrix_to_schedule_dgc 2 1 2 bits (λ i. 7)) packets parities 0 0 ≡ 2
unfolding apply_operations apply_operation bitmatrix_to_schedule_dgc dgc_column visit emit
    no_operations for_range fill set put
bitmatrix_to_schedule_dgc_value = refl

bitmatrix_to_schedule_dgc-product_example :
    let expected =
      if count_bits bits ((0 * 2 + 1) * 2 * 2) (2 * 2) == 0
      then parities 0 1
      else product 2 2 bits packets (0 * 2 + 1) in
    (apply_operations (bitmatrix_to_schedule_dgc 2 1 2 bits (λ i. 7)) packets parities 0 1
      ≡ expected)
    × (apply_operations (bitmatrix_to_schedule_pgc_mad 2 1 2 bits (λ i. 7)) packets parities 0 1
        ≡ expected)
bitmatrix_to_schedule_dgc-product_example =
    bitmatrix_to_schedule_dgc-product 2 1 2 bits (λ i. 7) packets parities 0 1 (omega arith)
      (omega arith)
