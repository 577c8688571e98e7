-- ===== src/XorMatch/Tests.antt =====
-- Two stripes of two data blocks and one parity block, of two packets of 128 bytes each.
use cerasure.Base.{
  ℕ, zero, suc, ◌+◌, ◌*◌, ◌/◌, ◌<◌, ◌≡◌, inl, inr, refl, arith, List, [], ◌∷◌, Block, of_list, set,
  for_range,
}
use cerasure.Field.Sum.{sum}
use cerasure.XorMatch.Memory.{Pointer, Memory, byte, fill_kernel}
use cerasure.XorMatch.Machine.{Row, Values, AllRows, apply_rows}
use cerasure.XorMatch.Slp.{copy_tmp, copy_pointers, encode_base_deforestation}
use cerasure.XorMatch.Slp.Stripes.{stripe, stripe_values}
use cerasure.XorMatch.Slp.Pointers.{AreBuffers}
use cerasure.XorMatch.Schedule.{count_bits, bitmatrix_to_schedule}
use cerasure.XorMatch.Schedule.Rows.{HasTwoBits, product}
use cerasure.XorMatch.Encode.{encode-product, encode_keep, encode-Outside}
use cerasure.XorMatch.Program.{max_var, rustslp_to_schedule}
use cerasure.XorMatch.Program.Meaning.{Assignment, print, assign, run_program, variables}
use cerasure.XorMatch.Program.Refine.{rustslp_to_schedule-run_program}
use cerasure.XorMatch.Program.Bounds.{rustslp_to_schedule-max_var}

abbrev pub blank : Block ℕ
blank j = 0

abbrev nowhere : Block Pointer
nowhere j = record { buffer = 9; offset = 0 }

abbrev sources : Block Pointer
sources j = record { buffer = j; offset = 0 }

abbrev parity : Block Pointer
parity j = record { buffer = 2 + j; offset = 32 }

abbrev bits : Block ℕ
bits = of_list (1 ∷ 0 ∷ 1 ∷ 0 ∷ 0 ∷ 1 ∷ 1 ∷ 1 ∷ [])

abbrev memory : Memory
memory zero = of_list (3 ∷ 5 ∷ 7 ∷ 9 ∷ [])
memory (suc zero) = of_list (16 ∷ 32 ∷ 64 ∷ 128 ∷ [])
memory (suc (suc j)) = blank

bits-HasTwoBits : HasTwoBits 2 1 2 bits
unfolding count_bits for_range
bits-HasTwoBits zero hi = omega arith
bits-HasTwoBits (suc zero) hi = omega arith
bits-HasTwoBits (suc (suc i)) hi = absurd (omega arith)

sources-AreBuffers : AreBuffers 2 1 sources parity
sources-AreBuffers = record {
  src_src = λ i j hi hj ne. ne;
  dest_dest = λ i j hi hj ne e. ne (omega arith);
  src_dest = λ i j hi hj e. absurd (omega (arith, e));
  src_aligned = λ i hi. refl;
  dest_aligned = λ i hi. refl;
}

encode-product_example :
    byte
      (encode_base_deforestation fill_kernel nowhere 2 1 2
        (bitmatrix_to_schedule 2 1 2 bits blank)
        sources
        parity
        512
        128
        memory)
      (stripe 2 128 parity 1 0 1)
      0
    ≡ product 2 2 bits (stripe_values 2 128 sources 1 memory 0) (0 * 2 + 1)
encode-product_example =
    encode-product fill_kernel nowhere sources parity 2 1 2 128 512 (omega arith) (omega arith)
      (omega arith) (omega arith) (omega arith) sources-AreBuffers memory bits blank bits-HasTwoBits
      1 0 1 0 (omega arith) (omega arith) (omega arith) (omega arith)

encode-Outside_example :
    encode_base_deforestation fill_kernel nowhere 2 1 2
      (bitmatrix_to_schedule 2 1 2 bits blank)
      sources
      parity
      512
      128
      memory
      2
      9
    ≡ 0
encode-Outside_example =
    encode-Outside fill_kernel nowhere sources parity 2 1 2 128 512 (omega arith) (omega arith)
      (omega arith) (omega arith) (omega arith) sources-AreBuffers memory bits blank bits-HasTwoBits
      2 2 9 (omega arith) (λ i hi. inl (omega arith)) (λ i hi. inr (inl (omega arith)))

-- A temporary block for the sum that two packets of parity share.
abbrev temporary : Block Pointer
temporary j = record { buffer = 7; offset = 64 }

abbrev share_row : Row
share_row = of_list (2 ∷ 3 ∷ 0 ∷ 0 ∷ 0 ∷ 1 ∷ 1 ∷ [])

abbrev parity_row : Row
parity_row = of_list (2 ∷ 2 ∷ 1 ∷ 3 ∷ 0 ∷ 0 ∷ 1 ∷ [])

abbrev shared_rows : List Row
shared_rows = share_row ∷ parity_row ∷ []

below_two : (P : ℕ → Type 0) → P 0 → P 1 → (j : ℕ) → j < 2 → P j
below_two P first second zero h = first
below_two P first second (suc zero) h = second
below_two P first second (suc (suc j)) h = absurd (omega arith)

abbrev all_pointers : Block Pointer
all_pointers = copy_tmp 2 1 2 7 temporary (copy_pointers 2 1 sources parity nowhere)

-- y0 = x0 + x2 and y1 = y0 + x1, with the variables x in blocks 0 and 1 and y in block 2.
abbrev program : List Assignment
program = record { dest = 4; sources = 0 ∷ 2 ∷ [] } ∷ record { dest = 5; sources = 4 ∷ 1 ∷ [] } ∷ []

abbrev packets : Values
packets b q = b * 16 + q + 1

rustslp_to_schedule-run_program_example :
    variables 2 (apply_rows (rustslp_to_schedule 2 blank (print program)) packets) 5
    ≡ run_program program (variables 2 packets) 5
rustslp_to_schedule-run_program_example =
    rustslp_to_schedule-run_program 2 blank (omega arith) program packets 5
      (omega arith, (omega arith, tt))

program_value : run_program program (variables 2 packets) 5 ≡ 18
unfolding run_program assign sum set
program_value = refl

rustslp_to_schedule-max_var_example :
    AllRows (max_var (print program) / 2 + 1) 2 (rustslp_to_schedule 2 blank (print program))
rustslp_to_schedule-max_var_example = rustslp_to_schedule-max_var 2 blank program (omega arith) (
  (omega arith, omega arith, below_two _ (omega arith) (omega arith)),
  ((omega arith, omega arith, below_two _ (omega arith) (omega arith)), tt),
)

encode_keep_example :
    byte
      (encode_base_deforestation fill_kernel nowhere 2 1 2
        (bitmatrix_to_schedule 2 1 2 bits blank)
        sources
        parity
        512
        128
        memory)
      (stripe 2 128 sources 1 1 1)
      0
    ≡ byte memory (stripe 2 128 sources 1 1 1) 0
encode_keep_example =
    encode_keep fill_kernel nowhere sources parity 2 1 2 128 512 (omega arith) (omega arith)
      (omega arith) (omega arith) (omega arith) sources-AreBuffers memory bits blank bits-HasTwoBits
      1 1 1 0 (omega arith) (omega arith) (omega arith) (omega arith)
