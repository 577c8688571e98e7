-- ===== src/XorMatch/Operations.antt =====
-- bitmatrix_to_schedule_DGC and bitmatrix_to_schedule_PGC_mad of xorMatch/xorMatchCode.c: one
-- operation for each bit that is set, by columns or by rows of the bit matrix.
pub mod Run
pub mod Built
pub mod Order
mod Tests
use cerasure.Base.{
  ℕ, zero, suc, ◌+◌, ◌*◌, ◌/◌, ◌%◌, List, [], ◌∷◌, ◌++◌, Block, set, fill, for_range, ◌==◌,
  if◌then◌else◌,
}

-- operations[oper_group_index][0] to [4]
pub record Operation : Type 0 where
  pub data_block : ℕ
  pub data_packet : ℕ
  pub parity_block : ℕ
  pub parity_packet : ℕ
  pub xor_copy_tag : ℕ

-- The operations so far; oper_group_index is their number.
pub record OperState : Type 0 where
  pub operations : List Operation
  pub copy_xor_tag : Block ℕ

-- Data packet i goes to parity packet j: a copy the first time, then an xor.
pub emit : ℕ → ℕ → ℕ → OperState → OperState
emit w i j s =
    let oper : Operation = record {
      data_block = i / w;
      data_packet = i % w;
      parity_block = j / w;
      parity_packet = j % w;
      xor_copy_tag = if s.copy_xor_tag j == 1 then 1 else 0;
    } in
    record {
      operations = s.operations ++ oper ∷ [];
      copy_xor_tag = if s.copy_xor_tag j == 1 then s.copy_xor_tag else set s.copy_xor_tag j 1;
    }

-- if (bitmatrix[index]) the operation is written
pub visit : Block ℕ → ℕ → ℕ → ℕ → ℕ → OperState → OperState
visit bitmatrix w index i j s = if bitmatrix index == 0 then s else emit w i j s

-- No operation, and copy_xor_tag[i] = 0 for i < p * w.
pub no_operations : ℕ → ℕ → Block ℕ → OperState
no_operations p w fresh = record { operations = []; copy_xor_tag = fill 0 (p * w) (λ i. 0) fresh }

-- The inner loop over the rows: matrix_index starts at i and moves on by k * w.
pub dgc_column : ℕ → ℕ → ℕ → Block ℕ → ℕ → OperState → OperState
dgc_column k p w bitmatrix i = for_range (p * w) 0 (λ j. visit bitmatrix w (i + j * (k * w)) i j)

unfoldable pub bitmatrix_to_schedule_dgc : ℕ → ℕ → ℕ → Block ℕ → Block ℕ → List Operation
bitmatrix_to_schedule_dgc k p w bitmatrix fresh =
    (for_range (k * w) 0 (dgc_column k p w bitmatrix) (no_operations p w fresh)).operations

-- The inner loop over the columns of row i.
pub pgc_mad_row : ℕ → ℕ → Block ℕ → ℕ → OperState → OperState
pgc_mad_row k w bitmatrix i = for_range (k * w) 0 (λ j. visit bitmatrix w (i * k * w + j) j i)

unfoldable pub bitmatrix_to_schedule_pgc_mad : ℕ → ℕ → ℕ → Block ℕ → Block ℕ → List Operation
bitmatrix_to_schedule_pgc_mad k p w bitmatrix fresh =
    (for_range (p * w) 0 (pgc_mad_row k w bitmatrix) (no_operations p w fresh)).operations
