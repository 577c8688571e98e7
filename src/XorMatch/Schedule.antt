-- ===== src/XorMatch/Schedule.antt =====
-- bitmatrix_to_schedule of xorMatch/vandermonde.c: a row for each row of a bit matrix.
use cerasure.Base.{
  ℕ, zero, suc, ◌+◌, ◌*◌, ◌/◌, ◌%◌, List, [], ◌∷◌, Block, set, for_range, ◌==◌, if◌then◌else◌,
}
use cerasure.XorMatch.Machine.{Row}
pub mod Product
pub mod Rows

-- The row that is being written, and the index that it is written at.
pub record RowState : Type 0 where
  pub row : Row
  pub oper_index : ℕ

-- operations[i][oper_index] = value; oper_index++;
pub push : ℕ → RowState → RowState
push value s = record { row = set s.row s.oper_index value; oper_index = s.oper_index + 1 }

-- How many of the first n bits from a place on are set.
unfoldable pub count_bits : Block ℕ → ℕ → ℕ → ℕ
count_bits bitmatrix from n =
    for_range n 0 (λ j oper_count. if bitmatrix (from + j) == 0 then oper_count else oper_count + 1)
      0

-- The second loop over the columns: the block and the packet of each bit that is set.
pub push_sources : Block ℕ → ℕ → ℕ → ℕ → RowState → RowState
push_sources bitmatrix from w n =
    for_range n 0 (λ j s. if bitmatrix (from + j) == 0 then s else push (j % w) (push (j / w) s))

-- Row i, in memory from malloc that holds anything.
pub schedule_row : ℕ → ℕ → Block ℕ → Block ℕ → ℕ → Row
schedule_row k w bitmatrix fresh i =
    let oper_count = count_bits bitmatrix (i * k * w) (k * w) in
    let start : RowState = record { row = set fresh 0 oper_count; oper_index = 1 } in
    (push_sources bitmatrix (i * k * w) w (k * w) (push (i % w) (push (k + i / w) start))).row

-- n rows from row i on.
pub schedule_rows : ℕ → ℕ → Block ℕ → Block ℕ → ℕ → ℕ → List Row
schedule_rows k w bitmatrix fresh zero i = []
schedule_rows k w bitmatrix fresh (suc n) i =
    schedule_row k w bitmatrix fresh i ∷ schedule_rows k w bitmatrix fresh n (suc i)

-- The memory for the array of rows is had.
unfoldable pub bitmatrix_to_schedule : ℕ → ℕ → ℕ → Block ℕ → Block ℕ → List Row
bitmatrix_to_schedule k p w bitmatrix fresh = schedule_rows k w bitmatrix fresh (p * w) 0
