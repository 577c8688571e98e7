-- ===== src/XorMatch/Matching.antt =====
-- bitmatrix_to_schedule_PGC_macthing of xorMatch/xorMatchCode.c: rows of the bit matrix that are
-- matched become one operation, which adds up the packets they share once.
pub mod Listed
pub mod Pair
pub mod Run
pub mod Pending
pub mod Correct
mod Tests
use cerasure.Base.{
  ℕ, zero, suc, ◌+◌, ◌*◌, ◌/◌, ◌%◌, List, [], ◌∷◌, Block, set, for_range, ◌==◌, if◌then◌else◌, Bool,
  ◌&&◌, not,
}
use cerasure.XorMatch.Machine.{Row}
use cerasure.XorMatch.Schedule.{RowState, push}

-- An entry of match: -1, -2 or the row it is matched with.
pub data Match : Type 0 where
  unmatched scheduled : Match
  partner : ℕ → Match

-- if (test) count++;  over n columns
pub count_where : (ℕ → Bool) → ℕ → ℕ
count_where test n = for_range n 0 (λ j count. if test j then count + 1 else count) 0

-- if (test) the block and the packet of column j are written, over n columns
pub push_where : (ℕ → Bool) → ℕ → ℕ → RowState → RowState
push_where test w n = for_range n 0 (λ j s. if test j then push (j % w) (push (j / w) s) else s)

module _ (k w : ℕ) (bitmatrix : Block ℕ) where
  -- bitmatrix[i*k*w+j]
  pub is_set : ℕ → ℕ → Bool
  is_set i j = not (bitmatrix (i * k * w + j) == 0)

  -- bitmatrix[i*k*w+j]==1
  pub is_one : ℕ → ℕ → Bool
  is_one i j = bitmatrix (i * k * w + j) == 1

  pub in_both : ℕ → ℕ → ℕ → Bool
  in_both i l j = is_one i j && is_one l j

  pub in_first : ℕ → ℕ → ℕ → Bool
  in_first i l j = is_one i j && not (is_one l j)

  pub in_second : ℕ → ℕ → ℕ → Bool
  in_second i l j = not (is_one i j) && is_one l j

  -- The counts at the front; `fresh` is what malloc returns.
  pub counts : Row → ℕ → ℕ → ℕ → RowState
  counts fresh common first second = record {
    row = set (set (set fresh 0 common) 1 first) 2 second;
    oper_index = 3;
  }

  -- parity packet id
  pub push_id : ℕ → RowState → RowState
  push_id i s = push (i % w) (push (i / w) s)

  pub single_row : Row → ℕ → Row
  single_row fresh i =
      (push_id i
        (push_where (is_set i) w (k * w) (counts fresh 0 (count_where (is_set i) (k * w)) 0))).row

  pub pair_row : Row → ℕ → ℕ → Row
  pair_row fresh i l =
      let start =
        counts fresh (count_where (in_both i l) (k * w)) (count_where (in_first i l) (k * w))
          (count_where (in_second i l) (k * w)) in
      let sources =
        push_where (in_second i l) w (k * w)
          (push_where (in_first i l) w (k * w) (push_where (in_both i l) w (k * w) start)) in
      (push_id l (push_id i sources)).row

  -- The loop over the rows from i on, with the rounds left.
  pub matching_rows : Row → Block Match → ℕ → ℕ → List Row
  matching_rows fresh match zero i = []
  matching_rows fresh match (suc n) i = elim (match i) [
    | unmatched ↦ single_row fresh i ∷ matching_rows fresh match n (suc i)
    | scheduled ↦ matching_rows fresh match n (suc i)
    | partner l ↦
        pair_row fresh i l ∷ matching_rows fresh (set (set match i scheduled) l scheduled) n (suc i)
  ]

unfoldable pub bitmatrix_to_schedule_pgc_macthing :
    ℕ → ℕ → ℕ → Block ℕ → Block Match → Row → List Row
bitmatrix_to_schedule_pgc_macthing k p w bitmatrix match fresh =
    matching_rows k w bitmatrix fresh match (p * w) 0
