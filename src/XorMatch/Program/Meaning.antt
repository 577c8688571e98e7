-- ===== src/XorMatch/Program/Meaning.antt =====
-- What a straight-line program means, against its schedule.
use native.Mathlib.Nat.{mod-eq_of_lt, add-mod_right}
use cerasure.Base.{
  ℕ, zero, suc, ◌+◌, ◌-◌, ◌*◌, ◌/◌, ◌%◌, ◌^◌, ◌<◌, ◌≤◌, ◌≡◌, refl, ap, ◌∙◌, arith, List, [], ◌∷◌,
  ◌++◌, map, length, Block, set, set_self, set_ne, of_list, Option, none, some,
}
use cerasure.Field.Sum.{sum}
use cerasure.XorMatch.Machine.{Row, Values}
use cerasure.XorMatch.Program.{write_variable, end_row, rustslp_rows}

-- dest = the sum of the sources
pub record Assignment : Type 0 where
  pub dest : ℕ
  pub sources : List ℕ

-- The program as it is printed.
unfoldable pub print : List Assignment → List (Option ℕ)
print [] = []
print (a ∷ program) = some a.dest ∷ (map some a.sources ++ (none ∷ print program))

-- The values of the variables after an assignment, and after a program.
unfoldable pub assign : Assignment → Block ℕ → Block ℕ
assign a env = set env a.dest (sum (length a.sources) (λ t. env (of_list a.sources t)))

unfoldable pub run_program : List Assignment → Block ℕ → Block ℕ
run_program [] env = env
run_program (a ∷ program) env = run_program program (assign a env)

-- Variable x is packet x % w of block x / w.
abbrev pub variables : ℕ → Values → Block ℕ
variables w v x = v (x / w) (x % w)

-- Counts of sources that an int holds.
abbrev pub FitsInt : List Assignment → Type 0
FitsInt [] = Unit
FitsInt (a ∷ program) = (length a.sources < 2 ^ 31) × FitsInt program

-- The variables of a row, written from index j on.
pub write_variables : ℕ → ℕ → List ℕ → Row → Row
write_variables w j [] row = row
write_variables w j (x ∷ xs) row = write_variables w (j + 1) xs (write_variable w j x row)

pub rustslp_rows-map :
    (w : ℕ) (fresh : Row) (xs : List ℕ) (rest : List (Option ℕ)) (j : ℕ) (row : Row)
    → rustslp_rows w fresh (map some xs ++ (none ∷ rest)) j row
      ≡ end_row (j + length xs) (write_variables w j xs row) ∷ rustslp_rows w fresh rest 1 fresh
unfolding rustslp_rows write_variables
rustslp_rows-map w fresh [] rest j row =
    ap (λ (n : ℕ). end_row n row ∷ rustslp_rows w fresh rest 1 fresh) (omega arith)
rustslp_rows-map w fresh (x ∷ xs) rest j row =
    rustslp_rows-map w fresh xs rest (j + 1) (write_variable w j x row)
    ∙ ap
        (λ (n : ℕ).
          end_row n (write_variables w (j + 1) xs (write_variable w j x row))
          ∷ rustslp_rows w fresh rest 1 fresh)
        (omega arith)

module _ (w : ℕ) where
  write_variable-block :
      (j x : ℕ) (row : Row) → 1 ≤ j → write_variable w j x row (2 * j - 1) ≡ x / w
  unfolding write_variable
  write_variable-block j x row pos =
      set_ne _ (2 * j) (2 * j - 1) (x % w) (omega arith) ∙ set_self row (2 * j - 1) (x / w)

  write_variable-packet : (j x : ℕ) (row : Row) → write_variable w j x row (2 * j) ≡ x % w
  unfolding write_variable
  write_variable-packet j x row = set_self (set row (2 * j - 1) (x / w)) (2 * j) (x % w)

  write_variable-kept :
      (j x : ℕ) (row : Row) (y : ℕ) → 1 ≤ j → y < 2 * j - 1 → write_variable w j x row y ≡ row y
  unfolding write_variable
  write_variable-kept j x row y pos lt =
      set_ne _ (2 * j) y (x % w) (omega arith) ∙ set_ne row (2 * j - 1) y (x / w) (omega arith)

  write_variables-kept :
      (j : ℕ) (xs : List ℕ) (row : Row) (y : ℕ)
      → 1 ≤ j
      → y < 2 * j - 1
      → write_variables w j xs row y ≡ row y
  unfolding write_variables
  write_variables-kept j [] row y pos lt = refl
  write_variables-kept j (x ∷ xs) row y pos lt =
      write_variables-kept (j + 1) xs _ y (omega arith) (omega arith)
      ∙ write_variable-kept j x row y pos lt

  write_variables-block :
      (j : ℕ) (xs : List ℕ) (row : Row) (t : ℕ)
      → 1 ≤ j
      → t < length xs
      → write_variables w j xs row (2 * (j + t) - 1) ≡ of_list xs t / w
  unfolding write_variables
  write_variables-block j [] row t pos lt = absurd (omega arith)
  write_variables-block j (x ∷ xs) row zero pos lt =
      write_variables-kept (j + 1) xs _ _ (omega arith) (omega arith)
      ∙ ap (write_variable w j x row) (omega arith)
      ∙ write_variable-block j x row pos
  write_variables-block j (x ∷ xs) row (suc t) pos lt =
      ap (write_variables w (j + 1) xs (write_variable w j x row)) (omega arith)
      ∙ write_variables-block (j + 1) xs _ t (omega arith) (omega arith)

  write_variables-packet :
      (j : ℕ) (xs : List ℕ) (row : Row) (t : ℕ)
      → 1 ≤ j
      → t < length xs
      → write_variables w j xs row (2 * (j + t)) ≡ of_list xs t % w
  unfolding write_variables
  write_variables-packet j [] row t pos lt = absurd (omega arith)
  write_variables-packet j (x ∷ xs) row zero pos lt =
      write_variables-kept (j + 1) xs _ _ (omega arith) (omega arith)
      ∙ ap (write_variable w j x row) (omega arith)
      ∙ write_variable-packet j x row
  write_variables-packet j (x ∷ xs) row (suc t) pos lt =
      ap (write_variables w (j + 1) xs (write_variable w j x row)) (omega arith)
      ∙ write_variables-packet (j + 1) xs _ t (omega arith) (omega arith)

  -- The row of an assignment.
  unfoldable pub assignment_row : Row → Assignment → Row
  assignment_row fresh a =
      end_row (2 + length a.sources)
        (write_variables w 2 a.sources (write_variable w 1 a.dest fresh))

  module _ (fresh : Row) (a : Assignment) where
    abbrev row : Row
    row = assignment_row fresh a

    -- The last entry, of 0xffffffff, stands behind the sources.
    end_row-before : (j : ℕ) (r : Row) (y : ℕ) → 1 ≤ y → y < 2 * j - 1 → end_row j r y ≡ r y
    unfolding end_row
    end_row-before j r y pos lt =
        set_ne _ (2 * j - 1) y (2 ^ 32 - 1) (omega arith) ∙ set_ne r 0 y _ (omega arith)

    pub assignment_row-count : length a.sources < 2 ^ 31 → row 0 ≡ length a.sources
    unfolding assignment_row end_row
    assignment_row-count fits =
        set_ne _ (2 * (2 + length a.sources) - 1) 0 (2 ^ 32 - 1) (omega arith)
        ∙ set_self (write_variables w 2 a.sources (write_variable w 1 a.dest fresh)) 0 _
        ∙ ap (λ (n : ℕ). n % 2 ^ 32) (omega arith)
        ∙ add-mod_right (length a.sources) (2 ^ 32)
        ∙ mod-eq_of_lt (omega arith)

    pub assignment_row-dest_block : row 1 ≡ a.dest / w
    unfolding assignment_row
    assignment_row-dest_block =
        end_row-before (2 + length a.sources) _ 1 (omega arith) (omega arith)
        ∙ write_variables-kept 2 a.sources _ 1 (omega arith) (omega arith)
        ∙ write_variable-block 1 a.dest fresh (omega arith)

    pub assignment_row-dest_packet : row 2 ≡ a.dest % w
    unfolding assignment_row
    assignment_row-dest_packet =
        end_row-before (2 + length a.sources) _ 2 (omega arith) (omega arith)
        ∙ write_variables-kept 2 a.sources _ 2 (omega arith) (omega arith)
        ∙ write_variable-packet 1 a.dest fresh

    pub assignment_row-source_block :
        (t : ℕ) → t < length a.sources → row (2 * t + 3) ≡ of_list a.sources t / w
    unfolding assignment_row
    assignment_row-source_block t lt =
        end_row-before (2 + length a.sources) _ (2 * t + 3) (omega arith) (omega arith)
        ∙ ap (write_variables w 2 a.sources (write_variable w 1 a.dest fresh)) (omega arith)
        ∙ write_variables-block 2 a.sources _ t (omega arith) lt

    pub assignment_row-source_packet :
        (t : ℕ) → t < length a.sources → row (2 * t + 4) ≡ of_list a.sources t % w
    unfolding assignment_row
    assignment_row-source_packet t lt =
        end_row-before (2 + length a.sources) _ (2 * t + 4) (omega arith) (omega arith)
        ∙ ap (write_variables w 2 a.sources (write_variable w 1 a.dest fresh)) (omega arith)
        ∙ write_variables-packet 2 a.sources _ t (omega arith) lt
