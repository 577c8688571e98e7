-- ===== src/XorMatch/Machine.antt =====
-- What a schedule means, without pointers: each row sets one packet to the sum of others.
use cerasure.Base.{
  ℕ, ◌+◌, ◌*◌, ◌<◌, ◌≤◌, ◌≡◌, ◌≢◌, ◌⊎◌, inl, inr, sym, ◌∙◌, ℕ_discrete, List, [], ◌∷◌, Block, set,
}
use cerasure.Field.Sum.{sum, sum_congr}
use cerasure.Encode.Grid.{write_self, write_ne}

-- A row of a schedule: how many sources, the destination's block and packet, then the block and the
-- packet of each source. A schedule ends with a row that starts with -1: here, the end of the list.
abbrev pub Row : Type 0
Row = Block ℕ

-- The value of each packet of each block.
abbrev pub Values : Type 0
Values = Block (Block ℕ)

unfoldable pub apply_row : Row → Values → Values
apply_row row v =
    let total = sum (row 0) (λ j. v (row (2 * j + 3)) (row (2 * j + 4))) in
    set v (row 1) (set (v (row 1)) (row 2) total)

pub apply_row-dest :
    (row : Row) (v : Values)
    → apply_row row v (row 1) (row 2) ≡ sum (row 0) (λ j. v (row (2 * j + 3)) (row (2 * j + 4)))
unfolding apply_row
apply_row-dest row v =
    write_self (λ l i old. sum (row 0) (λ j. v (row (2 * j + 3)) (row (2 * j + 4)))) (row 1) (row 2)
      v

pub apply_row-other :
    (row : Row) (v : Values) (b q : ℕ) → (row 1 ≢ b) ⊎ (row 2 ≢ q) → apply_row row v b q ≡ v b q
unfolding apply_row
apply_row-other row v b q =
    write_ne (λ l i old. sum (row 0) (λ j. v (row (2 * j + 3)) (row (2 * j + 4)))) (row 1) (row 2) b
      q v

unfoldable pub apply_rows : List Row → Values → Values
apply_rows [] v = v
apply_rows (row ∷ rows) v = apply_rows rows (apply_row row v)

-- A row over so many blocks of w packets, which does not read the packet that it writes.
pub record IsRow (blocks w : ℕ) (row : Row) : Type 0 where
  pub some_source : 1 ≤ row 0
  pub dest_block : row 1 < blocks
  pub dest_packet : row 2 < w
  pub source_block : (j : ℕ) → j < row 0 → row (2 * j + 3) < blocks
  pub source_packet : (j : ℕ) → j < row 0 → row (2 * j + 4) < w
  pub not_dest : (j : ℕ) → j < row 0 → (row (2 * j + 3) ≢ row 1) ⊎ (row (2 * j + 4) ≢ row 2)

abbrev pub AllRows : ℕ → ℕ → List Row → Type 0
AllRows blocks w [] = Unit
AllRows blocks w (row ∷ rows) = IsRow blocks w row × AllRows blocks w rows

-- Every row adds up two packets or more.
abbrev pub TwoSources : List Row → Type 0
TwoSources [] = Unit
TwoSources (row ∷ rows) = (2 ≤ row 0) × TwoSources rows

-- No row adds up more packets than that.
abbrev pub AtMostSources : ℕ → List Row → Type 0
AtMostSources most [] = Unit
AtMostSources most (row ∷ rows) = (row 0 ≤ most) × AtMostSources most rows

-- What stands outside the blocks, and past packet w, does not count.
abbrev pub Agree : ℕ → Values → Values → Type 0
Agree blocks v v' = (b q : ℕ) → b < blocks → v b q ≡ v' b q

apply_row-Agree :
    (blocks w : ℕ) (row : Row) (v v' : Values)
    → IsRow blocks w row
    → Agree blocks v v'
    → Agree blocks (apply_row row v) (apply_row row v')
apply_row-Agree blocks w row v v' is_row same b q hb =
    let other : (row 1 ≢ b) ⊎ (row 2 ≢ q) → apply_row row v b q ≡ apply_row row v' b q =
      λ ne. apply_row-other row v b q ne ∙ same b q hb ∙ sym (apply_row-other row v' b q ne) in
    elim (ℕ_discrete (row 1) b) [
      | no ne ↦ other (inl ne)
      | yes e ↦ elim (ℕ_discrete (row 2) q) [
        | no ne ↦ other (inr ne)
        | yes e' ↦
            rw (← e, ← e')
              (apply_row-dest row v
                ∙ sum_congr (row 0) _ _ (λ j hj. same _ _ (is_row.source_block j hj))
                ∙ sym (apply_row-dest row v'))
      ]
    ]

pub apply_rows-Agree :
    (blocks w : ℕ) (rows : List Row) (v v' : Values)
    → AllRows blocks w rows
    → Agree blocks v v'
    → Agree blocks (apply_rows rows v) (apply_rows rows v')
unfolding apply_rows
apply_rows-Agree blocks w [] v v' ok same = same
apply_rows-Agree blocks w (row ∷ rows) v v' (is_row, ok) same =
    apply_rows-Agree blocks w rows (apply_row row v) (apply_row row v') ok
      (apply_row-Agree blocks w row v v' is_row same)
