-- ===== src/Invert/Clear.antt =====
-- The second half of a round: the pivot's row is scaled to start with 1, and its multiples clear
-- the column.
use cerasure.Base.{
  ℕ, suc, ◌+◌, ◌*◌, ◌<◌, ◌^◌, ◌≡◌, sym, ap, ap₂, ◌∙◌, ◌≢◌, arith, Block, for_range, for_range_inv,
  ℕ_discrete, ==_ne, ==_iff,
}
use cerasure.Bits.{◌⊕◌, xor-zero, xor_self}
use cerasure.Field.{Field}
use cerasure.Field.Sum.{mul-zero}
use cerasure.Invert.{Mats, scale_cell, scale_row, add_cell, add_row, clear_column}
use cerasure.Invert.Rows.{for_range_pair, row_written, row_kept}
use cerasure.Invert.Invariant.{IsMatrix}
use cerasure.Invert.Scale.{IsScale, Invariant-IsScale}
use cerasure.Invert.Add.{IsAdd, Invariant-IsAdd}
use cerasure.Invert.Pivot.{Units}

module _ (F : Field) (n : ℕ) (given : Block ℕ) (elem : IsMatrix F n given) (i : ℕ)
    (hi : i < n) where
  open F use {bits, mul, inv, inv-lt, mul_comm, mul-inv, one-mul, zero-mul, one-lt}

  inv-ne-zero : (p : ℕ) → p ≢ 0 → p < 2 ^ bits → inv p ≢ 0
  inv-ne-zero p np hp e = absurd (omega (arith, mul-inv p np hp, ap (mul p) e, mul-zero F p hp))

  module _ (s : Mats) (u : Units F n given i s) (nz : s.in_mat (i * n + i) ≢ 0) where
    abbrev temp : ℕ
    temp = inv (s.in_mat (i * n + i))

    abbrev scaled : Block ℕ → Block ℕ
    scaled m = for_range n 0 (scale_cell mul inv n i temp) m

    scale_row-eq :
        scale_row mul inv n i s ≡ record { in_mat = scaled s.in_mat; out_mat = scaled s.out_mat }
    unfolding scale_row
    scale_row-eq = for_range_pair (scale_cell mul inv n i temp) (scale_cell mul inv n i temp) n 0 s

    IsScale-loop : (m : Block ℕ) → IsScale F n given elem i temp m (scaled m)
    unfolding scale_cell
    IsScale-loop m = record {
      scaled = row_written n i i (λ x y. mul x temp) m;
      kept = row_kept n i i (λ x y. mul x temp) m;
    }

    pivot-lt : s.in_mat (i * n + i) < 2 ^ bits
    pivot-lt = u.invariant.in_elem i i hi hi

    temp-lt : temp < 2 ^ bits
    temp-lt = inv-lt _ nz pivot-lt

    -- After scaling the pivot is 1, and the first columns are as before.
    pub scale_row-Units :
        Units F n given i (scale_row mul inv n i s)
        × ((scale_row mul inv n i s).in_mat (i * n + i) ≡ 1)
    scale_row-Units = rw scale_row-eq (
      record {
        invariant =
            Invariant-IsScale F n given elem i temp hi
              (inv-ne-zero (s.in_mat (i * n + i)) nz pivot-lt) temp-lt s _ (IsScale-loop _)
              (IsScale-loop _) u.invariant;
        units = λ r c hr hc. elim (ℕ_discrete r i) [
          | yes p ↦ rw p (
              IsScale.scaled (IsScale-loop s.in_mat) c (omega arith)
              ∙ ap (λ (t : ℕ). mul t temp) (u.units i c hi hc ∙ ground arith)
              ∙ zero-mul temp temp-lt
              ∙ ground arith)
          | no p ↦ IsScale.kept (IsScale-loop s.in_mat) r c (omega arith) p ∙ u.units r c hr hc
        ];
      },
      IsScale.scaled (IsScale-loop s.in_mat) i hi ∙ mul-inv (s.in_mat (i * n + i)) nz pivot-lt,
    )

  module _ (j : ℕ) (hj : j < n) (apart : i ≢ j) (s : Mats) where
    abbrev factor : ℕ
    factor = s.in_mat (j * n + i)

    abbrev added : Block ℕ → Block ℕ
    added m = for_range n 0 (add_cell mul inv n i j factor) m

    add_row-eq :
        add_row mul inv n i j s ≡ record { in_mat = added s.in_mat; out_mat = added s.out_mat }
    unfolding add_row
    add_row-eq =
        rw (==_ne j i (λ e. apart (sym e)))
          (for_range_pair (add_cell mul inv n i j factor) (add_cell mul inv n i j factor) n 0 s)

    IsAdd-loop : (m : Block ℕ) → IsAdd F n given elem i j factor m (added m)
    unfolding add_cell
    IsAdd-loop m = record {
      added = row_written n i j (λ x y. x ⊕ mul factor y) m;
      kept = row_kept n i j (λ x y. x ⊕ mul factor y) m;
    }

    -- One pass: the first columns stay, the pivot stays, and row j has 0 below it.
    add_row-Units :
        Units F n given i s
        → s.in_mat (i * n + i) ≡ 1
        → Units F n given i (add_row mul inv n i j s)
          × ((add_row mul inv n i j s).in_mat (j * n + i) ≡ 0)
          × ((r : ℕ) → r ≢ j → (add_row mul inv n i j s).in_mat (r * n + i) ≡ s.in_mat (r * n + i))
    add_row-Units u one = rw add_row-eq (
      record {
        invariant =
            Invariant-IsAdd F n given elem i j factor hi hj apart factor-lt s _ (IsAdd-loop _)
              (IsAdd-loop _) u.invariant;
        units = λ r c hr hc. elim (ℕ_discrete r j) [
          | yes p ↦ rw p (
              IsAdd.added (IsAdd-loop s.in_mat) c (omega arith)
              ∙ ap₂ ◌⊕◌ (u.units j c hj hc)
                  (ap (mul factor) (u.units i c hi hc ∙ ground arith) ∙ mul-zero F factor factor-lt)
              ∙ xor-zero _)
          | no p ↦ IsAdd.kept (IsAdd-loop s.in_mat) r c (omega arith) p ∙ u.units r c hr hc
        ];
      },
      IsAdd.added (IsAdd-loop s.in_mat) i hi
          ∙ ap (λ (t : ℕ). factor ⊕ t)
              (ap (mul factor) one ∙ mul_comm factor 1 factor-lt one-lt ∙ one-mul factor factor-lt)
          ∙ xor_self factor,
      λ r ne. IsAdd.kept (IsAdd-loop s.in_mat) r i hi ne,
    )
      where
        factor-lt : factor < 2 ^ bits
        factor-lt = u.invariant.in_elem j i hj hi

  record Cleared (k : ℕ) (s : Mats) : Type 0 where
    units : Units F n given i s
    pivot : s.in_mat (i * n + i) ≡ 1
    zeros : (r : ℕ) → r < k → r ≢ i → s.in_mat (r * n + i) ≡ 0

  add_row_skip : (j : ℕ) (s : Mats) → i ≡ j → add_row mul inv n i j s ≡ s
  unfolding add_row
  add_row_skip j s e = rw ((==_iff j i).1 (sym e))

  Cleared-add_row :
      (j : ℕ) (s : Mats) → j < n → Cleared j s → Cleared (suc j) (add_row mul inv n i j s)
  Cleared-add_row j s hj w = elim (ℕ_discrete i j) [
    | yes e ↦
        rw (add_row_skip j s e) (record {
          units = w.units;
          pivot = w.pivot;
          zeros = λ r lt ne. w.zeros r (omega arith) ne;
        })
    | no ne ↦
        let (units, cleared, kept) = add_row-Units j hj ne s w.units w.pivot in
        record {
          units = units;
          pivot = kept i ne ∙ w.pivot;
          zeros = λ r lt away. elim (ℕ_discrete r j) [
            | yes p ↦ rw p cleared
            | no p ↦ kept r p ∙ w.zeros r (omega (arith, p)) away
          ];
        }
  ]

  Cleared-loop : (s : Mats) → Cleared 0 s → Cleared n (clear_column mul inv n i s)
  unfolding clear_column
  Cleared-loop s w =
      for_range_inv Cleared (add_row mul inv n i) 0 n (λ j s lo hj w. Cleared-add_row j s hj w) n 0
        s (omega arith) (omega arith) w

  -- The whole round adds column i to the columns that are done.
  pub clear_column-Units :
      (s : Mats)
      → Units F n given i s
      → s.in_mat (i * n + i) ≢ 0
      → Units F n given (suc i) (clear_column mul inv n i (scale_row mul inv n i s))
  clear_column-Units s u nz = record {
    invariant = done.units.invariant;
    units = λ r c hr hc. elim (ℕ_discrete c i) [
      | yes p ↦ elim (ℕ_discrete r i) [
        | yes q ↦ rw (p, q) (done.pivot ∙ ground arith)
        | no q ↦ rw p (done.zeros r hr q ∙ ground arith)
      ]
      | no p ↦ done.units.units r c hr (omega (arith, p))
    ];
  }
    where
      done : Cleared n (clear_column mul inv n i (scale_row mul inv n i s))
      done =
          let (units, pivot) = scale_row-Units s u nz in
          Cleared-loop _
            (record { units = units; pivot = pivot; zeros = λ r lt ne. absurd (omega arith) })
