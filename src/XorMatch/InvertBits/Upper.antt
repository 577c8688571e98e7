-- ===== src/XorMatch/InvertBits/Upper.antt =====
-- The first half of invert_bitmatrix (xorMatch/xorMatchCode.c): before round i the first i columns
-- are upper triangular with ones on the diagonal.
use cerasure.Base.{
  ℕ, suc, ◌+◌, ◌-◌, ◌*◌, ◌<◌, ◌≤◌, ◌≡◌, ◌≢◌, inl, inr, sym, ◌∙◌, arith, Block, for_range,
  for_range_inv, ℕ_discrete, ==_ne, ==_refl, Option, none, some,
}
use cerasure.Invert.{Mats, find_row, swap_rows, choose_pivot}
use cerasure.Invert.Rows.{delta, swapped_first, swapped_second, swapped_kept}
use cerasure.Invert.Invariant.{IsMatrix, Invariant}
use cerasure.Invert.Swap.{Invariant-IsSwap}
use cerasure.Invert.Pivot.{find_row_cases, swap_rows-eq, IsSwap-loop}
use cerasure.XorMatch.InvertBits.{eliminate_row, clear_below}
use cerasure.XorMatch.InvertBits.Bit.{bit_field}
use cerasure.XorMatch.InvertBits.Steps.{eliminate_row-IsEliminated}

module _ (n : ℕ) (given : Block ℕ) (elem : IsMatrix bit_field n given) where
  pub record IsUpper (i : ℕ) (s : Mats) : Type 0 where
    pub invariant : Invariant bit_field n given s
    pub lower : (r c : ℕ) → r < n → c < i → c ≤ r → s.in_mat (r * n + c) ≡ delta r c

  -- What the choice of a pivot leaves: one other than 0, or a column that is 0 from row i on.
  abbrev pub ChosenUpper : ℕ → Mats → Option Mats → Type 0
  ChosenUpper i s none = (r : ℕ) → i ≤ r → r < n → s.in_mat (r * n + i) ≡ 0
  ChosenUpper i s (some s') = IsUpper i s' × (s'.in_mat (i * n + i) ≢ 0)

  IsUpper-swap_rows :
      (i j : ℕ) (s : Mats)
      → i < j
      → j < n
      → IsUpper i s
      → s.in_mat (j * n + i) ≢ 0
      → ChosenUpper i s (some (swap_rows n i j s))
  IsUpper-swap_rows i j s hi hj u nz =
      let swap = IsSwap-loop bit_field n given i j hi hj s in
      rw (swap_rows-eq bit_field n given i j hi hj s) (
        record {
          invariant =
              Invariant-IsSwap bit_field n given i j s _ (omega arith) hj (swap _) (swap _)
                u.invariant;
          lower = λ r c hr hc le. elim (ℕ_discrete r i) [
            | yes p ↦ rw p (
                swapped_first n i j (omega arith) _ c (omega arith)
                ∙ u.lower j c hj hc (omega arith)
                ∙ ground arith)
            | no p ↦ elim (ℕ_discrete r j) [
              | yes q ↦ rw q (
                  swapped_second n i j (omega arith) _ c (omega arith)
                  ∙ u.lower i c (omega arith) hc (omega arith)
                  ∙ ground arith)
              | no q ↦
                  swapped_kept n i j (omega arith) _ r c (omega arith) p q ∙ u.lower r c hr hc le
            ]
          ];
        },
        λ e. nz (sym (swapped_first n i j (omega arith) s.in_mat i (omega arith)) ∙ e),
      )

  pub choose_pivot-ChosenUpper :
      (i : ℕ) (s : Mats) → i < n → IsUpper i s → ChosenUpper i s (choose_pivot n i s)
  unfolding choose_pivot
  choose_pivot-ChosenUpper i s hi u = elim (ℕ_discrete (s.in_mat (i * n + i)) 0) [
    | yes z ↦ rw z (elim (find_row_cases n i s.in_mat (n - suc i) (suc i) (omega arith)) [
      | inl (end, all) ↦
          rw (end, ==_refl n)
            λ r lo hr. elim (ℕ_discrete r i) [ yes p ↦ rw p z | no p ↦ all r (omega (arith, p)) hr ]
      | inr (lo, hr, nz) ↦
          rw (==_ne (find_row n i s.in_mat (n - suc i) (suc i)) n (omega (arith, hr)))
            (IsUpper-swap_rows i _ s lo hr u nz)
    ])
    | no nz ↦ rw (==_ne _ _ nz) (u, nz)
  ]

  -- Rows i + 1 to j - 1 are done.
  record Below (i j : ℕ) (s : Mats) : Type 0 where
    upper : IsUpper i s
    pivot : s.in_mat (i * n + i) ≡ 1
    zeros : (r : ℕ) → i < r → r < j → s.in_mat (r * n + i) ≡ 0

  Below-eliminate_row :
      (i j : ℕ) (s : Mats) → i < j → j < n → Below i j s → Below i (suc j) (eliminate_row n i j s)
  Below-eliminate_row i j s hi hj w =
      let e =
        eliminate_row-IsEliminated n given elem i j s (omega arith) hj (omega arith) w.pivot
          w.upper.invariant in
      record {
        upper = record {
          invariant = e.invariant;
          lower = λ r c hr hc le. elim (ℕ_discrete r j) [
            | yes p ↦ rw p (
                e.same c (omega arith)
                  (w.upper.lower i c (omega arith) hc (omega arith) ∙ ground arith)
                ∙ w.upper.lower j c hj hc (omega arith))
            | no p ↦ e.kept r c (omega arith) p ∙ w.upper.lower r c hr hc le
          ];
        };
        pivot = e.kept i i (omega arith) (omega arith) ∙ w.pivot;
        zeros = λ r lo hr. elim (ℕ_discrete r j) [
          | yes p ↦ rw p e.cleared
          | no p ↦ e.kept r i (omega arith) p ∙ w.zeros r lo (omega (arith, p))
        ];
      }

  -- The round adds column i to the columns that are done.
  pub clear_below-IsUpper :
      (i : ℕ) (s : Mats)
      → i < n
      → IsUpper i s
      → s.in_mat (i * n + i) ≡ 1
      → IsUpper (suc i) (clear_below n i s)
  unfolding clear_below
  clear_below-IsUpper i s hi u one =
      let done : Below i n (for_range (n - suc i) (suc i) (eliminate_row n i) s) =
        for_range_inv (Below i) (eliminate_row n i) (suc i) n
          (λ j s lo hj w. Below-eliminate_row i j s (omega arith) hj w) (n - suc i) (suc i) s
          (omega arith) (omega arith)
          (record { upper = u; pivot = one; zeros = λ r lo hr. absurd (omega arith) }) in
      record {
        invariant = done.upper.invariant;
        lower = λ r c hr hc le. elim (ℕ_discrete c i) [
          | no p ↦ done.upper.lower r c hr (omega (arith, p)) le
          | yes p ↦ elim (ℕ_discrete r i) [
            | yes q ↦ rw (p, q) (done.pivot ∙ ground arith)
            | no q ↦ rw p (done.zeros r (omega (arith, q, p)) hr ∙ ground arith)
          ]
        ];
      }
