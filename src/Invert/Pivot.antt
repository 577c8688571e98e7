-- ===== src/Invert/Pivot.antt =====
-- The first half of a round: the search for a pivot and the exchange of rows. Before round i the
-- first i columns are those of the identity.
use cerasure.Base.{
  ℕ, zero, suc, ◌+◌, ◌-◌, ◌*◌, ◌<◌, ◌≤◌, ◌≡◌, sym, ◌∙◌, ◌≢◌, ◌⊎◌, inl, inr, arith, Option, none,
  some, Block, for_range, ℕ_discrete, ==_ne, ==_refl,
}
use cerasure.Field.{Field}
use cerasure.Invert.{Mats, find_row, swap_cell, swap_rows, choose_pivot}
use cerasure.Invert.Rows.{for_range_pair, swapped_first, swapped_second, swapped_kept, delta}
use cerasure.Invert.Invariant.{Invariant}
use cerasure.Invert.Swap.{IsSwap, Invariant-IsSwap}

-- The search stops at the first row with an element other than 0, or past the end.
pub find_row_cases :
    (n i : ℕ) (m : Block ℕ) (left j : ℕ)
    → j + left ≡ n
    → ((find_row n i m left j ≡ n) × ((r : ℕ) → j ≤ r → r < n → m (r * n + i) ≡ 0))
      ⊎ ((j ≤ find_row n i m left j)
          × (find_row n i m left j < n)
          × (m (find_row n i m left j * n + i) ≢ 0))
unfolding find_row
find_row_cases n i m zero j e = inl (omega arith, λ r lo hi. absurd (omega arith))
find_row_cases n i m (suc left) j e = elim (ℕ_discrete (m (j * n + i)) 0) [
  | yes z ↦ rw z (elim (find_row_cases n i m left (suc j) (omega arith)) [
    | inl (end, all) ↦ inl (
      end,
      λ r lo hi. elim (ℕ_discrete r j) [ yes p ↦ rw p z | no p ↦ all r (omega (arith, p)) hi ],
    )
    | inr (lo, hi, nz) ↦ inr (omega arith, hi, nz)
  ])
  | no nz ↦ rw (==_ne _ _ nz) (inr (omega arith, omega arith, nz))
]

module _ (F : Field) (n : ℕ) (given : Block ℕ) where
  pub record Units (i : ℕ) (s : Mats) : Type 0 where
    pub invariant : Invariant F n given s
    pub units : (r c : ℕ) → r < n → c < i → s.in_mat (r * n + c) ≡ delta r c

  -- What `choose_pivot` leaves: a pivot other than 0, or a column that is 0 from row i on.
  abbrev pub Chosen : ℕ → Mats → Option Mats → Type 0
  Chosen i s none = (r : ℕ) → i ≤ r → r < n → s.in_mat (r * n + i) ≡ 0
  Chosen i s (some s') = Units i s' × (s'.in_mat (i * n + i) ≢ 0)

  module _ (i j : ℕ) (hi : i < j) (hj : j < n) (s : Mats) where
    abbrev after_swap : Mats
    after_swap = record {
      in_mat = for_range n 0 (swap_cell n i j) s.in_mat;
      out_mat = for_range n 0 (swap_cell n i j) s.out_mat;
    }

    pub swap_rows-eq : swap_rows n i j s ≡ after_swap
    unfolding swap_rows
    swap_rows-eq = for_range_pair (swap_cell n i j) (swap_cell n i j) n 0 s

    pub IsSwap-loop : (m : Block ℕ) → IsSwap F n given i j m (for_range n 0 (swap_cell n i j) m)
    IsSwap-loop m = record {
      first = swapped_first n i j (omega arith) m;
      second = swapped_second n i j (omega arith) m;
      kept = swapped_kept n i j (omega arith) m;
    }

    Units-after_swap : Units i s → Units i after_swap
    Units-after_swap u = record {
      invariant =
          Invariant-IsSwap F n given i j s after_swap (omega arith) hj (IsSwap-loop _)
            (IsSwap-loop _) u.invariant;
      units = λ r c hr hc. elim (ℕ_discrete r i) [
        | yes p ↦
            rw p (
              swapped_first n i j (omega arith) _ c (omega arith)
              ∙ u.units j c hj hc
              ∙ ground arith)
        | no p ↦ elim (ℕ_discrete r j) [
          | yes q ↦ rw q (
              swapped_second n i j (omega arith) _ c (omega arith)
              ∙ u.units i c (omega arith) hc
              ∙ ground arith)
          | no q ↦ swapped_kept n i j (omega arith) _ r c (omega arith) p q ∙ u.units r c hr hc
        ]
      ];
    }

    Units-swap_rows : Units i s → s.in_mat (j * n + i) ≢ 0 → Chosen i s (some (swap_rows n i j s))
    Units-swap_rows u nz = rw swap_rows-eq (
      Units-after_swap u,
      λ e. nz (sym (swapped_first n i j (omega arith) s.in_mat i (omega arith)) ∙ e),
    )

  pub choose_pivot-Chosen : (i : ℕ) (s : Mats) → i < n → Units i s → Chosen i s (choose_pivot n i s)
  unfolding choose_pivot
  choose_pivot-Chosen i s hi u = elim (ℕ_discrete (s.in_mat (i * n + i)) 0) [
    | yes z ↦ rw z (elim (find_row_cases n i s.in_mat (n - suc i) (suc i) (omega arith)) [
      | inl (end, all) ↦
          rw (end, ==_refl n)
            λ r lo hr. elim (ℕ_discrete r i) [ yes p ↦ rw p z | no p ↦ all r (omega (arith, p)) hr ]
      | inr (lo, hr, nz) ↦
          rw (==_ne (find_row n i s.in_mat (n - suc i) (suc i)) n (omega (arith, hr)))
            (Units-swap_rows i _ lo hr s u nz)
    ])
    | no nz ↦ rw (==_ne _ _ nz) (u, nz)
  ]
