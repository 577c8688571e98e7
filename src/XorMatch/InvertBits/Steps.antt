-- ===== src/XorMatch/InvertBits/Steps.antt =====
-- One conditional row addition of invert_bitmatrix (xorMatch/xorMatchCode.c).
use cerasure.Base.{
  ℕ, ◌+◌, ◌*◌, ◌<◌, ◌≡◌, ◌≢◌, refl, sym, ap, ap₂, ◌∙◌, arith, Block, for_range, ℕ_discrete, ==_ne,
}
use cerasure.Bits.{◌⊕◌, xor-zero, xor_self}
use cerasure.Invert.{Mats}
use cerasure.Invert.Rows.{for_range_pair, row_written, row_kept}
use cerasure.Invert.Invariant.{IsMatrix, Invariant}
use cerasure.Invert.Add.{IsAdd, Invariant-IsAdd}
use cerasure.XorMatch.InvertBits.{xor_cell, xor_rows, eliminate_row}
use cerasure.XorMatch.InvertBits.Bit.{bit_field, one-select}

module _ (n : ℕ) (given : Block ℕ) (elem : IsMatrix bit_field n given) (i j : ℕ) where
  abbrev added : Block ℕ → Block ℕ
  added m = for_range n 0 (xor_cell n i j) m

  xor_rows-eq :
      (s : Mats) → xor_rows n i j s ≡ record { in_mat = added s.in_mat; out_mat = added s.out_mat }
  unfolding xor_rows
  xor_rows-eq s = for_range_pair (xor_cell n i j) (xor_cell n i j) n 0 s

  IsAdd-added : (m : Block ℕ) → IsAdd bit_field n given elem i j 1 m (added m)
  unfolding xor_cell bit_field
  IsAdd-added m = record {
    added = λ c hc.
        row_written n i j (λ x y. x ⊕ y) m c hc
        ∙ ap (λ (y : ℕ). m (j * n + c) ⊕ y) (sym (one-select _));
    kept = row_kept n i j (λ x y. x ⊕ y) m;
  }

  -- What one call leaves: row j has 0 in column i, when row i has 1 there.
  pub record IsEliminated (s s' : Mats) : Type 0 where
    pub invariant : Invariant bit_field n given s'
    pub cleared : s'.in_mat (j * n + i) ≡ 0
    pub kept : (r c : ℕ) → c < n → r ≢ j → s'.in_mat (r * n + c) ≡ s.in_mat (r * n + c)
    pub same :
        (c : ℕ) → c < n → s.in_mat (i * n + c) ≡ 0 → s'.in_mat (j * n + c) ≡ s.in_mat (j * n + c)

  bit-one : (x : ℕ) → x ≢ 0 → x < 2 → x ≡ 1
  bit-one x ne h = omega (arith, ne)

  pub eliminate_row-IsEliminated :
      (s : Mats)
      → i < n
      → j < n
      → i ≢ j
      → s.in_mat (i * n + i) ≡ 1
      → Invariant bit_field n given s
      → IsEliminated s (eliminate_row n i j s)
  unfolding eliminate_row bit_field
  eliminate_row-IsEliminated s hi hj apart pivot h = elim (ℕ_discrete (s.in_mat (j * n + i)) 0) [
    | yes e ↦
        rw e
          (record { invariant = h; cleared = e; kept = λ r c hc ne. refl; same = λ c hc z. refl })
    | no ne ↦
        rw (==_ne _ 0 ne, xor_rows-eq s)
          (record {
            invariant =
                Invariant-IsAdd bit_field n given elem i j 1 hi hj apart (omega arith) s _
                  (IsAdd-added s.in_mat) (IsAdd-added s.out_mat) h;
            cleared =
                IsAdd.added (IsAdd-added s.in_mat) i hi
                ∙ ap₂ ◌⊕◌ (bit-one _ ne (h.in_elem j i hj hi)) (one-select _ ∙ pivot)
                ∙ xor_self 1;
            kept = IsAdd.kept (IsAdd-added s.in_mat);
            same = λ c hc z.
                IsAdd.added (IsAdd-added s.in_mat) c hc
                ∙ ap (λ (y : ℕ). s.in_mat (j * n + c) ⊕ y) (one-select _ ∙ z)
                ∙ xor-zero _;
          })
  ]
