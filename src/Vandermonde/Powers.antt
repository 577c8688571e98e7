-- ===== src/Vandermonde/Powers.antt =====
-- The cells of vandermonde_sub_coding_matrix (xorMatch/vandermonde.c).
use cerasure.Base.{
  ℕ, zero, suc, ◌+◌, ◌*◌, ◌<◌, ◌≡◌, ◌≢◌, refl, ap, ◌∙◌, inl, arith, Block, set_self, set_ne,
  for_range_inv, ℕ_discrete,
}
use cerasure.Invert.Rows.{offsets_ne}
use cerasure.Vandermonde.{PowerRow, PowerRows, power_cell, power_row, vandermonde_sub_coding_matrix}

module _ (galois_single_multiply : ℕ → ℕ → ℕ → ℕ) (w : ℕ) where
  -- x to the n
  unfoldable pub power : ℕ → ℕ → ℕ
  power x zero = 1
  power x (suc n) = galois_single_multiply (power x n) x w

  module _ (k : ℕ) where
    record RowDone (i elem : ℕ) (before : Block ℕ) (j : ℕ) (s : PowerRow) : Type 0 where
      tmp : s.tmp ≡ power elem j
      inside : (c : ℕ) → c < j → s.matrix (i * k + c) ≡ power elem c
      other : (r c : ℕ) → c < k → r ≢ i → s.matrix (r * k + c) ≡ before (r * k + c)

    RowDone-power_cell :
        (i elem : ℕ) (before : Block ℕ) (j : ℕ) (s : PowerRow)
        → j < k
        → RowDone i elem before j s
        → RowDone i elem before (suc j) (power_cell galois_single_multiply k w i elem j s)
    unfolding power_cell power
    RowDone-power_cell i elem before j s hj v = record {
      tmp = ap (λ (x : ℕ). galois_single_multiply x elem w) v.tmp;
      inside = λ c hc. elim (ℕ_discrete j c) [
        | yes e ↦ rw (← e) (set_self s.matrix (i * k + j) s.tmp ∙ v.tmp)
        | no ne ↦ set_ne s.matrix _ _ _ (omega (arith, ne)) ∙ v.inside c (omega (arith, ne))
      ];
      other = λ r c hc ne.
          set_ne s.matrix _ _ _ (offsets_ne k i j r c hj hc (inl ne)) ∙ v.other r c hc ne;
    }

    record RowsDone (i : ℕ) (s : PowerRows) : Type 0 where
      elem : s.elem ≡ power 2 i
      rows : (r c : ℕ) → r < i → c < k → s.matrix (r * k + c) ≡ power (power 2 r) c

    RowsDone-power_row :
        (i : ℕ) (s : PowerRows)
        → RowsDone i s
        → RowsDone (suc i) (power_row galois_single_multiply k w i s)
    unfolding power_row power
    RowsDone-power_row i s v =
        let done =
          for_range_inv (RowDone i s.elem s.matrix) (power_cell galois_single_multiply k w i s.elem)
            0 k (λ j t lo hj u. RowDone-power_cell i s.elem s.matrix j t hj u) k 0
            (record { tmp = 1; matrix = s.matrix }) (omega arith) (omega arith)
            (record {
              tmp = refl;
              inside = λ c hc. absurd (omega arith);
              other = λ r c hc ne. refl;
            }) in
        record {
          elem = ap (λ (x : ℕ). galois_single_multiply x 2 w) v.elem;
          rows = λ r c hr hc. elim (ℕ_discrete r i) [
            | yes e ↦ rw e (done.inside c hc ∙ ap (λ (x : ℕ). power x c) v.elem)
            | no ne ↦ done.other r c hc ne ∙ v.rows r c (omega (arith, ne)) hc
          ];
        }

    -- Cell (i, j) of vandermonde_sub_coding_matrix is the j-th power of the i-th power of 2, by
    -- the multiplication of width w.
    pub vandermonde_sub_coding_matrix-power :
        (m : ℕ) (fresh : Block ℕ) (i j : ℕ)
        → i < m
        → j < k
        → vandermonde_sub_coding_matrix galois_single_multiply k m w fresh (i * k + j)
          ≡ power (power 2 i) j
    unfolding vandermonde_sub_coding_matrix power
    vandermonde_sub_coding_matrix-power m fresh =
        (for_range_inv RowsDone (power_row galois_single_multiply k w) 0 m
          (λ i s lo hi v. RowsDone-power_row i s v) m 0 (record { elem = 1; matrix = fresh })
          (omega arith) (omega arith)
          (record { elem = refl; rows = λ r c hr hc. absurd (omega arith) })).rows
