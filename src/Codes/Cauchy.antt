-- ===== src/Codes/Cauchy.antt =====
-- The rows of `gf_gen_cauchy1_matrix` of erasure_code/ec_base.c, in the order of its pointer.
use cerasure.Base.{
  ℕ, suc, ◌+◌, ◌-◌, ◌*◌, ◌%◌, ◌<◌, ◌≤◌, ◌≡◌, refl, ap, ◌∙◌, arith, inl, Block, set_self, set_ne,
  for_range, for_range_inv, ℕ_discrete, ◌≢◌,
}
use cerasure.Bits.{◌⊕◌, xor-lt, eq_of_xor-zero}
use cerasure.Gf.{gf_mul, gf_inv}
use cerasure.Gf.Laws.{gf_mul-gf_inv}
use cerasure.Invert.Rows.{offsets_ne, delta}
use cerasure.Codes.{identity_top, CauchyState, cauchy_cell, gf_gen_cauchy1_matrix}
use cerasure.Codes.Top.{identity_top-delta}

abbrev entry : ℕ → ℕ → ℕ
entry r c = gf_inv ((r ⊕ c) % 256)

module _ (k i : ℕ) (a : Block ℕ) where
  record CellsDone (j : ℕ) (s : CauchyState) : Type 0 where
    place : s.p ≡ i * k + j
    inside : (c : ℕ) → c < j → s.a (i * k + c) ≡ entry i c
    outside : (r c : ℕ) → c < k → r ≢ i → s.a (r * k + c) ≡ a (r * k + c)

  CellsDone-cauchy_cell :
      (j : ℕ) (s : CauchyState) → j < k → CellsDone j s → CellsDone (suc j) (cauchy_cell i j s)
  unfolding cauchy_cell
  CellsDone-cauchy_cell j s hj w = record {
    place = omega (arith, w.place);
    inside = λ c hc. elim (ℕ_discrete c j) [
      | yes e ↦ rw (e, w.place) (set_self s.a _ _)
      | no ne ↦ set_ne s.a _ _ _ (omega (arith, ne, w.place)) ∙ w.inside c (omega (arith, ne))
    ];
    outside = λ r c hc ne.
        rw w.place (set_ne s.a _ _ _ (offsets_ne k i j r c hj hc (inl ne))) ∙ w.outside r c hc ne;
  }

  CellsDone-row :
      (p : ℕ) → p ≡ i * k → CellsDone k (for_range k 0 (cauchy_cell i) (record { a = a; p = p }))
  CellsDone-row p e =
      for_range_inv CellsDone (cauchy_cell i) 0 k (λ j s lo hj w. CellsDone-cauchy_cell j s hj w) k
        0 _ (omega arith) (omega arith)
        (record {
          place = omega (arith, e);
          inside = λ c hc. absurd (omega arith);
          outside = λ r c hc ne. refl;
        })

module _ (a : Block ℕ) (m k : ℕ) (wide : k ≤ m) where
  record RowsDone (i : ℕ) (s : CauchyState) : Type 0 where
    place : s.p ≡ i * k
    top : (r c : ℕ) → r < k → c < k → s.a (r * k + c) ≡ delta r c
    below : (r c : ℕ) → k ≤ r → r < i → c < k → s.a (r * k + c) ≡ entry r c

  RowsDone-row :
      (i : ℕ) (s : CauchyState)
      → k ≤ i
      → RowsDone i s
      → RowsDone (suc i) (for_range k 0 (cauchy_cell i) s)
  RowsDone-row i s hi w =
      let row = CellsDone-row k i s.a s.p w.place in
      record {
        place = omega (arith, row.place);
        top = λ r c hr hc. row.outside r c hc (omega arith) ∙ w.top r c hr hc;
        below = λ r c lo hr hc. elim (ℕ_discrete r i) [
          | yes e ↦ rw e (row.inside c hc)
          | no ne ↦ row.outside r c hc ne ∙ w.below r c lo (omega (arith, ne)) hc
        ];
      }

  RowsDone-all : RowsDone m (
      for_range
        (m - k)
        k
        (λ i. for_range k 0 (cauchy_cell i))
        (record { a = identity_top a m k; p = k * k }))
  RowsDone-all =
      for_range_inv RowsDone (λ i. for_range k 0 (cauchy_cell i)) k m
        (λ i s lo hi w. RowsDone-row i s lo w) (m - k) k _ (omega arith) (omega arith)
        (record {
          place = refl;
          top = λ r c hr hc. identity_top-delta a m k r c (omega arith) hc;
          below = λ r c lo hr hc. absurd (omega arith);
        })

  -- For k ≤ m ≤ 256, `gf_gen_cauchy1_matrix` leaves the identity in rows 0 to k - 1, and in row
  -- r ≥ k and column c the inverse of r ⊕ c, which is not 0.
  pub gf_gen_cauchy1_matrix-inverse :
      m ≤ 256
      → ((r c : ℕ) → r < k → c < k → gf_gen_cauchy1_matrix a m k (r * k + c) ≡ delta r c)
        × ((r c : ℕ)
            → k ≤ r
            → r < m
            → c < k
            → gf_mul (r ⊕ c) (gf_gen_cauchy1_matrix a m k (r * k + c)) ≡ 1)
  unfolding gf_gen_cauchy1_matrix
  gf_gen_cauchy1_matrix-inverse small = (
    RowsDone-all.top,
    λ r c lo hr hc.
        let byte : r ⊕ c < 256 = xor-lt 8 r c (omega arith) (omega arith) in
        let apart : r ⊕ c ≢ 0 = λ e. absurd (omega (arith, eq_of_xor-zero r c e)) in
        ap (gf_mul (r ⊕ c)) (
          RowsDone-all.below r c lo hr hc
          ∙ ap gf_inv {x = (r ⊕ c) % 256} {y = r ⊕ c} (omega (arith, byte)))
        ∙ gf_mul-gf_inv (r ⊕ c) apart byte,
  )
