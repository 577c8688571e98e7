-- ===== src/Codes/Rs.antt =====
-- The rows of `gf_gen_rs_matrix` of erasure_code/ec_base.c, and the powers of its generator.
use cerasure.Base.{
  ℕ, zero, suc, ◌+◌, ◌-◌, ◌*◌, ◌<◌, ◌≤◌, ◌≡◌, refl, ap, ◌∙◌, inl, arith, Block, set, set_self,
  set_ne, for_range, for_range_inv, ℕ_discrete, ◌≢◌,
}
use cerasure.Gf.{gf_mul}
use cerasure.Invert.Rows.{offsets_ne, delta}
use cerasure.Codes.{identity_top, RsRow, rs_cell, RsState, rs_row, gf_gen_rs_matrix}
use cerasure.Codes.Top.{identity_top-delta}

-- x to the n in GF(2^8)
pub gf_pow : ℕ → ℕ → ℕ
gf_pow x zero = 1
gf_pow x (suc n) = gf_mul (gf_pow x n) x

module _ (k i gen : ℕ) (a : Block ℕ) where
  record CellsDone (j : ℕ) (s : RsRow) : Type 0 where
    power : s.p ≡ gf_pow gen j
    inside : (c : ℕ) → c < j → s.a (i * k + c) ≡ gf_pow gen c
    outside : (r c : ℕ) → c < k → r ≢ i → s.a (r * k + c) ≡ a (r * k + c)

  CellsDone-rs_cell :
      (j : ℕ) (s : RsRow) → j < k → CellsDone j s → CellsDone (suc j) (rs_cell k i gen j s)
  unfolding rs_cell gf_pow
  CellsDone-rs_cell j s hj w = record {
    power = ap (λ (t : ℕ). gf_mul t gen) w.power;
    inside = λ c hc. elim (ℕ_discrete c j) [
      | yes e ↦
          rw e (
            ap (set s.a (k * i + j) s.p) {y = k * i + j} (omega arith) ∙ set_self s.a _ _ ∙ w.power)
      | no ne ↦ set_ne s.a _ _ _ (omega (arith, ne)) ∙ w.inside c (omega (arith, ne))
    ];
    outside = λ r c hc ne.
        set_ne s.a _ _ _ (λ e. offsets_ne k i j r c hj hc (inl ne) (omega arith))
        ∙ w.outside r c hc ne;
  }

  CellsDone-row : CellsDone k (for_range k 0 (rs_cell k i gen) (record { a = a; p = 1 }))
  CellsDone-row =
      for_range_inv CellsDone (rs_cell k i gen) 0 k (λ j s lo hj w. CellsDone-rs_cell j s hj w) k 0
        _ (omega arith) (omega arith)
        (record {
          power = unfold gf_pow in refl;
          inside = λ c hc. absurd (omega arith);
          outside = λ r c hc ne. refl;
        })

module _ (a : Block ℕ) (m k : ℕ) (wide : k ≤ m) where
  record RowsDone (i : ℕ) (s : RsState) : Type 0 where
    generator : s.gen ≡ gf_pow 2 (i - k)
    top : (r c : ℕ) → r < k → c < k → s.a (r * k + c) ≡ delta r c
    below : (r c : ℕ) → k ≤ r → r < i → c < k → s.a (r * k + c) ≡ gf_pow (gf_pow 2 (r - k)) c

  RowsDone-rs_row : (i : ℕ) (s : RsState) → k ≤ i → RowsDone i s → RowsDone (suc i) (rs_row k i s)
  unfolding rs_row
  RowsDone-rs_row i s hi w = record {
    generator =
        ap (λ (t : ℕ). gf_mul t 2) w.generator
        ∙ unfold gf_pow in ap (gf_pow 2) {x = suc (i - k)} (omega arith);
    top = λ r c hr hc. (CellsDone-row k i s.gen s.a).outside r c hc (omega arith) ∙ w.top r c hr hc;
    below = λ r c lo hr hc. elim (ℕ_discrete r i) [
      | yes e ↦
          rw e ((CellsDone-row k i s.gen s.a).inside c hc ∙ ap (λ (t : ℕ). gf_pow t c) w.generator)
      | no ne ↦
          (CellsDone-row k i s.gen s.a).outside r c hc ne ∙ w.below r c lo (omega (arith, ne)) hc
    ];
  }

  RowsDone-all :
      RowsDone m (for_range (m - k) k (rs_row k) (record { a = identity_top a m k; gen = 1 }))
  RowsDone-all =
      for_range_inv RowsDone (rs_row k) k m (λ i s lo hi w. RowsDone-rs_row i s lo w) (m - k) k _
        (omega arith) (omega arith)
        (record {
          generator = unfold gf_pow in ap (gf_pow 2) {x = 0} (omega arith);
          top = λ r c hr hc. identity_top-delta a m k r c (omega arith) hc;
          below = λ r c lo hr hc. absurd (omega arith);
        })

  -- For k ≤ m, `gf_gen_rs_matrix` leaves the identity in rows 0 to k - 1, and in row r ≥ k and
  -- column c the power c of the power r - k of 2.
  pub gf_gen_rs_matrix-gf_pow :
      ((r c : ℕ) → r < k → c < k → gf_gen_rs_matrix a m k (r * k + c) ≡ delta r c)
      × ((r c : ℕ)
          → k ≤ r
          → r < m
          → c < k
          → gf_gen_rs_matrix a m k (r * k + c) ≡ gf_pow (gf_pow 2 (r - k)) c)
  unfolding gf_gen_rs_matrix
  gf_gen_rs_matrix-gf_pow = (RowsDone-all.top, RowsDone-all.below)
