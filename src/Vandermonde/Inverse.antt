-- ===== src/Vandermonde/Inverse.antt =====
-- gf_invert_matrix_w of xorMatch/vandermonde.c over a field.
use cerasure.Base.{ℕ, ◌<◌, ◌≡◌, sym, ap₂, ◌∙◌, subst, fun_ext, Block}
use cerasure.Field.{Field}
use cerasure.Field.Dot.{dot}
use cerasure.Invert.{Mats, Status, ok, singular, invert_matrix}
use cerasure.Invert.Rows.{delta}
use cerasure.Invert.Invariant.{row, column, IsMatrix}
use cerasure.Invert.Singular.{IsSingular}
use cerasure.Invert.Correct.{invert_matrix-ok, invert_matrix-singular}
use cerasure.Vandermonde.{gf_invert_matrix_w}

module _ (F : Field) (galois_single_multiply : ℕ → ℕ → ℕ → ℕ) (galois_inverse : ℕ → ℕ → ℕ) (w : ℕ)
    (multiplies : (a b : ℕ) → galois_single_multiply a b w ≡ F.mul a b)
    (inverts : (a : ℕ) → galois_inverse a w ≡ F.inv a) (n : ℕ) (in_mat out_mat : Block ℕ)
    (elem : IsMatrix F n in_mat) where
  abbrev inverted : Status × Mats
  inverted = gf_invert_matrix_w galois_single_multiply galois_inverse in_mat out_mat n w

  inverted-eq : invert_matrix F.mul F.inv in_mat out_mat n ≡ inverted
  unfolding gf_invert_matrix_w
  inverted-eq = sym (
      ap₂ (λ (mul : ℕ → ℕ → ℕ) (inv : ℕ → ℕ). invert_matrix mul inv in_mat out_mat n)
        (fun_ext (λ a. fun_ext (λ b. multiplies a b))) (fun_ext inverts))

  -- Where galois_single_multiply and galois_inverse at w are those of a field, which leaves open what
  -- the inverse of 0 is (galois_inverse returns -1), and gf_invert_matrix_w is given a matrix over
  -- the field and returns 0, its output is a left inverse of that matrix.
  pub gf_invert_matrix_w-product :
      (gf_invert_matrix_w galois_single_multiply galois_inverse in_mat out_mat n w).0 ≡ ok
      → (r c : ℕ) → r < n
      → c < n
      → dot F n
          (row n
            (gf_invert_matrix_w galois_single_multiply galois_inverse in_mat out_mat n w).1.out_mat
            r)
          (column n in_mat c)
        ≡ delta r c
  gf_invert_matrix_w-product =
      subst
        (λ (result : Status × Mats).
          result.0 ≡ ok
          → (r c : ℕ) → r < n
          → c < n
          → dot F n (row n result.1.out_mat r) (column n in_mat c) ≡ delta r c)
        inverted-eq
        (λ e r c hr hc.
          let done = invert_matrix-ok F n in_mat elem out_mat e in
          done.invariant.product r c hr hc ∙ done.units r c hr hc)

  -- Under the same conditions, when it returns -1 the matrix sends a vector of the field, not all
  -- 0, to 0.
  pub gf_invert_matrix_w-singular :
      (gf_invert_matrix_w galois_single_multiply galois_inverse in_mat out_mat n w).0 ≡ singular
      → IsSingular F n in_mat elem
  gf_invert_matrix_w-singular =
      subst (λ (result : Status × Mats). result.0 ≡ singular → IsSingular F n in_mat elem)
        inverted-eq (λ e. invert_matrix-singular F n in_mat elem out_mat e)
