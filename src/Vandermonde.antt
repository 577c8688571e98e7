-- ===== src/Vandermonde.antt =====
-- Matrices over the wider fields: gf_invert_matrix_w and vandermonde_sub_coding_matrix of
-- xorMatch/vandermonde.c. The product and the inverse of xorMatch/galois.c are parameters.
pub mod Inverse
pub mod Powers
mod Tests
use cerasure.Base.{ℕ, ◌+◌, ◌*◌, Block, set, for_range}
use cerasure.Invert.{Mats, Status, invert_matrix}

module _ (galois_single_multiply : ℕ → ℕ → ℕ → ℕ) (galois_inverse : ℕ → ℕ → ℕ) where
  -- The text of gf_invert_matrix with these two.
  pub gf_invert_matrix_w : Block ℕ → Block ℕ → ℕ → ℕ → Status × Mats
  gf_invert_matrix_w in_mat out_mat n w =
      invert_matrix (λ a b. galois_single_multiply a b w) (λ a. galois_inverse a w) in_mat out_mat n

pub record PowerRow : Type 0 where
  pub tmp : ℕ
  pub matrix : Block ℕ

pub record PowerRows : Type 0 where
  pub elem : ℕ
  pub matrix : Block ℕ

module _ (galois_single_multiply : ℕ → ℕ → ℕ → ℕ) where
  -- matrix[i*k+j] = tmp; tmp = tmp * elem;
  pub power_cell : ℕ → ℕ → ℕ → ℕ → ℕ → PowerRow → PowerRow
  power_cell k w i elem j s = record {
    tmp = galois_single_multiply s.tmp elem w;
    matrix = set s.matrix (i * k + j) s.tmp;
  }

  pub power_row : ℕ → ℕ → ℕ → PowerRows → PowerRows
  power_row k w i s = record {
    elem = galois_single_multiply s.elem 2 w;
    matrix =
        (for_range k 0 (power_cell k w i s.elem) (record { tmp = 1; matrix = s.matrix })).matrix;
  }

  -- `fresh` is what malloc returns.
  pub vandermonde_sub_coding_matrix : ℕ → ℕ → ℕ → Block ℕ → Block ℕ
  vandermonde_sub_coding_matrix k m w fresh =
      (for_range m 0 (power_row k w) (record { elem = 1; matrix = fresh })).matrix
