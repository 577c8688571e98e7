-- ===== src/Invert/Gf.antt =====
-- `gf_invert_matrix` over the bytes of GF(2^8).
use cerasure.Base.{ℕ, ◌+◌, ◌*◌, ◌<◌, ◌≡◌, ◌≢◌, ◌∙◌, Block}
use cerasure.Field.Sum.{sum}
use cerasure.Gf.{gf_mul}
use cerasure.Gf.Laws.{gf_field}
use cerasure.Invert.{Mats, Status, ok, singular, gf_invert_matrix}
use cerasure.Invert.Rows.{delta}
use cerasure.Invert.Correct.{invert_matrix-ok, invert_matrix-singular, invert_matrix_complete}

-- Every cell of an n by n matrix is a byte.
abbrev pub Bytes : ℕ → Block ℕ → Type 0
Bytes n m = (r c : ℕ) → r < n → c < n → m (r * n + c) < 256

-- Cell (r, c) of the product of two n by n matrices.
abbrev pub cell_product : ℕ → Block ℕ → Block ℕ → ℕ → ℕ → ℕ
cell_product n a b r c = sum n (λ k. gf_mul (a (r * n + k)) (b (k * n + c)))

module _ (n : ℕ) (in_mat out_mat : Block ℕ) (bytes : Bytes n in_mat) where
  abbrev inverted : Status × Mats
  inverted = gf_invert_matrix in_mat out_mat n

  -- When `gf_invert_matrix` is given a matrix of bytes and returns 0, the second array holds bytes
  -- and is a left inverse of the matrix, and the first array has become the identity.
  pub gf_invert_matrix-ok :
      inverted.0 ≡ ok
      → Bytes n inverted.1.out_mat
        × ((r c : ℕ) → r < n → c < n → cell_product n inverted.1.out_mat in_mat r c ≡ delta r c)
        × ((r c : ℕ) → r < n → c < n → inverted.1.in_mat (r * n + c) ≡ delta r c)
  unfolding gf_invert_matrix
  gf_invert_matrix-ok e =
      let done = invert_matrix-ok gf_field n in_mat bytes out_mat e in
      (
        done.invariant.out_elem,
        λ r c hr hc. done.invariant.product r c hr hc ∙ done.units r c hr hc,
        done.units,
      )

  -- When it returns -1 for a matrix of bytes, that matrix is singular: it sends some vector of bytes, not all 0, to 0.
  pub gf_invert_matrix-singular :
      inverted.0 ≡ singular
      → (x : ℕ → ℕ) × ((k : ℕ) → k < n → x k < 256)
        × ((p : ℕ) × (p < n) × (x p ≢ 0))
        × ((r : ℕ) → r < n → sum n (λ k. gf_mul (in_mat (r * n + k)) (x k)) ≡ 0)
  unfolding gf_invert_matrix
  gf_invert_matrix-singular e =
      let v = invert_matrix-singular gf_field n in_mat bytes out_mat e in
      (v.vector, v.vector_elem, (v.place, v.place-lt, v.not_zero), v.sent_to_zero)

  -- For a matrix of bytes that has a left inverse of bytes it returns 0.
  gf_invert_matrix_complete :
      (b : Block ℕ)
      → Bytes n b
      → ((r c : ℕ) → r < n → c < n → cell_product n b in_mat r c ≡ delta r c)
      → inverted.0 ≡ ok
  unfolding gf_invert_matrix
  gf_invert_matrix_complete b hb inverse =
      invert_matrix_complete gf_field n in_mat bytes out_mat b hb inverse
