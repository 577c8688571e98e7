-- ===== src/Encode/Code.antt =====
-- What the encoders compute: matrix times data over GF(2^8).
use cerasure.Base.{
  ℕ, ◌+◌, ◌*◌, ◌<◌, ◌≤◌, ◌≡◌, sym, ap, ◌∙◌, ◌⊎◌, arith, Block, for_range, for_range_inv, offset-lt,
}
use cerasure.Bits.{◌⊕◌, xor_assoc, zero-xor, xor-zero}
use cerasure.Field.Sum.{sum, sum_congr}
use cerasure.Gf.{gf_mul}
use cerasure.Gf.Laws.{gf_mul_comm, one-gf_mul}
use cerasure.Encode.{dot_byte, ec_init_tables, ec_encode_data_base}
use cerasure.Encode.Tables.{table_entry}
use cerasure.Encode.Init.{ec_init_tables-table_entry}
use cerasure.Encode.Grid.{grid_inside, grid_outside}

-- A loop that adds f j for j < n.
pub accumulate-sum : (n : ℕ) (f : ℕ → ℕ) (s : ℕ) → for_range n 0 (λ j s. s ⊕ f j) s ≡ s ⊕ sum n f
unfolding sum
accumulate-sum n f s =
    for_range_inv (λ k x. x ≡ s ⊕ sum k f) (λ j s. s ⊕ f j) 0 n
      (λ k x lo hi e. ap (λ (t : ℕ). t ⊕ f k) e ∙ xor_assoc s (sum k f) (f k)) n 0 s (omega arith)
      (omega arith) (sym (unfold sum in xor-zero s))

pub dot_byte-sum :
    (vlen : ℕ) (v : Block ℕ) (src : Block (Block ℕ)) (at i : ℕ)
    → dot_byte vlen v src at i ≡ sum vlen (λ j. gf_mul (src j i) (v (j * 32 + at)))
unfolding dot_byte
dot_byte-sum vlen v src at i = accumulate-sum vlen _ 0 ∙ zero-xor _

pub entry_one : (c : ℕ) → c < 256 → table_entry c 1 ≡ c
unfolding table_entry
entry_one c h = gf_mul_comm c 1 ∙ one-gf_mul c h

-- Row l of the matrix times byte i of each data buffer.
abbrev pub product : ℕ → Block ℕ → Block (Block ℕ) → ℕ → ℕ → ℕ
product k a src l i = sum k (λ j. gf_mul (a (l * k + j)) (src j i))

module _ (k rows : ℕ) (a g_tbls : Block ℕ) (bytes : (i : ℕ) → i < rows * k → a i < 256) where
  -- The byte that the encoders read of a table is its coefficient.
  pub coefficient :
      (l j : ℕ)
      → l < rows
      → j < k
      → ec_init_tables k rows a g_tbls (j * 32 + (l * k * 32 + 1)) ≡ a (l * k + j)
  coefficient l j hl hj =
      ap (ec_init_tables k rows a g_tbls) {x = j * 32 + (l * k * 32 + 1)} {y = 32 * (l * k + j) + 1}
        (omega arith)
      ∙ (ec_init_tables-table_entry k rows a g_tbls bytes).0 (l * k + j) 1
          (offset-lt rows k l j hl hj) (omega arith)
      ∙ entry_one _ (bytes (l * k + j) (offset-lt rows k l j hl hj))

  -- With a matrix of bytes, byte i of coding buffer l is row l of the matrix times byte i of the data buffers; nothing
  -- else is written.
  pub ec_encode_data_base-product :
      (len : ℕ) (src dest : Block (Block ℕ))
      → let coded = ec_encode_data_base len k rows (ec_init_tables k rows a g_tbls) src dest in
        ((l i : ℕ) → l < rows → i < len → coded l i ≡ product k a src l i)
        × ((l i : ℕ) → (rows ≤ l) ⊎ (len ≤ i) → coded l i ≡ dest l i)
  unfolding ec_encode_data_base
  ec_encode_data_base-product len src dest = (
    λ l i hl hi.
        grid_inside (λ l i old. dot_byte k (ec_init_tables k rows a g_tbls) src (l * k * 32 + 1) i)
          len rows dest l i hl hi
        ∙ dot_byte-sum k _ src (l * k * 32 + 1) i
        ∙ sum_congr k _ _ (λ j hj.
          gf_mul_comm (src j i) _ ∙ ap (λ (t : ℕ). gf_mul t (src j i)) (coefficient l j hl hj)),
    grid_outside (λ l i old. dot_byte k (ec_init_tables k rows a g_tbls) src (l * k * 32 + 1) i) len
        rows dest,
  )
