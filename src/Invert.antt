-- ===== src/Invert.antt =====
-- `gf_invert_matrix` of erasure_code/ec_base.c: Gauss-Jordan elimination in place, beside the same
-- steps on the identity. The loops are those of the source over two blocks of memory; the product
-- and the inverse are parameters, for the same text stands in xorMatch/vandermonde.c over the
-- wider fields of `galois_single_multiply`.
pub mod Rows
pub mod Invariant
pub mod Swap
pub mod Scale
pub mod Add
pub mod Pivot
pub mod Clear
pub mod Singular
pub mod Correct
pub mod Gf
mod Tests
use cerasure.Base.{
  ℕ, zero, suc, ◌+◌, ◌-◌, ◌*◌, Option, none, some, ◌==◌, if◌then◌else◌, Block, set, for_range,
}
use cerasure.Bits.{◌⊕◌}
use cerasure.Gf.{gf_mul, gf_inv}

-- The two arrays that the function writes.
pub record Mats : Type 0 where
  pub in_mat : Block ℕ
  pub out_mat : Block ℕ

-- The returned 0 and -1.
pub data Status : Type 0 where
  ok singular : Status

-- out_mat[] becomes the identity
pub set_identity : ℕ → Block ℕ → Block ℕ
set_identity n out =
    for_range n 0 (λ i m. set m (i * n + i) 1) (for_range (n * n) 0 (λ i m. set m i 0) out)

-- for (j = i + 1; j < n; j++) if (in_mat[j * n + i]) break;  with the rounds left
unfoldable pub find_row : ℕ → ℕ → Block ℕ → ℕ → ℕ → ℕ
find_row n i m zero j = j
find_row n i m (suc left) j =
    let rest = find_row n i m left (suc j) in if m (j * n + i) == 0 then rest else j

-- Swap rows i, j in one array, at column k.
unfoldable pub swap_cell : ℕ → ℕ → ℕ → ℕ → Block ℕ → Block ℕ
swap_cell n i j k m =
    let temp = m (i * n + k) in set (set m (i * n + k) (m (j * n + k))) (j * n + k) temp

unfoldable pub swap_rows : ℕ → ℕ → ℕ → Mats → Mats
swap_rows n i j =
    for_range n 0
      (λ k s. record { in_mat = swap_cell n i j k s.in_mat; out_mat = swap_cell n i j k s.out_mat })

-- `none` is the return of -1.
unfoldable pub choose_pivot : ℕ → ℕ → Mats → Option Mats
choose_pivot n i s =
    if s.in_mat (i * n + i) == 0
    then (let j = find_row n i s.in_mat (n - suc i) (suc i) in
        if j == n then none else some (swap_rows n i j s))
    else some s

module _ (mul : ℕ → ℕ → ℕ) (inv : ℕ → ℕ) where
  pub scale_cell : ℕ → ℕ → ℕ → ℕ → Block ℕ → Block ℕ
  scale_cell n i temp j m = set m (i * n + j) (mul (m (i * n + j)) temp)

  -- Scale row i by 1/pivot
  pub scale_row : ℕ → ℕ → Mats → Mats
  scale_row n i s =
      let temp = inv (s.in_mat (i * n + i)) in
      for_range n 0
        (λ j s. record {
          in_mat = scale_cell n i temp j s.in_mat;
          out_mat = scale_cell n i temp j s.out_mat;
        })
        s

  pub add_cell : ℕ → ℕ → ℕ → ℕ → ℕ → Block ℕ → Block ℕ
  add_cell n i j temp k m = set m (j * n + k) (m (j * n + k) ⊕ mul temp (m (i * n + k)))

  -- The pass over row j, which skips row i itself.
  pub add_row : ℕ → ℕ → ℕ → Mats → Mats
  add_row n i j s =
      if j == i
      then s
      else (let temp = s.in_mat (j * n + i) in
          for_range n 0
            (λ k s. record {
              in_mat = add_cell n i j temp k s.in_mat;
              out_mat = add_cell n i j temp k s.out_mat;
            })
            s)

  pub clear_column : ℕ → ℕ → Mats → Mats
  clear_column n i = for_range n 0 (add_row n i)

  -- The loop over the columns, with the rounds left.
  pub invert_from : ℕ → ℕ → ℕ → Mats → Status × Mats
  invert_from n zero i s = (ok, s)
  invert_from n (suc left) i s = elim (choose_pivot n i s) [
    | none ↦ (singular, s)
    | some s' ↦ invert_from n left (suc i) (clear_column n i (scale_row n i s'))
  ]

  pub invert_matrix : Block ℕ → Block ℕ → ℕ → Status × Mats
  invert_matrix in_mat out_mat n =
      invert_from n n 0 (record { in_mat = in_mat; out_mat = set_identity n out_mat })

unfoldable pub gf_invert_matrix : Block ℕ → Block ℕ → ℕ → Status × Mats
unfolding invert_matrix invert_from choose_pivot find_row swap_rows swap_cell scale_row scale_cell
    add_row add_cell clear_column set_identity
gf_invert_matrix = invert_matrix gf_mul gf_inv
