-- ===== src/XorMatch/InvertBits.antt =====
-- invert_bitmatrix of xorMatch/xorMatchCode.c: elimination over the bits, first down to an upper
-- triangular matrix and then up. The search for a row and the exchange of rows have the text of
-- gf_invert_matrix.
pub mod Bit
pub mod Identity
pub mod Steps
pub mod Upper
pub mod Back
pub mod Correct
mod Tests
use cerasure.Base.{
  ℕ, zero, suc, ◌+◌, ◌-◌, ◌*◌, none, some, ◌==◌, if◌then◌else◌, Block, set, for_range,
}
use cerasure.Bits.{◌⊕◌}
use cerasure.Invert.{Mats, Status, ok, singular, choose_pivot}

-- The array inv and the offset k that is written next.
pub record IdentityState : Type 0 where
  pub k : ℕ
  pub inv : Block ℕ

-- inv[k] = (i == j) ? 1 : 0; k++;
pub write_identity : ℕ → Block ℕ → Block ℕ
write_identity n inv =
    (for_range {S = IdentityState} n 0
      (λ i.
        for_range n 0
          (λ j s. record { k = s.k + 1; inv = set s.inv s.k (if i == j then 1 else 0) }))
      (record { k = 0; inv = inv })).inv

-- m[j*cols+k] ^= m[i*cols+k]
pub xor_cell : ℕ → ℕ → ℕ → ℕ → Block ℕ → Block ℕ
xor_cell n i j k m = set m (j * n + k) (m (j * n + k) ⊕ m (i * n + k))

pub xor_rows : ℕ → ℕ → ℕ → Mats → Mats
xor_rows n i j =
    for_range n 0
      (λ k s. record { in_mat = xor_cell n i j k s.in_mat; out_mat = xor_cell n i j k s.out_mat })

pub eliminate_row : ℕ → ℕ → ℕ → Mats → Mats
eliminate_row n i j s = if s.in_mat (j * n + i) == 0 then s else xor_rows n i j s

-- for (j = i + 1; j != rows; j++)
pub clear_below : ℕ → ℕ → Mats → Mats
clear_below n i = for_range (n - suc i) (suc i) (eliminate_row n i)

-- The columns from i on, with the rounds left.
pub upper_from : ℕ → ℕ → ℕ → Mats → Status × Mats
upper_from n zero i s = (ok, s)
upper_from n (suc left) i s = elim (choose_pivot n i s) [
  | none ↦ (singular, s)
  | some s' ↦ upper_from n left (suc i) (clear_below n i s')
]

-- for (j = 0; j < i; j++)
pub clear_above : ℕ → ℕ → Mats → Mats
clear_above n i = for_range i 0 (eliminate_row n i)

-- The columns below i, from the last one down.
pub back_from : ℕ → ℕ → Mats → Mats
back_from n zero s = s
back_from n (suc i) s = back_from n i (clear_above n i s)

pub finish : ℕ → Status → Mats → Status × Mats
finish n ok s = (ok, back_from n n s)
finish n singular s = (singular, s)

pub invert_bitmatrix : Block ℕ → Block ℕ → ℕ → Status × Mats
invert_bitmatrix mat inv rows =
    let upper =
      upper_from rows rows 0 (record { in_mat = mat; out_mat = write_identity rows inv }) in
    finish rows upper.0 upper.1
