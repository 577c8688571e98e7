-- ===== src/Codes.antt =====
-- `gf_gen_rs_matrix` and `gf_gen_cauchy1_matrix` of erasure_code/ec_base.c: m by k matrices that
-- lie row by row.
pub mod Top
pub mod Rs
pub mod Cauchy
mod Tests
use cerasure.Base.{ℕ, ◌+◌, ◌-◌, ◌*◌, ◌%◌, Block, set, fill, for_range}
use cerasure.Bits.{◌⊕◌}
use cerasure.Gf.{gf_mul, gf_inv}

-- memset(a, 0, k * m); and a[k * i + i] = 1 for i < k
pub identity_top : Block ℕ → ℕ → ℕ → Block ℕ
identity_top a m k = for_range k 0 (λ i a. set a (k * i + i) 1) (fill 0 (k * m) (λ i. 0) a)

pub record RsRow : Type 0 where
  pub a : Block ℕ
  pub p : ℕ

-- a[k * i + j] = p; p = gf_mul(p, gen);
pub rs_cell : ℕ → ℕ → ℕ → ℕ → RsRow → RsRow
rs_cell k i gen j s = record { a = set s.a (k * i + j) s.p; p = gf_mul s.p gen }

pub record RsState : Type 0 where
  pub a : Block ℕ
  pub gen : ℕ

pub rs_row : ℕ → ℕ → RsState → RsState
rs_row k i s = record {
  a = (for_range k 0 (rs_cell k i s.gen) (record { a = s.a; p = 1 })).a;
  gen = gf_mul s.gen 2;
}

pub gf_gen_rs_matrix : Block ℕ → ℕ → ℕ → Block ℕ
gf_gen_rs_matrix a m k =
    (for_range (m - k) k (rs_row k) (record { a = identity_top a m k; gen = 1 })).a

-- The pointer p, as an offset from a.
pub record CauchyState : Type 0 where
  pub a : Block ℕ
  pub p : ℕ

-- *p++ = gf_inv(i ^ j);  with the argument converted to unsigned char
pub cauchy_cell : ℕ → ℕ → CauchyState → CauchyState
cauchy_cell i j s = record { a = set s.a s.p (gf_inv ((i ⊕ j) % 256)); p = s.p + 1 }

pub gf_gen_cauchy1_matrix : Block ℕ → ℕ → ℕ → Block ℕ
gf_gen_cauchy1_matrix a m k =
    (for_range (m - k) k (λ i. for_range k 0 (cauchy_cell i))
      (record { a = identity_top a m k; p = k * k })).a
