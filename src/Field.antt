-- ===== src/Field.antt =====
-- What the matrix code asks of its arithmetic: a field whose elements are the numbers below a
-- power of two and whose sum is exclusive or; of the inverse of 0 it says nothing. `Gf.Laws` fills it for the tables of
-- erasure_code/ec_base.h.
pub mod Sum
pub mod Dot
use cerasure.Base.{ℕ, ◌<◌, ◌^◌, ◌≡◌, ◌≢◌}
use cerasure.Bits.{◌⊕◌}

pub record Field : Type 0 where
  pub bits : ℕ
  pub mul : ℕ → ℕ → ℕ
  pub inv : ℕ → ℕ
  pub one-lt : 1 < 2 ^ bits
  pub mul-lt : (a b : ℕ) → a < 2 ^ bits → b < 2 ^ bits → mul a b < 2 ^ bits
  pub inv-lt : (a : ℕ) → a ≢ 0 → a < 2 ^ bits → inv a < 2 ^ bits
  pub mul_comm : (a b : ℕ) → a < 2 ^ bits → b < 2 ^ bits → mul a b ≡ mul b a
  pub mul_assoc :
      (a b c : ℕ) → a < 2 ^ bits → b < 2 ^ bits → c < 2 ^ bits → mul (mul a b) c ≡ mul a (mul b c)
  pub mul-xor :
      (a b c : ℕ) → a < 2 ^ bits → b < 2 ^ bits → c < 2 ^ bits → mul a (b ⊕ c) ≡ mul a b ⊕ mul a c
  pub zero-mul : (b : ℕ) → b < 2 ^ bits → mul 0 b ≡ 0
  pub one-mul : (b : ℕ) → b < 2 ^ bits → mul 1 b ≡ b
  pub mul-inv : (a : ℕ) → a ≢ 0 → a < 2 ^ bits → mul a (inv a) ≡ 1
