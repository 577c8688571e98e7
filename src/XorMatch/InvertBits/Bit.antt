-- ===== src/XorMatch/InvertBits/Bit.antt =====
-- The field of two elements.
use cerasure.Base.{ℕ, ◌<◌, ◌≡◌, ◌≢◌, refl, arith}
use cerasure.Bits.{◌⊕◌, xor-zero}
use cerasure.Field.{Field}
use cerasure.XorMatch.Schedule.Product.{select}

pub select-lt : (a b : ℕ) → a < 2 → b < 2 → select a b < 2
unfolding select
select-lt a b ha hb = ground arith

pub select_comm : (a b : ℕ) → a < 2 → b < 2 → select a b ≡ select b a
unfolding select
select_comm a b ha hb = ground arith

pub select_assoc : (a b c : ℕ) → select (select a b) c ≡ select a (select b c)
unfolding select
select_assoc a b c = ground arith

pub select-xor : (a b c : ℕ) → select a (b ⊕ c) ≡ select a b ⊕ select a c
unfolding select
select-xor a b c = ground (arith, xor-zero 0)

pub one-select : (b : ℕ) → select 1 b ≡ b
unfolding select
one-select b = refl

pub select_inverse : (a : ℕ) → a ≢ 0 → a < 2 → select a a ≡ 1
unfolding select
select_inverse a ne h = ground (arith, ne)

-- A bit is its own inverse.
unfoldable pub bit_field : Field
unfolding select
bit_field = record {
  bits = 1;
  mul = select;
  inv = λ a. a;
  one-lt = omega arith;
  mul-lt = select-lt;
  inv-lt = λ a na h. h;
  mul_comm = select_comm;
  mul_assoc = λ a b c ha hb hc. select_assoc a b c;
  mul-xor = λ a b c ha hb hc. select-xor a b c;
  zero-mul = λ b h. refl;
  one-mul = λ b h. one-select b;
  mul-inv = select_inverse;
}
