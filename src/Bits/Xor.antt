-- ===== src/Bits/Xor.antt =====
-- Exclusive or is a commutative group in which every element is its own inverse.
use Prim.Native.Nat.{bit_xor-bitwise}
use native.Mathlib.Nat.{pow-suc}
use cerasure.Base.{ℕ, zero, suc, ◌+◌, ◌/◌, ◌%◌, ◌^◌, ◌<◌, bit_xor, ◌≡◌, refl, sym, ap, ◌∙◌, arith}
use cerasure.Bits.Step.{bit_xor_step}

infixl 60 ◌⊕◌
abbrev pub ◌⊕◌ : ℕ → ℕ → ℕ
a ⊕ b = bit_xor a b

-- Induction from a / 2 to a.
pub halving {ℓ} : (P : ℕ → Type ℓ) → P 0 → ((a : ℕ) → P (suc a / 2) → P (suc a)) → (a : ℕ) → P a
halving P base step a = below (suc a) a (omega arith)
  where
    below : (n a : ℕ) → a < n → P a
    below zero a h = absurd (omega arith)
    below (suc n) zero h = base
    below (suc n) (suc a) h = step a (below n (suc a / 2) (omega arith))

pub zero-xor : (a : ℕ) → 0 ⊕ a ≡ a
zero-xor a = bit_xor-bitwise 0 a

pub xor-zero : (a : ℕ) → a ⊕ 0 ≡ a
xor-zero = halving (λ a. a ⊕ 0 ≡ a) refl (λ a ih. omega (arith, bit_xor_step (suc a) 0, ih))

pub xor_self : (a : ℕ) → a ⊕ a ≡ 0
xor_self = halving (λ a. a ⊕ a ≡ 0) refl (λ a ih. omega (arith, bit_xor_step (suc a) (suc a), ih))

pub xor_comm : (a b : ℕ) → a ⊕ b ≡ b ⊕ a
xor_comm =
    halving (λ a. (b : ℕ) → a ⊕ b ≡ b ⊕ a) (λ b. zero-xor b ∙ sym (xor-zero b))
      (λ a ih b. omega (arith, bit_xor_step (suc a) b, bit_xor_step b (suc a), ih (b / 2)))

pub xor-half : (a b : ℕ) → (a ⊕ b) / 2 ≡ a / 2 ⊕ b / 2
xor-half a b = omega (arith, bit_xor_step a b)

pub xor_parity : (a b : ℕ) → (a ⊕ b) % 2 ≡ (a % 2 + b % 2) % 2
xor_parity a b = omega (arith, bit_xor_step a b)

pub xor_assoc : (a b c : ℕ) → a ⊕ b ⊕ c ≡ a ⊕ (b ⊕ c)
xor_assoc =
    halving (λ a. (b c : ℕ) → a ⊕ b ⊕ c ≡ a ⊕ (b ⊕ c))
      (λ b c. ap (λ (t : ℕ). t ⊕ c) (zero-xor b) ∙ sym (zero-xor (b ⊕ c)))
      (λ a ih b c. omega (
        arith,
        bit_xor_step (suc a ⊕ b) c,
        bit_xor_step (suc a) (b ⊕ c),
        ap (λ (t : ℕ). t ⊕ c / 2) (xor-half (suc a) b),
        ap (λ (t : ℕ). suc a / 2 ⊕ t) (xor-half b c),
        xor_parity (suc a) b,
        xor_parity b c,
        ih (b / 2) (c / 2),
      ))

-- Exclusive or keeps to the bits that its arguments have.
pub xor-lt : (k a b : ℕ) → a < 2 ^ k → b < 2 ^ k → a ⊕ b < 2 ^ k
xor-lt zero a b p q =
    let a0 : a ≡ 0 = omega arith in let b0 : b ≡ 0 = omega arith in rw (a0, b0) (omega arith)
xor-lt (suc k) a b p q = omega (
  arith,
  bit_xor_step a b,
  pow-suc 2 k,
  xor-lt k (a / 2) (b / 2) (omega (arith, pow-suc 2 k)) (omega (arith, pow-suc 2 k)),
)

-- The same term on both sides cancels.
pub xor_cancel : (a b : ℕ) → a ⊕ (a ⊕ b) ≡ b
xor_cancel a b = sym (xor_assoc a a b) ∙ ap (λ (t : ℕ). t ⊕ b) (xor_self a) ∙ zero-xor b

pub xor_left_comm : (a b c : ℕ) → a ⊕ (b ⊕ c) ≡ b ⊕ (a ⊕ c)
xor_left_comm a b c = sym (xor_assoc a b c) ∙ ap (λ (t : ℕ). t ⊕ c) (xor_comm a b) ∙ xor_assoc b a c

pub xor_interchange : (a b c d : ℕ) → (a ⊕ b) ⊕ (c ⊕ d) ≡ (a ⊕ c) ⊕ (b ⊕ d)
xor_interchange a b c d =
    xor_assoc a b (c ⊕ d)
    ∙ ap (λ (t : ℕ). a ⊕ t) (xor_left_comm b c d)
    ∙ sym (xor_assoc a c (b ⊕ d))

pub eq_of_xor-zero : (a b : ℕ) → a ⊕ b ≡ 0 → a ≡ b
eq_of_xor-zero a b h = sym (xor-zero a) ∙ ap (λ (t : ℕ). a ⊕ t) (sym h) ∙ xor_cancel a b
