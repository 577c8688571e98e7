-- ===== src/Bits/Fields.antt =====
-- Exclusive or works on the two parts of a number apart: the bits below 2 ^ k and those above.
use native.Mathlib.Nat.{pow-suc, div-add-mod', mod-lt, one-le-pow, add-zero}
use cerasure.Base.{
  ℕ, zero, suc, ◌+◌, ◌-◌, ◌*◌, ◌/◌, ◌%◌, ◌^◌, ◌<◌, bit_and, row_of_offset, column_of_offset, ◌≡◌,
  refl, sym, ap, ap₂, ◌∙◌, arith,
}
use cerasure.Bits.Step.{bit_xor_step, bit_and_step}
use cerasure.Bits.Xor.{◌⊕◌, xor-zero, xor-lt, halving}

pub next_power : (high k : ℕ) → high * 2 ^ suc k ≡ 2 * (high * 2 ^ k)
next_power high k = let e = pow-suc 2 k in omega (arith, ap (λ (power : ℕ). high * power) e)

double-half : (x y : ℕ) → (2 * x + y) / 2 ≡ x + y / 2
double-half x y = omega arith

pub xor_fields :
    (k q r s t : ℕ)
    → r < 2 ^ k
    → t < 2 ^ k
    → (q * 2 ^ k + r) ⊕ (s * 2 ^ k + t) ≡ (q ⊕ s) * 2 ^ k + (r ⊕ t)
xor_fields zero q r s t hr ht =
    let r0 : r ≡ 0 = omega arith in
    let t0 : t ≡ 0 = omega arith in
    let l : q * 1 + 0 ≡ q = omega arith in
    let m : s * 1 + 0 ≡ s = omega arith in rw (r0, t0, l, m) (omega arith)
xor_fields (suc k) q r s t hr ht = omega (
  arith,
  bit_xor_step (q * 2 ^ suc k + r) (s * 2 ^ suc k + t),
  bit_xor_step r t,
  next_power q k,
  next_power s k,
  next_power (q ⊕ s) k,
  halves,
  xor_fields k q (r / 2) s (t / 2) (omega (arith, pow-suc 2 k)) (omega (arith, pow-suc 2 k)),
)
  where
    halves :
        (q * 2 ^ suc k + r) / 2 ⊕ (s * 2 ^ suc k + t) / 2
        ≡ (q * 2 ^ k + r / 2) ⊕ (s * 2 ^ k + t / 2)
    halves = ap₂ ◌⊕◌ (omega (arith, next_power q k)) (omega (arith, next_power s k))

module _ (k : ℕ) where
  parts : (a : ℕ) → a / 2 ^ k * 2 ^ k + a % 2 ^ k ≡ a
  parts a = div-add-mod' a (2 ^ k)

  joined : (a b : ℕ) → a ⊕ b ≡ (a / 2 ^ k ⊕ b / 2 ^ k) * 2 ^ k + (a % 2 ^ k ⊕ b % 2 ^ k)
  joined a b =
      ap₂ ◌⊕◌ (sym (parts a)) (sym (parts b))
      ∙ xor_fields k (a / 2 ^ k) (a % 2 ^ k) (b / 2 ^ k) (b % 2 ^ k)
          (mod-lt a (one-le-pow k 2 (omega arith))) (mod-lt b (one-le-pow k 2 (omega arith)))

  low-lt : (a b : ℕ) → a % 2 ^ k ⊕ b % 2 ^ k < 2 ^ k
  low-lt a b =
      xor-lt k _ _ (mod-lt a (one-le-pow k 2 (omega arith)))
        (mod-lt b (one-le-pow k 2 (omega arith)))

  -- Shifting right and masking each go through an exclusive or.
  pub xor-div : (a b : ℕ) → (a ⊕ b) / 2 ^ k ≡ a / 2 ^ k ⊕ b / 2 ^ k
  xor-div a b = ap (λ (t : ℕ). t / 2 ^ k) (joined a b) ∙ row_of_offset (2 ^ k) _ _ (low-lt a b)

  pub xor-mod : (a b : ℕ) → (a ⊕ b) % 2 ^ k ≡ a % 2 ^ k ⊕ b % 2 ^ k
  xor-mod a b = omega (arith, joined a b, ap (λ (t : ℕ). t * 2 ^ k) (xor-div a b), parts (a ⊕ b))

  pub xor-mul : (a b : ℕ) → (a ⊕ b) * 2 ^ k ≡ a * 2 ^ k ⊕ b * 2 ^ k
  xor-mul a b =
      let pos : 0 < 2 ^ k = one-le-pow k 2 (omega arith) in
      omega (
        arith,
        xor_fields k a 0 b 0 pos pos,
        ap₂ ◌⊕◌ {u = b * 2 ^ k + 0} {v = b * 2 ^ k} (add-zero (a * 2 ^ k)) (omega arith),
        xor-zero 0,
      )

-- A mask of the low bits is a remainder.
pub bit_and-zero : (a : ℕ) → bit_and a 0 ≡ 0
bit_and-zero =
    halving (λ a. bit_and a 0 ≡ 0) refl (λ a ih. omega (arith, bit_and_step (suc a) 0, ih))

pub bit_and_mask : (k a : ℕ) → bit_and a (2 ^ k - 1) ≡ a % 2 ^ k
bit_and_mask zero a = rw (bit_and-zero a) (omega arith)
bit_and_mask (suc k) a = omega (
  arith,
  bit_and_step a (2 ^ suc k - 1),
  pow-suc 2 k,
  one-le-pow k 2 (omega arith),
  ap (bit_and (a / 2)) {x = (2 ^ suc k - 1) / 2} {y = 2 ^ k - 1} (omega (arith, pow-suc 2 k)),
  bit_and_mask k (a / 2),
  half-mod,
)
  where
    whole : a ≡ a / 2 / 2 ^ k * 2 ^ suc k + (a / 2 % 2 ^ k * 2 + a % 2)
    whole = omega (arith, div-add-mod' (a / 2) (2 ^ k), next_power (a / 2 / 2 ^ k) k)

    half-mod : a % 2 ^ suc k ≡ (a / 2) % 2 ^ k * 2 + a % 2
    half-mod =
        ap (λ (t : ℕ). t % 2 ^ suc k) whole
        ∙ column_of_offset (2 ^ suc k) (a / 2 / 2 ^ k) _
            (omega (arith, pow-suc 2 k, mod-lt (a / 2) (one-le-pow k 2 (omega arith))))
