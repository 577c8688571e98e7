-- ===== src/Bits/Step.antt =====
-- `bit_and`, `bit_or` and `bit_xor` by their lowest digit. The native library explains them by
-- `digits`, a recursion that counts down; the count does not matter once it is large enough.
use native.Mathlib.Nat.{pow-suc, le_refl, le-max_left, le-max_right, max-zero, zero-max}
use Prim.Native.Nat.{
  bit_and-bitwise, bit_or-bitwise, bit_xor-bitwise, bitwise, differ, digits, max, min,
}
use cerasure.Base.{
  ap, arith, bit_and, bit_or, bit_xor, refl, suc, zero, ℕ, ◌%◌, ◌*◌, ◌+◌, ◌/◌, ◌^◌, ◌<◌, ◌≡◌, ◌≤◌,
}

module _ (rest : ℕ → ℕ) (digit : ℕ → ℕ → ℕ) where
  abbrev count_digits : ℕ → ℕ → ℕ → ℕ
  count_digits c x y = digits rest digit c x y

  same_digits : (x y c d : ℕ) → x ≤ c → x ≤ d → count_digits c x y ≡ count_digits d x y
  same_digits zero y zero zero hc hd = refl
  same_digits zero y zero (suc d) hc hd = refl
  same_digits zero y (suc c) zero hc hd = refl
  same_digits zero y (suc c) (suc d) hc hd = refl
  same_digits (suc x) y zero d hc hd = absurd (omega arith)
  same_digits (suc x) y (suc c) zero hc hd = absurd (omega arith)
  same_digits (suc x) y (suc c) (suc d) hc hd =
      rw (same_digits (suc x / 2) (y / 2) c d (omega arith) (omega arith))

  low_digit :
      (x y : ℕ)
      → bitwise rest digit (suc x) y
        ≡ bitwise rest digit (suc x / 2) (y / 2) * 2 + digit (suc x % 2) (y % 2)
  low_digit x y =
      let h = suc x / 2 in omega (arith, same_digits h (y / 2) x h (omega arith) (le_refl h))

pub bit_or_step : (x y : ℕ) → bit_or x y ≡ bit_or (x / 2) (y / 2) * 2 + max (x % 2) (y % 2)
bit_or_step zero y = simp (bit_or-bitwise) (omega arith)
bit_or_step (suc x) y = simp (bit_or-bitwise) (low_digit (λ d. d) max x y)

pub bit_and_step : (x y : ℕ) → bit_and x y ≡ bit_and (x / 2) (y / 2) * 2 + min (x % 2) (y % 2)
bit_and_step zero y = simp (bit_and-bitwise) (omega arith)
bit_and_step (suc x) y = simp (bit_and-bitwise) (low_digit (λ d. 0) min x y)

-- Two digits differ exactly when their sum is odd.
differ_digits : (x y : ℕ) → x < 2 → y < 2 → differ x y ≡ (x + y) % 2
differ_digits zero y p q = omega arith
differ_digits (suc zero) zero p q = refl
differ_digits (suc zero) (suc zero) p q = refl
differ_digits (suc zero) (suc (suc y)) p q = absurd (omega arith)
differ_digits (suc (suc x)) y p q = absurd (omega arith)

pub bit_xor_step : (x y : ℕ) → bit_xor x y ≡ bit_xor (x / 2) (y / 2) * 2 + (x % 2 + y % 2) % 2
bit_xor_step zero y = simp (bit_xor-bitwise) (omega arith)
bit_xor_step (suc x) y = simp (bit_xor-bitwise) (
    omega (
      arith,
      low_digit (λ d. d) differ x y,
      differ_digits (suc x % 2) (y % 2) (omega arith) (omega arith),
    ))

or_zero_below : (n x y : ℕ) → x ≤ n → y ≤ n → bit_or x y ≡ 0 → (x ≡ 0) × (y ≡ 0)
or_zero_below zero x y hx hy e = (omega arith, omega arith)
or_zero_below (suc n) x y hx hy e =
    let s = bit_or_step x y in
    let halves =
      or_zero_below n (x / 2) (y / 2) (omega arith) (omega arith) (omega (arith, s, e)) in
    (
      omega (arith, s, e, halves.0, le-max_left (x % 2) (y % 2)),
      omega (arith, s, e, halves.1, le-max_right (x % 2) (y % 2)),
    )

pub or_zero : (x y : ℕ) → bit_or x y ≡ 0 → (x ≡ 0) × (y ≡ 0)
or_zero x y = or_zero_below (x + y) x y (omega arith) (omega arith)

-- It keeps to the bits that its arguments have.
pub bit_or-lt : (k x y : ℕ) → x < 2 ^ k → y < 2 ^ k → bit_or x y < 2 ^ k
bit_or-lt zero x y p q =
    let x0 : x ≡ 0 = omega arith in let y0 : y ≡ 0 = omega arith in rw (x0, y0) (omega arith)
bit_or-lt (suc k) x y p q = omega (
  arith,
  bit_or_step x y,
  pow-suc 2 k,
  bit_or-lt k (x / 2) (y / 2) (omega (arith, pow-suc 2 k)) (omega (arith, pow-suc 2 k)),
)

bit_or-zero_below : (n x : ℕ) → x ≤ n → bit_or x 0 ≡ x
bit_or-zero_below n zero h = refl
bit_or-zero_below zero (suc x) h = absurd (omega arith)
bit_or-zero_below (suc n) (suc x) h = omega (
  arith,
  bit_or_step (suc x) 0,
  max-zero (suc x % 2),
  bit_or-zero_below n (suc x / 2) (omega arith),
)

-- Bits from place k on beside bits below it are a sum.
pub bit_or-disjoint : (k x y : ℕ) → y < 2 ^ k → bit_or (x * 2 ^ k) y ≡ x * 2 ^ k + y
bit_or-disjoint zero x y h =
    let y0 : y ≡ 0 = omega arith in
    rw y0 (omega (arith, bit_or-zero_below (x * 2 ^ 0) (x * 2 ^ 0) (le_refl (x * 2 ^ 0))))
bit_or-disjoint (suc k) x y h =
    let high = x * 2 ^ k in
    let double : x * 2 ^ suc k ≡ 2 * high = rw (pow-suc 2 k) (grind arith) in
    rw double (
      omega (
        arith,
        bit_or_step (2 * high) y,
        ap (λ (t : ℕ). bit_or t (y / 2)) {x = 2 * high / 2} {y = high} (omega arith),
        bit_or-disjoint k x (y / 2) (omega (arith, pow-suc 2 k)),
        ap (λ (t : ℕ). max t (y % 2)) {x = 2 * high % 2} {y = 0} (omega arith),
        zero-max (y % 2),
      ))
