-- ===== src/Gf/Double.antt =====
-- Multiplication by 2 in GF(2^8), the expression that erasure_code/ec_base.c writes out in
-- `gf_vect_mul_init` and raid/raid_base.c in `pq_check_base`.
use cerasure.Base.{
  ℕ, zero, suc, ◌+◌, ◌*◌, ◌/◌, ◌%◌, ◌^◌, ◌<◌, bit_and, ◌≡◌, refl, ap, ap₂, ◌∙◌, sym, arith, ◌==◌,
  if◌then◌else◌, all_below, eq_below, ◌≡⟨◌⟩◌, ◌∎,
}
use cerasure.Bits.{◌⊕◌, xor-mul, xor-mod, xor-div, xor-lt, xor_interchange}

-- `(c << 1) ^ ((c & 0x80) ? 0x1d : 0)`, stored in an unsigned char
unfoldable pub double : ℕ → ℕ
double c = (c * 2 ⊕ (if bit_and c 0x80 == 0 then 0 else 0x1d)) % 256

pub double-lt : (c : ℕ) → double c < 256
unfolding double
double-lt c = omega arith

-- The same without the test: the top bit times the polynomial.
double_split : (c : ℕ) → c < 256 → double c ≡ (c * 2 % 2 ^ 8) ⊕ (c / 2 ^ 7 * 0x1d)
double_split =
    eq_below 256 double (λ c. (c * 2 % 2 ^ 8) ⊕ (c / 2 ^ 7 * 0x1d))
      (unfold all_below double in refl)

poly_digit : (s t : ℕ) → s < 2 → t < 2 → (s ⊕ t) * 0x1d ≡ (s * 0x1d) ⊕ (t * 0x1d)
poly_digit zero zero p q = refl
poly_digit zero (suc zero) p q = refl
poly_digit zero (suc (suc t)) p q = absurd (omega arith)
poly_digit (suc zero) zero p q = refl
poly_digit (suc zero) (suc zero) p q = refl
poly_digit (suc zero) (suc (suc t)) p q = absurd (omega arith)
poly_digit (suc (suc s)) t p q = absurd (omega arith)

-- Doubling is linear.
pub double-xor : (a b : ℕ) → a < 256 → b < 256 → double (a ⊕ b) ≡ double a ⊕ double b
double-xor a b ha hb =
    double (a ⊕ b)
    ≡⟨ double_split (a ⊕ b) (xor-lt 8 a b ha hb) ⟩
      ((a ⊕ b) * 2 ^ 1 % 2 ^ 8) ⊕ ((a ⊕ b) / 2 ^ 7 * 0x1d)
    ≡⟨ ap₂ ◌⊕◌ low high ⟩
      ((a * 2 % 2 ^ 8) ⊕ (b * 2 % 2 ^ 8)) ⊕ ((a / 2 ^ 7 * 0x1d) ⊕ (b / 2 ^ 7 * 0x1d))
    ≡⟨ xor_interchange _ _ _ _ ⟩
      ((a * 2 % 2 ^ 8) ⊕ (a / 2 ^ 7 * 0x1d)) ⊕ ((b * 2 % 2 ^ 8) ⊕ (b / 2 ^ 7 * 0x1d))
    ≡⟨ ap₂ ◌⊕◌ (sym (double_split a ha)) (sym (double_split b hb)) ⟩ double a ⊕ double b ∎
  where
    low : (a ⊕ b) * 2 ^ 1 % 2 ^ 8 ≡ (a * 2 % 2 ^ 8) ⊕ (b * 2 % 2 ^ 8)
    low = ap (λ (t : ℕ). t % 2 ^ 8) (xor-mul 1 a b) ∙ xor-mod 8 (a * 2) (b * 2)

    high : (a ⊕ b) / 2 ^ 7 * 0x1d ≡ (a / 2 ^ 7 * 0x1d) ⊕ (b / 2 ^ 7 * 0x1d)
    high =
        ap (λ (t : ℕ). t * 0x1d) (xor-div 7 a b)
        ∙ poly_digit (a / 2 ^ 7) (b / 2 ^ 7) (omega arith) (omega arith)

-- Doubling n times.
unfoldable pub doubles : ℕ → ℕ → ℕ
doubles zero x = x
doubles (suc n) x = double (doubles n x)

pub doubles-lt : (n x : ℕ) → x < 256 → doubles n x < 256
unfolding doubles
doubles-lt zero x h = h
doubles-lt (suc n) x h = double-lt _

pub doubles-add : (n m x : ℕ) → doubles (n + m) x ≡ doubles n (doubles m x)
unfolding doubles
doubles-add zero m x = ap (λ (t : ℕ). doubles t x) {x = zero + m} (omega arith)
doubles-add (suc n) m x =
    ap (λ (t : ℕ). doubles t x) {x = suc n + m} {y = suc (n + m)} (omega arith)
    ∙ ap double (doubles-add n m x)

pub doubles-xor : (n a b : ℕ) → a < 256 → b < 256 → doubles n (a ⊕ b) ≡ doubles n a ⊕ doubles n b
unfolding doubles
doubles-xor zero a b ha hb = refl
doubles-xor (suc n) a b ha hb =
    ap double (doubles-xor n a b ha hb)
    ∙ double-xor (doubles n a) (doubles n b) (doubles-lt n a ha) (doubles-lt n b hb)

pub doubles-zero : (n : ℕ) → doubles n 0 ≡ 0
unfolding doubles
doubles-zero zero = refl
doubles-zero (suc n) = ap double (doubles-zero n) ∙ unfold double in refl
