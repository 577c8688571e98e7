-- ===== src/Crc/Rounds.antt =====
-- Eight rounds of a bitwise check at once. A round is additive for exclusive or, so the eight
-- rounds on a remainder are those on the byte that they push out, and a shift of the other bits.
use native.Mathlib.Nat.{one-le-pow, mod-lt, div-add-mod', add-zero}
use cerasure.Base.{
  ℕ, zero, suc, ◌+◌, ◌*◌, ◌/◌, ◌%◌, ◌^◌, ◌<◌, ◌≡◌, refl, sym, ap, ap₂, ◌∙◌, arith, ◌==◌,
  if◌then◌else◌, for_range, for_range_inv,
}
use cerasure.Bits.{
  ◌⊕◌, zero-xor, xor-zero, xor_self, xor_interchange, xor_parity, xor-half, xor-div, xor-mod,
  xor_fields, xor-lt, next_power,
}
use cerasure.Crc.Ref.{refl_bit64}

pub pow-pos : (k : ℕ) → 0 < 2 ^ k
pow-pos k = one-le-pow k 2 (omega arith)

-- A number is its high part and its low part.
pub split : (k x : ℕ) → (x / 2 ^ k * 2 ^ k) ⊕ (x % 2 ^ k) ≡ x
split k x =
    ap₂ ◌⊕◌ {u = x % 2 ^ k} {v = 0 * 2 ^ k + x % 2 ^ k} (sym (add-zero _)) (omega arith)
    ∙ xor_fields k (x / 2 ^ k) 0 0 (x % 2 ^ k) (pow-pos k) (mod-lt x (pow-pos k))
    ∙ ap₂ (λ (q r : ℕ). q * 2 ^ k + r) (xor-zero (x / 2 ^ k)) (zero-xor (x % 2 ^ k))
    ∙ div-add-mod' x (2 ^ k)

-- The polynomial, when the bit that is pushed out is 1.
unfoldable pub taken : ℕ → ℕ → ℕ
taken poly bit = if bit == 1 then poly else 0

pub taken-xor :
    (poly a b : ℕ) → taken poly ((a % 2 + b % 2) % 2) ≡ taken poly (a % 2) ⊕ taken poly (b % 2)
unfolding taken
taken-xor poly a b = ground (arith, xor_self poly, xor-zero poly, zero-xor poly, xor_self 0)

pub taken-lt : (k poly bit : ℕ) → poly < 2 ^ k → taken poly bit < 2 ^ k
unfolding taken
taken-lt k poly bit h = ground (arith, pow-pos k)

module _ (f : ℕ → ℕ) where
  pub rounds-xor :
      ((a b : ℕ) → f (a ⊕ b) ≡ f a ⊕ f b)
      → (n i a b : ℕ)
      → for_range n i (λ j. f) (a ⊕ b) ≡ for_range n i (λ j. f) a ⊕ for_range n i (λ j. f) b
  unfolding for_range
  rounds-xor additive zero i a b = refl
  rounds-xor additive (suc n) i a b =
      ap (for_range n (suc i) (λ j. f)) (additive a b) ∙ rounds-xor additive n (suc i) (f a) (f b)

  pub rounds-lt :
      (k : ℕ)
      → ((a : ℕ) → a < 2 ^ k → f a < 2 ^ k)
      → (n a : ℕ) → a < 2 ^ k
      → for_range n 0 (λ j. f) a < 2 ^ k
  rounds-lt k keep n a h =
      for_range_inv (λ j x. x < 2 ^ k) (λ j. f) 0 n (λ j x lo hi b. keep x b) n 0 a (omega arith)
        (omega arith) h

module _ (poly : ℕ) where
  refl_bit64-xor : (a b : ℕ) → refl_bit64 poly (a ⊕ b) ≡ refl_bit64 poly a ⊕ refl_bit64 poly b
  unfolding refl_bit64 taken
  refl_bit64-xor a b =
      ap₂ (λ (t h : ℕ). t ⊕ h) (ap (taken poly) (xor_parity a b) ∙ taken-xor poly a b)
        (xor-half a b)
      ∙ xor_interchange (taken poly (a % 2)) (taken poly (b % 2)) (a / 2) (b / 2)

  refl_bit64-double : (q : ℕ) → refl_bit64 poly (2 * q) ≡ q
  unfolding refl_bit64 taken
  refl_bit64-double q =
      ap₂ (λ (t h : ℕ). taken poly t ⊕ h) {x = (2 * q) % 2} {y = 0} {u = (2 * q) / 2} {v = q}
        (omega arith) (omega arith)
      ∙ zero-xor q

  refl-shift : (n i q : ℕ) → for_range n i (λ j. refl_bit64 poly) (q * 2 ^ n) ≡ q
  unfolding for_range
  refl-shift zero i q = omega arith
  refl-shift (suc n) i q =
      ap (λ (t : ℕ). for_range n (suc i) (λ j. refl_bit64 poly) (refl_bit64 poly t))
        (next_power q n)
      ∙ ap (for_range n (suc i) (λ j. refl_bit64 poly)) (refl_bit64-double (q * 2 ^ n))
      ∙ refl-shift n (suc i) q

  pub refl_bit64-lt : (k a : ℕ) → poly < 2 ^ k → a < 2 ^ k → refl_bit64 poly a < 2 ^ k
  unfolding refl_bit64 taken
  refl_bit64-lt k a hp ha = xor-lt k _ _ (taken-lt k poly (a % 2) hp) (omega arith)

  -- One byte of a check that shifts right.
  pub refl_rounds :
      (x byte : ℕ)
      → byte < 256
      → for_range 8 0 (λ j. refl_bit64 poly) (x ⊕ byte)
        ≡ x / 2 ^ 8 ⊕ for_range 8 0 (λ j. refl_bit64 poly) (x % 256 ⊕ byte)
  refl_rounds x byte hb =
      ap (for_range 8 0 (λ j. refl_bit64 poly)) (sym (split 8 (x ⊕ byte)))
      ∙ rounds-xor (refl_bit64 poly) refl_bit64-xor 8 0 _ _
      ∙ ap₂ (λ (q r : ℕ). q ⊕ for_range 8 0 (λ j. refl_bit64 poly) r) (refl-shift 8 0 _ ∙ high) low
    where
      high : (x ⊕ byte) / 2 ^ 8 ≡ x / 2 ^ 8
      high =
          xor-div 8 x byte
          ∙ ap (λ (t : ℕ). x / 2 ^ 8 ⊕ t) {x = byte / 2 ^ 8} {y = 0} (omega (arith, hb))
          ∙ xor-zero _

      low : (x ⊕ byte) % 2 ^ 8 ≡ x % 256 ⊕ byte
      low =
          xor-mod 8 x byte
          ∙ ap (λ (t : ℕ). x % 256 ⊕ t) {x = byte % 256} {y = byte} (omega (arith, hb))
