-- ===== src/Crc/LeftRounds.antt =====
-- Eight rounds at once of a check that shifts left, in a word of u + 8 bits; and the same rounds
-- in a remainder of 64 bits, whose higher bits do not matter.
use native.Mathlib.Nat.{
  pow-suc, le-mul_of_pos_right, mod-lt, div-eq_of_lt, mod-eq_of_lt, mul_assoc, mul_left_comm,
  div-add-mod', div-eq_of_eq-mul_left, div-lt_iff_lt-mul, mul-mod_left, mul-lt-mul_of_pos_right,
}
use cerasure.Base.{
  ℕ, zero, suc, ◌+◌, ◌*◌, ◌/◌, ◌%◌, ◌^◌, ◌<◌, ◌≤◌, ◌≡◌, refl, sym, ap, ap₂, ◌∙◌, arith, ◌==◌,
  if◌then◌else◌, for_range, column_of_offset, for_range_rel, ℕ_discrete, ==_iff, ==_ne,
}
use cerasure.Bits.{
  ◌⊕◌, zero-xor, xor-zero, xor_comm, xor_interchange, xor_parity, xor-div, xor-mod, xor-mul, xor-lt,
}
use cerasure.Crc.Ref.{wide_bit}
use cerasure.Crc.Rounds.{taken, taken-xor, taken-lt, pow-pos, rounds-xor, split}

unfoldable pub norm_bit : ℕ → ℕ → ℕ → ℕ
unfolding taken
norm_bit u poly x = taken poly (x / 2 ^ (7 + u) % 2) ⊕ (x * 2 % 2 ^ (8 + u))

half_word : (u : ℕ) → 2 ^ (8 + u) ≡ 2 * 2 ^ (7 + u)
half_word u =
    ap (λ (t : ℕ). 2 ^ t) {x = 8 + u} {y = suc (7 + u)} (omega arith)
    ∙ omega (arith, pow-suc 2 (7 + u))

whole_word : (u : ℕ) → 2 ^ (8 + u) ≡ 256 * 2 ^ u
whole_word u = omega (
  arith,
  ap (λ (t : ℕ). 2 ^ t) {x = 8 + u} {y = suc (suc (suc (suc (suc (suc (suc (suc u)))))))}
      (omega arith),
  pow-suc 2 u,
  pow-suc 2 (suc u),
  pow-suc 2 (suc (suc u)),
  pow-suc 2 (suc (suc (suc u))),
  pow-suc 2 (suc (suc (suc (suc u)))),
  pow-suc 2 (suc (suc (suc (suc (suc u))))),
  pow-suc 2 (suc (suc (suc (suc (suc (suc u)))))),
  pow-suc 2 (suc (suc (suc (suc (suc (suc (suc u))))))),
)

le-scaled : (x n : ℕ) → x ≤ x * 2 ^ n
le-scaled x n = le-mul_of_pos_right x (pow-pos n)

module _ (u poly : ℕ) where
  norm_bit-xor : (a b : ℕ) → norm_bit u poly (a ⊕ b) ≡ norm_bit u poly a ⊕ norm_bit u poly b
  unfolding norm_bit
  norm_bit-xor a b =
      ap₂ ◌⊕◌
        (ap (λ (t : ℕ). taken poly (t % 2)) (xor-div (7 + u) a b)
          ∙ ap (taken poly) (xor_parity (a / 2 ^ (7 + u)) (b / 2 ^ (7 + u)))
          ∙ taken-xor poly (a / 2 ^ (7 + u)) (b / 2 ^ (7 + u)))
        (ap (λ (t : ℕ). t % 2 ^ (8 + u)) (xor-mul 1 a b) ∙ xor-mod (8 + u) (a * 2) (b * 2))
      ∙ xor_interchange _ _ _ _

  pub norm_bit-lt : (x : ℕ) → poly < 2 ^ (8 + u) → norm_bit u poly x < 2 ^ (8 + u)
  unfolding norm_bit
  norm_bit-lt x hp =
      xor-lt (8 + u) _ _ (taken-lt (8 + u) poly _ hp) (mod-lt (x * 2) (pow-pos (8 + u)))

  -- A remainder whose top bit is 0 is doubled.
  norm_bit-double : (x : ℕ) → x * 2 < 2 ^ (8 + u) → norm_bit u poly x ≡ x * 2
  unfolding norm_bit taken
  norm_bit-double x h =
      ap₂ (λ (top low : ℕ). taken poly (top % 2) ⊕ low)
        (div-eq_of_lt {n = x} {m = 2 ^ (7 + u)} (omega (arith, half_word u))) (mod-eq_of_lt h)
      ∙ zero-xor (x * 2)

  norm-shift :
      (n i r : ℕ) → r * 2 ^ n < 2 ^ (8 + u) → for_range n i (λ j. norm_bit u poly) r ≡ r * 2 ^ n
  unfolding for_range
  norm-shift zero i r h = omega arith
  norm-shift (suc n) i r h =
      ap (for_range n (suc i) (λ j. norm_bit u poly))
        (norm_bit-double r (omega (arith, le-scaled (r * 2) n, doubled)))
      ∙ norm-shift n (suc i) (r * 2) (omega (arith, doubled))
      ∙ doubled
    where
      doubled : r * 2 * 2 ^ n ≡ r * 2 ^ suc n
      doubled = mul_assoc r 2 (2 ^ n) ∙ ap (λ (t : ℕ). r * t) (omega (arith, pow-suc 2 n))

  -- One byte of a check that shifts left.
  pub norm_rounds :
      (x byte : ℕ)
      → x < 2 ^ (8 + u)
      → byte < 256
      → for_range 8 0 (λ j. norm_bit u poly) (x ⊕ (byte * 2 ^ u))
        ≡ for_range 8 0 (λ j. norm_bit u poly) ((x / 2 ^ u ⊕ byte) % 256 * 2 ^ u)
          ⊕ (x * 256 % 2 ^ (8 + u))
  norm_rounds x byte hx hb =
      ap (for_range 8 0 (λ j. norm_bit u poly)) (sym (split u (x ⊕ (byte * 2 ^ u))))
      ∙ rounds-xor (norm_bit u poly) norm_bit-xor 8 0 _ _
      ∙ ap₂ (λ (q r : ℕ). for_range 8 0 (λ j. norm_bit u poly) (q * 2 ^ u) ⊕ r)
          (high ∙ sym (mod-eq_of_lt q-lt))
          (ap (for_range 8 0 (λ j. norm_bit u poly)) low
            ∙ norm-shift 8 0 (x % 2 ^ u) (omega (arith, whole, mod-lt x (pow-pos u)))
            ∙ sym shifted)
    where
      whole : 2 ^ (8 + u) ≡ 256 * 2 ^ u
      whole = whole_word u

      high : (x ⊕ (byte * 2 ^ u)) / 2 ^ u ≡ x / 2 ^ u ⊕ byte
      high =
          xor-div u x (byte * 2 ^ u)
          ∙ ap (λ (t : ℕ). x / 2 ^ u ⊕ t) (div-eq_of_eq-mul_left (pow-pos u) refl)

      q-lt : x / 2 ^ u ⊕ byte < 256
      q-lt = xor-lt 8 (x / 2 ^ u) byte ((div-lt_iff_lt-mul (pow-pos u)).1 (omega (arith, whole))) hb

      low : (x ⊕ (byte * 2 ^ u)) % 2 ^ u ≡ x % 2 ^ u
      low =
          xor-mod u x (byte * 2 ^ u)
          ∙ ap (λ (t : ℕ). x % 2 ^ u ⊕ t) (mul-mod_left byte (2 ^ u))
          ∙ xor-zero _

      shifted : x * 256 % 2 ^ (8 + u) ≡ x % 2 ^ u * 256
      shifted =
          ap (λ (t : ℕ). t % 2 ^ (8 + u)) {x = x * 256}
            (omega (
              arith,
              div-add-mod' x (2 ^ u),
              ap (λ (t : ℕ). x / 2 ^ u * t) whole,
              mul_left_comm (x / 2 ^ u) 256 (2 ^ u),
            ))
          ∙ column_of_offset (2 ^ (8 + u)) (x / 2 ^ u) (x % 2 ^ u * 256)
              (omega (arith, whole, mod-lt x (pow-pos u)))

-- The same rounds in a word of 64 bits: its low u + 8 bits are those of the narrow word. The
-- two facts about doubling hold wherever u + 8 is below 64.
module _ (u poly : ℕ) (hp : poly < 2 ^ (8 + u))
    (low : (x : ℕ) → x * 2 % 2 ^ 64 % 2 ^ (8 + u) ≡ x % 2 ^ (8 + u) * 2 % 2 ^ (8 + u))
    (top : (x : ℕ) → x * 2 % 2 ^ 64 / 2 ^ (8 + u) % 2 ≡ x % 2 ^ (8 + u) / 2 ^ (7 + u) % 2) where
  select :
      (bit y : ℕ)
      → (if bit == 1 then y ⊕ poly else y) % 2 ^ (8 + u) ≡ taken poly bit ⊕ (y % 2 ^ (8 + u))
  unfolding taken
  select bit y = elim (ℕ_discrete bit 1) [
    | yes e ↦ rw ((==_iff bit 1).1 e) (
        xor-mod (8 + u) y poly
        ∙ ap (λ (t : ℕ). y % 2 ^ (8 + u) ⊕ t) (mod-eq_of_lt hp)
        ∙ xor_comm _ poly)
    | no ne ↦ rw (==_ne bit 1 ne) (sym (zero-xor _))
  ]

  pub wide_bit-mod :
      (x : ℕ) → wide_bit (8 + u) poly x % 2 ^ (8 + u) ≡ norm_bit u poly (x % 2 ^ (8 + u))
  unfolding wide_bit norm_bit
  wide_bit-mod x =
      select (x * 2 % 2 ^ 64 / 2 ^ (8 + u) % 2) (x * 2 % 2 ^ 64)
      ∙ ap₂ (λ (bit y : ℕ). taken poly bit ⊕ y) (top x) (low x)

  pub wide_rounds :
      (rem byte : ℕ)
      → byte < 256
      → for_range 8 0 (λ j. wide_bit (8 + u) poly) (rem ⊕ (byte * 2 ^ u)) % 2 ^ (8 + u)
        ≡ for_range 8 0 (λ j. norm_bit u poly) (rem % 2 ^ (8 + u) ⊕ (byte * 2 ^ u))
  wide_rounds rem byte hb =
      for_range_rel (λ s t. t % 2 ^ (8 + u) ≡ s) (λ j. norm_bit u poly) (λ j. wide_bit (8 + u) poly)
        0 8 (λ j s t lo hi e. wide_bit-mod t ∙ ap (norm_bit u poly) e) 8 0 _ _ (omega arith) refl
        (xor-mod (8 + u) rem (byte * 2 ^ u)
          ∙ ap (λ (t : ℕ). rem % 2 ^ (8 + u) ⊕ t)
              (mod-eq_of_lt
                (omega (arith, whole_word u, mul-lt-mul_of_pos_right {k = 2 ^ u} hb (pow-pos u)))))
