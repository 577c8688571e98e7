-- ===== src/XorMatch/InvertBits/Correct.antt =====
-- The two returns of invert_bitmatrix (xorMatch/xorMatchCode.c).
use cerasure.Base.{
  ℕ, zero, suc, ◌+◌, ◌*◌, ◌<◌, ◌≤◌, ◌≡◌, ◌≢◌, refl, subst, ◌∙◌, arith, Block, Option, none, some,
}
use cerasure.Invert.{Mats, Status, ok, singular, choose_pivot}
use cerasure.Invert.Rows.{delta}
use cerasure.Invert.Invariant.{row, column, IsMatrix}
use cerasure.Invert.Pivot.{Units}
use cerasure.Invert.Singular.{IsSingular, IsSingular-witness}
use cerasure.Invert.Correct.{dot-delta, delta-lt, not-IsSingular}
use cerasure.Field.Dot.{dot, dot_congr}
use cerasure.Field.Sum.{sum}
use cerasure.XorMatch.Schedule.Product.{select}
use cerasure.XorMatch.InvertBits.{
  write_identity, clear_below, upper_from, back_from, finish, invert_bitmatrix,
}
use cerasure.XorMatch.InvertBits.Bit.{bit_field}
use cerasure.XorMatch.InvertBits.Identity.{write_identity-delta}
use cerasure.XorMatch.InvertBits.Upper.{
  IsUpper, ChosenUpper, choose_pivot-ChosenUpper, clear_below-IsUpper,
}
use cerasure.XorMatch.InvertBits.Back.{back_from-Units, back_from_below}

module _ (n : ℕ) (given : Block ℕ) (elem : IsMatrix bit_field n given) where
  -- The first half ends with an upper triangular matrix, or meets a singular one.
  abbrev Half : Status → Mats → Type 0
  Half ok s = IsUpper n given elem n s
  Half singular s = IsSingular bit_field n given elem

  -- Clearing the columns before the dead one brings out the vector.
  dead-IsSingular :
      (i : ℕ) (s : Mats)
      → i < n
      → IsUpper n given elem i s
      → ((r : ℕ) → i ≤ r → r < n → s.in_mat (r * n + i) ≡ 0)
      → IsSingular bit_field n given elem
  dead-IsSingular i s hi u dead =
      IsSingular-witness bit_field n given elem i hi (back_from n i s)
        (back_from-Units n given elem i (omega arith) s u)
        (λ r lo hr. back_from_below n given elem i (omega arith) s u r i hi lo ∙ dead r lo hr)

  bit-one :
      (i : ℕ) (s : Mats)
      → i < n
      → IsUpper n given elem i s
      → s.in_mat (i * n + i) ≢ 0
      → s.in_mat (i * n + i) ≡ 1
  unfolding bit_field
  bit-one i s hi u ne = omega (arith, ne, u.invariant.in_elem i i hi hi)

  round-Half :
      (left i : ℕ) (hi : i < n) (s : Mats) (chosen : Option Mats)
      → IsUpper n given elem i s
      → ChosenUpper n given elem i s chosen
      → ((s' : Mats)
          → IsUpper n given elem (suc i) s'
          → Half (upper_from n left (suc i) s').0 (upper_from n left (suc i) s').1)
      → let result : Status × Mats = elim chosen [
        | none ↦ (singular, s)
        | some s' ↦ upper_from n left (suc i) (clear_below n i s')
      ] in
        Half result.0 result.1
  round-Half left i hi s none u dead rest = dead-IsSingular i s hi u dead
  round-Half left i hi s (some s') u (upper, nz) rest =
      rest _ (clear_below-IsUpper n given elem i s' hi upper (bit-one i s' hi upper nz))

  upper_from-Half :
      (left i : ℕ) (s : Mats)
      → i + left ≡ n
      → IsUpper n given elem i s
      → Half (upper_from n left i s).0 (upper_from n left i s).1
  unfolding upper_from
  upper_from-Half zero i s e u =
      let e' : i ≡ n = omega arith in subst (λ k. IsUpper n given elem k s) e' u
  upper_from-Half (suc left) i s e u =
      round-Half left i (omega arith) s (choose_pivot n i s) u
        (choose_pivot-ChosenUpper n given elem i s (omega arith) u)
        (λ s' u'. upper_from-Half left (suc i) s' (omega arith) u')

  abbrev Outcome : Status → Mats → Type 0
  Outcome ok s = Units bit_field n given n s
  Outcome singular s = IsSingular bit_field n given elem

  finish-Outcome :
      (status : Status) (s : Mats)
      → Half status s
      → Outcome (finish n status s).0 (finish n status s).1
  unfolding finish
  finish-Outcome ok s u = back_from-Units n given elem n (omega arith) s u
  finish-Outcome singular s v = v

  IsUpper-write_identity :
      (inv : Block ℕ)
      → IsUpper n given elem 0 (record { in_mat = given; out_mat = write_identity n inv })
  IsUpper-write_identity inv = record {
    invariant = record {
      in_elem = elem;
      out_elem = λ r c hr hc. rw (write_identity-delta n inv r c hr hc) (delta-lt bit_field n r c);
      product = λ r c hr hc.
          dot_congr bit_field n _ (λ k. delta r k) _ (λ k hk. write_identity-delta n inv r k hr hk)
          ∙ dot-delta bit_field n r (column n given c) hr (λ k hk. elem k c hk hc);
      kernel = λ x hx z. z;
    };
    lower = λ r c hr lt le. absurd (omega arith);
  }

  pub invert_bitmatrix-Outcome :
      (inv : Block ℕ) → Outcome (invert_bitmatrix given inv n).0 (invert_bitmatrix given inv n).1
  unfolding invert_bitmatrix
  invert_bitmatrix-Outcome inv = finish-Outcome _ _ (
      upper_from-Half n 0 (record { in_mat = given; out_mat = write_identity n inv }) (omega arith)
        (IsUpper-write_identity inv))

  Outcome-ok :
      (status : Status) (s : Mats) → Outcome status s → status ≡ ok → Units bit_field n given n s
  Outcome-ok ok s h e = h
  Outcome-ok singular s h e = cc

  Outcome-singular :
      (status : Status) (s : Mats)
      → Outcome status s
      → status ≡ singular
      → IsSingular bit_field n given elem
  Outcome-singular ok s h e = cc
  Outcome-singular singular s h e = h

  -- When invert_bitmatrix is given a matrix of bits and returns 0, the product of inv and that
  -- matrix over the bits is the identity.
  pub invert_bitmatrix-product :
      (inv : Block ℕ)
      → (invert_bitmatrix given inv n).0 ≡ ok
      → (r c : ℕ) → r < n
      → c < n
      → sum n
          (λ k. select ((invert_bitmatrix given inv n).1.out_mat (r * n + k)) (given (k * n + c)))
        ≡ delta r c
  unfolding bit_field
  invert_bitmatrix-product inv returned r c hr hc =
      let done = Outcome-ok _ _ (invert_bitmatrix-Outcome inv) returned in
      done.invariant.product r c hr hc ∙ done.units r c hr hc

  -- When invert_bitmatrix returns -1 for a matrix of bits, that matrix sends a vector of bits, not
  -- all 0, to 0.
  pub invert_bitmatrix-singular :
      (inv : Block ℕ)
      → (invert_bitmatrix given inv n).0 ≡ singular
      → IsSingular bit_field n given elem
  invert_bitmatrix-singular inv = Outcome-singular _ _ (invert_bitmatrix-Outcome inv)

  not_singular : (status : Status) → ¬ (status ≡ singular) → status ≡ ok
  not_singular ok h = refl
  not_singular singular h = absurd (h refl)

  -- For a matrix of bits that has a left inverse of bits it returns 0.
  pub invert_bitmatrix_complete :
      (inv b : Block ℕ)
      → IsMatrix bit_field n b
      → ((r c : ℕ) → r < n → c < n → dot bit_field n (row n b r) (column n given c) ≡ delta r c)
      → (invert_bitmatrix given inv n).0 ≡ ok
  invert_bitmatrix_complete inv b hb inverse =
      not_singular _
        (λ e. not-IsSingular bit_field n given elem b hb inverse (invert_bitmatrix-singular inv e))
