-- ===== src/Invert/Singular.antt =====
-- A column of `gf_invert_matrix` without a pivot, and the vector that belongs to it.
use cerasure.Base.{
  ℕ, ◌+◌, ◌*◌, ◌<◌, ◌≤◌, ◌^◌, ◌≡◌, refl, ap, ap₂, ◌∙◌, ◌≢◌, arith, ◌==◌, if◌then◌else◌, Block,
  ℕ_discrete, ==_ne, ==_refl, none, ltb, dec_lt,
}
use cerasure.Bits.{◌⊕◌, xor-zero, xor_self, zero-xor}
use cerasure.Field.{Field}
use cerasure.Field.Sum.{sum, sum_congr, sum-xor, sum_single, sum-zero, mul-zero}
use cerasure.Field.Dot.{AllElem}
use cerasure.Invert.{Mats}
use cerasure.Invert.Invariant.{IsMatrix, Vanishes}
use cerasure.Invert.Pivot.{Units, Chosen}

module _ (F : Field) (n : ℕ) where
  open F use {bits, mul, inv, mul_comm, mul-lt, one-mul, zero-mul, one-lt}

  pos : 0 < 2 ^ bits
  pos = omega (arith, one-lt)

  mul-one : (a : ℕ) → a < 2 ^ bits → mul a 1 ≡ a
  mul-one a h = mul_comm a 1 h one-lt ∙ one-mul a h

  module _ (given : Block ℕ) (elem : IsMatrix F n given) where
    -- The vector that a column without a pivot gives, at round i.
    abbrev witness : ℕ → Block ℕ → ℕ → ℕ
    witness i m k = if ltb k i then m (k * n + i) else (if k == i then 1 else 0)

    pub record IsSingular : Type 0 where
      pub vector : ℕ → ℕ
      pub vector_elem : AllElem F n vector
      pub place : ℕ
      pub place-lt : place < n
      pub not_zero : vector place ≢ 0
      pub sent_to_zero : Vanishes F n given vector

    sum_point : (p v : ℕ) → p < n → sum n (λ k. if k == p then v else 0) ≡ v
    sum_point p v hp = sum_single n p _ hp (λ k hk ne. rw (==_ne k p ne) refl) ∙ rw (==_refl p) refl

    module _ (i : ℕ) (hi : i < n) (s : Mats) (u : Units F n given i s)
        (dead : Chosen F n given i s none) where
      witness-lt : AllElem F n (witness i s.in_mat)
      witness-lt k hk = ground (arith, u.invariant.in_elem k i hk hi, pos, one-lt)

      -- In a row above the pivot two equal terms cancel.
      term_above :
          (r k : ℕ)
          → r < i
          → k < n
          → mul (s.in_mat (r * n + k)) (witness i s.in_mat k)
            ≡ (if k == r then s.in_mat (r * n + i) else 0)
              ⊕ (if k == i then s.in_mat (r * n + i) else 0)
      term_above r k hr hk =
          let x = s.in_mat (r * n + i) in
          let hx = u.invariant.in_elem r i (omega arith) hi in
          let hw = witness-lt k hk in
          elim (dec_lt k i) [
            | yes lt ↦
                ap (λ (t : ℕ). mul t (witness i s.in_mat k)) (u.units r k (omega arith) lt)
                ∙ (elim (ℕ_discrete k r) [
                  | yes e ↦ rw e (ground (arith, one-mul x hx, xor-zero x))
                  | no ne ↦ ground (arith, zero-mul (witness i s.in_mat k) hw)
                ])
            | no ge ↦ elim (ℕ_discrete k i) [
              | yes e ↦ rw e (ground (arith, mul-one x hx, zero-xor x))
              | no ne ↦ ground (
                arith,
                mul-zero F (s.in_mat (r * n + k)) (u.invariant.in_elem r k (omega arith) hk),
              )
            ]
          ]

      -- In the other rows all terms are 0.
      term_below :
          (r k : ℕ) → i ≤ r → r < n → k < n → mul (s.in_mat (r * n + k)) (witness i s.in_mat k) ≡ 0
      term_below r k hr hrn hk = elim (dec_lt k i) [
        | yes lt ↦
            ap (λ (t : ℕ). mul t (witness i s.in_mat k)) (u.units r k hrn lt ∙ ground arith)
            ∙ zero-mul _ (witness-lt k hk)
        | no ge ↦ elim (ℕ_discrete k i) [
          | yes e ↦ rw e (
              ap (λ (t : ℕ). mul t (witness i s.in_mat i)) (dead r hr hrn)
              ∙ zero-mul _ (witness-lt i hi))
          | no ne ↦
              ap (mul (s.in_mat (r * n + k))) (ground arith)
              ∙ mul-zero F _ (u.invariant.in_elem r k hrn hk)
        ]
      ]

      Vanishes-witness : Vanishes F n s.in_mat (witness i s.in_mat)
      Vanishes-witness r hr = elim (dec_lt r i) [
        | yes above ↦
            sum_congr n _ _ (λ k hk. term_above r k above hk)
            ∙ sum-xor _ _ n
            ∙ ap₂ ◌⊕◌ (sum_point r (s.in_mat (r * n + i)) hr)
                (sum_point i (s.in_mat (r * n + i)) hi)
            ∙ xor_self _
        | no below ↦
            sum_congr n _ (λ k. 0) (λ k hk. term_below r k (omega (arith, below)) hr hk)
            ∙ sum-zero n
      ]

      pub IsSingular-witness : IsSingular
      IsSingular-witness = record {
        vector = witness i s.in_mat;
        vector_elem = witness-lt;
        place = i;
        place-lt = hi;
        not_zero = ground arith;
        sent_to_zero = u.invariant.kernel _ witness-lt Vanishes-witness;
      }
