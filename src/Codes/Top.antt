-- ===== src/Codes/Top.antt =====
-- The first k rows, which both generators of erasure_code/ec_base.c set up alike.
use cerasure.Base.{
  ℕ, suc, ◌+◌, ◌*◌, ◌<◌, ◌≡◌, ◌∙◌, inl, inr, arith, Block, set, set_self, set_ne, fill, fill_inside,
  for_range_inv, offset-lt, ℕ_discrete, ◌==◌, ltb, if◌then◌else◌, ap,
}
use cerasure.Invert.Rows.{offsets_ne, delta}
use cerasure.Codes.{identity_top}

module _ (a : Block ℕ) (m k : ℕ) where
  abbrev Diagonal : ℕ → Block ℕ → Type 0
  Diagonal i b =
      (r c : ℕ) → r < m → c < k → b (r * k + c) ≡ (if r == c then (if ltb r i then 1 else 0) else 0)

  Diagonal-set :
      (i : ℕ) (b : Block ℕ) → i < k → Diagonal i b → Diagonal (suc i) (set b (k * i + i) 1)
  Diagonal-set i b hi w r c hr hc =
      let place : k * i + i ≡ i * k + i = omega arith in
      rw place (elim (ℕ_discrete r i) [
        | yes e ↦ elim (ℕ_discrete c i) [
          | yes f ↦ rw (e, f) (set_self b _ _ ∙ ground arith)
          | no nf ↦
              set_ne b _ _ _ (offsets_ne k i i r c hi hc (inr nf)) ∙ w r c hr hc ∙ ground arith
        ]
        | no ne ↦ set_ne b _ _ _ (offsets_ne k i i r c hi hc (inl ne)) ∙ w r c hr hc ∙ ground arith
      ])

  zeroed : Diagonal 0 (fill 0 (k * m) (λ i. 0) a)
  zeroed r c hr hc =
      ap (fill 0 (k * m) (λ i. 0) a) {y = 0 + (r * k + c)} (omega arith)
      ∙ fill_inside 0 (k * m) (λ i. 0) a (r * k + c) (omega (arith, offset-lt m k r c hr hc))
      ∙ ground arith

  pub identity_top-delta : (r c : ℕ) → r < m → c < k → identity_top a m k (r * k + c) ≡ delta r c
  unfolding identity_top
  identity_top-delta r c hr hc =
      for_range_inv Diagonal (λ i a. set a (k * i + i) 1) 0 k (λ i b lo hi w. Diagonal-set i b hi w)
        k 0 _ (omega arith) (omega arith) zeroed r c hr hc
      ∙ ground arith
