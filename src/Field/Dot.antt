-- ===== src/Field/Dot.antt =====
-- Inner products of rows of n field elements, and that they are linear.
use cerasure.Base.{ℕ, ◌<◌, ◌^◌, ◌≡◌, sym, ap, ◌∙◌, ◌≢◌}
use cerasure.Bits.{◌⊕◌}
use cerasure.Field.{Field}
use cerasure.Field.Sum.{sum, sum_congr, sum-lt, sum-xor, mul-sum, mul-zero, xor-mul_field}

module _ (F : Field) (n : ℕ) where
  open F use {bits, mul, inv, mul-lt, mul_comm, mul_assoc, one-mul, mul-inv, inv-lt, one-lt}

  abbrev pub AllElem : (ℕ → ℕ) → Type 0
  AllElem u = (k : ℕ) → k < n → u k < 2 ^ bits

  abbrev pub dot : (ℕ → ℕ) → (ℕ → ℕ) → ℕ
  dot u v = sum n (λ k. mul (u k) (v k))

  pub dot_congr : (u u' v : ℕ → ℕ) → ((k : ℕ) → k < n → u k ≡ u' k) → dot u v ≡ dot u' v
  dot_congr u u' v h = sum_congr n _ _ (λ k p. ap (λ (t : ℕ). mul t (v k)) (h k p))

  pub dot-lt : (u v : ℕ → ℕ) → 0 < 2 ^ bits → AllElem u → AllElem v → dot u v < 2 ^ bits
  dot-lt u v pos hu hv = sum-lt bits n _ pos (λ k p. mul-lt (u k) (v k) (hu k p) (hv k p))

  pub dot_scaled :
      (u v : ℕ → ℕ) (t : ℕ)
      → t < 2 ^ bits
      → AllElem u
      → AllElem v
      → dot (λ k. mul (u k) t) v ≡ mul t (dot u v)
  dot_scaled u v t ht hu hv =
      sum_congr n _ _ (λ k p.
        ap (λ (x : ℕ). mul x (v k)) (mul_comm (u k) t (hu k p) ht)
        ∙ mul_assoc t (u k) (v k) ht (hu k p) (hv k p))
      ∙ sym (mul-sum F n t _ ht (λ k p. mul-lt (u k) (v k) (hu k p) (hv k p)))

  pub dot_added :
      (u w v : ℕ → ℕ) (t : ℕ)
      → t < 2 ^ bits
      → AllElem u
      → AllElem w
      → AllElem v
      → dot (λ k. u k ⊕ mul t (w k)) v ≡ dot u v ⊕ mul t (dot w v)
  dot_added u w v t ht hu hw hv =
      sum_congr n _ _ (λ k p.
        xor-mul_field F (u k) (mul t (w k)) (v k) (hu k p) (mul-lt t (w k) ht (hw k p)) (hv k p)
        ∙ ap (λ (x : ℕ). mul (u k) (v k) ⊕ x) (mul_assoc t (w k) (v k) ht (hw k p) (hv k p)))
      ∙ sum-xor (λ k. mul (u k) (v k)) (λ k. mul t (mul (w k) (v k))) n
      ∙ ap (λ (x : ℕ). dot u v ⊕ x)
          (sym (mul-sum F n t _ ht (λ k p. mul-lt (w k) (v k) (hw k p) (hv k p))))

  -- There are no divisors of zero.
  pub eq-zero_of_mul : (t x : ℕ) → t ≢ 0 → t < 2 ^ bits → x < 2 ^ bits → mul t x ≡ 0 → x ≡ 0
  eq-zero_of_mul t x nt ht hx e =
      sym (one-mul x hx)
      ∙ ap (λ (y : ℕ). mul y x) (sym (mul-inv t nt ht) ∙ mul_comm t (inv t) ht (inv-lt t nt ht))
      ∙ mul_assoc (inv t) t x (inv-lt t nt ht) ht hx
      ∙ ap (mul (inv t)) e
      ∙ mul-zero F (inv t) (inv-lt t nt ht)
