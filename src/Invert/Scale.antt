-- ===== src/Invert/Scale.antt =====
-- Multiplying a row by a factor other than 0 keeps the invariant.
use cerasure.Base.{ℕ, ◌+◌, ◌*◌, ◌<◌, ◌^◌, ◌≡◌, sym, ap, ◌∙◌, ◌≢◌, arith, Block, ℕ_discrete}
use cerasure.Field.{Field}
use cerasure.Field.Dot.{AllElem, dot, dot_congr, dot-lt, dot_scaled, eq-zero_of_mul}
use cerasure.Invert.{Mats}
use cerasure.Invert.Invariant.{row, column, IsMatrix, Invariant}

module _ (F : Field) (n : ℕ) (given : Block ℕ) (elem : IsMatrix F n given) (j t : ℕ) where
  open F use {bits, mul, mul-lt, mul_comm, one-lt}

  -- Row j becomes itself times t.
  pub record IsScale (m m' : Block ℕ) : Type 0 where
    pub scaled : (c : ℕ) → c < n → m' (j * n + c) ≡ mul (m (j * n + c)) t
    pub kept : (r c : ℕ) → c < n → r ≢ j → m' (r * n + c) ≡ m (r * n + c)

  module _ (hj : j < n) (nt : t ≢ 0) (ht : t < 2 ^ bits) where
    IsScale-elem : (m m' : Block ℕ) → IsScale m m' → IsMatrix F n m → IsMatrix F n m'
    IsScale-elem m m' w e r c hr hc = elim (ℕ_discrete r j) [
      | yes p ↦ rw (p, w.scaled c hc) (mul-lt _ t (e j c hj hc) ht)
      | no p ↦ rw (w.kept r c hc p) (e r c hr hc)
    ]

    -- The inner product with row j is multiplied too.
    dot-IsScale :
        (m m' : Block ℕ) (v : ℕ → ℕ)
        → IsScale m m'
        → IsMatrix F n m
        → AllElem F n v
        → dot F n (row n m' j) v ≡ mul t (dot F n (row n m j) v)
    dot-IsScale m m' v w e hv =
        dot_congr F n _ (λ k. mul (m (j * n + k)) t) v w.scaled
        ∙ dot_scaled F n (row n m j) v t ht (λ k hk. e j k hj hk) hv

    pub Invariant-IsScale :
        (s s' : Mats)
        → IsScale s.in_mat s'.in_mat
        → IsScale s.out_mat s'.out_mat
        → Invariant F n given s
        → Invariant F n given s'
    Invariant-IsScale s s' w v h = record {
      in_elem = IsScale-elem _ _ w h.in_elem;
      out_elem = IsScale-elem _ _ v h.out_elem;
      product = λ r c hr hc. elim (ℕ_discrete r j) [
        | yes p ↦ rw p (
            dot-IsScale s.out_mat s'.out_mat (column n given c) v h.out_elem
              (λ k hk. elem k c hk hc)
            ∙ ap (mul t) (h.product j c hj hc)
            ∙ mul_comm t _ ht (h.in_elem j c hj hc)
            ∙ sym (w.scaled c hc))
        | no p ↦
            dot_congr F n _ (row n s.out_mat r) _ (λ k hk. v.kept r k hk p)
            ∙ h.product r c hr hc
            ∙ sym (w.kept r c hc p)
      ];
      kernel = λ x hx z. h.kernel x hx λ r hr. elim (ℕ_discrete r j) [
        | yes p ↦ rw p (
            eq-zero_of_mul F n t (dot F n (row n s.in_mat j) x) nt ht
              (dot-lt F n (row n s.in_mat j) x (omega (arith, one-lt)) (λ k hk. h.in_elem j k hj hk)
                hx)
              (sym (dot-IsScale s.in_mat s'.in_mat x w h.in_elem hx) ∙ z j hj))
        | no p ↦ sym (dot_congr F n _ (row n s.in_mat r) x (λ k hk. w.kept r k hk p)) ∙ z r hr
      ];
    }
