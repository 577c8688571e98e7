-- ===== src/Invert/Add.antt =====
-- Adding a multiple of one row to another keeps the invariant.
use cerasure.Base.{ℕ, ◌+◌, ◌*◌, ◌<◌, ◌^◌, ◌≡◌, sym, ap, ap₂, ◌∙◌, ◌≢◌, Block, ℕ_discrete}
use cerasure.Bits.{◌⊕◌, xor-lt, xor-zero}
use cerasure.Field.{Field}
use cerasure.Field.Sum.{mul-zero}
use cerasure.Field.Dot.{AllElem, dot, dot_congr, dot_added}
use cerasure.Invert.{Mats}
use cerasure.Invert.Invariant.{row, column, IsMatrix, Vanishes, Invariant}

module _ (F : Field) (n : ℕ) (given : Block ℕ) (elem : IsMatrix F n given) (i j t : ℕ) where
  open F use {bits, mul, mul-lt}

  -- Row j becomes its sum with t times row i.
  pub record IsAdd (m m' : Block ℕ) : Type 0 where
    pub added : (c : ℕ) → c < n → m' (j * n + c) ≡ m (j * n + c) ⊕ mul t (m (i * n + c))
    pub kept : (r c : ℕ) → c < n → r ≢ j → m' (r * n + c) ≡ m (r * n + c)

  module _ (hi : i < n) (hj : j < n) (apart : i ≢ j) (ht : t < 2 ^ bits) where
    IsAdd-elem : (m m' : Block ℕ) → IsAdd m m' → IsMatrix F n m → IsMatrix F n m'
    IsAdd-elem m m' w e r c hr hc = elim (ℕ_discrete r j) [
      | yes p ↦ rw (p, w.added c hc) (xor-lt bits _ _ (e j c hj hc) (mul-lt t _ ht (e i c hi hc)))
      | no p ↦ rw (w.kept r c hc p) (e r c hr hc)
    ]

    -- The inner product with row j is added to likewise.
    dot-IsAdd :
        (m m' : Block ℕ) (v : ℕ → ℕ)
        → IsAdd m m'
        → IsMatrix F n m
        → AllElem F n v
        → dot F n (row n m' j) v ≡ dot F n (row n m j) v ⊕ mul t (dot F n (row n m i) v)
    dot-IsAdd m m' v w e hv =
        dot_congr F n _ (λ k. m (j * n + k) ⊕ mul t (m (i * n + k))) v w.added
        ∙ dot_added F n (row n m j) (row n m i) v t ht (λ k hk. e j k hj hk) (λ k hk. e i k hi hk)
            hv

    kernel_row :
        (m m' : Block ℕ) (x : ℕ → ℕ)
        → IsAdd m m'
        → IsMatrix F n m
        → AllElem F n x
        → Vanishes F n m' x
        → dot F n (row n m j) x ≡ 0
    kernel_row m m' x w e hx z =
        sym (xor-zero _)
        ∙ ap (λ (y : ℕ). dot F n (row n m j) x ⊕ y) (sym (ap (mul t) at_i ∙ mul-zero F t ht))
        ∙ sym (dot-IsAdd m m' x w e hx)
        ∙ z j hj
      where
        at_i : dot F n (row n m i) x ≡ 0
        at_i = sym (dot_congr F n _ (row n m i) x (λ k hk. w.kept i k hk apart)) ∙ z i hi

    pub Invariant-IsAdd :
        (s s' : Mats)
        → IsAdd s.in_mat s'.in_mat
        → IsAdd s.out_mat s'.out_mat
        → Invariant F n given s
        → Invariant F n given s'
    Invariant-IsAdd s s' w v h = record {
      in_elem = IsAdd-elem _ _ w h.in_elem;
      out_elem = IsAdd-elem _ _ v h.out_elem;
      product = λ r c hr hc. elim (ℕ_discrete r j) [
        | yes p ↦ rw p (
            dot-IsAdd s.out_mat s'.out_mat (column n given c) v h.out_elem (λ k hk. elem k c hk hc)
            ∙ ap₂ ◌⊕◌ (h.product j c hj hc) (ap (mul t) (h.product i c hi hc))
            ∙ sym (w.added c hc))
        | no p ↦
            dot_congr F n _ (row n s.out_mat r) _ (λ k hk. v.kept r k hk p)
            ∙ h.product r c hr hc
            ∙ sym (w.kept r c hc p)
      ];
      kernel = λ x hx z. h.kernel x hx λ r hr. elim (ℕ_discrete r j) [
        | yes p ↦ rw p (kernel_row s.in_mat s'.in_mat x w h.in_elem hx z)
        | no p ↦ sym (dot_congr F n _ (row n s.in_mat r) x (λ k hk. w.kept r k hk p)) ∙ z r hr
      ];
    }
