-- ===== src/Invert/Swap.antt =====
-- Exchanging two rows keeps the invariant.
use cerasure.Base.{ℕ, ◌+◌, ◌*◌, ◌<◌, ◌≡◌, sym, ◌∙◌, ◌≢◌, Block, ℕ_discrete}
use cerasure.Field.{Field}
use cerasure.Field.Dot.{dot, dot_congr}
use cerasure.Invert.{Mats}
use cerasure.Invert.Invariant.{row, column, IsMatrix, Vanishes, Invariant}

module _ (F : Field) (n : ℕ) (given : Block ℕ) where
  -- Rows i and j change places.
  pub record IsSwap (i j : ℕ) (m m' : Block ℕ) : Type 0 where
    pub first : (c : ℕ) → c < n → m' (i * n + c) ≡ m (j * n + c)
    pub second : (c : ℕ) → c < n → m' (j * n + c) ≡ m (i * n + c)
    pub kept : (r c : ℕ) → c < n → r ≢ i → r ≢ j → m' (r * n + c) ≡ m (r * n + c)

  IsSwap-elem :
      (i j : ℕ) (m m' : Block ℕ)
      → i < n
      → j < n
      → IsSwap i j m m'
      → IsMatrix F n m
      → IsMatrix F n m'
  IsSwap-elem i j m m' hi hj w e r c hr hc = elim (ℕ_discrete r i) [
    | yes p ↦ rw (p, w.first c hc) (e j c hj hc)
    | no p ↦ elim (ℕ_discrete r j) [
      | yes q ↦ rw (q, w.second c hc) (e i c hi hc)
      | no q ↦ rw (w.kept r c hc p q) (e r c hr hc)
    ]
  ]

  -- A statement about single rows, true of all rows before, is true of all rows after.
  IsSwap-rows :
      (i j : ℕ) (m m' o o' : Block ℕ)
      → i < n
      → j < n
      → IsSwap i j m m'
      → IsSwap i j o o'
      → (c : ℕ) → c < n
      → ((r : ℕ) → r < n → dot F n (row n o r) (column n given c) ≡ m (r * n + c))
      → (r : ℕ) → r < n
      → dot F n (row n o' r) (column n given c) ≡ m' (r * n + c)
  IsSwap-rows i j m m' o o' hi hj w v c hc h r hr = elim (ℕ_discrete r i) [
    | yes p ↦ rw p (dot_congr F n _ (row n o j) _ v.first ∙ h j hj ∙ sym (w.first c hc))
    | no p ↦ elim (ℕ_discrete r j) [
      | yes q ↦ rw q (dot_congr F n _ (row n o i) _ v.second ∙ h i hi ∙ sym (w.second c hc))
      | no q ↦
          dot_congr F n _ (row n o r) _ (λ k hk. v.kept r k hk p q)
          ∙ h r hr
          ∙ sym (w.kept r c hc p q)
    ]
  ]

  IsSwap-kernel :
      (i j : ℕ) (m m' : Block ℕ) (x : ℕ → ℕ)
      → i < n
      → j < n
      → IsSwap i j m m'
      → Vanishes F n m' x
      → Vanishes F n m x
  IsSwap-kernel i j m m' x hi hj w h r hr = elim (ℕ_discrete r i) [
    | yes p ↦ rw p (sym (dot_congr F n _ (row n m i) x w.second) ∙ h j hj)
    | no p ↦ elim (ℕ_discrete r j) [
      | yes q ↦ rw q (sym (dot_congr F n _ (row n m j) x w.first) ∙ h i hi)
      | no q ↦ sym (dot_congr F n _ (row n m r) x (λ k hk. w.kept r k hk p q)) ∙ h r hr
    ]
  ]

  pub Invariant-IsSwap :
      (i j : ℕ) (s s' : Mats)
      → i < n
      → j < n
      → IsSwap i j s.in_mat s'.in_mat
      → IsSwap i j s.out_mat s'.out_mat
      → Invariant F n given s
      → Invariant F n given s'
  Invariant-IsSwap i j s s' hi hj w v h = record {
    in_elem = IsSwap-elem i j _ _ hi hj w h.in_elem;
    out_elem = IsSwap-elem i j _ _ hi hj v h.out_elem;
    product =
        λ r c hr hc. IsSwap-rows i j _ _ _ _ hi hj w v c hc (λ r hr. h.product r c hr hc) r hr;
    kernel = λ x hx z. h.kernel x hx (IsSwap-kernel i j _ _ x hi hj w z);
  }
