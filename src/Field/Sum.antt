-- ===== src/Field/Sum.antt =====
-- Finite sums by exclusive or.
use cerasure.Base.{ℕ, zero, suc, ◌<◌, ◌^◌, ◌≡◌, refl, sym, ap, ap₂, ◌∙◌, arith, ◌≢◌, ℕ_discrete}
use cerasure.Bits.{◌⊕◌, xor-lt, xor-zero, zero-xor, xor_interchange}
use cerasure.Field.{Field}

-- f 0 ⊕ … ⊕ f (n - 1)
unfoldable pub sum : ℕ → (ℕ → ℕ) → ℕ
sum zero f = 0
sum (suc n) f = sum n f ⊕ f n

pub sum_congr : (n : ℕ) (f g : ℕ → ℕ) → ((k : ℕ) → k < n → f k ≡ g k) → sum n f ≡ sum n g
unfolding sum
sum_congr zero f g h = refl
sum_congr (suc n) f g h = ap₂ ◌⊕◌ (sum_congr n f g (λ k p. h k (omega arith))) (h n (omega arith))

pub sum-lt : (b n : ℕ) (f : ℕ → ℕ) → 0 < 2 ^ b → ((k : ℕ) → k < n → f k < 2 ^ b) → sum n f < 2 ^ b
unfolding sum
sum-lt b zero f pos h = pos
sum-lt b (suc n) f pos h =
    xor-lt b (sum n f) (f n) (sum-lt b n f pos (λ k p. h k (omega arith))) (h n (omega arith))

pub sum-zero : (n : ℕ) → sum n (λ k. 0) ≡ 0
unfolding sum
sum-zero zero = refl
sum-zero (suc n) = xor-zero _ ∙ sum-zero n

pub sum-xor : (u v : ℕ → ℕ) (n : ℕ) → sum n (λ k. u k ⊕ v k) ≡ sum n u ⊕ sum n v
unfolding sum
sum-xor u v zero = refl
sum-xor u v (suc n) =
    ap (λ (t : ℕ). t ⊕ (u n ⊕ v n)) (sum-xor u v n)
    ∙ xor_interchange (sum n u) (sum n v) (u n) (v n)

pub sum_comm :
    (table : ℕ → ℕ → ℕ) (rows columns : ℕ)
    → sum rows (λ r. sum columns (table r)) ≡ sum columns (λ c. sum rows (λ r. table r c))
unfolding sum
sum_comm table zero columns = sym (sum-zero columns)
sum_comm table (suc rows) columns =
    let above = λ (c : ℕ). sum rows (λ r. table r c) in
    ap (λ (t : ℕ). t ⊕ sum columns (table rows)) (sum_comm table rows columns)
    ∙ sym (sum-xor above (table rows) columns)

-- Terms that are all 0 but one.
pub sum_single : (n i : ℕ) (f : ℕ → ℕ) → i < n → ((k : ℕ) → k < n → k ≢ i → f k ≡ 0) → sum n f ≡ f i
unfolding sum
sum_single zero i f h z = absurd (omega arith)
sum_single (suc n) i f h z = elim (ℕ_discrete n i) [
  | yes e ↦
      ap₂ ◌⊕◌ (sum_congr n f (λ k. 0) (λ k p. z k (omega arith) (omega arith)) ∙ sum-zero n)
        (ap f e)
      ∙ zero-xor (f i)
  | no ne ↦
      ap₂ ◌⊕◌ (sum_single n i f (omega arith) (λ k p q. z k (omega arith) q)) (z n (omega arith) ne)
      ∙ xor-zero (f i)
]

module _ (F : Field) where
  open F use {bits, mul, mul-xor, mul_comm, mul_assoc, mul-lt, zero-mul, one-lt}

  pos : 0 < 2 ^ bits
  pos = omega (arith, one-lt)

  pub mul-zero : (a : ℕ) → a < 2 ^ bits → mul a 0 ≡ 0
  mul-zero a h = mul_comm a 0 h pos ∙ zero-mul a h

  pub xor-mul_field :
      (a b c : ℕ) → a < 2 ^ bits → b < 2 ^ bits → c < 2 ^ bits → mul (a ⊕ b) c ≡ mul a c ⊕ mul b c
  xor-mul_field a b c ha hb hc =
      mul_comm (a ⊕ b) c (xor-lt bits a b ha hb) hc
      ∙ mul-xor c a b hc ha hb
      ∙ ap₂ ◌⊕◌ (mul_comm c a hc ha) (mul_comm c b hc hb)

  pub mul-sum :
      (n a : ℕ) (f : ℕ → ℕ)
      → a < 2 ^ bits
      → ((k : ℕ) → k < n → f k < 2 ^ bits)
      → mul a (sum n f) ≡ sum n (λ k. mul a (f k))
  unfolding sum
  mul-sum zero a f ha hf = mul-zero a ha
  mul-sum (suc n) a f ha hf =
      mul-xor a (sum n f) (f n) ha (sum-lt bits n f pos (λ k p. hf k (omega arith)))
        (hf n (omega arith))
      ∙ ap (λ (t : ℕ). t ⊕ mul a (f n)) (mul-sum n a f ha (λ k p. hf k (omega arith)))

  pub sum-mul :
      (n a : ℕ) (f : ℕ → ℕ)
      → a < 2 ^ bits
      → ((k : ℕ) → k < n → f k < 2 ^ bits)
      → mul (sum n f) a ≡ sum n (λ k. mul (f k) a)
  sum-mul n a f ha hf =
      mul_comm (sum n f) a (sum-lt bits n f pos hf) ha
      ∙ mul-sum n a f ha hf
      ∙ sum_congr n _ _ (λ k p. mul_comm a (f k) ha (hf k p))

  -- Σ_c (Σ_k b_k g_kc) v_c = Σ_k b_k (Σ_c g_kc v_c)
  pub sum_assoc :
      (m n : ℕ) (b : ℕ → ℕ) (g : ℕ → ℕ → ℕ) (v : ℕ → ℕ)
      → ((k : ℕ) → k < m → b k < 2 ^ bits)
      → ((k c : ℕ) → k < m → c < n → g k c < 2 ^ bits)
      → ((c : ℕ) → c < n → v c < 2 ^ bits)
      → sum n (λ c. mul (sum m (λ k. mul (b k) (g k c))) (v c))
        ≡ sum m (λ k. mul (b k) (sum n (λ c. mul (g k c) (v c))))
  sum_assoc m n b g v hb hg hv =
      sum_congr n _ _ (λ c hc.
        sum-mul m (v c) _ (hv c hc) (λ k hk. mul-lt (b k) (g k c) (hb k hk) (hg k c hk hc))
        ∙ sum_congr m _ _
            (λ k hk. mul_assoc (b k) (g k c) (v c) (hb k hk) (hg k c hk hc) (hv c hc)))
      ∙ sum_comm _ n m
      ∙ sum_congr m _ _ (λ k hk.
        sym (mul-sum n (b k) _ (hb k hk) (λ c hc. mul-lt (g k c) (v c) (hg k c hk hc) (hv c hc))))
