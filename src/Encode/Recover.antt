-- ===== src/Encode/Recover.antt =====
-- Decoding by the encoder of erasure_code/ec_base.c, with the matrix of `gf_invert_matrix`.
use cerasure.Base.{
  ℕ, ◌+◌, ◌*◌, ◌<◌, ◌≡◌, sym, ap, ◌∙◌, Block, offset-lt, arith, ◌/◌, ◌%◌, ℕ_discrete,
}
use native.Mathlib.Nat.{div-add-mod', mod-lt, div-lt_iff_lt-mul}
use cerasure.Field.Sum.{sum_congr, sum_assoc, sum}
use cerasure.Gf.{gf_mul}
use cerasure.Gf.Laws.{gf_field}
use cerasure.Invert.{ok, gf_invert_matrix}
use cerasure.Invert.Rows.{delta}
use cerasure.Invert.Invariant.{IsMatrix}
use cerasure.Invert.Gf.{gf_invert_matrix-ok}
use cerasure.Invert.Correct.{dot-delta}
use cerasure.Encode.{ec_init_tables, ec_encode_data_base}
use cerasure.Encode.Code.{ec_encode_data_base-product}

-- A bound on every cell is a bound on every offset.
IsMatrix-flat : (k : ℕ) (d : Block ℕ) → IsMatrix gf_field k d → (i : ℕ) → i < k * k → d i < 256
IsMatrix-flat k d e i h =
    rw (← div-add-mod' i k) (e (i / k) (i % k) (row-lt h) (mod-lt i (positive h)))
  where
    positive : i < k * k → 0 < k
    positive h = elim (ℕ_discrete k 0) [
      | yes z ↦ absurd (omega (arith, h, ap (λ (t : ℕ). t * k) z))
      | no nz ↦ omega (arith, nz)
    ]

    row-lt : i < k * k → i / k < k
    row-lt h = (div-lt_iff_lt-mul (positive h)).1 h

module _ (k m len : ℕ) (a b out tbl tbl' : Block ℕ) (src coding dest : Block (Block ℕ))
    (sel : ℕ → ℕ) (bytes : (i : ℕ) → i < m * k → a i < 256)
    (data_bytes : (c i : ℕ) → c < k → i < len → src c i < 256)
    (chosen : (r : ℕ) → r < k → sel r < m)
    (rows : (r c : ℕ) → r < k → c < k → b (r * k + c) ≡ a (sel r * k + c))
    (inverted : (gf_invert_matrix b out k).0 ≡ ok) where
  abbrev decode : Block ℕ
  decode = (gf_invert_matrix b out k).1.out_mat

  b_elem : IsMatrix gf_field k b
  b_elem r c hr hc =
      rw (rows r c hr hc) (bytes (sel r * k + c) (offset-lt m k (sel r) c (chosen r hr) hc))

  decode_elem : IsMatrix gf_field k decode
  decode_elem = (gf_invert_matrix-ok k b out b_elem inverted).0

  cancels :
      (l c : ℕ)
      → l < k
      → c < k
      → sum k (λ r. gf_mul (decode (l * k + r)) (b (r * k + c))) ≡ delta l c
  cancels = (gf_invert_matrix-ok k b out b_elem inverted).1

  abbrev coded : Block (Block ℕ)
  coded = ec_encode_data_base len k m (ec_init_tables k m a tbl) src coding

  survivor :
      (r i : ℕ) → r < k → i < len → coded (sel r) i ≡ sum k (λ c. gf_mul (b (r * k + c)) (src c i))
  survivor r i hr hi =
      (ec_encode_data_base-product k m a tbl bytes len src coding).0 (sel r) i (chosen r hr) hi
      ∙ sum_congr k _ _ (λ c hc. ap (λ (t : ℕ). gf_mul t (src c i)) (sym (rows r c hr hc)))

  -- The data buffers and the m by k matrix hold bytes. Take any k of the m coded buffers, chosen
  -- by `sel`, and the k by k matrix b of their rows. If `gf_invert_matrix` returns 0 for b, then
  -- encoding the chosen buffers with the inverse that it leaves gives every byte of the data back.
  pub ec_encode_data_base_recovers :
      (l i : ℕ)
      → l < k
      → i < len
      → ec_encode_data_base len k k (ec_init_tables k k decode tbl') (λ r. coded (sel r)) dest l i
        ≡ src l i
  ec_encode_data_base_recovers l i hl hi =
      (ec_encode_data_base-product k k decode tbl' (IsMatrix-flat k decode decode_elem) len _
          dest).0
        l i hl hi
      ∙ sum_congr k _ _ (λ r hr. ap (gf_mul (decode (l * k + r))) (survivor r i hr hi))
      ∙ sym (
          sum_assoc gf_field k k (λ r. decode (l * k + r)) (λ r c. b (r * k + c)) (λ c. src c i)
            (λ r hr. decode_elem l r hl hr) b_elem (λ c hc. data_bytes c i hc hi))
      ∙ sum_congr k _ _ (λ c hc. ap (λ (t : ℕ). gf_mul t (src c i)) (cancels l c hl hc))
      ∙ dot-delta gf_field k l (λ c. src c i) hl (λ c hc. data_bytes c i hc hi)
