-- ===== src/Encode/Update.antt =====
-- Encoding one source at a time, and changing one source of an encoded stripe.
use cerasure.Base.{
  ℕ, ◌+◌, ◌*◌, ◌<◌, ◌≤◌, ◌≡◌, ◌≢◌, refl, sym, ap, ◌∙◌, ◌⊎◌, arith, Block, for_range, for_range_inv,
  offset-lt,
}
use cerasure.Bits.{◌⊕◌, xor_assoc, zero-xor, xor-zero, xor_self, xor_cancel}
use cerasure.Field.Sum.{sum, sum-xor, sum_single}
use cerasure.Gf.{gf_mul}
use cerasure.Gf.Laws.{gf_mul_comm, gf_mul-xor}
use cerasure.Encode.{ec_init_tables, ec_encode_data_base, ec_encode_data_update_base}
use cerasure.Encode.Code.{coefficient, product, ec_encode_data_base-product}
use cerasure.Encode.Grid.{grid_inside, grid_outside}

module _ (k rows : ℕ) (a g_tbls : Block ℕ) (bytes : (i : ℕ) → i < rows * k → a i < 256) where
  abbrev tables : Block ℕ
  tables = ec_init_tables k rows a g_tbls

  -- One call adds one column's share to each coding buffer.
  update-term :
      (len vec_i : ℕ) (src : Block ℕ) (dest : Block (Block ℕ))
      → vec_i < k
      → ((l i : ℕ)
          → l < rows
          → i < len
          → ec_encode_data_update_base len k rows vec_i tables src dest l i
            ≡ dest l i ⊕ gf_mul (a (l * k + vec_i)) (src i))
        × ((l i : ℕ)
            → (rows ≤ l) ⊎ (len ≤ i)
            → ec_encode_data_update_base len k rows vec_i tables src dest l i ≡ dest l i)
  unfolding ec_encode_data_update_base
  update-term len vec_i src dest hv = (
    λ l i hl hi.
        grid_inside (λ l i old. old ⊕ gf_mul (src i) (tables (vec_i * 32 + l * k * 32 + 1))) len
          rows dest l i hl hi
        ∙ ap (λ (t : ℕ). dest l i ⊕ t)
            (gf_mul_comm (src i) _
              ∙ ap (λ (t : ℕ). gf_mul t (src i))
                  (ap tables {x = vec_i * 32 + l * k * 32 + 1} {y = vec_i * 32 + (l * k * 32 + 1)}
                      (omega arith)
                    ∙ coefficient k rows a g_tbls bytes l vec_i hl hv)),
    grid_outside (λ l i old. old ⊕ gf_mul (src i) (tables (vec_i * 32 + l * k * 32 + 1))) len rows
        dest,
  )

  -- Calls for all the sources in turn.
  pub update_all : ℕ → Block (Block ℕ) → Block (Block ℕ) → Block (Block ℕ)
  update_all len src dest =
      for_range k 0 (λ j d. ec_encode_data_update_base len k rows j tables (src j) d) dest

  record Updated (len : ℕ) (src dest : Block (Block ℕ)) (j : ℕ) (d : Block (Block ℕ)) : Type 0 where
    inside :
        (l i : ℕ)
        → l < rows
        → i < len
        → d l i ≡ dest l i ⊕ sum j (λ c. gf_mul (a (l * k + c)) (src c i))
    outside : (l i : ℕ) → (rows ≤ l) ⊎ (len ≤ i) → d l i ≡ dest l i

  Updated-update_all :
      (len : ℕ) (src dest : Block (Block ℕ)) → Updated len src dest k (update_all len src dest)
  unfolding update_all sum
  Updated-update_all len src dest =
      for_range_inv (Updated len src dest) _ 0 k
        (λ j d lo hj w. record {
          inside = λ l i hl hi.
              (update-term len j (src j) d hj).0 l i hl hi
              ∙ ap (λ (t : ℕ). t ⊕ gf_mul (a (l * k + j)) (src j i)) (w.inside l i hl hi)
              ∙ xor_assoc (dest l i) _ _;
          outside = λ l i away. (update-term len j (src j) d hj).1 l i away ∙ w.outside l i away;
        })
        k 0 dest (omega arith) (omega arith)
        (record { inside = λ l i hl hi. sym (xor-zero (dest l i)); outside = λ l i away. refl })

  -- With a matrix of bytes, and from coding buffers that hold 0, updating with every source in turn gives the bytes that one
  -- call of the full encoder gives.
  pub update_all-ec_encode_data_base :
      (len : ℕ) (src dest other : Block (Block ℕ))
      → ((l i : ℕ) → l < rows → i < len → dest l i ≡ 0)
      → (l i : ℕ) → l < rows
      → i < len
      → update_all len src dest l i ≡ ec_encode_data_base len k rows tables src other l i
  update_all-ec_encode_data_base len src dest other blank l i hl hi =
      (Updated-update_all len src dest).inside l i hl hi
      ∙ ap (λ (t : ℕ). t ⊕ product k a src l i) (blank l i hl hi)
      ∙ zero-xor _
      ∙ sym ((ec_encode_data_base-product k rows a g_tbls bytes len src other).0 l i hl hi)

  -- With a matrix of bytes, when only source j of the data bytes changes, updating the old code with the difference of the old and the new
  -- source gives the code of the new data.
  pub update_difference :
      (len j : ℕ) (src src' dest : Block (Block ℕ))
      → j < k
      → ((c i : ℕ) → c < k → i < len → (src c i < 256) × (src' c i < 256))
      → ((c i : ℕ) → c < k → c ≢ j → src' c i ≡ src c i)
      → (l i : ℕ) → l < rows
      → i < len
      → ec_encode_data_update_base len k rows j tables
          (λ i. src j i ⊕ src' j i)
          (ec_encode_data_base len k rows tables src dest)
          l
          i
        ≡ ec_encode_data_base len k rows tables src' dest l i
  update_difference len j src src' dest hj elem same l i hl hi =
      (update-term len j _ _ hj).0 l i hl hi
      ∙ ap (λ (t : ℕ). t ⊕ gf_mul (a (l * k + j)) (src j i ⊕ src' j i))
          ((ec_encode_data_base-product k rows a g_tbls bytes len src dest).0 l i hl hi)
      ∙ change
      ∙ sym ((ec_encode_data_base-product k rows a g_tbls bytes len src' dest).0 l i hl hi)
    where
      u : ℕ → ℕ
      u c = gf_mul (a (l * k + c)) (src c i)

      u' : ℕ → ℕ
      u' c = gf_mul (a (l * k + c)) (src' c i)

      only_j : sum k (λ c. u c ⊕ u' c) ≡ u j ⊕ u' j
      only_j = sum_single k j _ hj (λ c hc ne.
          ap (λ (t : ℕ). u c ⊕ gf_mul (a (l * k + c)) t) (same c i hc ne) ∙ xor_self (u c))

      change : sum k u ⊕ gf_mul (a (l * k + j)) (src j i ⊕ src' j i) ≡ sum k u'
      change =
          ap (λ (t : ℕ). sum k u ⊕ t)
            (gf_mul-xor (a (l * k + j)) (src j i) (src' j i)
                (bytes (l * k + j) (offset-lt rows k l j hl hj)) (elem j i hj hi).0
                (elem j i hj hi).1
              ∙ sym only_j
              ∙ sum-xor u u' k)
          ∙ xor_cancel (sum k u) (sum k u')
