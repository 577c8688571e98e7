-- ===== src/Encode/Tests.antt =====
-- The encoders on two buffers of two bytes.
use cerasure.Base.{
  ℕ, zero, suc, ◌+◌, ◌*◌, ◌/◌, ◌%◌, ◌<◌, ◌≤◌, ◌≡◌, ◌≢◌, ◌⊎◌, refl, arith, [], ◌∷◌, Block, of_list,
  of_list-lt, for_range, set,
}
use cerasure.Bits.{◌⊕◌}
use cerasure.Gf.{gf_mul, gf_inv}
use cerasure.Invert.{ok, gf_invert_matrix}
use cerasure.Encode.{
  gf_vect_mul_init, gf_vect_mul_init_portable, ec_init_tables, ec_encode_data_base,
  ec_encode_data_update_base, gf_vect_dot_prod_base, gf_vect_mad_base, gf_vect_mul_base,
}
use cerasure.Encode.Tables.{gf_vect_mul_init-gf_mul}
use cerasure.Encode.Code.{product, ec_encode_data_base-product}
use cerasure.Encode.Update.{update_all, update_all-ec_encode_data_base, update_difference}
use cerasure.Encode.Vect.{gf_vect_base-ec_encode}
use cerasure.Encode.Recover.{ec_encode_data_base_recovers}

abbrev blank : Block ℕ
blank p = 0

abbrev no_buffers : Block (Block ℕ)
no_buffers p = blank

-- A 3 by 2 matrix with the identity on top.
abbrev matrix : Block ℕ
matrix = of_list (1 ∷ 0 ∷ 0 ∷ 1 ∷ 3 ∷ 2 ∷ [])

matrix-lt : (i : ℕ) → matrix i < 256
matrix-lt = of_list-lt 256 (1 ∷ 0 ∷ 0 ∷ 1 ∷ 3 ∷ 2 ∷ []) (omega arith)

abbrev buffers : Block (Block ℕ)
buffers zero = of_list (17 ∷ 200 ∷ [])
buffers (suc c) = of_list (34 ∷ 1 ∷ [])

buffers-lt : (c i : ℕ) → c < 2 → i < 2 → buffers c i < 256
buffers-lt zero i hc hi = of_list-lt 256 (17 ∷ 200 ∷ []) (omega arith) i
buffers-lt (suc c) i hc hi = of_list-lt 256 (34 ∷ 1 ∷ []) (omega arith) i

-- The second buffer of the two is another one.
abbrev changed : Block (Block ℕ)
changed zero = of_list (17 ∷ 200 ∷ [])
changed (suc c) = of_list (35 ∷ 9 ∷ [])

changed-lt : (c i : ℕ) → c < 2 → i < 2 → changed c i < 256
changed-lt zero i hc hi = of_list-lt 256 (17 ∷ 200 ∷ []) (omega arith) i
changed-lt (suc c) i hc hi = of_list-lt 256 (35 ∷ 9 ∷ []) (omega arith) i

only_second : (c i : ℕ) → c < 2 → c ≢ 1 → changed c i ≡ buffers c i
only_second zero i hc ne = refl
only_second (suc zero) i hc ne = absurd (ne refl)
only_second (suc (suc c)) i hc ne = absurd (omega arith)

gf_vect_mul_init-gf_mul_example :
    ((x : ℕ)
      → x < 256
      → gf_vect_mul_init 29 64 blank (64 + x % 16)
          ⊕ gf_vect_mul_init 29 64 blank (64 + (16 + x / 16))
        ≡ gf_mul 29 x)
    × ((q : ℕ) → (q < 64) ⊎ (64 + 32 ≤ q) → gf_vect_mul_init 29 64 blank q ≡ blank q)
    × (gf_vect_mul_init 29 64 blank ≡ gf_vect_mul_init_portable 29 64 blank)
gf_vect_mul_init-gf_mul_example = gf_vect_mul_init-gf_mul 29 64 blank (omega arith)

ec_encode_data_base-product_example :
    let coded = ec_encode_data_base 2 2 3 (ec_init_tables 2 3 matrix blank) buffers no_buffers in
    ((l i : ℕ) → l < 3 → i < 2 → coded l i ≡ product 2 matrix buffers l i)
    × ((l i : ℕ) → (3 ≤ l) ⊎ (2 ≤ i) → coded l i ≡ 0)
ec_encode_data_base-product_example =
    ec_encode_data_base-product 2 3 matrix blank (λ i h. matrix-lt i) 2 buffers no_buffers

update_all-ec_encode_data_base_example :
    update_all 2 3 matrix blank (λ i h. matrix-lt i) 2 buffers no_buffers 2 1
    ≡ ec_encode_data_base 2 2 3 (ec_init_tables 2 3 matrix blank) buffers buffers 2 1
update_all-ec_encode_data_base_example =
    update_all-ec_encode_data_base 2 3 matrix blank (λ i h. matrix-lt i) 2 buffers no_buffers
      buffers (λ l i hl hi. refl) 2 1 (omega arith) (omega arith)

update_difference_example :
    ec_encode_data_update_base 2 2 3 1
      (ec_init_tables 2 3 matrix blank)
      (λ i. buffers 1 i ⊕ changed 1 i)
      (ec_encode_data_base 2 2 3 (ec_init_tables 2 3 matrix blank) buffers no_buffers)
      2
      0
    ≡ ec_encode_data_base 2 2 3 (ec_init_tables 2 3 matrix blank) changed no_buffers 2 0
update_difference_example =
    update_difference 2 3 matrix blank (λ i h. matrix-lt i) 2 1 buffers changed no_buffers
      (omega arith) (λ c i hc hi. (buffers-lt c i hc hi, changed-lt c i hc hi))
      (λ c i hc ne. only_second c i hc ne) 2 0 (omega arith) (omega arith)

-- Buffers 1 and 2 survive.
abbrev later : ℕ → ℕ
later r = r + 1

abbrev survivors : Block ℕ
survivors = of_list (0 ∷ 1 ∷ 3 ∷ 2 ∷ [])

survivors_rows : (r c : ℕ) → r < 2 → c < 2 → survivors (r * 2 + c) ≡ matrix (later r * 2 + c)
survivors_rows zero zero hr hc = refl
survivors_rows zero (suc zero) hr hc = refl
survivors_rows zero (suc (suc c)) hr hc = absurd (omega arith)
survivors_rows (suc zero) zero hr hc = refl
survivors_rows (suc zero) (suc zero) hr hc = refl
survivors_rows (suc zero) (suc (suc c)) hr hc = absurd (omega arith)
survivors_rows (suc (suc r)) c hr hc = absurd (omega arith)

survivors_invert : (gf_invert_matrix survivors blank 2).0 ≡ ok
unfolding gf_invert_matrix gf_mul gf_inv for_range set
survivors_invert = refl

ec_encode_data_base_recovers_example :
    ec_encode_data_base 2 2 2
      (ec_init_tables 2 2 (gf_invert_matrix survivors blank 2).1.out_mat blank)
      (λ r.
        ec_encode_data_base 2 2 3 (ec_init_tables 2 3 matrix blank) buffers no_buffers (later r))
      no_buffers
      0
      1
    ≡ 200
ec_encode_data_base_recovers_example =
    ec_encode_data_base_recovers 2 3 2 matrix survivors blank blank blank buffers no_buffers
      no_buffers later (λ i h. matrix-lt i) buffers-lt (λ r h. omega arith) survivors_rows
      survivors_invert 0 1 (omega arith) (omega arith)

gf_vect_base-ec_encode_example :
    let v = ec_init_tables 2 3 matrix blank in
    let out = gf_vect_mul_base 2 (gf_vect_mul_init 29 0 blank) (buffers 1) (buffers 2) in
    (ec_encode_data_base 2 2 3 v buffers buffers 2
      ≡ gf_vect_dot_prod_base 2 2 (λ q. v (2 * 2 * 32 + q)) buffers (buffers 2))
    × (ec_encode_data_update_base 2 2 3 1 v (buffers 1) buffers 2
        ≡ gf_vect_mad_base 2 2 1 (λ q. v (2 * 2 * 32 + q)) (buffers 1) (buffers 2))
    × ((i : ℕ) → i < 2 → out i ≡ gf_mul 29 (buffers 1 i))
    × ((i : ℕ) → 2 ≤ i → out i ≡ buffers 2 i)
gf_vect_base-ec_encode_example =
    gf_vect_base-ec_encode 2 2 3 1 29 (ec_init_tables 2 3 matrix blank) blank (buffers 1) buffers
      buffers 2 (omega arith) (omega arith)
