-- ===== src/Encode/Vect.antt =====
-- The functions of erasure_code/ec_base.c for one destination, against the encoders for many.
use cerasure.Base.{
  ℕ, suc, ◌+◌, ◌*◌, ◌<◌, ◌≤◌, ◌≡◌, refl, sym, ap, ◌∙◌, fun_ext, arith, Block, set, set_self, set_ne,
  for_range, for_range_inv, ℕ_discrete, dec_lt, inr,
}
use cerasure.Bits.{◌⊕◌}
use cerasure.Gf.{gf_mul}
use cerasure.Encode.{
  gf_vect_mul_init, dot_byte, gf_vect_dot_prod_base, gf_vect_mad_base, gf_vect_mul_base,
  ec_encode_data_base, ec_encode_data_update_base,
}
use cerasure.Encode.Tables.{gf_vect_mul_init_inside}
use cerasure.Encode.Code.{entry_one}
use cerasure.Encode.Grid.{grid_inside, grid_outside}

-- A loop that rewrites byte i of one buffer from its old value, for i < len.
module _ (g : ℕ → ℕ → ℕ) (len : ℕ) (dest : Block ℕ) where
  record Rewritten (k : ℕ) (d : Block ℕ) : Type 0 where
    inside : (i : ℕ) → i < k → d i ≡ g i (dest i)
    outside : (i : ℕ) → k ≤ i → d i ≡ dest i

  Rewritten-set : (k : ℕ) (d : Block ℕ) → Rewritten k d → Rewritten (suc k) (set d k (g k (d k)))
  Rewritten-set k d w = record {
    inside = λ i hi. elim (ℕ_discrete i k) [
      | yes e ↦ rw e (set_self d k _ ∙ ap (g k) (w.outside k (omega arith)))
      | no ne ↦ set_ne d k i _ (omega (arith, ne)) ∙ w.inside i (omega (arith, ne))
    ];
    outside = λ i hi. set_ne d k i _ (omega arith) ∙ w.outside i (omega arith);
  }

  Rewritten-all : Rewritten len (for_range len 0 (λ i d. set d i (g i (d i))) dest)
  Rewritten-all =
      for_range_inv Rewritten (λ i d. set d i (g i (d i))) 0 len
        (λ k d lo hi w. Rewritten-set k d w) len 0 dest (omega arith) (omega arith)
        (record { inside = λ i h. absurd (omega arith); outside = λ i h. refl })

  -- A buffer that agrees with it on both sides of len is the one that it leaves.
  Rewritten-unique :
      (b : Block ℕ)
      → ((i : ℕ) → i < len → b i ≡ g i (dest i))
      → ((i : ℕ) → len ≤ i → b i ≡ dest i)
      → b ≡ for_range len 0 (λ i d. set d i (g i (d i))) dest
  Rewritten-unique b inner outer = fun_ext λ i. elim (dec_lt i len) [
    | yes lt ↦ inner i lt ∙ sym (Rewritten-all.inside i lt)
    | no ge ↦ outer i (omega (arith, ge)) ∙ sym (Rewritten-all.outside i (omega (arith, ge)))
  ]

-- Buffer l of the full encoding is the dot product of the data with the tables from row l on.
ec_encode_data_base-gf_vect_dot_prod_base :
    (len srcs dests : ℕ) (v : Block ℕ) (src dest : Block (Block ℕ)) (l : ℕ)
    → l < dests
    → ec_encode_data_base len srcs dests v src dest l
      ≡ gf_vect_dot_prod_base len srcs (λ q. v (l * srcs * 32 + q)) src (dest l)
unfolding ec_encode_data_base gf_vect_dot_prod_base dot_byte
ec_encode_data_base-gf_vect_dot_prod_base len srcs dests v src dest l hl =
    Rewritten-unique (λ i old. dot_byte srcs (λ q. v (l * srcs * 32 + q)) src 1 i) len (dest l) _
      (λ i hi.
        grid_inside (λ l i old. dot_byte srcs v src (l * srcs * 32 + 1) i) len dests dest l i hl hi
        ∙ ap (λ (t : ℕ → ℕ). for_range srcs 0 (λ j s. s ⊕ gf_mul (src j i) (t j)) 0)
            (fun_ext λ j. ap v {x = j * 32 + (l * srcs * 32 + 1)} (omega arith)))
      (λ i hi.
        grid_outside (λ l i old. dot_byte srcs v src (l * srcs * 32 + 1) i) len dests dest l i
          (inr hi))

-- Buffer l of the update is the multiply-and-add of that buffer with the tables from row l on.
ec_encode_data_update_base-gf_vect_mad_base :
    (len k rows vec_i : ℕ) (v data_buf : Block ℕ) (dest : Block (Block ℕ)) (l : ℕ)
    → l < rows
    → ec_encode_data_update_base len k rows vec_i v data_buf dest l
      ≡ gf_vect_mad_base len k vec_i (λ q. v (l * k * 32 + q)) data_buf (dest l)
unfolding ec_encode_data_update_base gf_vect_mad_base
ec_encode_data_update_base-gf_vect_mad_base len k rows vec_i v data_buf dest l hl =
    Rewritten-unique (λ i old. old ⊕ gf_mul (data_buf i) (v (l * k * 32 + (vec_i * 32 + 1)))) len
      (dest l) _
      (λ i hi.
        grid_inside (λ l i old. old ⊕ gf_mul (data_buf i) (v (vec_i * 32 + l * k * 32 + 1))) len
          rows dest l i hl hi
        ∙ ap (λ (t : ℕ). dest l i ⊕ gf_mul (data_buf i) (v t)) (omega arith))
      (λ i hi.
        grid_outside (λ l i old. old ⊕ gf_mul (data_buf i) (v (vec_i * 32 + l * k * 32 + 1))) len
          rows dest l i (inr hi))

second_byte : (c : ℕ) (tbl : Block ℕ) → c < 256 → gf_vect_mul_init c 0 tbl 1 ≡ c
second_byte c tbl hc =
    ap (gf_vect_mul_init c 0 tbl) {x = 1} {y = 0 + 1} (omega arith)
    ∙ gf_vect_mul_init_inside c 0 tbl 1 hc (omega arith)
    ∙ entry_one c hc

-- On the table that `gf_vect_mul_init` writes for a byte c, `gf_vect_mul_base` multiplies len bytes
-- by c, and writes nothing else.
gf_vect_mul_base-gf_vect_mul_init :
    (len c : ℕ) (tbl src dest : Block ℕ)
    → c < 256
    → let out = gf_vect_mul_base len (gf_vect_mul_init c 0 tbl) src dest in
      ((i : ℕ) → i < len → out i ≡ gf_mul c (src i)) × ((i : ℕ) → len ≤ i → out i ≡ dest i)
unfolding gf_vect_mul_base
gf_vect_mul_base-gf_vect_mul_init len c tbl src dest hc =
    let g = λ (i old : ℕ). gf_mul (gf_vect_mul_init c 0 tbl 1) (src i) in
    (
      λ i hi.
          (Rewritten-all g len dest).inside i hi
          ∙ ap (λ (t : ℕ). gf_mul t (src i)) (second_byte c tbl hc),
      (Rewritten-all g len dest).outside,
    )

-- Buffer l of the full encoding is the dot product of the data with the tables from row l on, and
-- that of an update the multiply-and-add of that buffer with those tables. On the table that
-- `gf_vect_mul_init` writes for a byte c, `gf_vect_mul_base` multiplies len bytes by c, and writes
-- nothing else.
pub gf_vect_base-ec_encode :
    (len k rows vec_i c : ℕ) (v tbl data_buf : Block ℕ) (src dest : Block (Block ℕ)) (l : ℕ)
    → l < rows
    → c < 256
    → let out = gf_vect_mul_base len (gf_vect_mul_init c 0 tbl) data_buf (dest l) in
      (ec_encode_data_base len k rows v src dest l
        ≡ gf_vect_dot_prod_base len k (λ q. v (l * k * 32 + q)) src (dest l))
      × (ec_encode_data_update_base len k rows vec_i v data_buf dest l
          ≡ gf_vect_mad_base len k vec_i (λ q. v (l * k * 32 + q)) data_buf (dest l))
      × ((i : ℕ) → i < len → out i ≡ gf_mul c (data_buf i))
      × ((i : ℕ) → len ≤ i → out i ≡ dest l i)
gf_vect_base-ec_encode len k rows vec_i c v tbl data_buf src dest l hl hc =
    let (inside, outside) = gf_vect_mul_base-gf_vect_mul_init len c tbl data_buf (dest l) hc in
    (
      ec_encode_data_base-gf_vect_dot_prod_base len k rows v src dest l hl,
      ec_encode_data_update_base-gf_vect_mad_base len k rows vec_i v data_buf dest l hl,
      inside,
      outside,
    )
