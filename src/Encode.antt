-- ===== src/Encode.antt =====
-- The table set-up and the encoders of erasure_code/ec_base.c. An array of pointers is a block of
-- blocks: the buffers that it points to do not overlap. A pointer that the source moves is an
-- offset that the state carries.
pub mod Tables
pub mod Init
pub mod Grid
pub mod Code
pub mod Update
pub mod Vect
pub mod Recover
mod Tests
use cerasure.Base.{
  ℕ, zero, suc, ◌+◌, ◌-◌, ◌*◌, ◌/◌, ◌%◌, ◌^◌, List, [], ◌∷◌, ◌==◌, if◌then◌else◌, Block, set,
  for_range, fill,
}
use cerasure.Bits.{◌⊕◌}
use cerasure.Gf.{gf_mul}
use cerasure.Gf.Double.{double}

-- t[k] = v for an unsigned long long, on a little-endian machine
pub store_u64 : ℕ → ℕ → Block ℕ → Block ℕ
store_u64 base v tbl = fill base 8 (λ k. v / 2 ^ (8 * k) % 256) tbl

abbrev u64 : ℕ → ℕ
u64 v = v % 2 ^ 64

-- The four words of the table, as computed where the machine word has 64 bits.
pub table_words : ℕ → List ℕ
table_words c =
    let c2 = double c in
    let c4 = double c2 in
    let c8 = double c4 in
    let v1 = u64 (c * 0x0100010001000100) in
    let v2 = u64 (c2 * 0x0101000001010000) in
    let v4 = u64 (c4 * 0x0101010100000000) in
    let v8 = u64 (c8 * 0x0101010101010101) in
    let v4' = v1 ⊕ v2 ⊕ v4 in
    let c17 = double c8 in
    let c18 = double c17 in
    let c20 = double c18 in
    let c24 = double c20 in
    let v10 = u64 (c17 * 0x0100010001000100) in
    let v20 = u64 (c18 * 0x0101000001010000) in
    let v40 = u64 (c20 * 0x0101010100000000) in
    let v80 = u64 (c24 * 0x0101010101010101) in
    let v40' = v10 ⊕ v20 ⊕ v40 in v4' ∷ (v8 ⊕ v4') ∷ v40' ∷ (v80 ⊕ v40') ∷ []

-- The words of a list, stored one after the other.
pub store_words : ℕ → List ℕ → Block ℕ → Block ℕ
store_words base [] tbl = tbl
store_words base (v ∷ vs) tbl = store_words (base + 8) vs (store_u64 base v tbl)

-- The 32 bytes of the table, as computed on any other machine.
pub table_bytes : ℕ → List ℕ
table_bytes c =
    let c2 = double c in
    let c4 = double c2 in
    let c8 = double c4 in
    let c3 = c2 ⊕ c in
    let c5 = c4 ⊕ c in
    let c6 = c4 ⊕ c2 in
    let c7 = c4 ⊕ c3 in
    let c9 = c8 ⊕ c in
    let c10 = c8 ⊕ c2 in
    let c11 = c8 ⊕ c3 in
    let c12 = c8 ⊕ c4 in
    let c13 = c8 ⊕ c5 in
    let c14 = c8 ⊕ c6 in
    let c15 = c8 ⊕ c7 in
    let c17 = double c8 in
    let c18 = double c17 in
    let c19 = c18 ⊕ c17 in
    let c20 = double c18 in
    let c21 = c20 ⊕ c17 in
    let c22 = c20 ⊕ c18 in
    let c23 = c20 ⊕ c19 in
    let c24 = double c20 in
    let c25 = c24 ⊕ c17 in
    let c26 = c24 ⊕ c18 in
    let c27 = c24 ⊕ c19 in
    let c28 = c24 ⊕ c20 in
    let c29 = c24 ⊕ c21 in
    let c30 = c24 ⊕ c22 in
    let c31 = c24 ⊕ c23 in
    0 ∷ c ∷ c2 ∷ c3 ∷ c4 ∷ c5 ∷ c6 ∷ c7 ∷ c8 ∷ c9 ∷ c10 ∷ c11 ∷ c12 ∷ c13 ∷ c14 ∷ c15 ∷ 0 ∷ c17
    ∷ c18 ∷ c19 ∷ c20 ∷ c21 ∷ c22 ∷ c23 ∷ c24 ∷ c25 ∷ c26 ∷ c27 ∷ c28 ∷ c29 ∷ c30 ∷ c31 ∷ []

-- The table for `c`, written from offset `base` on.
pub gf_vect_mul_init : ℕ → ℕ → Block ℕ → Block ℕ
gf_vect_mul_init c base tbl = store_words base (table_words c) tbl

pub store_bytes : ℕ → List ℕ → Block ℕ → Block ℕ
store_bytes base [] tbl = tbl
store_bytes base (b ∷ bs) tbl = store_bytes (base + 1) bs (set tbl base b)

pub gf_vect_mul_init_portable : ℕ → ℕ → Block ℕ → Block ℕ
gf_vect_mul_init_portable c base tbl = store_bytes base (table_bytes c) tbl

-- `a`, `g_tbls` and the tables behind it.
pub record Cursor : Type 0 where
  pub a : ℕ
  pub at : ℕ
  pub g_tbls : Block ℕ

-- One coefficient: gf_vect_mul_init(*a++, g_tbls); g_tbls += 32;
pub init_table : Block ℕ → ℕ → Cursor → Cursor
init_table a j s = record {
  a = s.a + 1;
  at = s.at + 32;
  g_tbls = gf_vect_mul_init (a s.a) s.at s.g_tbls;
}

pub ec_init_tables : ℕ → ℕ → Block ℕ → Block ℕ → Block ℕ
ec_init_tables k rows a g_tbls =
    (for_range rows 0 (λ i. for_range k 0 (init_table a))
      (record { a = 0; at = 0; g_tbls = g_tbls })).g_tbls

-- s = 0; for (j = 0; j < vlen; j++) s ^= gf_mul(src[j][i], v[j * 32 + at]);
pub dot_byte : ℕ → Block ℕ → Block (Block ℕ) → ℕ → ℕ → ℕ
dot_byte vlen v src at i = for_range vlen 0 (λ j s. s ⊕ gf_mul (src j i) (v (j * 32 + at))) 0

pub gf_vect_dot_prod_base : ℕ → ℕ → Block ℕ → Block (Block ℕ) → Block ℕ → Block ℕ
gf_vect_dot_prod_base len vlen v src dest =
    for_range len 0 (λ i dest. set dest i (dot_byte vlen v src 1 i)) dest

pub gf_vect_mad_base : ℕ → ℕ → ℕ → Block ℕ → Block ℕ → Block ℕ → Block ℕ
gf_vect_mad_base len vec vec_i v src dest =
    for_range len 0 (λ i dest. set dest i (dest i ⊕ gf_mul (src i) (v (vec_i * 32 + 1)))) dest

pub ec_encode_data_base : ℕ → ℕ → ℕ → Block ℕ → Block (Block ℕ) → Block (Block ℕ) → Block (Block ℕ)
ec_encode_data_base len srcs dests v src dest =
    for_range dests 0
      (λ l dest.
        for_range len 0
          (λ i dest. set dest l (set (dest l) i (dot_byte srcs v src (l * srcs * 32 + 1) i))) dest)
      dest

pub ec_encode_data_update_base :
    ℕ → ℕ → ℕ → ℕ → Block ℕ → Block ℕ → Block (Block ℕ) → Block (Block ℕ)
ec_encode_data_update_base len k rows vec_i v data_buf dest =
    for_range rows 0
      (λ l dest.
        for_range len 0
          (λ i dest.
            set dest l
              (set (dest l) i (dest l i ⊕ gf_mul (data_buf i) (v (vec_i * 32 + l * k * 32 + 1)))))
          dest)
      dest

-- while (len-- > 0) *dest++ = gf_mul(c, *src++);  with both pointers at offset i
pub gf_vect_mul_base : ℕ → Block ℕ → Block ℕ → Block ℕ → Block ℕ
gf_vect_mul_base len a src dest = for_range len 0 (λ i dest. set dest i (gf_mul (a 1) (src i))) dest
