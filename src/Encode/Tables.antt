-- ===== src/Encode/Tables.antt =====
-- The 32 bytes of a multiplication table of `gf_vect_mul_init`, on either kind of machine: entries for
-- the 16 low and the 16 high half bytes.
use cerasure.Base.{
  ℕ, zero, suc, ◌+◌, ◌-◌, ◌*◌, ◌/◌, ◌%◌, ◌^◌, ◌<◌, ◌≤◌, ◌≡◌, refl, sym, ap, ap₂, fun_ext, ◌∙◌, ◌⊎◌,
  inl, inr, arith, List, [], ◌∷◌, length, get_or, Block, set, set_self, set_ne, fill_inside,
  fill_outside, all_below, all_below-true, eq_below, ◌==◌, ltb, if◌then◌else◌, dec_lt,
}
use cerasure.Bits.{◌⊕◌}
use cerasure.Gf.{gf_mul}
use cerasure.Gf.Laws.{gf_mul-xor}
use cerasure.Gf.Double.{double}
use cerasure.Encode.{
  gf_vect_mul_init, gf_vect_mul_init_portable, store_words, table_words, store_u64, table_bytes,
  store_bytes,
}

-- Entry p of the table for c.
unfoldable pub table_entry : ℕ → ℕ → ℕ
table_entry c p = if ltb p 16 then gf_mul c p else gf_mul c (16 * (p - 16))

abbrev word_byte : List ℕ → ℕ → ℕ
word_byte ws p = get_or ws (p / 8) 0 / 2 ^ (8 * (p % 8)) % 256

words_right : (c p : ℕ) → c < 256 → p < 32 → word_byte (table_words c) p ≡ table_entry c p
words_right c p hc hp =
    eq_below 32 (word_byte (table_words c)) (table_entry c)
      (all_below-true 256 (λ c. all_below 32 (λ p. word_byte (table_words c) p == table_entry c p))
        c (unfold all_below table_words table_entry gf_mul double in refl) hc)
      p hp

bytes_right : (c p : ℕ) → c < 256 → p < 32 → get_or (table_bytes c) p 0 ≡ table_entry c p
bytes_right c p hc hp =
    eq_below 32 (λ p. get_or (table_bytes c) p 0) (table_entry c)
      (all_below-true 256 (λ c. all_below 32 (λ p. get_or (table_bytes c) p 0 == table_entry c p)) c
        (unfold all_below table_bytes table_entry gf_mul double in refl) hc)
      p hp

store_words_outside :
    (base : ℕ) (ws : List ℕ) (tbl : Block ℕ) (q : ℕ)
    → (q < base) ⊎ (base + 8 * length ws ≤ q)
    → store_words base ws tbl q ≡ tbl q
unfolding store_words store_u64
store_words_outside base [] tbl q away = refl
store_words_outside base (v ∷ vs) tbl q away =
    store_words_outside (base + 8) vs (store_u64 base v tbl) q (ground arith)
    ∙ fill_outside base 8 _ tbl q (ground arith)

store_words_inside :
    (base : ℕ) (ws : List ℕ) (tbl : Block ℕ) (q b : ℕ)
    → q < length ws
    → b < 8
    → store_words base ws tbl (base + 8 * q + b) ≡ get_or ws q 0 / 2 ^ (8 * b) % 256
unfolding store_words store_u64
store_words_inside base [] tbl q b hq hb = absurd (omega arith)
store_words_inside base (v ∷ vs) tbl zero b hq hb =
    ap (store_words (base + 8) vs (store_u64 base v tbl)) {x = base + 8 * 0 + b} {y = base + b}
      (omega arith)
    ∙ store_words_outside (base + 8) vs (store_u64 base v tbl) (base + b) (inl (omega arith))
    ∙ fill_inside base 8 _ tbl b hb
store_words_inside base (v ∷ vs) tbl (suc q) b hq hb =
    ap (store_words (base + 8) vs (store_u64 base v tbl)) {x = base + 8 * suc q + b}
      {y = base + 8 + 8 * q + b} (omega arith)
    ∙ store_words_inside (base + 8) vs (store_u64 base v tbl) q b (omega arith) hb

pub gf_vect_mul_init_inside :
    (c base : ℕ) (tbl : Block ℕ) (p : ℕ)
    → c < 256
    → p < 32
    → gf_vect_mul_init c base tbl (base + p) ≡ table_entry c p
unfolding gf_vect_mul_init
gf_vect_mul_init_inside c base tbl p hc hp =
    ap (store_words base (table_words c) tbl) {x = base + p} {y = base + 8 * (p / 8) + p % 8}
      (omega arith)
    ∙ store_words_inside base (table_words c) tbl (p / 8) (p % 8)
        (unfold table_words in omega arith) (omega arith)
    ∙ words_right c p hc hp

pub gf_vect_mul_init_outside :
    (c base : ℕ) (tbl : Block ℕ) (q : ℕ)
    → (q < base) ⊎ (base + 32 ≤ q)
    → gf_vect_mul_init c base tbl q ≡ tbl q
unfolding gf_vect_mul_init table_words
gf_vect_mul_init_outside c base tbl q away =
    store_words_outside base (table_words c) tbl q (ground arith)

store_bytes_outside :
    (base : ℕ) (bs : List ℕ) (tbl : Block ℕ) (q : ℕ)
    → (q < base) ⊎ (base + length bs ≤ q)
    → store_bytes base bs tbl q ≡ tbl q
unfolding store_bytes
store_bytes_outside base [] tbl q away = refl
store_bytes_outside base (b ∷ bs) tbl q away =
    store_bytes_outside (base + 1) bs (set tbl base b) q (ground arith)
    ∙ set_ne tbl base q b (ground arith)

store_bytes_inside :
    (base : ℕ) (bs : List ℕ) (tbl : Block ℕ) (p : ℕ)
    → p < length bs
    → store_bytes base bs tbl (base + p) ≡ get_or bs p 0
unfolding store_bytes
store_bytes_inside base [] tbl p hp = absurd (omega arith)
store_bytes_inside base (b ∷ bs) tbl zero hp =
    ap (store_bytes (base + 1) bs (set tbl base b)) {x = base + 0} {y = base} (omega arith)
    ∙ store_bytes_outside (base + 1) bs (set tbl base b) base (inl (omega arith))
    ∙ set_self tbl base b
store_bytes_inside base (b ∷ bs) tbl (suc p) hp =
    ap (store_bytes (base + 1) bs (set tbl base b)) {x = base + suc p} {y = base + 1 + p}
      (omega arith)
    ∙ store_bytes_inside (base + 1) bs (set tbl base b) p (omega arith)

portable_inside :
    (c base : ℕ) (tbl : Block ℕ) (p : ℕ)
    → c < 256
    → p < 32
    → gf_vect_mul_init_portable c base tbl (base + p) ≡ table_entry c p
unfolding gf_vect_mul_init_portable
portable_inside c base tbl p hc hp =
    store_bytes_inside base (table_bytes c) tbl p (unfold table_bytes in omega arith)
    ∙ bytes_right c p hc hp

portable_outside :
    (c base : ℕ) (tbl : Block ℕ) (q : ℕ)
    → (q < base) ⊎ (base + 32 ≤ q)
    → gf_vect_mul_init_portable c base tbl q ≡ tbl q
unfolding gf_vect_mul_init_portable table_bytes
portable_outside c base tbl q away = store_bytes_outside base (table_bytes c) tbl q (ground arith)

-- For a byte c, both branches of the conditional compilation in `gf_vect_mul_init` leave the same memory.
gf_vect_mul_init-portable :
    (c base : ℕ) (tbl : Block ℕ)
    → c < 256
    → gf_vect_mul_init c base tbl ≡ gf_vect_mul_init_portable c base tbl
gf_vect_mul_init-portable c base tbl hc = fun_ext λ q. elim (dec_lt q base) [
  | yes lt ↦
      gf_vect_mul_init_outside c base tbl q (inl lt) ∙ sym (portable_outside c base tbl q (inl lt))
  | no ge ↦ elim (dec_lt q (base + 32)) [
    | yes lt ↦
        let e : base + (q - base) ≡ q = omega (arith, ge) in
        rw (← e) (
          gf_vect_mul_init_inside c base tbl (q - base) hc (omega (arith, ge))
          ∙ sym (portable_inside c base tbl (q - base) hc (omega (arith, ge))))
    | no far ↦
        gf_vect_mul_init_outside c base tbl q (inr (omega (arith, far)))
        ∙ sym (portable_outside c base tbl q (inr (omega (arith, far))))
  ]
]

halves : (x : ℕ) → x < 256 → (x % 16) ⊕ (16 * (x / 16)) ≡ x
halves = eq_below 256 (λ x. (x % 16) ⊕ (16 * (x / 16))) (λ x. x) (unfold all_below in refl)

-- Two look-ups in the table of a byte c, by the low and the high half of a byte, add up to the product
-- of c and the byte, wherever the table lies; nothing outside its 32 bytes is written; and both
-- branches of the conditional compilation in `gf_vect_mul_init` leave the same memory.
pub gf_vect_mul_init-gf_mul :
    (c base : ℕ) (tbl : Block ℕ)
    → c < 256
    → ((x : ℕ)
        → x < 256
        → gf_vect_mul_init c base tbl (base + x % 16)
            ⊕ gf_vect_mul_init c base tbl (base + (16 + x / 16))
          ≡ gf_mul c x)
      × ((q : ℕ) → (q < base) ⊎ (base + 32 ≤ q) → gf_vect_mul_init c base tbl q ≡ tbl q)
      × (gf_vect_mul_init c base tbl ≡ gf_vect_mul_init_portable c base tbl)
gf_vect_mul_init-gf_mul c base tbl hc = (
  λ x hx.
      ap₂ ◌⊕◌
        (gf_vect_mul_init_inside c base tbl (x % 16) hc (omega arith) ∙ low (x % 16) (omega arith))
        (gf_vect_mul_init_inside c base tbl (16 + x / 16) hc (omega arith) ∙ high (x / 16))
      ∙ sym (gf_mul-xor c (x % 16) (16 * (x / 16)) hc (omega arith) (omega arith))
      ∙ ap (gf_mul c) (halves x hx),
  gf_vect_mul_init_outside c base tbl,
  gf_vect_mul_init-portable c base tbl hc,
)
  where
    low : (p : ℕ) → p < 16 → table_entry c p ≡ gf_mul c p
    low p hp = unfold table_entry in ground arith

    high : (p : ℕ) → table_entry c (16 + p) ≡ gf_mul c (16 * p)
    high p =
        table_high (16 + p) (omega arith)
        ∙ ap (gf_mul c) {x = 16 * (16 + p - 16)} {y = 16 * p} (omega arith)
      where
        table_high : (q : ℕ) → 16 ≤ q → table_entry c q ≡ gf_mul c (16 * (q - 16))
        table_high q hq = unfold table_entry in ground arith
