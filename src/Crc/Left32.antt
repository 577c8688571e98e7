-- ===== src/Crc/Left32.antt =====
-- The functions of crc/crc_base.c that shift left, against those of crc/crc_ref.h, which do not
-- cut the remainder down to the width of the check before they return.
use cerasure.Base.{
  ℕ, ◌*◌, ◌/◌, ◌%◌, ◌^◌, ◌<◌, ◌≡◌, refl, sym, ap, ◌∙◌, arith, Block, get_or, for_range,
  for_range_rel, for_range_inv, eq_below, all_below,
}
use native.Mathlib.Nat.{mod-eq_of_lt}
use cerasure.Bits.{◌⊕◌, xor_comm, xor-lt, xor-mod}
use cerasure.Crc.{not32, not64, ieee_byte, crc16_byte, crc16_t10dif_base, crc32_ieee_base}
use cerasure.Crc.Tables.{crc16tab, crc32_table_ieee_norm}
use cerasure.Crc.Ref.{wide_bit, wide_ref, crc16_t10dif_ref, crc32_ieee_ref}
use cerasure.Crc.Rounds.{taken, rounds-lt}
use cerasure.Crc.LeftRounds.{norm_bit, norm_rounds, norm_bit-lt, wide_rounds}
use cerasure.Crc.Word64.{Bytes}

low16 : (x : ℕ) → x * 2 % 2 ^ 64 % 2 ^ 16 ≡ x % 2 ^ 16 * 2 % 2 ^ 16
low16 x = omega arith

top16 : (x : ℕ) → x * 2 % 2 ^ 64 / 2 ^ 16 % 2 ≡ x % 2 ^ 16 / 2 ^ 15 % 2
top16 x = omega arith

low32 : (x : ℕ) → x * 2 % 2 ^ 64 % 2 ^ 32 ≡ x % 2 ^ 32 * 2 % 2 ^ 32
low32 x = omega arith

top32 : (x : ℕ) → x * 2 % 2 ^ 64 / 2 ^ 32 % 2 ≡ x % 2 ^ 32 / 2 ^ 31 % 2
top32 x = omega arith

-- A loop of narrow bytes against one of wide bytes.
module _ (w : ℕ) (narrow wide : ℕ → ℕ → ℕ)
    (agree : (byte rem : ℕ) → byte < 256 → wide byte rem % 2 ^ w ≡ narrow byte (rem % 2 ^ w)) where
  narrow_loops :
      (buf : Block ℕ) (len seed : ℕ)
      → Bytes buf len
      → for_range len 0 (λ i. wide (buf i)) seed % 2 ^ w
        ≡ for_range len 0 (λ i. narrow (buf i)) (seed % 2 ^ w)
  narrow_loops buf len seed hb =
      for_range_rel (λ s t. t % 2 ^ w ≡ s) (λ i. narrow (buf i)) (λ i. wide (buf i)) 0 len
        (λ i s t lo hi e. agree (buf i) t (hb i hi) ∙ ap (narrow (buf i)) e) len 0 _ seed
        (omega arith) (omega arith) refl

entries16 :
    (q : ℕ) → q < 256 → get_or crc16tab q 0 ≡ for_range 8 0 (λ j. norm_bit 8 0x8bb7) (q * 2 ^ 8)
entries16 =
    eq_below 256 (λ q. get_or crc16tab q 0)
      (λ q. for_range 8 0 (λ j. norm_bit 8 0x8bb7) (q * 2 ^ 8))
      (unfold all_below for_range norm_bit taken in refl)

entries32 :
    (q : ℕ)
    → q < 256
    → get_or crc32_table_ieee_norm q 0 ≡ for_range 8 0 (λ j. norm_bit 24 0x04C11DB7) (q * 2 ^ 24)
entries32 =
    eq_below 256 (λ q. get_or crc32_table_ieee_norm q 0)
      (λ q. for_range 8 0 (λ j. norm_bit 24 0x04C11DB7) (q * 2 ^ 24))
      (unfold all_below for_range norm_bit taken in refl)

rounds16-lt : (x : ℕ) → x < 2 ^ 16 → for_range 8 0 (λ j. norm_bit 8 0x8bb7) x < 2 ^ 16
rounds16-lt = rounds-lt (norm_bit 8 0x8bb7) 16 (λ a ha. norm_bit-lt 8 0x8bb7 a (omega arith)) 8

crc16_byte-rounds :
    (byte crc : ℕ)
    → byte < 256
    → crc < 2 ^ 16
    → crc16_byte byte crc ≡ for_range 8 0 (λ j. norm_bit 8 0x8bb7) (crc ⊕ (byte * 2 ^ 8))
unfolding crc16_byte
crc16_byte-rounds byte crc hb hc =
    let word = crc * 256 in
    ap (λ (t : ℕ). (word ⊕ t) % 2 ^ 16) (entries16 _ (omega arith))
    ∙ xor-mod 16 word _
    ∙ ap (λ (t : ℕ). word % 2 ^ 16 ⊕ t) (mod-eq_of_lt (rounds16-lt _ (omega arith)))
    ∙ xor_comm (word % 2 ^ 16) _
    ∙ sym (norm_rounds 8 0x8bb7 crc byte hc hb)

ieee_byte-rounds :
    (byte crc : ℕ)
    → byte < 256
    → crc < 2 ^ 32
    → ieee_byte byte crc ≡ for_range 8 0 (λ j. norm_bit 24 0x04C11DB7) (crc ⊕ (byte * 2 ^ 24))
unfolding ieee_byte
ieee_byte-rounds byte crc hb hc =
    ap (λ (t : ℕ). crc * 256 % 2 ^ 32 ⊕ t) (entries32 _ (omega arith))
    ∙ xor_comm (crc * 256 % 2 ^ 32) _
    ∙ sym (norm_rounds 24 0x04C11DB7 crc byte hc hb)

-- On a buffer of bytes and a seed of 16 bits, `crc16_t10dif_base` returns what
-- `crc16_t10dif_ref` does.
pub crc16_t10dif_base-crc16_t10dif_ref :
    (seed : ℕ) (buf : Block ℕ) (len : ℕ)
    → Bytes buf len
    → seed < 2 ^ 16
    → crc16_t10dif_base seed buf len ≡ crc16_t10dif_ref seed buf len
unfolding crc16_t10dif_base crc16_t10dif_ref wide_ref
crc16_t10dif_base-crc16_t10dif_ref seed buf len hb hs =
    ap (for_range len 0 (λ i. crc16_byte (buf i))) (sym (mod-eq_of_lt hs))
    ∙ sym (
        narrow_loops 16 crc16_byte
          (λ byte rem. for_range 8 0 (λ j. wide_bit 16 0x8bb7) (rem ⊕ (byte * 2 ^ 8)))
          (λ byte rem h.
            wide_rounds 8 0x8bb7 (omega arith) low16 top16 rem byte h
            ∙ sym (crc16_byte-rounds byte (rem % 2 ^ 16) h (omega arith)))
          buf len seed hb)

wide_bit-lt : (x : ℕ) → wide_bit 32 0x04C11DB7 x < 2 ^ 64
unfolding wide_bit
wide_bit-lt x =
    let y = x * 2 % 2 ^ 64 in
    let hy : y < 2 ^ 64 = omega arith in ground (arith, hy, xor-lt 64 y 0x04C11DB7 hy (omega arith))

wide_loop-lt :
    (buf : Block ℕ) (len seed : ℕ)
    → Bytes buf len
    → seed < 2 ^ 64
    → wide_ref 32 0x04C11DB7 buf len seed < 2 ^ 64
unfolding wide_ref
wide_loop-lt buf len seed hb hs =
    for_range_inv (λ i rem. rem < 2 ^ 64)
      (λ i rem. for_range 8 0 (λ j. wide_bit 32 0x04C11DB7) (rem ⊕ (buf i * 2 ^ 24))) 0 len
      (λ i rem lo hi h.
        rounds-lt (wide_bit 32 0x04C11DB7) 64 (λ a ha. wide_bit-lt a) 8 _
          (xor-lt 64 rem (buf i * 2 ^ 24) h (omega (arith, hb i hi))))
      len 0 seed (omega arith) (omega arith) hs

not64-mod : (x : ℕ) → x < 2 ^ 64 → not64 x % 2 ^ 32 ≡ not32 (x % 2 ^ 32)
not64-mod x h = omega arith

-- On a buffer of bytes, `crc32_ieee_base` returns what `crc32_ieee_ref` does.
pub crc32_ieee_base-crc32_ieee_ref :
    (seed : ℕ) (buf : Block ℕ) (len : ℕ)
    → Bytes buf len
    → crc32_ieee_base seed buf len ≡ crc32_ieee_ref seed buf len
unfolding crc32_ieee_base crc32_ieee_ref wide_ref
crc32_ieee_base-crc32_ieee_ref seed buf len hb =
    ap (λ (t : ℕ). not32 (for_range len 0 (λ i. ieee_byte (buf i)) t))
      (sym (mod-eq_of_lt {n = not32 seed} {m = 2 ^ 32} (omega arith)))
    ∙ ap not32 (
        sym (
          narrow_loops 32 ieee_byte
            (λ byte rem. for_range 8 0 (λ j. wide_bit 32 0x04C11DB7) (rem ⊕ (byte * 2 ^ 24)))
            (λ byte rem h.
              wide_rounds 24 0x04C11DB7 (omega arith) low32 top32 rem byte h
              ∙ sym (ieee_byte-rounds byte (rem % 2 ^ 32) h (omega arith)))
            buf len (not32 seed) hb))
    ∙ sym (not64-mod _ (wide_loop-lt buf len (not32 seed) hb (omega arith)))
