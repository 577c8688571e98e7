-- ===== src/Igzip/Adler/Ref.antt =====
-- `adler32_base` (igzip/adler32_base.c) against `adler_ref` (igzip/checksum_test_ref.h).
use cerasure.Base.{
  ℕ, zero, suc, ◌+◌, ◌-◌, ◌*◌, ◌/◌, ◌%◌, ◌^◌, ◌<◌, ◌≤◌, ◌≡◌, ap, ap₂, ◌∙◌, arith, bit_or, Block,
  for_range, lt→ltb, ltb_no, dec_lt,
}
use cerasure.Bits.{bit_or-lt}
use cerasure.Igzip.Adler.{
  max_adler_buf, adler_mod, Adler, add_byte, reduce, adler_from, adler32_base, ref_byte, adler_ref,
}
use cerasure.Igzip.Adler.Sums.{Same, buffer-Same}

for_range-add :
    (n m i : ℕ) (body : ℕ → Adler → Adler) (s : Adler)
    → for_range (n + m) i body s ≡ for_range m (i + n) body (for_range n i body s)
unfolding for_range
for_range-add zero m i body s =
    ap₂ (λ (n i : ℕ). for_range n i body s) {x = 0 + m} {y = m} {u = i} {v = i + 0} (omega arith)
      (omega arith)
for_range-add (suc n) m i body s =
    ap (λ (c : ℕ). for_range c i body s) {x = suc n + m} {y = suc (n + m)} (omega arith)
    ∙ for_range-add n m (suc i) body (body i s)
    ∙ ap (λ (c : ℕ). for_range m c body (for_range n (suc i) body (body i s))) {x = suc i + n}
        {y = i + suc n} (omega arith)

reduce-le : (s : Adler) → ((reduce s).a ≤ 65535) × ((reduce s).b ≤ 65535)
unfolding reduce
reduce-le s = (omega arith, omega arith)

module _ (start : Block ℕ) (bytes : (i : ℕ) → start i < 256) where
  reduce-Same : (s t : Adler) → Same s t → Same (reduce s) t
  unfolding reduce
  reduce-Same s t e = record { a_same = omega (arith, e.a_same); b_same = omega (arith, e.b_same) }

  adler_from-Same :
      (fuel next length : ℕ) (s t : Adler)
      → length ≤ fuel
      → s.a ≤ 65535
      → s.b ≤ 65535
      → Same s t
      → Same (adler_from fuel start next length s) (for_range length next (ref_byte start) t)
  unfolding adler_from
  adler_from-Same zero next length s t h ha hb e =
      reduce-Same _ _ (buffer-Same start bytes length next s t (omega arith) ha hb e)
  adler_from-Same (suc fuel) next length s t h ha hb e = elim (dec_lt max_adler_buf length) [
    | yes more ↦
        let rest = length - max_adler_buf in
        let block = reduce (for_range max_adler_buf next (add_byte start) s) in
        let middle = for_range max_adler_buf next (ref_byte start) t in
        let cut =
          ap (λ (n : ℕ). for_range n next (ref_byte start) t) {x = length}
            {y = max_adler_buf + rest} (omega (arith, more))
          ∙ for_range-add max_adler_buf rest next (ref_byte start) t in
        rw (lt→ltb max_adler_buf length more, cut)
          (adler_from-Same fuel (next + max_adler_buf) rest block middle (omega (arith, more))
            (reduce-le _).0 (reduce-le _).1
            (reduce-Same _ _
              (buffer-Same start bytes max_adler_buf next s t (omega arith) ha hb e)))
    | no last ↦
        rw (ltb_no max_adler_buf length last)
          (reduce-Same _ _ (buffer-Same start bytes length next s t (omega (arith, last)) ha hb e))
  ]

  -- The sums are less than adler_mod in the end.
  abbrev Small : Adler → Type 0
  Small s = (s.a < adler_mod) × (s.b < adler_mod)

  Small-adler_from :
      (fuel next length : ℕ) (s : Adler) → Small (adler_from fuel start next length s)
  unfolding adler_from reduce
  Small-adler_from zero next length s = (omega arith, omega arith)
  Small-adler_from (suc fuel) next length s = elim (dec_lt max_adler_buf length) [
    | yes more ↦
        rw (lt→ltb max_adler_buf length more)
          (Small-adler_from fuel (next + max_adler_buf) (length - max_adler_buf) _)
    | no last ↦ rw (ltb_no max_adler_buf length last) (omega arith, omega arith)
  ]

pack :
    (a b : ℕ)
    → a < adler_mod
    → b < adler_mod
    → bit_or (b * 2 ^ 16 % 2 ^ 64) a % 2 ^ 32 ≡ bit_or (b * 2 ^ 16 % 2 ^ 32) a
pack a b ha hb =
    let wide : b * 2 ^ 16 % 2 ^ 64 ≡ b * 2 ^ 16 = omega arith in
    let narrow : b * 2 ^ 16 % 2 ^ 32 ≡ b * 2 ^ 16 = omega arith in
    rw (wide, narrow) (omega (arith, bit_or-lt 32 (b * 2 ^ 16) a (omega arith) (omega arith)))

-- For bytes, and a start of 32 bits both halves of which are less than ADLER_MOD, `adler32_base`
-- returns what `adler_ref` returns, for any length: its sums, reduced once for each buffer of
-- MAX_ADLER_BUF bytes, do not leave 64 bits.
pub adler32_base-adler_ref :
    (adler32 : ℕ) (start : Block ℕ) (length : ℕ)
    → ((i : ℕ) → start i < 256)
    → adler32 % 2 ^ 16 < adler_mod
    → adler32 / 2 ^ 16 < adler_mod
    → adler32_base adler32 start length ≡ adler_ref adler32 start length
unfolding adler32_base adler_ref
adler32_base-adler_ref adler32 start length bytes ha hb =
    let first : Adler = record { a = adler32 % 2 ^ 16; b = adler32 / 2 ^ 16 } in
    let same =
      adler_from-Same start bytes length 0 length first first (omega arith) (omega arith)
        (omega arith) (record { a_same = omega arith; b_same = omega arith }) in
    let s = adler_from length start 0 length first in
    let (small_a, small_b) = Small-adler_from start bytes length 0 length first in
    let a_eq : (for_range length 0 (ref_byte start) first).a ≡ s.a =
      omega (arith, same.a_same, small_a) in
    let b_eq : (for_range length 0 (ref_byte start) first).b ≡ s.b =
      omega (arith, same.b_same, small_b) in
    rw (a_eq, b_eq) (pack s.a s.b small_a small_b)
