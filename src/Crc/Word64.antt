-- ===== src/Crc/Word64.antt =====
-- The functions of crc/crc64_base.c against those of crc/crc64_ref.h.
use cerasure.Base.{
  ℕ, ◌*◌, ◌/◌, ◌%◌, ◌^◌, ◌<◌, ◌≡◌, refl, sym, ap, ◌∙◌, arith, Block, List, get_or, for_range,
  for_range_rel, eq_below, all_below,
}
use cerasure.Bits.{◌⊕◌, xor_comm, xor-lt}
use cerasure.Crc.{
  not64, refl_byte64, norm_byte64, crc64_ecma_refl_base, crc64_ecma_norm_base, crc64_iso_refl_base,
  crc64_iso_norm_base, crc64_jones_refl_base, crc64_jones_norm_base,
}
use cerasure.Crc.Tables.{
  crc64_ecma_refl_table, crc64_ecma_norm_table, crc64_iso_refl_table, crc64_iso_norm_table,
  crc64_jones_refl_table, crc64_jones_norm_table,
}
use cerasure.Crc.Ref.{
  refl_bit64, refl_ref64, norm_bit64, norm_ref64, crc64_ecma_refl_ref, crc64_ecma_norm_ref,
  crc64_iso_refl_ref, crc64_iso_norm_ref, crc64_jones_refl_ref, crc64_jones_norm_ref,
}
use cerasure.Crc.Rounds.{refl_rounds, rounds-lt}
use cerasure.Crc.LeftRounds.{norm_bit, norm_rounds, norm_bit-lt}

-- A buffer of bytes.
abbrev pub Bytes : Block ℕ → ℕ → Type 0
Bytes buf len = (i : ℕ) → i < len → buf i < 256

module _ (table : List ℕ) (poly : ℕ) where
  -- Entry r is what eight rounds make of r.
  abbrev ReflTable : Type 0
  ReflTable = (r : ℕ) → r < 256 → get_or table r 0 ≡ for_range 8 0 (λ j. refl_bit64 poly) r

  refl_byte64-rounds :
      ReflTable
      → (byte crc : ℕ) → byte < 256
      → refl_byte64 table byte crc ≡ for_range 8 0 (λ j. refl_bit64 poly) (crc ⊕ byte)
  unfolding refl_byte64
  refl_byte64-rounds entries byte crc hb =
      ap (λ (t : ℕ). t ⊕ crc / 2 ^ 8) (entries _ (xor-lt 8 (crc % 256) byte (omega arith) hb))
      ∙ xor_comm _ (crc / 2 ^ 8)
      ∙ sym (refl_rounds poly crc byte hb)

  refl_loops :
      ReflTable
      → (buf : Block ℕ) (len seed : ℕ) → Bytes buf len
      → not64 (for_range len 0 (λ i. refl_byte64 table (buf i)) (not64 seed))
        ≡ refl_ref64 poly seed buf len
  unfolding refl_ref64
  refl_loops entries buf len seed hb = ap not64 (
      for_range_rel (λ s t. s ≡ t) (λ i. refl_byte64 table (buf i))
        (λ i rem. for_range 8 0 (λ j. refl_bit64 poly) (rem ⊕ buf i)) 0 len
        (λ i s t lo hi e.
          refl_byte64-rounds entries (buf i) s (hb i hi)
          ∙ ap (λ (r : ℕ). for_range 8 0 (λ j. refl_bit64 poly) (r ⊕ buf i)) e)
        len 0 (not64 seed) (not64 seed) (omega arith) (omega arith) refl)

  -- Entry q is what eight rounds make of q in the top byte.
  abbrev NormTable : Type 0
  NormTable =
      (q : ℕ) → q < 256 → get_or table q 0 ≡ for_range 8 0 (λ j. norm_bit64 poly) (q * 2 ^ 56)

  norm_byte64-rounds :
      NormTable
      → (byte crc : ℕ) → byte < 256
      → crc < 2 ^ 64
      → norm_byte64 table byte crc ≡ for_range 8 0 (λ j. norm_bit64 poly) (crc ⊕ (byte * 2 ^ 56))
  unfolding norm_byte64 norm_bit64 norm_bit
  norm_byte64-rounds entries byte crc hb hc =
      ap (λ (t : ℕ). t ⊕ (crc * 256 % 2 ^ 64)) (entries _ (omega arith))
      ∙ sym (norm_rounds 56 poly crc byte hc hb)

  norm_word-lt :
      poly < 2 ^ 64
      → (byte crc : ℕ) → byte < 256
      → crc < 2 ^ 64
      → for_range 8 0 (λ j. norm_bit64 poly) (crc ⊕ (byte * 2 ^ 56)) < 2 ^ 64
  unfolding norm_bit64 norm_bit
  norm_word-lt hp byte crc hb hc =
      rounds-lt (norm_bit64 poly) 64 (λ a ha. norm_bit-lt 56 poly a hp) 8 _
        (xor-lt 64 crc (byte * 2 ^ 56) hc (omega (arith, hb)))

  norm_loops :
      NormTable
      → poly < 2 ^ 64
      → (buf : Block ℕ) (len seed : ℕ) → Bytes buf len
      → not64 (for_range len 0 (λ i. norm_byte64 table (buf i)) (not64 seed))
        ≡ norm_ref64 poly seed buf len
  unfolding norm_ref64
  norm_loops entries hp buf len seed hb = ap not64 (
      (for_range_rel (λ s t. (s ≡ t) × (s < 2 ^ 64)) (λ i. norm_byte64 table (buf i))
        (λ i rem. for_range 8 0 (λ j. norm_bit64 poly) (rem ⊕ (buf i * 2 ^ 56))) 0 len
        (λ i s t lo hi (e, small).
          let now = norm_byte64-rounds entries (buf i) s (hb i hi) small in
          (
            now ∙ ap (λ (r : ℕ). for_range 8 0 (λ j. norm_bit64 poly) (r ⊕ (buf i * 2 ^ 56))) e,
            rw now (norm_word-lt hp (buf i) s (hb i hi) small),
          ))
        len 0 (not64 seed) (not64 seed) (omega arith) (omega arith) (refl, omega arith)).0)

ecma_refl_entries : ReflTable crc64_ecma_refl_table 0xC96C5795D7870F42
ecma_refl_entries =
    eq_below 256 (λ r. get_or crc64_ecma_refl_table r 0)
      (λ r. for_range 8 0 (λ j. refl_bit64 0xC96C5795D7870F42) r)
      (unfold all_below for_range refl_bit64 in refl)

-- On a buffer of bytes, `crc64_ecma_refl_base` returns what `crc64_ecma_refl_ref` does.
crc64_ecma_refl_base-crc64_ecma_refl_ref :
    (seed : ℕ) (buf : Block ℕ) (len : ℕ)
    → Bytes buf len
    → crc64_ecma_refl_base seed buf len ≡ crc64_ecma_refl_ref seed buf len
unfolding crc64_ecma_refl_base crc64_ecma_refl_ref
crc64_ecma_refl_base-crc64_ecma_refl_ref seed buf len =
    refl_loops crc64_ecma_refl_table 0xC96C5795D7870F42 ecma_refl_entries buf len seed

ecma_norm_entries : NormTable crc64_ecma_norm_table 0x42F0E1EBA9EA3693
ecma_norm_entries =
    eq_below 256 (λ q. get_or crc64_ecma_norm_table q 0)
      (λ q. for_range 8 0 (λ j. norm_bit64 0x42F0E1EBA9EA3693) (q * 2 ^ 56))
      (unfold all_below for_range norm_bit64 in refl)

-- On a buffer of bytes, `crc64_ecma_norm_base` returns what `crc64_ecma_norm_ref` does.
crc64_ecma_norm_base-crc64_ecma_norm_ref :
    (seed : ℕ) (buf : Block ℕ) (len : ℕ)
    → Bytes buf len
    → crc64_ecma_norm_base seed buf len ≡ crc64_ecma_norm_ref seed buf len
unfolding crc64_ecma_norm_base crc64_ecma_norm_ref
crc64_ecma_norm_base-crc64_ecma_norm_ref seed buf len =
    norm_loops crc64_ecma_norm_table 0x42F0E1EBA9EA3693 ecma_norm_entries (omega arith) buf len seed

iso_refl_entries : ReflTable crc64_iso_refl_table 0xD800000000000000
iso_refl_entries =
    eq_below 256 (λ r. get_or crc64_iso_refl_table r 0)
      (λ r. for_range 8 0 (λ j. refl_bit64 0xD800000000000000) r)
      (unfold all_below for_range refl_bit64 in refl)

-- On a buffer of bytes, `crc64_iso_refl_base` returns what `crc64_iso_refl_ref` does.
crc64_iso_refl_base-crc64_iso_refl_ref :
    (seed : ℕ) (buf : Block ℕ) (len : ℕ)
    → Bytes buf len
    → crc64_iso_refl_base seed buf len ≡ crc64_iso_refl_ref seed buf len
unfolding crc64_iso_refl_base crc64_iso_refl_ref
crc64_iso_refl_base-crc64_iso_refl_ref seed buf len =
    refl_loops crc64_iso_refl_table 0xD800000000000000 iso_refl_entries buf len seed

iso_norm_entries : NormTable crc64_iso_norm_table 0x000000000000001B
iso_norm_entries =
    eq_below 256 (λ q. get_or crc64_iso_norm_table q 0)
      (λ q. for_range 8 0 (λ j. norm_bit64 0x000000000000001B) (q * 2 ^ 56))
      (unfold all_below for_range norm_bit64 in refl)

-- On a buffer of bytes, `crc64_iso_norm_base` returns what `crc64_iso_norm_ref` does.
crc64_iso_norm_base-crc64_iso_norm_ref :
    (seed : ℕ) (buf : Block ℕ) (len : ℕ)
    → Bytes buf len
    → crc64_iso_norm_base seed buf len ≡ crc64_iso_norm_ref seed buf len
unfolding crc64_iso_norm_base crc64_iso_norm_ref
crc64_iso_norm_base-crc64_iso_norm_ref seed buf len =
    norm_loops crc64_iso_norm_table 0x000000000000001B iso_norm_entries (omega arith) buf len seed

jones_refl_entries : ReflTable crc64_jones_refl_table 0x95ac9329ac4bc9b5
jones_refl_entries =
    eq_below 256 (λ r. get_or crc64_jones_refl_table r 0)
      (λ r. for_range 8 0 (λ j. refl_bit64 0x95ac9329ac4bc9b5) r)
      (unfold all_below for_range refl_bit64 in refl)

-- On a buffer of bytes, `crc64_jones_refl_base` returns what `crc64_jones_refl_ref` does.
crc64_jones_refl_base-crc64_jones_refl_ref :
    (seed : ℕ) (buf : Block ℕ) (len : ℕ)
    → Bytes buf len
    → crc64_jones_refl_base seed buf len ≡ crc64_jones_refl_ref seed buf len
unfolding crc64_jones_refl_base crc64_jones_refl_ref
crc64_jones_refl_base-crc64_jones_refl_ref seed buf len =
    refl_loops crc64_jones_refl_table 0x95ac9329ac4bc9b5 jones_refl_entries buf len seed

jones_norm_entries : NormTable crc64_jones_norm_table 0xad93d23594c935a9
jones_norm_entries =
    eq_below 256 (λ q. get_or crc64_jones_norm_table q 0)
      (λ q. for_range 8 0 (λ j. norm_bit64 0xad93d23594c935a9) (q * 2 ^ 56))
      (unfold all_below for_range norm_bit64 in refl)

-- On a buffer of bytes, `crc64_jones_norm_base` returns what `crc64_jones_norm_ref` does.
crc64_jones_norm_base-crc64_jones_norm_ref :
    (seed : ℕ) (buf : Block ℕ) (len : ℕ)
    → Bytes buf len
    → crc64_jones_norm_base seed buf len ≡ crc64_jones_norm_ref seed buf len
unfolding crc64_jones_norm_base crc64_jones_norm_ref
crc64_jones_norm_base-crc64_jones_norm_ref seed buf len =
    norm_loops crc64_jones_norm_table 0xad93d23594c935a9 jones_norm_entries (omega arith) buf len
      seed

-- On a buffer of bytes, each of the six functions of crc64_base.c returns what its bitwise
-- reference does.
pub crc64_base-crc64_ref :
    (seed : ℕ) (buf : Block ℕ) (len : ℕ)
    → Bytes buf len
    → (crc64_ecma_refl_base seed buf len ≡ crc64_ecma_refl_ref seed buf len)
      × (crc64_ecma_norm_base seed buf len ≡ crc64_ecma_norm_ref seed buf len)
      × (crc64_iso_refl_base seed buf len ≡ crc64_iso_refl_ref seed buf len)
      × (crc64_iso_norm_base seed buf len ≡ crc64_iso_norm_ref seed buf len)
      × (crc64_jones_refl_base seed buf len ≡ crc64_jones_refl_ref seed buf len)
      × (crc64_jones_norm_base seed buf len ≡ crc64_jones_norm_ref seed buf len)
crc64_base-crc64_ref seed buf len hb = (
  crc64_ecma_refl_base-crc64_ecma_refl_ref seed buf len hb,
  crc64_ecma_norm_base-crc64_ecma_norm_ref seed buf len hb,
  crc64_iso_refl_base-crc64_iso_refl_ref seed buf len hb,
  crc64_iso_norm_base-crc64_iso_norm_ref seed buf len hb,
  crc64_jones_refl_base-crc64_jones_refl_ref seed buf len hb,
  crc64_jones_norm_base-crc64_jones_norm_ref seed buf len hb,
)
