-- ===== src/Crc/Right32.antt =====
-- The functions of crc/crc_base.c that shift right, against those of crc/crc_ref.h.
use cerasure.Base.{
  ℕ, ◌/◌, ◌%◌, ◌^◌, ◌<◌, ◌≡◌, refl, sym, ap, ◌∙◌, arith, Block, List, get_or, fun_ext, ℕ_discrete,
  ==_iff, ==_ne, for_range, for_range_rel, eq_below, all_below,
}
use native.Mathlib.Nat.{mod-eq_of_lt}
use cerasure.Bits.{◌⊕◌, xor_comm, xor-lt, zero-xor}
use cerasure.Crc.{not32, refl_byte, crc32_iscsi_base, crc32_gzip_refl_base}
use cerasure.Crc.Tables.{crc32_table_iscsi_refl, crc32_table_gzip_refl}
use cerasure.Crc.Ref.{refl_bit32, refl_bit64, refl_ref, crc32_iscsi_ref, crc32_gzip_refl_ref}
use cerasure.Crc.Rounds.{refl_rounds, refl_bit64-lt, rounds-lt}
use cerasure.Crc.Word64.{Bytes}

-- Both texts of a round that shifts right mean the same.
refl_bit32-refl_bit64 : (poly : ℕ) → refl_bit32 poly ≡ refl_bit64 poly
unfolding refl_bit32 refl_bit64
refl_bit32-refl_bit64 poly = fun_ext λ x. elim (ℕ_discrete (x % 2) 1) [
  | yes e ↦ rw ((==_iff (x % 2) 1).1 e) (xor_comm (x / 2) poly)
  | no ne ↦ rw (==_ne (x % 2) 1 ne) (sym (zero-xor (x / 2)))
]

module _ (table : List ℕ) (poly : ℕ) (small : poly < 2 ^ 32)
    (entries : (r : ℕ) → r < 256 → get_or table r 0 ≡ for_range 8 0 (λ j. refl_bit64 poly) r) where
  refl_byte-rounds :
      (byte crc : ℕ)
      → byte < 256
      → refl_byte table byte crc ≡ for_range 8 0 (λ j. refl_bit32 poly) (crc ⊕ byte)
  unfolding refl_byte
  refl_byte-rounds byte crc hb =
      ap (λ (t : ℕ). crc / 2 ^ 8 ⊕ t) (entries _ (xor-lt 8 (crc % 256) byte (omega arith) hb))
      ∙ sym (refl_rounds poly crc byte hb)
      ∙ ap (λ (f : ℕ → ℕ). for_range 8 0 (λ j. f) (crc ⊕ byte)) (sym (refl_bit32-refl_bit64 poly))

  rounds32-lt : (x : ℕ) → x < 2 ^ 32 → for_range 8 0 (λ j. refl_bit32 poly) x < 2 ^ 32
  rounds32-lt x h =
      rw (refl_bit32-refl_bit64 poly)
        (rounds-lt (refl_bit64 poly) 32 (λ a ha. refl_bit64-lt poly 32 a small ha) 8 x h)

  refl_loops32 :
      (buf : Block ℕ) (len seed : ℕ)
      → Bytes buf len
      → seed < 2 ^ 32
      → (for_range len 0 (λ i. refl_byte table (buf i)) seed ≡ refl_ref poly buf len seed)
        × (for_range len 0 (λ i. refl_byte table (buf i)) seed < 2 ^ 32)
  unfolding refl_ref
  refl_loops32 buf len seed hb hs =
      for_range_rel (λ s t. (s ≡ t) × (s < 2 ^ 32)) (λ i. refl_byte table (buf i))
        (λ i rem. for_range 8 0 (λ j. refl_bit32 poly) (rem ⊕ buf i)) 0 len
        (λ i s t lo hi (e, below).
          let now = refl_byte-rounds (buf i) s (hb i hi) in
          (
            now ∙ ap (λ (r : ℕ). for_range 8 0 (λ j. refl_bit32 poly) (r ⊕ buf i)) e,
            rw now (rounds32-lt _ (xor-lt 32 s (buf i) below (omega (arith, hb i hi)))),
          ))
        len 0 seed seed (omega arith) (omega arith) (refl, hs)

iscsi_entries :
    (r : ℕ)
    → r < 256
    → get_or crc32_table_iscsi_refl r 0 ≡ for_range 8 0 (λ j. refl_bit64 0x82F63B78) r
iscsi_entries =
    eq_below 256 (λ r. get_or crc32_table_iscsi_refl r 0)
      (λ r. for_range 8 0 (λ j. refl_bit64 0x82F63B78) r)
      (unfold all_below for_range refl_bit64 in refl)

gzip_entries :
    (r : ℕ)
    → r < 256
    → get_or crc32_table_gzip_refl r 0 ≡ for_range 8 0 (λ j. refl_bit64 0xEDB88320) r
gzip_entries =
    eq_below 256 (λ r. get_or crc32_table_gzip_refl r 0)
      (λ r. for_range 8 0 (λ j. refl_bit64 0xEDB88320) r)
      (unfold all_below for_range refl_bit64 in refl)

-- On a buffer of bytes and a start of 32 bits, `crc32_iscsi_base` returns what `crc32_iscsi_ref`
-- does.
pub crc32_iscsi_base-crc32_iscsi_ref :
    (buffer : Block ℕ) (len crc_init : ℕ)
    → Bytes buffer len
    → crc_init < 2 ^ 32
    → crc32_iscsi_base buffer len crc_init ≡ crc32_iscsi_ref buffer len crc_init
unfolding crc32_iscsi_base crc32_iscsi_ref
crc32_iscsi_base-crc32_iscsi_ref buffer len crc_init hb hs =
    let (e, below) =
      refl_loops32 crc32_table_iscsi_refl 0x82F63B78 (omega arith) iscsi_entries buffer len crc_init
        hb hs in
    sym (mod-eq_of_lt below) ∙ ap (λ (t : ℕ). t % 2 ^ 32) e

-- On a buffer of bytes, `crc32_gzip_refl_base` returns what `crc32_gzip_refl_ref` does.
pub crc32_gzip_refl_base-crc32_gzip_refl_ref :
    (seed : ℕ) (buf : Block ℕ) (len : ℕ)
    → Bytes buf len
    → crc32_gzip_refl_base seed buf len ≡ crc32_gzip_refl_ref seed buf len
unfolding crc32_gzip_refl_base crc32_gzip_refl_ref
crc32_gzip_refl_base-crc32_gzip_refl_ref seed buf len hb =
    let (e, below) =
      refl_loops32 crc32_table_gzip_refl 0xEDB88320 (omega arith) gzip_entries buf len (not32 seed)
        hb (omega arith) in
    omega (arith, e, below)
