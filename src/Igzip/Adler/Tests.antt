-- ===== src/Igzip/Adler/Tests.antt =====
-- The checksum of the nine digits.
use cerasure.Base.{ℕ, ◌≡◌, refl, arith, [], ◌∷◌, Block, of_list, of_list-lt, for_range}
use cerasure.Igzip.Adler.{adler32_base, adler_ref, adler_from, add_byte, reduce}
use cerasure.Igzip.Adler.Ref.{adler32_base-adler_ref}

abbrev digits : Block ℕ
digits = of_list (0x31 ∷ 0x32 ∷ 0x33 ∷ 0x34 ∷ 0x35 ∷ 0x36 ∷ 0x37 ∷ 0x38 ∷ 0x39 ∷ [])

adler32_base_value : adler32_base 1 digits 9 ≡ 0x091E01DE
unfolding adler32_base adler_from reduce add_byte for_range
adler32_base_value = refl

adler32_base-adler_ref_example : adler32_base 1 digits 9 ≡ adler_ref 1 digits 9
adler32_base-adler_ref_example =
    adler32_base-adler_ref 1 digits 9
      (of_list-lt 256 (0x31 ∷ 0x32 ∷ 0x33 ∷ 0x34 ∷ 0x35 ∷ 0x36 ∷ 0x37 ∷ 0x38 ∷ 0x39 ∷ [])
        (omega arith))
      (omega arith) (omega arith)
