-- ===== src/Igzip/Symbols/Length.antt =====
-- The symbol of a match length (igzip/huff_codes.c), against the table of igzip/igzip_inflate.c.
use cerasure.Base.{
  ℕ, ◌+◌, ◌-◌, ◌^◌, ◌<◌, ◌≤◌, ◌≡◌, refl, subst, arith, get_or, all_below, all_below-true, Bool,
  true, ltb, leb, ◌&&◌,
}
use cerasure.Igzip.Symbols.{convert_length_to_len_sym, len_start, len_extra_bit_count}

abbrev pub first_length : ℕ → ℕ
first_length sym = get_or len_start (sym - 257) 0

abbrev pub extra_lengths : ℕ → ℕ
extra_lengths sym = 2 ^ get_or len_extra_bit_count (sym - 257) 0

in_range : ℕ → ℕ → ℕ → ℕ → Bool
in_range sym first extra length =
    leb 257 sym && leb sym 285 && leb first length && ltb length (first + extra)

in_range-true :
    (sym first extra length : ℕ)
    → in_range sym first extra length ≡ true
    → (257 ≤ sym) × (sym ≤ 285) × (first ≤ length) × (length < first + extra)
unfolding in_range
in_range-true sym first extra length h = ground (arith, h)

fits : ℕ → Bool
fits length =
    let sym = convert_length_to_len_sym length in
    in_range sym (first_length sym) (extra_lengths sym) length

fits_all : all_below 256 (λ n. fits (n + 3)) ≡ true
unfolding all_below fits in_range convert_length_to_len_sym
fits_all = refl

-- For every length of 3 to 258 bytes, `convert_length_to_len_sym` gives one of the symbols 257 to 285,
-- and the length is among those that the table of inflate has for that symbol.
pub convert_length_to_len_sym-len_start :
    (length : ℕ)
    → 3 ≤ length
    → length ≤ 258
    → let sym = convert_length_to_len_sym length in
      (257 ≤ sym)
      × (sym ≤ 285)
      × (first_length sym ≤ length)
      × (length < first_length sym + extra_lengths sym)
unfolding fits
convert_length_to_len_sym-len_start length lo hi =
    let e : length - 3 + 3 ≡ length = omega arith in
    let all = all_below-true 256 (λ n. fits (n + 3)) (length - 3) fits_all (omega arith) in
    in_range-true (convert_length_to_len_sym length) _ _ length
      (subst (λ (t : ℕ). fits t ≡ true) e all)
