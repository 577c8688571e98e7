-- ===== src/Igzip/Symbols/Tests.antt =====
-- The symbols of a distance and of a length.
use cerasure.Base.{◌+◌, ◌<◌, ◌≤◌, ◌≡◌, refl, arith}
use cerasure.Igzip.Symbols.{
  get_dist_icf_code, compute_dist_icf_code, bsr_from, convert_dist_to_dist_sym,
  convert_length_to_len_sym,
}
use cerasure.Igzip.Symbols.Distance.{IsRead, get_dist_icf_code-dist_start}
use cerasure.Igzip.Symbols.Length.{first_length, extra_lengths, convert_length_to_len_sym-len_start}

get_dist_icf_code_value : (get_dist_icf_code 20).code ≡ 8
unfolding get_dist_icf_code compute_dist_icf_code bsr_from
get_dist_icf_code_value = refl

get_dist_icf_code-dist_start_example :
    IsRead 20 (get_dist_icf_code 20) × (convert_dist_to_dist_sym 20 ≡ (get_dist_icf_code 20).code)
get_dist_icf_code-dist_start_example = get_dist_icf_code-dist_start 20 (omega arith) (omega arith)

convert_length_to_len_sym-len_start_example :
    let sym = convert_length_to_len_sym 20 in
    (257 ≤ sym)
    × (sym ≤ 285)
    × (first_length sym ≤ 20)
    × (20 < first_length sym + extra_lengths sym)
convert_length_to_len_sym-len_start_example =
    convert_length_to_len_sym-len_start 20 (omega arith) (omega arith)
