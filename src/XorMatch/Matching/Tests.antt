-- ===== src/XorMatch/Matching/Tests.antt =====
-- Two parity packets that share a data packet.
use cerasure.Base.{
  ℕ, zero, suc, ◌+◌, ◌*◌, ◌<◌, ◌≡◌, ◌≢◌, refl, ap, arith, [], ◌∷◌, Block, of_list, of_list-lt,
  for_range,
}
use cerasure.Field.Sum.{sum}
use cerasure.XorMatch.Machine.{Values}
use cerasure.XorMatch.Schedule.Product.{select}
use cerasure.XorMatch.Schedule.Rows.{product}
use cerasure.XorMatch.Matching.{
  Match, unmatched, scheduled, partner, count_where, in_both, is_one,
  bitmatrix_to_schedule_pgc_macthing,
}
use cerasure.XorMatch.Matching.Pending.{IsMatching}
use cerasure.XorMatch.Matching.Correct.{apply_splits, bitmatrix_to_schedule_pgc_macthing-product}

abbrev blank : Block ℕ
blank p = 0

abbrev bits : Block ℕ
bits = of_list (1 ∷ 1 ∷ 0 ∷ 0 ∷ 1 ∷ 0 ∷ 1 ∷ 0 ∷ [])

abbrev pair : Block Match
pair zero = partner 1
pair (suc zero) = partner 0
pair (suc (suc i)) = unmatched

abbrev packets : Values
packets b q = b * 16 + q + 1

abbrev zeros : Values
zeros b q = 0

-- The row that a row is matched with.
abbrev target : Match → ℕ
target unmatched = 2
target scheduled = 2
target (partner l) = l

pair_not_scheduled : (i : ℕ) → i < 2 → pair i ≢ scheduled
pair_not_scheduled zero h e = cc
pair_not_scheduled (suc zero) h e = cc
pair_not_scheduled (suc (suc i)) h e = absurd (omega arith)

pair_target-lt : (i l : ℕ) → i < 2 → pair i ≡ partner l → l < 2
pair_target-lt zero l h e = omega (arith, ap target e)
pair_target-lt (suc zero) l h e = omega (arith, ap target e)
pair_target-lt (suc (suc i)) l h e = absurd (omega arith)

pair_other : (i l : ℕ) → i < 2 → pair i ≡ partner l → l ≢ i
pair_other zero l h e = omega (arith, ap target e)
pair_other (suc zero) l h e = omega (arith, ap target e)
pair_other (suc (suc i)) l h e = absurd (omega arith)

pair_back : (i l : ℕ) → i < 2 → pair i ≡ partner l → pair l ≡ partner i
pair_back zero l h e = rw (← (ap target e)) refl
pair_back (suc zero) l h e = rw (← (ap target e)) refl
pair_back (suc (suc i)) l h e = absurd (omega arith)

pair_shared :
    (i l : ℕ) → i < 2 → pair i ≡ partner l → count_where (in_both 2 2 bits i l) (2 * 2) ≢ 0
unfolding count_where in_both is_one for_range
pair_shared zero l h e = rw (← (ap target e)) (omega arith)
pair_shared (suc zero) l h e = rw (← (ap target e)) (omega arith)
pair_shared (suc (suc i)) l h e = absurd (omega arith)

pair-IsMatching : IsMatching 2 2 (1 * 2) bits pair
pair-IsMatching = record {
  not_scheduled = pair_not_scheduled;
  partner-lt = pair_target-lt;
  other = pair_other;
  back = pair_back;
  shared = pair_shared;
}

bitmatrix_to_schedule_pgc_macthing-product_example :
    apply_splits (bitmatrix_to_schedule_pgc_macthing 2 1 2 bits pair blank) packets zeros 0 1
    ≡ product 2 2 bits packets (0 * 2 + 1)
bitmatrix_to_schedule_pgc_macthing-product_example =
    bitmatrix_to_schedule_pgc_macthing-product 2 1 2 bits pair blank packets zeros (omega arith)
      (λ i c hi hc. of_list-lt 2 (1 ∷ 1 ∷ 0 ∷ 0 ∷ 1 ∷ 0 ∷ 1 ∷ 0 ∷ []) (omega arith) (i * 2 * 2 + c))
      pair-IsMatching 0 1 (omega arith) (omega arith)

product_value : product 2 2 bits packets 1 ≡ 16
unfolding product sum select
product_value = refl
