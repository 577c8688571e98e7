-- ===== src/XorMatch/Matching/Run.antt =====
-- What an operation with matching means on values, and what those of
-- bitmatrix_to_schedule_PGC_macthing (xorMatch/xorMatchCode.c) compute.
use cerasure.Base.{
  ℕ, zero, suc, ◌+◌, ◌*◌, ◌/◌, ◌%◌, ◌<◌, ◌≡◌, ◌≢◌, ◌⊎◌, refl, sym, ap, ap₂, ◌∙◌, arith, Block, set,
  ◌==◌, ==_ne, if◌then◌else◌, ◌&&◌, not,
}
use cerasure.Bits.{◌⊕◌, xor-zero, zero-xor}
use cerasure.Field.Sum.{sum, sum_congr, sum-xor}
use cerasure.Encode.Grid.{write_self, write_ne}
use cerasure.XorMatch.Machine.{Row, Values}
use cerasure.XorMatch.Schedule.Product.{select}
use cerasure.XorMatch.Schedule.Rows.{product}
use cerasure.XorMatch.Matching.{is_set, is_one, in_both, in_first, in_second, single_row, pair_row}
use cerasure.XorMatch.Matching.Pair.{pair_row-PairMeaning, single_row-SingleMeaning}

unfoldable pub put : Values → ℕ → ℕ → ℕ → Values
put v b q x = set v b (set (v b) q x)

pub put_self : (v : Values) (b q x : ℕ) → put v b q x b q ≡ x
unfolding put
put_self v b q x = write_self (λ l i old. x) b q v

pub put_other : (v : Values) (b q x b' q' : ℕ) → (b ≢ b') ⊎ (q ≢ q') → put v b q x b' q' ≡ v b' q'
unfolding put
put_other v b q x b' q' = write_ne (λ l i old. x) b q b' q' v

-- The common sum, plus the rest of the first row to its packet and, when there is something in
-- common, plus the rest of the second row to its packet. Data packets are read from d.
unfoldable pub apply_split : Row → Values → Values → Values
apply_split row d v =
    let n = row 0 + row 1 + row 2 in
    let common = sum (row 0) (λ t. d (row (2 * t + 3)) (row (2 * t + 4))) in
    let first = sum (row 1) (λ t. d (row (2 * (row 0 + t) + 3)) (row (2 * (row 0 + t) + 4))) in
    let second =
      sum (row 2)
        (λ t. d (row (2 * (row 0 + row 1 + t) + 3)) (row (2 * (row 0 + row 1 + t) + 4))) in
    let one = put v (row (2 * n + 3)) (row (2 * n + 4)) (common ⊕ first) in
    if row 0 == 0 then one else put one (row (2 * n + 5)) (row (2 * n + 6)) (common ⊕ second)

-- A bit of the first row is in both or in the first only.
first_bit :
    (b b' x : ℕ)
    → b < 2
    → b' < 2
    → (if (b == 1) && (b' == 1) then x else 0) ⊕ (if (b == 1) && not (b' == 1) then x else 0)
      ≡ select b x
unfolding select
first_bit zero b' x h h' = xor-zero 0
first_bit (suc zero) zero x h h' = zero-xor x
first_bit (suc zero) (suc zero) x h h' = xor-zero x
first_bit (suc zero) (suc (suc b')) x h h' = absurd (omega arith)
first_bit (suc (suc b)) b' x h h' = absurd (omega arith)

second_bit :
    (b b' x : ℕ)
    → b < 2
    → b' < 2
    → (if (b == 1) && (b' == 1) then x else 0) ⊕ (if not (b == 1) && (b' == 1) then x else 0)
      ≡ select b' x
unfolding select
second_bit zero zero x h h' = xor-zero 0
second_bit zero (suc zero) x h h' = zero-xor x
second_bit (suc zero) zero x h h' = xor-zero 0
second_bit (suc zero) (suc zero) x h h' = xor-zero x
second_bit zero (suc (suc b')) x h h' = absurd (omega arith)
second_bit (suc zero) (suc (suc b')) x h h' = absurd (omega arith)
second_bit (suc (suc b)) b' x h h' = absurd (omega arith)

single_bit : (b x : ℕ) → (if not (b == 0) then x else 0) ≡ select b x
unfolding select
single_bit b x = ground arith

module _ (d : Values) (row : Row) (v : Values) (a b c : ℕ) (count_common : row 0 ≡ a)
    (count_first : row 1 ≡ b) (count_second : row 2 ≡ c) where
  apply_split-single :
      (x f g : ℕ)
      → a ≡ 0
      → sum b (λ t. d (row (2 * (a + t) + 3)) (row (2 * (a + t) + 4))) ≡ x
      → row (2 * (a + b + c) + 3) ≡ f
      → row (2 * (a + b + c) + 4) ≡ g
      → apply_split row d v ≡ put v f g x
  unfolding apply_split sum
  apply_split-single x f g none total block packet =
      rw (count_common, count_first, count_second, total, block, packet, none)
        (ap (put v f g) (zero-xor x))

  apply_split-pair :
      (x y z f g f' g' : ℕ)
      → a ≢ 0
      → sum a (λ t. d (row (2 * t + 3)) (row (2 * t + 4))) ≡ x
      → sum b (λ t. d (row (2 * (a + t) + 3)) (row (2 * (a + t) + 4))) ≡ y
      → sum c (λ t. d (row (2 * (a + b + t) + 3)) (row (2 * (a + b + t) + 4))) ≡ z
      → row (2 * (a + b + c) + 3) ≡ f
      → row (2 * (a + b + c) + 4) ≡ g
      → row (2 * (a + b + c) + 5) ≡ f'
      → row (2 * (a + b + c) + 6) ≡ g'
      → apply_split row d v ≡ put (put v f g (x ⊕ y)) f' g' (x ⊕ z)
  unfolding apply_split
  apply_split-pair x y z f g f' g' ne both first second block packet block' packet' =
      rw
        (
          count_common,
          count_first,
          count_second,
          ==_ne a 0 ne,
          both,
          first,
          second,
          block,
          packet,
          block',
          packet',
        )
        refl

module _ (k w : ℕ) (bitmatrix : Block ℕ) (fresh : Row) (d : Values) where
  pub single_row-product :
      (i : ℕ) (v : Values)
      → apply_split (single_row k w bitmatrix fresh i) d v
        ≡ put v (i / w) (i % w) (product k w bitmatrix d i)
  unfolding product is_set
  single_row-product i v =
      let m = single_row-SingleMeaning k w bitmatrix fresh i in
      apply_split-single d (single_row k w bitmatrix fresh i) v 0 m.first 0 m.count_common
        m.count_first m.count_second _ _ _ refl
        (m.sum_first d
          ∙ sum_congr (k * w) _ _
              (λ c hc. single_bit (bitmatrix (i * k * w + c)) (d (c / w) (c % w))))
        m.first_block m.first_packet

  pub pair_row-product :
      (i l : ℕ) (v : Values)
      → ((c : ℕ) → c < k * w → bitmatrix (i * k * w + c) < 2)
      → ((c : ℕ) → c < k * w → bitmatrix (l * k * w + c) < 2)
      → (pair_row k w bitmatrix fresh i l) 0 ≢ 0
      → apply_split (pair_row k w bitmatrix fresh i l) d v
        ≡ put
            (put v (i / w) (i % w) (product k w bitmatrix d i))
            (l / w)
            (l % w)
            (product k w bitmatrix d l)
  unfolding product in_both in_first in_second is_one
  pair_row-product i l v bits bits' some =
      let m = pair_row-PairMeaning k w bitmatrix fresh i l in
      apply_split-pair d (pair_row k w bitmatrix fresh i l) v m.common m.first m.second
        m.count_common m.count_first m.count_second _ _ _ _ _ _ _ (λ e. some (m.count_common ∙ e))
        (m.sum_common d) (m.sum_first d) (m.sum_second d) m.first_block m.first_packet
        m.second_block m.second_packet
      ∙ ap₂ (λ (x : ℕ) (y : ℕ). put (put v (i / w) (i % w) x) (l / w) (l % w) y)
          (sym (sum-xor _ _ (k * w))
            ∙ sum_congr (k * w) _ _
                (λ c hc. first_bit _ _ (d (c / w) (c % w)) (bits c hc) (bits' c hc)))
          (sym (sum-xor _ _ (k * w))
            ∙ sum_congr (k * w) _ _
                (λ c hc. second_bit _ _ (d (c / w) (c % w)) (bits c hc) (bits' c hc)))
