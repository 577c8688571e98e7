-- ===== src/XorMatch/Matching/Pair.antt =====
-- What stands in an operation of bitmatrix_to_schedule_PGC_macthing (xorMatch/xorMatchCode.c).
use cerasure.Base.{
  ℕ, ◌+◌, ◌*◌, ◌/◌, ◌%◌, ◌<◌, ◌≡◌, refl, ap, ap₂, ◌∙◌, arith, Block, set_self, set_ne,
  if◌then◌else◌,
}
use cerasure.Field.Sum.{sum, sum_congr}
use cerasure.XorMatch.Machine.{Row, Values}
use cerasure.XorMatch.Schedule.{RowState, push}
use cerasure.XorMatch.Schedule.Product.{
  push_twice_first, push_twice_second, push_twice_other, push_twice_index,
}
use cerasure.XorMatch.Matching.{
  count_where, push_where, is_set, in_both, in_first, in_second, counts, push_id, single_row,
  pair_row,
}
use cerasure.XorMatch.Matching.Listed.{hits, count_where-hits, Listed-push_where}

module _ (k w : ℕ) (bitmatrix : Block ℕ) (fresh : Row) where
  counts-common : (a b c : ℕ) → (counts k w bitmatrix fresh a b c).row 0 ≡ a
  unfolding counts
  counts-common a b c =
      set_ne _ 2 0 c (omega arith) ∙ set_ne _ 1 0 b (omega arith) ∙ set_self fresh 0 a

  counts-first : (a b c : ℕ) → (counts k w bitmatrix fresh a b c).row 1 ≡ b
  unfolding counts
  counts-first a b c = set_ne _ 2 1 c (omega arith) ∙ set_self _ 1 b

  counts-second : (a b c : ℕ) → (counts k w bitmatrix fresh a b c).row 2 ≡ c
  unfolding counts
  counts-second a b c = set_self _ 2 c

  counts-index : (a b c : ℕ) → (counts k w bitmatrix fresh a b c).oper_index ≡ 3
  unfolding counts
  counts-index a b c = refl

  module _ (i l : ℕ) where
    abbrev n : ℕ
    n = k * w

    -- The numbers of packets in both rows, in the first only, in the second only.
    pub record PairMeaning (row : Row) : Type 0 where
      pub common : ℕ
      pub first : ℕ
      pub second : ℕ
      pub count_common : row 0 ≡ common
      pub count_first : row 1 ≡ first
      pub count_second : row 2 ≡ second
      pub common_hits : common ≡ hits (in_both k w bitmatrix i l) w n
      pub sum_common :
          (v : Values)
          → sum common (λ t. v (row (2 * t + 3)) (row (2 * t + 4)))
            ≡ sum n (λ c. if in_both k w bitmatrix i l c then v (c / w) (c % w) else 0)
      pub sum_first :
          (v : Values)
          → sum first (λ t. v (row (2 * (common + t) + 3)) (row (2 * (common + t) + 4)))
            ≡ sum n (λ c. if in_first k w bitmatrix i l c then v (c / w) (c % w) else 0)
      pub sum_second :
          (v : Values)
          → sum second
              (λ t. v (row (2 * (common + first + t) + 3)) (row (2 * (common + first + t) + 4)))
            ≡ sum n (λ c. if in_second k w bitmatrix i l c then v (c / w) (c % w) else 0)
      pub first_block : row (2 * (common + first + second) + 3) ≡ i / w
      pub first_packet : row (2 * (common + first + second) + 4) ≡ i % w
      pub second_block : row (2 * (common + first + second) + 5) ≡ l / w
      pub second_packet : row (2 * (common + first + second) + 6) ≡ l % w

    pub pair_row-PairMeaning : PairMeaning (pair_row k w bitmatrix fresh i l)
    unfolding pair_row push_id
    pair_row-PairMeaning =
        let a = hits (in_both k w bitmatrix i l) w n in
        let b = hits (in_first k w bitmatrix i l) w n in
        let c = hits (in_second k w bitmatrix i l) w n in
        let start : RowState =
          counts k w bitmatrix fresh (count_where (in_both k w bitmatrix i l) n)
            (count_where (in_first k w bitmatrix i l) n)
            (count_where (in_second k w bitmatrix i l) n) in
        let both : RowState = push_where (in_both k w bitmatrix i l) w n start in
        let one : RowState = push_where (in_first k w bitmatrix i l) w n both in
        let all : RowState = push_where (in_second k w bitmatrix i l) w n one in
        let named : RowState = push (i % w) (push (i / w) all) in
        let l1 = Listed-push_where (in_both k w bitmatrix i l) w 3 n start (counts-index _ _ _) in
        let l2 = Listed-push_where (in_first k w bitmatrix i l) w (3 + 2 * a) n both l1.index in
        let l3 =
          Listed-push_where (in_second k w bitmatrix i l) w (3 + 2 * a + 2 * b) n one l2.index in
        let e = 3 + 2 * a + 2 * b + 2 * c in
        let at = push_twice_index all (i / w) (i % w) e l3.index in
        let row : Row = (push (l % w) (push (l / w) named)).row in
        let after_all : (x : ℕ) → x < e → row x ≡ all.row x = λ x hx.
          push_twice_other named (l / w) (l % w) (e + 2) at x (omega arith)
          ∙ push_twice_other all (i / w) (i % w) e l3.index x hx in
        let after_one : (x : ℕ) → x < 3 + 2 * a + 2 * b → row x ≡ one.row x =
          λ x hx. after_all x (omega arith) ∙ l3.before x hx in
        let after_both : (x : ℕ) → x < 3 + 2 * a → row x ≡ both.row x =
          λ x hx. after_one x (omega arith) ∙ l2.before x hx in
        record {
          common = a;
          first = b;
          second = c;
          count_common =
              after_both 0 (omega arith)
              ∙ l1.before 0 (omega arith)
              ∙ counts-common _ _ _
              ∙ count_where-hits (in_both k w bitmatrix i l) w n;
          count_first =
              after_both 1 (omega arith)
              ∙ l1.before 1 (omega arith)
              ∙ counts-first _ _ _
              ∙ count_where-hits (in_first k w bitmatrix i l) w n;
          count_second =
              after_both 2 (omega arith)
              ∙ l1.before 2 (omega arith)
              ∙ counts-second _ _ _
              ∙ count_where-hits (in_second k w bitmatrix i l) w n;
          common_hits = refl;
          sum_common = λ v.
              sum_congr a _ _ (λ t ht.
                ap₂ v (after_both _ (omega arith) ∙ ap both.row (omega arith))
                  (after_both _ (omega arith) ∙ ap both.row (omega arith)))
              ∙ l1.total v;
          sum_first = λ v.
              sum_congr b _ _ (λ t ht.
                ap₂ v (after_one _ (omega arith) ∙ ap one.row (omega arith))
                  (after_one _ (omega arith) ∙ ap one.row (omega arith)))
              ∙ l2.total v;
          sum_second = λ v.
              sum_congr c _ _ (λ t ht.
                ap₂ v (after_all _ (omega arith) ∙ ap all.row (omega arith))
                  (after_all _ (omega arith) ∙ ap all.row (omega arith)))
              ∙ l3.total v;
          first_block =
              ap row (omega arith)
              ∙ push_twice_other named (l / w) (l % w) (e + 2) at e (omega arith)
              ∙ push_twice_first all (i / w) (i % w) e l3.index;
          first_packet =
              ap row (omega arith)
              ∙ push_twice_other named (l / w) (l % w) (e + 2) at (e + 1) (omega arith)
              ∙ push_twice_second all (i / w) (i % w) e l3.index;
          second_block = ap row (omega arith) ∙ push_twice_first named (l / w) (l % w) (e + 2) at;
          second_packet = ap row (omega arith) ∙ push_twice_second named (l / w) (l % w) (e + 2) at;
        }

  -- A row alone: no packet in common, and none in a second row.
  pub record SingleMeaning (i : ℕ) (row : Row) : Type 0 where
    pub first : ℕ
    pub count_common : row 0 ≡ 0
    pub count_first : row 1 ≡ first
    pub count_second : row 2 ≡ 0
    pub sum_first :
        (v : Values)
        → sum first (λ t. v (row (2 * (0 + t) + 3)) (row (2 * (0 + t) + 4)))
          ≡ sum (k * w) (λ c. if is_set k w bitmatrix i c then v (c / w) (c % w) else 0)
    pub first_block : row (2 * (0 + first + 0) + 3) ≡ i / w
    pub first_packet : row (2 * (0 + first + 0) + 4) ≡ i % w

  pub single_row-SingleMeaning : (i : ℕ) → SingleMeaning i (single_row k w bitmatrix fresh i)
  unfolding single_row push_id
  single_row-SingleMeaning i =
      let test = is_set k w bitmatrix i in
      let h = hits test w (k * w) in
      let start : RowState = counts k w bitmatrix fresh 0 (count_where test (k * w)) 0 in
      let all : RowState = push_where test w (k * w) start in
      let listed = Listed-push_where test w 3 (k * w) start (counts-index _ _ _) in
      let row : Row = (push (i % w) (push (i / w) all)).row in
      let before : (x : ℕ) → x < 3 + 2 * h → row x ≡ all.row x =
        push_twice_other all (i / w) (i % w) (3 + 2 * h) listed.index in
      record {
        first = h;
        count_common = before 0 (omega arith) ∙ listed.before 0 (omega arith) ∙ counts-common _ _ _;
        count_first =
            before 1 (omega arith)
            ∙ listed.before 1 (omega arith)
            ∙ counts-first _ _ _
            ∙ count_where-hits test w (k * w);
        count_second = before 2 (omega arith) ∙ listed.before 2 (omega arith) ∙ counts-second _ _ _;
        sum_first = λ v.
            sum_congr h _ _ (λ t ht.
              ap₂ v (before _ (omega arith) ∙ ap all.row (omega arith))
                (before _ (omega arith) ∙ ap all.row (omega arith)))
            ∙ listed.total v;
        first_block =
            ap row (omega arith) ∙ push_twice_first all (i / w) (i % w) (3 + 2 * h) listed.index;
        first_packet =
            ap row (omega arith) ∙ push_twice_second all (i / w) (i % w) (3 + 2 * h) listed.index;
      }
